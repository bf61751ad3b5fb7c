-- ===== src/Research/Shell.antt =====
-- RESEARCH-OS/src/fs/shell.c: the line editor and the commands.
pub mod Words
pub mod Commands
pub mod Line
use bumbellbee_testing.Base.{
  ℕ, zero, suc, ◌+◌, ◌-◌, ◌%◌, ◌^◌, Bool, true, false, not, ◌||◌, List, [], ◌∷◌, set, ltb, ◌==◌,
  if◌then◌else◌,
}
use bumbellbee_testing.Base.Text.{codes, first, rest, char_difference, c_string}
use bumbellbee_testing.Research.Core.{
  PowerMode, performance, balanced, energy_saver, Core, vga_clear, call, print, newline,
  power_set_mode, power_io_write, power_print_stats,
}

pub strcmp : List ℕ → List ℕ → ℕ
strcmp [] t = char_difference 0 (first t)
strcmp (x ∷ s) t =
    if x == 0 || not (x == first t) then char_difference x (first t) else strcmp s (rest t)

-- The loop of the `sim` command.
pub sim_loop : ℕ → Core → Core
sim_loop zero c = c
sim_loop (suc n) c = sim_loop n (power_io_write b'X' c)

pub help : Core → Core
help c =
    let c = print (codes "Commands:\n") c in
    let c = print (codes "  help    - Show this message\n") c in
    let c = print (codes "  perf    - Set Performance Mode (No coalescing)\n") c in
    let c = print (codes "  bal     - Set Balanced Mode\n") c in
    let c = print (codes "  power   - Set Energy Saver Mode (Max coalescing)\n") c in
    let c = print (codes "  stats   - Print energy/wakeups metrics\n") c in
    let c = print (codes "  sim     - Simulate 100 small disk writes\n") c in
    print (codes "  clear   - Clear screen\n") c

pub simulate : Core → Core
simulate c =
    let c = sim_loop 100 (print (codes "Simulating 100 small I/O writes...\n") c) in
    power_print_stats (print (codes "Done. Here are the immediate stats:\n") c)

pub unknown : Core → Core
unknown c = newline (print (c_string c.cmdbuf) (print (codes "Unknown command: ") c))

-- The chain of `strcmp` tests.
pub dispatch : Core → Core
dispatch c =
    if c.cmdlen == 0
    then c
    else if strcmp c.cmdbuf (codes "help") == 0
    then help c
    else if strcmp c.cmdbuf (codes "perf") == 0
    then power_set_mode performance c
    else if strcmp c.cmdbuf (codes "bal") == 0
    then power_set_mode balanced c
    else if strcmp c.cmdbuf (codes "power") == 0
    then power_set_mode energy_saver c
    else if strcmp c.cmdbuf (codes "stats") == 0
    then power_print_stats c
    else if strcmp c.cmdbuf (codes "sim") == 0
    then simulate c
    else if strcmp c.cmdbuf (codes "clear") == 0
    then call vga_clear c
    else unknown c

pub execute_command : Core → Core
execute_command c =
    let c = dispatch (newline (record c { cmdbuf = set c.cmdbuf c.cmdlen 0 })) in
    print (codes "YieldOS> ") (record c { cmdlen = 0 })

pub shell_handle_key : ℕ → Core → Core
shell_handle_key key c =
    if key == b'\n' || key == b'\r'
    then execute_command c
    else if key == 8
    then (if ltb 0 c.cmdlen then record c { cmdlen = c.cmdlen - 1 } else c)
    else if ltb c.cmdlen 255
    then record c { cmdbuf = set c.cmdbuf c.cmdlen key; cmdlen = c.cmdlen + 1 }
    else c
