-- ===== src/Mdk/Shell.antt =====
-- MDK/drivers/keyboard/keyboard.c: the line editor and the commands of a node.
pub mod Prefix
pub mod Line
use bumbellbee_testing.Base.{
  ℕ, zero, suc, ◌+◌, ◌-◌, ◌%◌, ◌^◌, Bool, true, false, ◌||◌, Option, none, some, List, [], ◌∷◌,
  ◌++◌, set, get_or, replicate, drop, length, ltb, leb, ◌==◌, if◌then◌else◌,
}
use bumbellbee_testing.Base.Bytes.{test_bit}
use bumbellbee_testing.Base.Keymap.{us_keymap}
use bumbellbee_testing.Base.Text.{codes, first, rest, char_difference, c_string}
use bumbellbee_testing.Mdk.Console.{
  Arg, str, int, Call, vga_serial_printf, vga_serial_println, vga_print, vga_putc, serial_putc,
  serial_print, vga_init,
}
use bumbellbee_testing.Mdk.Cluster
use bumbellbee_testing.Mdk.Cluster.{
  Cluster, cluster_print_nodes, cluster_print_node_details, cluster_run_job,
}
use bumbellbee_testing.Mdk.Ramfs.{Ramfs, ramfs_ls, ramfs_cat, ramfs_mkdir, ramfs_touch}

-- The statics of the shell and what its commands reach. The cluster's log takes all output.
pub record Node : Type 0 where
  pub command_buffer : List ℕ
  pub command_ptr : ℕ
  pub cluster : Cluster
  pub ramfs : Ramfs
  pub kernel_uptime_ticks : ℕ

abbrev pub on_cluster : (Cluster → Cluster) → Node → Node
on_cluster f n = record n { cluster = f n.cluster }

abbrev pub call : Call → Node → Node
call o n = on_cluster (Cluster.call o) n

abbrev pub call_all : List Call → Node → Node
call_all [] n = n
call_all (o ∷ os) n = call_all os (call o n)

-- The loop, on a buffer and a literal.
pub str_ncmp : List ℕ → List ℕ → ℕ → ℕ
str_ncmp s1 s2 zero = 0
str_ncmp s1 s2 (suc n) =
    let go = str_ncmp (rest s1) (rest s2) n in
    if first s1 == first s2
    then (if first s1 == 0 then 0 else go)
    else char_difference (first s1) (first s2)

-- `str_ncmp(cmd, word, n) == 0` with the length of the word, as every call has it.
abbrev pub begins : List ℕ → List ℕ → Bool
begins cmd word = str_ncmp cmd word (length word) == 0

-- `cmd[9] - '0'`, a signed character less 48, as the unsigned argument of the call.
abbrev pub node_argument : List ℕ → ℕ
node_argument cmd =
    let c = get_or cmd 9 0 in
    ((if leb 128 c then c + (2 ^ 32 - 256) else c) + (2 ^ 32 - b'0')) % 2 ^ 32

-- The commands that print only.
unfoldable pub run_top : Node → Node
run_top n =
    call_all
      (vga_serial_println (codes "--- Kernel Runtime Stats ---")
        ∷ vga_serial_printf (codes " Packets: TX %d, RX %d\n")
            (int n.cluster.net_packets_sent ∷ int n.cluster.net_packets_recv ∷ [])
        ∷ vga_serial_printf (codes " Uptime: %d units\n") (int n.kernel_uptime_ticks ∷ [])
        ∷ [])
      n

unfoldable pub run_help : Node → Node
run_help n =
    call_all
      (vga_serial_println (codes "MDK OS Commands:")
        ∷ vga_serial_println (codes " ls, cat <file>, mkdir <dir>, touch <file>")
        ∷ vga_serial_println (codes " nodes, nodeinfo <id>, runjob, top, uptime, clear")
        ∷ [])
      n

-- The two commands that make an entry, with the text behind the word.
unfoldable pub run_mkdir : List ℕ → Node → Node
run_mkdir name n =
    call (vga_serial_printf (codes "Directory '%s' created.\n") (str name ∷ []))
      (record n { ramfs = ramfs_mkdir name n.ramfs })

unfoldable pub run_touch : List ℕ → Node → Node
run_touch name n =
    call (vga_serial_printf (codes "File '%s' created.\n") (str name ∷ []))
      (record n { ramfs = ramfs_touch name (codes "MDK Node Log\n") n.ramfs })

-- `none` is the fault of `cluster_run_job`.
abbrev pub finish_job : Option Cluster → Node → Option Node
finish_job none n = none
finish_job (some c) n = some (record n { cluster = c })

-- The commands, in the order of the tests.
pub data Command : Type 0 where
  nodes ls cat mkdir touch whoami uptime top nodeinfo runjob help clear : Command

abbrev pub word : Command → List ℕ
word nodes = codes "nodes"
word ls = codes "ls"
word cat = codes "cat "
word mkdir = codes "mkdir "
word touch = codes "touch "
word whoami = codes "whoami"
word uptime = codes "uptime"
word top = codes "top"
word nodeinfo = codes "nodeinfo "
word runjob = codes "runjob"
word help = codes "help"
word clear = codes "clear"

abbrev pub commands : List Command
commands =
    nodes ∷ ls ∷ cat ∷ mkdir ∷ touch ∷ whoami ∷ uptime ∷ top ∷ nodeinfo ∷ runjob ∷ help ∷ clear ∷ []

-- The chain of tests: the first word that the line begins with.
pub choose : List Command → List ℕ → Option Command
choose [] cmd = none
choose (c ∷ cs) cmd = let later = choose cs cmd in if begins cmd (word c) then some c else later

-- The body behind each test.
unfoldable pub execute : Command → List ℕ → Node → Option Node
execute nodes cmd n = some (on_cluster cluster_print_nodes n)
execute ls cmd n = some (call_all (ramfs_ls n.ramfs) n)
execute cat cmd n = some (call_all (ramfs_cat (c_string (drop 4 cmd)) n.ramfs) n)
execute mkdir cmd n = some (run_mkdir (c_string (drop 6 cmd)) n)
execute touch cmd n = some (run_touch (c_string (drop 6 cmd)) n)
execute whoami cmd n = some (call (vga_serial_println (codes "MDK Active Node Instance")) n)
execute uptime cmd n =
    some (call (vga_serial_printf (codes "Uptime: %d ticks\n") (int n.kernel_uptime_ticks ∷ [])) n)
execute top cmd n = some (run_top n)
execute nodeinfo cmd n = some (on_cluster (cluster_print_node_details (node_argument cmd)) n)
execute runjob cmd n = finish_job (cluster_run_job (codes "Distributed Prime Search") n.cluster) n
execute help cmd n = some (run_help n)
execute clear cmd n = some (call vga_init n)

abbrev pub execute_any : Option Command → List ℕ → Node → Option Node
execute_any none cmd n = some (
    call (vga_serial_printf (codes "MDK Shell: Unknown command '%s'\n") (str (c_string cmd) ∷ []))
      n)
execute_any (some c) cmd n = execute c cmd n

unfoldable pub process_command : List ℕ → Node → Option Node
process_command cmd n = if first cmd == 0 then some n else execute_any (choose commands cmd) cmd n

-- The prompt behind a command.
abbrev pub prompt : Option Node → Option Node
prompt none = none
prompt (some n) = some (
    call_all (vga_print (codes "> ") ∷ serial_print (codes "> ") ∷ [])
      (record n { command_ptr = 0 }))

abbrev pub echo : ℕ → Node → Node
echo c n = call_all (vga_putc c ∷ serial_putc c ∷ []) n

-- The line break and the terminator.
abbrev pub terminate : Node → Node
terminate n = record (echo b'\n' n) { command_buffer = set n.command_buffer n.command_ptr 0 }

unfoldable pub end_line : Node → Option Node
end_line n = prompt (process_command (terminate n).command_buffer (terminate n))

abbrev pub erase_char : Node → Node
erase_char n =
    call_all (vga_putc 8 ∷ serial_putc 8 ∷ serial_putc b' ' ∷ serial_putc 8 ∷ [])
      (record n { command_ptr = n.command_ptr - 1 })

abbrev pub store_char : ℕ → Node → Node
store_char c n = record n {
  command_buffer = set n.command_buffer n.command_ptr c;
  command_ptr = n.command_ptr + 1;
}

unfoldable pub shell_handle_char : ℕ → Node → Option Node
shell_handle_char c n =
    if c == b'\r' || c == b'\n'
    then end_line n
    else if c == 8 || c == 127
    then some (if ltb 0 n.command_ptr then erase_char n else n)
    else some (if ltb n.command_ptr 255 then store_char c (echo c n) else echo c n)

-- The table of 128 entries ends in zeros.
abbrev pub key_map : List ℕ
key_map = us_keymap ++ replicate 38 0

unfoldable pub keyboard_handler : ℕ → Node → Option Node
keyboard_handler scancode n =
    let c = get_or key_map scancode 0 in
    if test_bit scancode 7
    then some n
    else if ltb scancode 128
    then (if c == 0 then some n else shell_handle_char c n)
    else some n
