-- ===== src/Research/Shell/Commands.antt =====
-- What each command of the shell does to the mode, and what all of them leave alone.
use bumbellbee_testing.Base.Text.{Byte, same_word}
use bumbellbee_testing.Base.Text.{c_string}
use bumbellbee_testing.Base.{
  ℕ, zero, suc, ◌≡◌, Bool, true, false, List, All, arith, ◌==◌, Bool-cases, inl, inr, if◌then◌else◌,
  [], ◌∷◌, refl, ◌∙◌,
}
use bumbellbee_testing.Base.Text.{codes}
use bumbellbee_testing.Research.Core.{
  PowerMode, performance, balanced, energy_saver, Core, Call, call, print, newline, vga_clear,
  power_set_mode, power_io_write, power_print_stats,
}
use bumbellbee_testing.Research.Core.Io.{IoValid, print_stats_frame, io_write_lem}
use bumbellbee_testing.Research.Shell.{sim_loop, help, simulate, unknown, dispatch}
use bumbellbee_testing.Research.Shell.Words.{same_word→≡, strcmp_lem}

-- The mode that a command line leaves behind.
abbrev pub mode_of : List ℕ → PowerMode → PowerMode
mode_of word mode =
    if same_word word (codes "perf")
    then performance
    else if same_word word (codes "bal")
    then balanced
    else if same_word word (codes "power")
    then energy_saver
    else mode

-- From `c` to `d` the mode became `mode'`, the line stayed, and the write buffer is in order.
pub record Ran (c d : Core) (mode' : PowerMode) : Type 0 where
  pub mode : d.current_mode ≡ mode'
  pub buf : d.cmdbuf ≡ c.cmdbuf
  pub len : d.cmdlen ≡ c.cmdlen
  pub io : IoValid d

abbrev Kept : Core → Core → Type 0
Kept c d = Ran c d c.current_mode

Ran-start : (c : Core) → IoValid c → Kept c c
Ran-start c v = record { mode = refl; buf = refl; len = refl; io = v }

Ran-then : (c d e : Core) (m : PowerMode) → Ran c d m → Kept d e → Ran c e m
Ran-then c d e m h k = record {
  mode = k.mode ∙ h.mode;
  buf = k.buf ∙ h.buf;
  len = k.len ∙ h.len;
  io = k.io;
}

Ran-call : (c d : Core) (m : PowerMode) (o : Call) → Ran c d m → Ran c (call o d) m
Ran-call c d m o h = record {
  mode = h.mode;
  buf = h.buf;
  len = h.len;
  io = record { room = h.io.room; few = h.io.few; accounted = h.io.accounted };
}

io_write-Kept : (byte : ℕ) (c : Core) → IoValid c → Kept c (power_io_write byte c)
io_write-Kept byte c v = record {
  mode = unfold power_io_write in ground arith;
  buf = unfold power_io_write in ground arith;
  len = unfold power_io_write in ground arith;
  io = (io_write_lem byte c v).0;
}

sim_loop-Kept : (n : ℕ) (c : Core) → IoValid c → Kept c (sim_loop n c)
unfolding sim_loop
sim_loop-Kept zero c v = Ran-start c v
sim_loop-Kept (suc n) c v =
    let once = io_write-Kept b'X' c v in
    Ran-then c _ _ c.current_mode once (record {
      mode = (sim_loop-Kept n _ once.io).mode;
      buf = (sim_loop-Kept n _ once.io).buf;
      len = (sim_loop-Kept n _ once.io).len;
      io = (sim_loop-Kept n _ once.io).io;
    })

stats-Kept : (c : Core) → IoValid c → Kept c (power_print_stats c)
stats-Kept c v = rw (print_stats_frame c) (record {
  mode = refl;
  buf = refl;
  len = refl;
  io = record { room = v.room; few = v.few; accounted = v.accounted };
})

simulate-Kept : (c : Core) → IoValid c → Kept c (simulate c)
unfolding simulate
simulate-Kept c v =
    let start = Ran-call c c c.current_mode _ (Ran-start c v) in
    let run = Ran-then c _ _ c.current_mode start (sim_loop-Kept 100 _ start.io) in
    let told = Ran-call c _ c.current_mode _ run in
    Ran-then c _ _ c.current_mode told (stats-Kept _ told.io)

help-Kept : (c : Core) → IoValid c → Kept c (help c)
unfolding help
help-Kept c v = say (say (say (say (say (say (say (say (Ran-start c v))))))))
  where
    say : {d : Core} {o : Call} → Kept c d → Kept c (call o d)
    say {d} {o} h = Ran-call c d c.current_mode o h

unknown-Kept : (c : Core) → IoValid c → Kept c (unknown c)
unfolding unknown
unknown-Kept c v = say (say (say (Ran-start c v)))
  where
    say : {d : Core} {o : Call} → Kept c d → Kept c (call o d)
    say {d} {o} h = Ran-call c d c.current_mode o h

set_mode-Ran : (m : PowerMode) (c : Core) → IoValid c → Ran c (power_set_mode m c) m
unfolding power_set_mode
set_mode-Ran m c v = say (
    say (
      say (record {
        mode = refl;
        buf = refl;
        len = refl;
        io = record { room = v.room; few = v.few; accounted = v.accounted };
      })))
  where
    say : {d : Core} {o : Call} → Ran c d m → Ran c (call o d) m
    say {d} {o} h = Ran-call c d m o h

-- A word that equals one literal does not equal another.
mode_of-help : (w : List ℕ) (m : PowerMode) → same_word w (codes "help") ≡ true → mode_of w m ≡ m
mode_of-help w m h = rw (same_word→≡ w (codes "help") h)

choose :
    (c d e : Core) (m n : PowerMode) (b : Bool)
    → Ran c d m
    → Ran c e n
    → Ran c (if b then d else e) (if b then m else n)
choose c d e m n true h k = h
choose c d e m n false h k = k

either :
    (c d e : Core) (m : PowerMode) (b : Bool) → Ran c d m → Ran c e m → Ran c (if b then d else e) m
either c d e m true h k = h
either c d e m false h k = k

-- `help` comes first in the chain, and its word leaves the mode alone.
choose_help :
    (c d e : Core) (w : List ℕ) (m : PowerMode)
    → Ran c d m
    → Ran c e (mode_of w m)
    → Ran c (if same_word w (codes "help") then d else e) (mode_of w m)
choose_help c d e w m h k = elim (Bool-cases (same_word w (codes "help"))) [
  | inl hit ↦ rw (hit, mode_of-help w m hit) h
  | inr miss ↦ rw miss k
]

-- The chain of tests runs the command that the word names, and so leaves the mode that the word
-- stands for.
module _ (c : Core) (v : IoValid c) (bytes : All Byte c.cmdbuf) where
  abbrev pub word : List ℕ
  word = c_string c.cmdbuf

  pub dispatch-Ran :
      Ran c (dispatch c) (if c.cmdlen == 0 then c.current_mode else mode_of word c.current_mode)
  unfolding dispatch
  dispatch-Ran =
      rw
        (
          strcmp_lem c.cmdbuf (codes "help") bytes (omega arith),
          strcmp_lem c.cmdbuf (codes "perf") bytes (omega arith),
          strcmp_lem c.cmdbuf (codes "bal") bytes (omega arith),
          strcmp_lem c.cmdbuf (codes "power") bytes (omega arith),
          strcmp_lem c.cmdbuf (codes "stats") bytes (omega arith),
          strcmp_lem c.cmdbuf (codes "sim") bytes (omega arith),
          strcmp_lem c.cmdbuf (codes "clear") bytes (omega arith),
        )
        (choose c _ _ _ _ (c.cmdlen == 0) (Ran-start c v) (
          choose_help c _ _ word c.current_mode (help-Kept c v) (
            choose c _ _ _ _ (same_word word (codes "perf")) (set_mode-Ran performance c v) (
              choose c _ _ _ _ (same_word word (codes "bal")) (set_mode-Ran balanced c v) (
                choose c _ _ _ _ (same_word word (codes "power")) (set_mode-Ran energy_saver c v) (
                  either c _ _ _ (same_word word (codes "stats")) (stats-Kept c v) (
                    either c _ _ _ (same_word word (codes "sim")) (simulate-Kept c v) (
                      either c _ _ _ (same_word word (codes "clear"))
                        (Ran-call c c c.current_mode vga_clear (Ran-start c v))
                        (unknown-Kept c v)))))))))

-- What each word calls, and what an unknown word shows.
abbrev pub actions : List (List ℕ × (Core → Core))
actions =
    (codes "help", help)
    ∷ (codes "perf", power_set_mode performance)
    ∷ (codes "bal", power_set_mode balanced)
    ∷ (codes "power", power_set_mode energy_saver)
    ∷ (codes "stats", power_print_stats)
    ∷ (codes "sim", simulate)
    ∷ (codes "clear", call vga_clear)
    ∷ []

abbrev pub act : List (List ℕ × (Core → Core)) → List ℕ → Core → Core
act [] word c = newline (print word (print (codes "Unknown command: ") c))
act ((name, action) ∷ later) word c = if same_word word name then action c else act later word c

-- The word of a line; an empty line calls nothing.
abbrev pub run_word : List ℕ → Core → Core
run_word [] c = c
run_word (x ∷ word) c = act actions (x ∷ word) c

pub dispatch_lem :
    (c : Core)
    → All Byte c.cmdbuf
    → dispatch c ≡ (if c.cmdlen == 0 then c else act actions (c_string c.cmdbuf) c)
unfolding dispatch unknown
dispatch_lem c bytes =
    rw
      (
        strcmp_lem c.cmdbuf (codes "help") bytes (omega arith),
        strcmp_lem c.cmdbuf (codes "perf") bytes (omega arith),
        strcmp_lem c.cmdbuf (codes "bal") bytes (omega arith),
        strcmp_lem c.cmdbuf (codes "power") bytes (omega arith),
        strcmp_lem c.cmdbuf (codes "stats") bytes (omega arith),
        strcmp_lem c.cmdbuf (codes "sim") bytes (omega arith),
        strcmp_lem c.cmdbuf (codes "clear") bytes (omega arith),
      )
      refl
