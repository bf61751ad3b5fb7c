-- ===== src/Mdk/Shell/Line.antt =====
-- The characters of a node's shell against an abstract line editor.
use bumbellbee_testing.Base.{
  ℕ, ◌≡◌, Bool, true, false, ◌||◌, Option, none, some, List, [], ◌∷◌, ◌++◌, arith, refl, ap, sym,
  ◌∙◌, take, drop, length, ltb, ◌==◌, Bool-cases, inl, inr, if◌then◌else◌,
}
use bumbellbee_testing.Base.Text.{codes, first, Letter, c_string}
use bumbellbee_testing.Base.Buffer.{
  Line, drop_last, bare_line, length-line, cut-Line, append-Line, end-Line,
}
use bumbellbee_testing.Mdk.Console.{Call}
use bumbellbee_testing.Mdk.Cluster.{Cluster, cluster_run_job}
use bumbellbee_testing.Mdk.Ramfs.{ramfs_ls, ramfs_cat}
use bumbellbee_testing.Mdk.Shell.{
  Node, call, call_all, Command, nodes, ls, cat, mkdir, touch, whoami, uptime, top, nodeinfo,
  runjob, help, clear, execute, execute_any, choose, commands, finish_job, run_top, run_help,
  run_mkdir, run_touch, process_command, prompt, terminate, end_line, erase_char, echo, store_char,
  shell_handle_char,
}
use bumbellbee_testing.Mdk.Shell.Prefix.{process_command-c_string}

abbrev pub typed : Node → List ℕ
typed n = take n.command_ptr n.command_buffer

abbrev pub LineValid : Node → Type 0
LineValid n = Line n.command_buffer n.command_ptr

abbrev pub is_enter : ℕ → Bool
is_enter c = c == b'\r' || c == b'\n'

abbrev pub edit : ℕ → List ℕ → List ℕ
edit c line =
    if c == 8 || c == 127
    then drop_last line
    else if ltb (length line) 255
    then line ++ (c ∷ [])
    else line

-- From `n` to `m` the line is edited, and no file and no node changes but for the output.
pub record Edited (c : ℕ) (n m : Node) : Type 0 where
  pub line : typed m ≡ edit c (typed n)
  pub valid : LineValid m
  pub files : m.ramfs ≡ n.ramfs
  pub table : m.cluster ≡ record n.cluster { out = m.cluster.out }

-- For a nonzero byte that is not Enter and a valid line, shell_handle_char does not fail and edits the
-- line as the abstract editor does: backspace and delete drop the last character, any other is
-- appended while there is room. The files and the table of nodes stay as they are.
pub char_edits :
    (c : ℕ) (n : Node)
    → Letter c
    → LineValid n
    → is_enter c ≡ false
    → (m : Node) × (shell_handle_char c n ≡ some m) × Edited c n m
unfolding shell_handle_char
char_edits c n l v other = elim (Bool-cases (c == 8 || c == 127)) [
  | inl back ↦ elim (Bool-cases (ltb 0 n.command_ptr)) [
    | inl filled ↦
        let cut = cut-Line n.command_buffer n.command_ptr v in
        (
          erase_char n,
          rw (other, back, filled) refl,
          record { line = rw back cut.1; valid = cut.0; files = refl; table = refl },
        )
    | inr bare ↦ (
      n,
      rw (other, back, bare) refl,
      record {
        line = rw back (bare_line n.command_ptr n.command_buffer bare);
        valid = v;
        files = refl;
        table = refl;
      },
    )
  ]
  | inr plain ↦ elim (Bool-cases (ltb n.command_ptr 255)) [
    | inl room ↦
        let grown = append-Line n.command_buffer n.command_ptr v c l (ground (arith, room)) in
        (
          store_char c (echo c n),
          rw (other, plain, room) refl,
          record {
            line = rw (plain, length-line n.command_buffer n.command_ptr v, room) grown.1;
            valid = grown.0;
            files = refl;
            table = refl;
          },
        )
    | inr full ↦ (
      echo c n,
      rw (other, plain, full) refl,
      record {
        line = rw (plain, length-line n.command_buffer n.command_ptr v, full) refl;
        valid = v;
        files = refl;
        table = refl;
      },
    )
  ]
]

-- What a command keeps: the buffer of the line.
Keeps : Node → Option Node → Type 0
Keeps n none = Unit
Keeps n (some m) = m.command_buffer ≡ n.command_buffer

call_all-buffer : (os : List Call) (n : Node) → (call_all os n).command_buffer ≡ n.command_buffer
call_all-buffer [] n = refl
call_all-buffer (o ∷ os) n = call_all-buffer os (call o n)

finish-Keeps : (r : Option Cluster) (n : Node) → Keeps n (finish_job r n)
unfolding Keeps
finish-Keeps none n = tt
finish-Keeps (some c) n = refl

execute-Keeps : (c : Command) (s : List ℕ) (n : Node) → Keeps n (execute c s n)
unfolding Keeps execute run_top run_help run_mkdir run_touch
execute-Keeps nodes s n = refl
execute-Keeps ls s n = call_all-buffer (ramfs_ls n.ramfs) n
execute-Keeps cat s n = call_all-buffer (ramfs_cat (c_string (drop 4 s)) n.ramfs) n
execute-Keeps mkdir s n = refl
execute-Keeps touch s n = refl
execute-Keeps whoami s n = refl
execute-Keeps uptime s n = refl
execute-Keeps top s n = refl
execute-Keeps nodeinfo s n = refl
execute-Keeps runjob s n =
    finish-Keeps (cluster_run_job (codes "Distributed Prime Search") n.cluster) n
execute-Keeps help s n = refl
execute-Keeps clear s n = refl

process-Keeps : (s : List ℕ) (n : Node) → Keeps n (process_command s n)
unfolding Keeps process_command
process-Keeps s n = elim (Bool-cases (first s == 0)) [
  | inl blank ↦ rw blank refl
  | inr some_text ↦ rw some_text (any (choose commands s))
]
  where
    any : (o : Option Command) → Keeps n (execute_any o s n)
    any none = refl
    any (some c) = execute-Keeps c s n

-- An empty line is ready, unless the command faulted.
abbrev pub Restarted : Option Node → Type 0
Restarted none = Unit
Restarted (some m) = LineValid m × (typed m ≡ [])

prompt-Restarted :
    (n : Node) (r : Option Node) → Line n.command_buffer 0 → Keeps n r → Restarted (prompt r)
unfolding Keeps
prompt-Restarted n none l k = tt
prompt-Restarted n (some m) l k = (rw k l, refl)

-- On a valid line Enter runs the command of exactly the text typed, with its echo and terminator in
-- place, and then, unless the job command faults, the line is empty and valid again.
pub enter_runs :
    (c : ℕ) (n : Node)
    → LineValid n
    → is_enter c ≡ true
    → (shell_handle_char c n ≡ prompt (process_command (typed n) (terminate n)))
      × Restarted (shell_handle_char c n)
unfolding shell_handle_char end_line
enter_runs c n v enter =
    let ended = end-Line n.command_buffer n.command_ptr v in
    let b = (terminate n).command_buffer in
    let ran =
      sym (process_command-c_string b (terminate n) ended.0.bytes)
      ∙ ap (λ s. process_command s (terminate n)) ended.1 in
    (
      rw enter (ap prompt ran),
      rw enter (prompt-Restarted (terminate n) _ ended.0 (process-Keeps b (terminate n))),
    )
