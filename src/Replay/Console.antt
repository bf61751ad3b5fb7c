-- ===== src/Replay/Console.antt =====
-- REPLAY-OS/kernel/keyboard.c and shell.c: one character in flight, and the line that the shell
-- collects from it.
pub mod Line
use bumbellbee_testing.Base.{
  ℕ, zero, suc, ◌+◌, ◌-◌, Bool, true, false, Option, none, some, List, [], ◌∷◌, set, get_or, length,
  ltb, ◌==◌, if◌then◌else◌,
}
use bumbellbee_testing.Base.Bytes.{test_bit}
use bumbellbee_testing.Base.Keymap.{us_keymap}
use bumbellbee_testing.Base.Text.{codes}
use bumbellbee_testing.Replay.Trace.{
  Call, vga_print, vga_putc, Tracer, event_keyboard, trace_record,
}

-- The functions that a command line calls; `usage` is the text of the command h.
pub data Command : Type 0 where
  start_trace stop_trace save_trace load_trace start_replay io_work cpu_work attack usage : Command

-- `last_char` and the trace that the keyboard handler writes to.
pub record Keyboard : Type 0 where
  pub last_char : ℕ
  pub tracer : Tracer

unfoldable pub keyboard_getc : Keyboard → ℕ × Keyboard
keyboard_getc k = (k.last_char, record k { last_char = 0 })

abbrev pub scancode_table : List ℕ
scancode_table = us_keymap

-- The character of a scan code, where it is a key pressed with one.
abbrev pub key_char : ℕ → Option ℕ
key_char scancode =
    if test_bit scancode 7
    then none
    else if ltb scancode (length scancode_table)
    then (if ltb 0 (get_or scancode_table scancode 0)
        then some (get_or scancode_table scancode 0)
        else none)
    else none

abbrev pub keep_char : Option ℕ → Keyboard → Keyboard
keep_char none k = k
keep_char (some c) k = record k { last_char = c }

-- With the byte that port 0x60 gives.
unfoldable pub keyboard_callback : ℕ → Keyboard → Keyboard
keyboard_callback scancode k =
    keep_char (key_char scancode)
      (record k { tracer = trace_record event_keyboard scancode k.tracer })

-- The statics of the shell; `out` logs the output calls, the last one first.
pub record Shell : Type 0 where
  pub input_buffer : List ℕ
  pub buffer_index : ℕ
  pub out : List Call

abbrev pub call : Call → Shell → Shell
call o s = record s { out = o ∷ s.out }

-- The command of a line that is not empty.
pub command : List ℕ → Option Command
command b =
    if get_or b 0 0 == b't'
    then (if get_or b 6 0 == b's'
        then some start_trace
        else if get_or b 6 0 == b't'
        then some stop_trace
        else if get_or b 6 0 == b'v'
        then some save_trace
        else none)
    else if get_or b 0 0 == b'r'
    then (if get_or b 7 0 == b'd' then some load_trace else some start_replay)
    else if get_or b 0 0 == b'w'
    then (if get_or b 9 0 == b'i' then some io_work else some cpu_work)
    else if get_or b 0 0 == b'a'
    then some attack
    else if get_or b 0 0 == b'h'
    then some usage
    else none

-- Enter: the line is ended, and its command is given to the caller; the prompt that `shell_run`
-- prints behind the command is in the new state.
abbrev pub end_line : Shell → Option Command × Shell
end_line s =
    let b = set s.input_buffer s.buffer_index 0 in
    (
      (if ltb 0 s.buffer_index then command b else none),
      record s {
        input_buffer = b;
        buffer_index = 0;
        out = vga_print (codes "> ") ∷ vga_print (codes "\n") ∷ s.out;
      },
    )

-- One round of the loop of `shell_run`, with the character that `keyboard_getc` returned.
unfoldable pub shell_run : ℕ → Shell → Option Command × Shell
shell_run c s =
    if c == 0
    then (none, s)
    else if c == b'\n'
    then end_line s
    else if c == 8
    then (if ltb 0 s.buffer_index
        then (
          none,
          call (vga_print (8 ∷ b' ' ∷ 8 ∷ [])) (record s { buffer_index = s.buffer_index - 1 }),
        )
        else (none, s))
    else if ltb s.buffer_index 255
    then (
      none,
      call (vga_putc c) (record s {
        input_buffer = set s.input_buffer s.buffer_index c;
        buffer_index = s.buffer_index + 1;
      }),
    )
    else (none, s)
