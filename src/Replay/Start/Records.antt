-- ===== src/Replay/Start/Records.antt =====
-- The kernel from its start on: what stands ready at the shell's loop, and the trace from then on.
use bumbellbee_testing.Base.{
  ℕ, ◌*◌, ◌<◌, ◌≡◌, ◌++◌, All, some, [], arith, refl, ap, ◌∙◌, length, length-replicate, get_or,
  replicate, ltb, inl,
}
use bumbellbee_testing.Replay.Trace.{zero_event, trace_init}
use bumbellbee_testing.Replay.Trace.Log.{IsValid}
use bumbellbee_testing.Replay.Pmm.Bits.{Bytes}
use bumbellbee_testing.Replay.Pmm.Alloc
use bumbellbee_testing.Replay.Pmm.Alloc.{used}
use bumbellbee_testing.Replay.Pmm.Init.{pmm_init-IsValid, used-init}
use bumbellbee_testing.Replay.Idt.{idt_init}
use bumbellbee_testing.Replay.Idt.Gates.{offset, Address, idt_init_lem, set_descriptor-other}
use bumbellbee_testing.Replay.Task.{first_task, scheduler_init}
use bumbellbee_testing.Replay.Task.Ring.{Round}
use bumbellbee_testing.Replay.Dispatch.{syscall_init}
use bumbellbee_testing.Replay.Dispatch.Effects.{tracer}
use bumbellbee_testing.Replay.Dispatch.Idle.{IsIdle}
use bumbellbee_testing.Replay.Serial.{init_serial, serial_print, serial_print_lem}
use bumbellbee_testing.Base.{append_assoc, ◌≤◌, ◌+◌}
use bumbellbee_testing.Base.Text.{c_string}
use bumbellbee_testing.Base.Uart.{Uart, ready, Sent}
use bumbellbee_testing.Replay.Vga.{vga_init}
use bumbellbee_testing.Base.Ports.{outb}
use bumbellbee_testing.Base.{◌/◌, ◌%◌, ◌∷◌}
use bumbellbee_testing.Replay.Start.{
  greet, prepare, write_all, init_all, with_line, enter_shell, booting, initialized, Kernel, Layout,
  timer_init, kernel_main,
}

-- The addresses fit, and memory holds bytes.
pub record LayoutFits (l : Layout) : Type 0 where
  pub isrs_count : length l.isrs ≡ 32
  pub irqs_count : length l.irqs ≡ 16
  pub isrs_fit : All Address l.isrs
  pub irqs_fit : All Address l.irqs
  pub bytes : Bytes l.memory

-- The statics before the start, as far as the start does not set them.
pub record IsZeroed (k : Kernel) : Type 0 where
  pub buffer : (tracer k.machine).trace_buffer ≡ replicate 1000 zero_event
  pub clock : (tracer k.machine).ticks ≡ 0

-- What the start leaves: the stubs in the gates, the frames below 2 MiB in use and no other of the
-- 32768, an empty trace that is not recorded, and the one task in its ring.
pub record Started (l : Layout) (k : Kernel) : Type 0 where
  pub gates : (n : ℕ) → n < 48 → offset (k.idt.idt n) ≡ get_or (l.isrs ++ l.irqs) n 0
  pub frames : Alloc.IsValid k.scheduler.pmm
  pub taken : (j : ℕ) → j < 32768 → used k.scheduler.pmm j ≡ ltb j 512
  pub trace : IsIdle 0 (tracer k.machine)
  pub ring : Round k.scheduler first_task []

-- Two texts, of which a line with that many free statuses takes the one behind the other.
both_texts :
    (u : Uart)
    → length booting + length initialized ≤ ready 5 u.status
    → (v : Uart) × (w : Uart) × (serial_print booting u ≡ some v)
      × (serial_print initialized v ≡ some w)
      × Sent (booting ++ initialized) u w
unfolding c_string
both_texts u enough =
    let (v, (e, s)) = serial_print_lem booting u (omega (arith, enough)) in
    let (w, (f, t)) = serial_print_lem initialized v (omega (arith, s.left, enough)) in
    (
      v,
      w,
      e,
      f,
      record {
        sent = t.sent ∙ ap (λ l. l ++ initialized) s.sent ∙ append_assoc u.sent booting initialized;
        left = omega (arith, s.left, t.left);
      },
    )

-- With such a layout and zeroed statics, if the serial line tells often enough that it is free, kernel_main
-- arrives at the shell's loop, and the machine is started.
pub kernel_main_lem :
    (l : Layout) (k : Kernel)
    → LayoutFits l
    → IsZeroed k
    → length booting + length initialized ≤ ready 5 k.line.status
    → (k' : Kernel) × (kernel_main l k ≡ some k')
      × Started l k'
      × Sent (booting ++ initialized) k.line k'.line
unfolding kernel_main timer_init trace_init scheduler_init syscall_init init_serial
kernel_main_lem l k fits z enough =
    let (v, w, e, f, sent) = both_texts k.line enough in
    let k1 = record k { machine = write_all init_serial k.machine; screen = vga_init k.screen } in
    let first = ap (λ o. init_all l (with_line k1 o)) e in
    let k2 = prepare l (record k1 { line = v }) in
    let rate = outb 0x43 0x36 ∷ outb 0x40 (11931 % 256) ∷ outb 0x40 (11931 / 256 % 256) ∷ [] in
    let k3 = record k2 { machine = write_all rate k2.machine } in
    let second = ap (λ o. enter_shell (with_line k3 o)) f in
    (
      record k3 { line = w; shell = greet k3.shell },
      first ∙ second,
      record {
        gates = λ n lt.
            let t = idt_init l.idt l.isrs l.irqs k.idt in
            ap offset (set_descriptor-other 128 l.isr_stub_128 0x8E n t (omega (arith, lt)))
            ∙ idt_init_lem l.idt l.isrs l.irqs k.idt n fits.isrs_count fits.irqs_count fits.isrs_fit
                fits.irqs_fit lt;
        frames = pmm_init-IsValid l.memory (128 * 1024 * 1024) fits.bytes (omega arith);
        taken = λ j lt. used-init l.memory (128 * 1024 * 1024) j fits.bytes (omega (arith, lt));
        trace = record {
          valid = record {
            room = rw z.buffer (length-replicate 1000 zero_event);
            head_in = omega arith;
            count_in = omega arith;
            filling = inl refl;
          };
          off = refl;
          empty = refl;
          clock = z.clock;
        };
        ring = record {
          current = refl;
          real = omega arith;
          others_real = tt;
          links = refl;
          runs = refl;
          others_run = tt;
        };
      },
      sent,
    )
