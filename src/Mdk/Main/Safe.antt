-- ===== src/Mdk/Main/Safe.antt =====
-- The rounds of the main loop while every frame fits its message: a division by the number of nodes
-- that are online, the one fault of the shell, needs this node marked offline, and nothing marks it.
use bumbellbee_testing.Base.{
  ℕ, ◌+◌, ◌-◌, ◌%◌, ◌^◌, ◌≤◌, ◌≡◌, inl, inr, arith, refl, ap, ◌∙◌, true, false, All, ◌||◌, Option,
  none, some, List, [], ◌∷◌, drop, length, length-set, ltb, ◌==◌, Bool-cases,
}
use bumbellbee_testing.Base.Text.{codes, first, c_string}
use bumbellbee_testing.Mdk.Console.{Call, vga_putc, serial_putc}
use bumbellbee_testing.Mdk.Cluster.{Cluster, cluster_ping, cluster_poll}
use bumbellbee_testing.Mdk.Cluster.Frames.{
  Up, Up-same, print_nodes-Up, print_node_details-Up, run_job-Up, poll-Up,
}
use bumbellbee_testing.Mdk.Ramfs.{ramfs_ls, ramfs_cat}
use bumbellbee_testing.Mdk.Shell.{
  Node, call, call_all, node_argument, Command, nodes, ls, cat, mkdir, touch, whoami, uptime, top,
  nodeinfo, runjob, help, clear, execute, execute_any, choose, commands, finish_job, run_top,
  run_help, run_mkdir, run_touch, process_command, prompt, terminate, end_line, erase_char,
  store_char, echo, shell_handle_char,
}
use bumbellbee_testing.Mdk.Main.{
  Running, Input, handle, poll, tick, tick_after, overruns, on_cluster, count, round,
}
use bumbellbee_testing.Mdk.Main.Loop.{next_round, rounds}

-- This node is online in a valid table, and the line fits its buffer.
pub record Safe (n : Node) : Type 0 where
  pub up : Up n.cluster
  pub room : length n.command_buffer ≡ 256
  pub short : n.command_ptr ≤ 255

-- A frame that is not longer than a message.
abbrev pub Fits : Input → Type 0
Fits i = overruns i.ret ≡ false

-- A result, and what holds of it.
abbrev pub Completes : Option Node → Type 0
Completes r = (m : Node) × (r ≡ some m) × Safe m

call-Safe : (o : Call) (n : Node) → Safe n → Safe (call o n)
call-Safe o n s = record {
  up = Up-same n.cluster _ n.cluster.net_packets_sent n.cluster.net_packets_recv s.up;
  room = s.room;
  short = s.short;
}

call_all-Safe : (os : List Call) (n : Node) → Safe n → Safe (call_all os n)
call_all-Safe [] n s = s
call_all-Safe (o ∷ os) n s = call_all-Safe os (call o n) (call-Safe o n s)

-- A node with another cluster, or other files.
on-Safe : (c : Cluster) (n : Node) → Up c → Safe n → Safe (record n { cluster = c })
on-Safe c n u s = record { up = u; room = s.room; short = s.short }

execute-Completes : (c : Command) (cmd : List ℕ) (n : Node) → Safe n → Completes (execute c cmd n)
unfolding execute run_top run_help run_mkdir run_touch
execute-Completes nodes cmd n s = (_, refl, on-Safe _ n (print_nodes-Up n.cluster s.up) s)
execute-Completes ls cmd n s = (_, refl, call_all-Safe (ramfs_ls n.ramfs) n s)
execute-Completes cat cmd n s =
    (_, refl, call_all-Safe (ramfs_cat (c_string (drop 4 cmd)) n.ramfs) n s)
execute-Completes mkdir cmd n s =
    (_, refl, call-Safe _ _ (record { up = s.up; room = s.room; short = s.short }))
execute-Completes touch cmd n s =
    (_, refl, call-Safe _ _ (record { up = s.up; room = s.room; short = s.short }))
execute-Completes whoami cmd n s = (_, refl, call-Safe _ n s)
execute-Completes uptime cmd n s = (_, refl, call-Safe _ n s)
execute-Completes top cmd n s = (_, refl, call-Safe _ _ (call-Safe _ _ (call-Safe _ n s)))
execute-Completes nodeinfo cmd n s =
    (_, refl, on-Safe _ n (print_node_details-Up (node_argument cmd) n.cluster s.up) s)
execute-Completes runjob cmd n s =
    let (d, e, u) = run_job-Up (codes "Distributed Prime Search") n.cluster s.up in
    (record n { cluster = d }, ap (λ r. finish_job r n) e, on-Safe d n u s)
execute-Completes help cmd n s = (_, refl, call-Safe _ _ (call-Safe _ _ (call-Safe _ n s)))
execute-Completes clear cmd n s = (_, refl, call-Safe _ n s)

any-Completes :
    (o : Option Command) (cmd : List ℕ) (n : Node) → Safe n → Completes (execute_any o cmd n)
any-Completes none cmd n s = (_, refl, call-Safe _ n s)
any-Completes (some c) cmd n s = execute-Completes c cmd n s

process-Completes : (cmd : List ℕ) (n : Node) → Safe n → Completes (process_command cmd n)
unfolding process_command
process-Completes cmd n s = elim (Bool-cases (first cmd == 0)) [
  | inl blank ↦ rw blank (n, refl, s)
  | inr some_text ↦ rw some_text (any-Completes (choose commands cmd) cmd n s)
]

end_line-Completes : (n : Node) → Safe n → Completes (end_line n)
unfolding end_line
end_line-Completes n s =
    let t : Safe (terminate n) = record {
      up = (call-Safe _ _ (call-Safe _ n s)).up;
      room = length-set n.command_buffer n.command_ptr 0 ∙ s.room;
      short = s.short;
    } in
    let (m, e, u) = process-Completes (terminate n).command_buffer (terminate n) t in
    (
      _,
      ap prompt e,
      call-Safe _ _ (
          call-Safe _ (record m { command_ptr = 0 })
            (record { up = u.up; room = u.room; short = omega arith })),
    )

module _ (c : ℕ) (n : Node) (s : Safe n) where
  erase-Safe : Safe (erase_char n)
  erase-Safe =
      let cut : Safe (record n { command_ptr = n.command_ptr - 1 }) = record {
        up = s.up;
        room = s.room;
        short = omega (arith, s.short);
      } in
      call-Safe _ _ (call-Safe _ _ (call-Safe _ _ (call-Safe _ _ cut)))

  store-Safe : ltb n.command_ptr 255 ≡ true → Safe (store_char c (echo c n))
  store-Safe fits =
      let e = call_all-Safe (vga_putc c ∷ serial_putc c ∷ []) n s in
      record {
        up = e.up;
        room = length-set n.command_buffer n.command_ptr c ∙ s.room;
        short = ground (arith, fits);
      }

  -- Whatever byte arrives, the shell completes.
  char-Completes : Completes (shell_handle_char c n)
  unfolding shell_handle_char
  char-Completes = elim (Bool-cases (c == b'\r' || c == b'\n')) [
    | inl enter ↦ rw enter (end_line-Completes n s)
    | inr other ↦ elim (Bool-cases (c == 8 || c == 127)) [
      | inl back ↦ elim (Bool-cases (ltb 0 n.command_ptr)) [
        | inl filled ↦ rw (other, back, filled) (erase_char n, refl, erase-Safe)
        | inr bare ↦ rw (other, back, bare) (n, refl, s)
      ]
      | inr plain ↦ elim (Bool-cases (ltb n.command_ptr 255)) [
        | inl fits ↦ rw (other, plain, fits) (store_char c (echo c n), refl, store-Safe fits)
        | inr full ↦ rw (other, plain, full) (echo c n, refl, call-Safe _ _ (call-Safe _ n s))
      ]
    ]
  ]

handle-Completes : (char : Option ℕ) (n : Node) → Safe n → Completes (handle char n)
handle-Completes none n s = (n, refl, s)
handle-Completes (some c) n s = char-Completes c n s

poll-Safe :
    (i : Input) (r : Running)
    → Fits i
    → Safe r.node
    → (u : Running) × (poll i r ≡ some u) × Safe u.node
poll-Safe i r fits s = elim (Bool-cases (r.counter % 1000000 == 0)) [
  | inl due ↦ (
    on_cluster (cluster_poll i.ret i.msg) r,
    rw (due, fits) refl,
    on-Safe _ r.node (poll-Up i.ret i.msg r.node.cluster s.up) s,
  )
  | inr idle ↦ (r, rw idle refl, s)
]

tick-Safe : (r : Running) → Safe r.node → Safe (tick r).node
unfolding cluster_ping
tick-Safe r s = elim (Bool-cases (r.counter == 10000000)) [
  | inl due ↦
      let c = r.node.cluster in
      rw due (record {
        up = Up-same c c.out ((c.net_packets_sent + 1) % 2 ^ 32) c.net_packets_recv s.up;
        room = s.room;
        short = s.short;
      })
  | inr idle ↦ rw idle s
]

round-Safe :
    (i : Input) (r : Running)
    → Fits i
    → Safe r.node
    → (r' : Running) × (round i r ≡ some r') × Safe r'.node
unfolding round
round-Safe i r fits s =
    let (m, e, t) = handle-Completes i.char r.node s in
    let (u, polled, safe) = poll-Safe i (record { node = m; counter = r.counter + 1 }) fits t in
    (tick u, ap (count i r.counter) e ∙ ap tick_after polled, tick-Safe u safe)

-- From a state in which this node is online in a valid table and the line fits its buffer, any number
-- of rounds of the main loop completes, whatever bytes arrive on the serial line, as long as no frame is
-- longer than a message, and leaves such a state. The bytes behind the table of files, and the waits for
-- the serial line, are not part of the state.
never_faults :
    (is : List Input) (r : Running)
    → All Fits is
    → Safe r.node
    → (r' : Running) × (rounds is r ≡ some r') × Safe r'.node
never_faults [] r fits s = (r, refl, s)
never_faults (i ∷ is) r fits s =
    let (u, e, t) = round-Safe i r fits.0 s in
    let (r', more, last) = never_faults is u fits.1 t in (r', ap (next_round is) e ∙ more, last)
