-- ===== src/Mdk/Main.antt =====
-- MDK/kernel/core/main.c: the node number of the command line, the start, and the main loop.
pub mod NodeId
pub mod Loop
pub mod Safe
use bumbellbee_testing.Base.{
  ℕ, zero, suc, ◌+◌, ◌-◌, ◌*◌, ◌/◌, ◌%◌, ◌^◌, Bool, ◌&&◌, Option, none, some, List, [], ◌∷◌, ltb,
  leb, ◌==◌, if◌then◌else◌,
}
use bumbellbee_testing.Base.Text.{codes, first, rest}
use bumbellbee_testing.Mdk.Cluster.{Cluster, MdkMsg, cluster_ping, cluster_poll}
use bumbellbee_testing.Mdk.Shell
use bumbellbee_testing.Mdk.Shell.{Node, shell_handle_char}

-- `cmdline[i] == 'i' && cmdline[i+1] == 'd' && cmdline[i+2] == '='`, and then a digit.
abbrev pub is_id : List ℕ → Bool
is_id s = first s == b'i' && (first (rest s) == b'd' && first (rest (rest s)) == b'=')

abbrev pub digit_at : List ℕ → ℕ
digit_at s = first (rest (rest (rest s)))

abbrev pub is_digit : ℕ → Bool
is_digit c = leb b'0' c && leb c b'9'

-- The loop over the characters up to the terminator; past the end a text reads as zeros.
pub scan : List ℕ → ℕ
scan [] = 1
scan (c ∷ s) =
    let later = scan s in
    let val = digit_at (c ∷ s) in
    if c == 0 then 1 else if is_id (c ∷ s) && is_digit val then val - b'0' else later

-- The command line is `none` for a null pointer.
pub parse_node_id : Option (List ℕ) → ℕ
parse_node_id none = 1
parse_node_id (some cmdline) = scan cmdline

-- What the boot loader leaves behind, for the two fields that are read besides the command line.
pub record Boot : Type 0 where
  pub magic : ℕ
  pub flags : ℕ
  pub mem_upper : ℕ
  pub cmdline : Option (List ℕ)

-- The number of the node, and its memory in MiB.
unfoldable pub node_of : Boot → ℕ × ℕ
node_of b =
    let named = b.flags / 4 % 2 == 1 in
    if b.magic == 0x2BADB002
    then (if named then parse_node_id b.cmdline else 1, (b.mem_upper / 1024 + 1) % 2 ^ 32)
    else (1, 0)

-- The statics behind the shell's, and the counter of the loop.
pub record Running : Type 0 where
  pub node : Node
  pub counter : ℕ

-- What one round finds: a character on the serial line, and the answer of the network driver.
pub record Input : Type 0 where
  pub char : Option ℕ
  pub ret : ℕ
  pub msg : MdkMsg

abbrev pub on_cluster : (Cluster → Cluster) → Running → Running
on_cluster f r = record r { node = Shell.on_cluster f r.node }

abbrev pub handle : Option ℕ → Node → Option Node
handle none n = some n
handle (some c) n = shell_handle_char c n

-- A frame that is longer than the message of twelve bytes is copied over what stands behind it on the
-- stack.
abbrev pub overruns : ℕ → Bool
overruns ret = ltb 12 ret && ltb ret (2 ^ 31)

-- `counter % 1000000 == 0`; `none` is such an overrun.
abbrev pub poll : Input → Running → Option Running
poll i r =
    if r.counter % 1000000 == 0
    then (if overruns i.ret then none else some (on_cluster (cluster_poll i.ret i.msg) r))
    else some r

-- `counter == 10000000`
abbrev pub tick : Running → Running
tick r =
    let n = r.node in
    if r.counter == 10000000
    then record {
      node =
          Shell.on_cluster (λ c. (cluster_ping c).1)
            (record n { kernel_uptime_ticks = (n.kernel_uptime_ticks + 1) % 2 ^ 32 });
      counter = 0;
    }
    else r

abbrev pub tick_after : Option Running → Option Running
tick_after none = none
tick_after (some r) = some (tick r)

abbrev pub count : Input → ℕ → Option Node → Option Running
count i counter none = none
count i counter (some n) = tick_after (poll i (record { node = n; counter = counter + 1 }))

-- One round of the endless loop; `none` is a fault of the command that a character ended, or the
-- overrun of `cluster_poll`.
pub round : Input → Running → Option Running
round i r = count i r.counter (handle i.char r.node)
