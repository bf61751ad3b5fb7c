-- ===== src/Base/Ports.antt =====
-- What a kernel writes to the ports of the machine.
use Prim.Native.Nat.{ℕ}

pub record PortWrite : Type 0 where
  pub port : ℕ
  pub value : ℕ

-- A write of a byte.
abbrev pub outb : ℕ → ℕ → PortWrite
outb p v = record { port = p; value = v }
