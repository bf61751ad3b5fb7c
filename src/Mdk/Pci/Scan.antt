-- ===== src/Mdk/Pci/Scan.antt =====
-- What the search finds, and what it can miss.
use bumbellbee_testing.Base.{ℕ, ◌+◌, ◌<◌, ◌≤◌, ◌≡◌, ◌⊎◌, Bool, true, false, Option, none, some}
use bumbellbee_testing.Mdk.Pci.{PciDevice, is_single, is_wanted, describe}

-- The places of the bus.
abbrev pub Place : ℕ → ℕ → ℕ → Type 0
Place bus slot func = (bus < 256) × (slot < 32) × (func < 8)

module _ (port : ℕ → ℕ) (vendor_id device_id : ℕ) where
  abbrev wanted : ℕ → ℕ → ℕ → Bool
  wanted bus slot func = is_wanted port vendor_id device_id bus slot func

  -- A function that the scan looks at: the first one, or any of a device with several.
  abbrev pub Reachable : ℕ → ℕ → ℕ → Type 0
  Reachable bus slot func = (func ≡ 0) ⊎ (is_single port bus slot 0 ≡ false)

  -- A result of the search in the functions that satisfy `P`.
  abbrev pub Result : (ℕ → ℕ → ℕ → Type 0) → Option PciDevice → Type 0
  Result P none =
      (bus slot func : ℕ) → P bus slot func → Reachable bus slot func → wanted bus slot func ≡ false
  Result P (some d) =
      P d.bus d.slot d.func
      × (d ≡ describe port vendor_id device_id d.bus d.slot d.func)
      × (wanted d.bus d.slot d.func ≡ true)

  abbrev Funcs : ℕ → ℕ → ℕ → ℕ → ℕ → ℕ → ℕ → Type 0
  Funcs b s n f bus slot func = (bus ≡ b) × (slot ≡ s) × (f ≤ func) × (func < f + n)

  abbrev Slots : ℕ → ℕ → ℕ → ℕ → ℕ → ℕ → Type 0
  Slots b n s bus slot func = (bus ≡ b) × (s ≤ slot) × (slot < s + n) × (func < 8)

  abbrev Buses : ℕ → ℕ → ℕ → ℕ → ℕ → Type 0
  Buses n b bus slot func = (b ≤ bus) × (bus < b + n) × (slot < 32) × (func < 8)
