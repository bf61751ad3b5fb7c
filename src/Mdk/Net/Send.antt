-- ===== src/Mdk/Net/Send.antt =====
-- The packet that a send puts together.
use bumbellbee_testing.Base.{
  ℕ, zero, suc, ◌+◌, ◌%◌, ◌^◌, ◌<◌, ◌≤◌, ◌≡◌, ◌≢◌, ◌⊎◌, inl, inr, List, [], ◌∷◌, arith, refl, ◌∙◌,
  get_or, length, ◌==◌, ==_ne, ==_refl, Bool-cases, update,
}
use bumbellbee_testing.Mdk.Net.{Net, clear_header, copy_data, virtio_net_send}

copy_data-same :
    (bytes : List ℕ) (i : ℕ) (pkt : ℕ → ℕ) (j : ℕ)
    → (j < i) ⊎ (i + length bytes ≤ j)
    → copy_data bytes i pkt j ≡ pkt j
unfolding copy_data
copy_data-same [] i pkt j out = refl
copy_data-same (b ∷ bytes) i pkt j out =
    copy_data-same bytes (i + 1) (update pkt i b) j (omega (arith, out))
    ∙ rw (==_ne j i (omega (arith, out))) refl

copy_data-byte :
    (bytes : List ℕ) (i : ℕ) (pkt : ℕ → ℕ) (k : ℕ)
    → k < length bytes
    → copy_data bytes i pkt (i + k) ≡ get_or bytes k 0
unfolding copy_data
copy_data-byte [] i pkt k lt = absurd (omega (arith, lt))
copy_data-byte (b ∷ bytes) i pkt zero lt =
    let e : i + 0 ≡ i = omega arith in
    rw e (copy_data-same bytes (i + 1) (update pkt i b) i (inl (omega arith)) ∙ rw (==_refl i) refl)
copy_data-byte (b ∷ bytes) i pkt (suc k) lt =
    let e : i + suc k ≡ (i + 1) + k = omega arith in
    rw e (copy_data-byte bytes (i + 1) (update pkt i b) k (omega (arith, lt)))

clear_header-same :
    (n i : ℕ) (pkt : ℕ → ℕ) (j : ℕ) → (j < i) ⊎ (i + n ≤ j) → clear_header n i pkt j ≡ pkt j
unfolding clear_header
clear_header-same zero i pkt j out = refl
clear_header-same (suc n) i pkt j out =
    clear_header-same n (i + 1) (update pkt i 0) j (omega (arith, out))
    ∙ rw (==_ne j i (omega (arith, out))) refl

clear_header-zero : (n i : ℕ) (pkt : ℕ → ℕ) (j : ℕ) → i ≤ j → j < i + n → clear_header n i pkt j ≡ 0
unfolding clear_header
clear_header-zero zero i pkt j lo hi = absurd (omega (arith, lo, hi))
clear_header-zero (suc n) i pkt j lo hi = elim (Bool-cases (j == i)) [
  | inl same ↦
      let e : j ≡ i = ground (arith, same) in
      rw e (clear_header-same n (i + 1) _ i (inl (omega arith)) ∙ rw (==_refl i) refl)
  | inr other ↦ clear_header-zero n (i + 1) _ j (ground (arith, other, lo)) (omega (arith, hi))
]

-- A packet for the device: the header of ten zeros, the data, and nothing else changed.
pub record Packed (bytes : List ℕ) (n m : Net) : Type 0 where
  pub header : (j : ℕ) → j < 10 → m.pkt j ≡ 0
  pub content : (k : ℕ) → k < length bytes → m.pkt (10 + k) ≡ get_or bytes k 0
  pub beyond : (j : ℕ) → 10 + length bytes ≤ j → m.pkt j ≡ n.pkt j
  pub described : (m.tx_descs 0).len ≡ 10 + length bytes
  pub offered : m.tx_available.idx ≡ (n.tx_available.idx + 1) % 2 ^ 16
  pub slot : m.tx_available.ring (n.tx_available.idx % 16) ≡ 0

-- On an attached device, virtio_net_send makes a packet of ten zeros and the data, whose length it
-- puts in the descriptor, and offers that descriptor, 0, in the next slot of the ring.
pub virtio_net_send-Packed :
    (pkt_address : ℕ) (bytes : List ℕ) (n : Net)
    → n.net_io_base ≢ 0
    → Packed bytes n (virtio_net_send pkt_address bytes (length bytes) n)
unfolding virtio_net_send
virtio_net_send-Packed pkt_address bytes n on = rw (==_ne n.net_io_base 0 on) (record {
  header = λ j lt.
      copy_data-same bytes 10 (clear_header 10 0 n.pkt) j (inl lt)
      ∙ clear_header-zero 10 0 n.pkt j (omega arith) (omega (arith, lt));
  content = λ k lt. copy_data-byte bytes 10 (clear_header 10 0 n.pkt) k lt;
  beyond = λ j lo.
      copy_data-same bytes 10 (clear_header 10 0 n.pkt) j (inr lo)
      ∙ clear_header-same 10 0 n.pkt j (inr (omega (arith, lo)));
  described = refl;
  offered = refl;
  slot = rw (==_refl (n.tx_available.idx % 16)) refl;
})
