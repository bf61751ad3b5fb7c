-- ===== src/Mdk/Net/Receive.antt =====
-- The received buffers go back to the device, in order and once each.
use bumbellbee_testing.Base.{
  ℕ, zero, suc, ◌+◌, ◌-◌, ◌%◌, ◌^◌, ◌<◌, ◌≤◌, ◌≡◌, ◌≢◌, [], arith, refl, ap, sym, ◌∙◌, ==_ne,
  ==_refl,
}
use bumbellbee_testing.Mdk.Net.{Net, outw, port, write, offer, virtio_net_recv}

-- The entries that the device has filled and the driver has not seen.
abbrev pub pending : Net → ℕ
pending n = (n.rx_taken.idx + (2 ^ 16 - n.last_used_idx)) % 2 ^ 16

-- A device that is set up, with its 16-bit counters in range.
pub record IsValid (n : Net) : Type 0 where
  pub attached : n.at.rx_used ≢ 0
  pub used_fits : n.rx_taken.idx < 2 ^ 16
  pub last_fits : n.last_used_idx < 2 ^ 16

abbrev pub id_at : Net → ℕ → ℕ
id_at n i = (n.rx_taken.ring ((n.last_used_idx + i) % 16)).id

-- The state behind one frame.
abbrev pub received : Net → Net
received n = write (outw (port 16 n) 0) (record n {
  last_used_idx = (n.last_used_idx + 1) % 2 ^ 16;
  rx_available = offer (n.rx_taken.ring (n.last_used_idx % 16)).id n.rx_available;
})

recv-received : (n : Net) → IsValid n → pending n ≢ 0 → (virtio_net_recv n).1 ≡ received n
unfolding virtio_net_recv
recv-received n v some_pending =
    let other : n.rx_taken.idx ≢ n.last_used_idx =
      omega (arith, some_pending, v.used_fits, v.last_fits) in
    rw (==_ne n.at.rx_used 0 v.attached, ==_ne n.rx_taken.idx n.last_used_idx other) refl

recv-idle : (n : Net) → IsValid n → pending n ≡ 0 → virtio_net_recv n ≡ ((0, []), n)
unfolding virtio_net_recv
recv-idle n v idle =
    let same : n.rx_taken.idx ≡ n.last_used_idx = omega (arith, idle, v.used_fits, v.last_fits) in
    rw (==_ne n.at.rx_used 0 v.attached, same, ==_refl n.last_used_idx) refl

received-IsValid : (n : Net) → IsValid n → IsValid (received n)
received-IsValid n v = record {
  attached = v.attached;
  used_fits = v.used_fits;
  last_fits = omega arith;
}

-- As many calls as there are frames.
abbrev pub receives : ℕ → Net → Net
receives zero n = n
receives (suc k) n = receives k (virtio_net_recv n).1

-- A slot of the ring that the next offers do not reach.
receives-kept :
    (k : ℕ) (n : Net) (x : ℕ)
    → IsValid n
    → k ≤ pending n
    → x < 16
    → k ≤ (x + (16 - n.rx_available.idx % 16)) % 16
    → (receives k n).rx_available.ring x ≡ n.rx_available.ring x
receives-kept zero n x v p lt far = refl
receives-kept (suc k) n x v p lt far =
    let m = received n in
    let e = recv-received n v (omega (arith, p)) in
    let later =
      receives-kept k m x (received-IsValid n v) (omega (arith, p, v.used_fits, v.last_fits)) lt
        (omega (arith, far, lt)) in
    let other : x ≢ n.rx_available.idx % 16 = omega (arith, far, lt) in
    ap (λ u. (receives k u).rx_available.ring x) e
    ∙ (later ∙ rw (==_ne x (n.rx_available.idx % 16) other) refl)

-- What the calls for all pending frames come to.
pub record Drained (k : ℕ) (n m : Net) : Type 0 where
  pub valid : IsValid m
  pub left : pending m + k ≡ pending n
  pub offered : m.rx_available.idx ≡ (n.rx_available.idx + k) % 2 ^ 16
  pub ids : (j : ℕ) → j < k → m.rx_available.ring ((n.rx_available.idx + j) % 16) ≡ id_at n j

-- In a valid state with at most 16 frames pending, as many calls of virtio_net_recv as there are
-- frames, or fewer, take one frame each: they offer the buffers to the device again, in the order in
-- which it filled them, and move the ring's index by their number.
pub receives-Drained :
    (k : ℕ) (n : Net)
    → IsValid n
    → n.rx_available.idx < 2 ^ 16
    → k ≤ pending n
    → k ≤ 16
    → Drained k n (receives k n)
receives-Drained zero n v a p few = record {
  valid = v;
  left = omega arith;
  offered = omega (arith, a);
  ids = λ j lt. absurd (omega (arith, lt));
}
receives-Drained (suc k) n v a p few =
    let m = received n in
    let e = recv-received n v (omega (arith, p)) in
    let down : pending m + 1 ≡ pending n = omega (arith, p, v.used_fits, v.last_fits) in
    let later =
      receives-Drained k m (received-IsValid n v) (omega arith) (omega (arith, p, down))
        (omega (arith, few)) in
    let first =
      receives-kept k m (n.rx_available.idx % 16) (received-IsValid n v) (omega (arith, p, down))
        (omega arith) (omega (arith, few)) in
    rw e (record {
      valid = later.valid;
      left = omega (arith, later.left, down);
      offered = omega (arith, later.offered, a);
      ids = ids first later;
    })
  where
    ids :
        (receives k (received n)).rx_available.ring (n.rx_available.idx % 16)
          ≡ (received n).rx_available.ring (n.rx_available.idx % 16)
        → Drained k (received n) (receives k (received n))
        → (j : ℕ) → j < suc k
        → (receives k (received n)).rx_available.ring ((n.rx_available.idx + j) % 16) ≡ id_at n j
    ids first later zero lt =
        let place : (n.rx_available.idx + 0) % 16 ≡ n.rx_available.idx % 16 = omega arith in
        let same : n.last_used_idx ≡ n.last_used_idx + 0 = omega arith in
        rw place (
          first
          ∙ rw (==_refl (n.rx_available.idx % 16)) (ap (λ p. (n.rx_taken.ring (p % 16)).id) same))
    ids first later (suc j) lt =
        let place : (n.rx_available.idx + suc j) % 16
            ≡ ((n.rx_available.idx + 1) % 2 ^ 16 + j) % 16 =
          omega arith in
        let entry : (n.last_used_idx + suc j) % 16 ≡ ((n.last_used_idx + 1) % 2 ^ 16 + j) % 16 =
          omega arith in
        ap (receives k (received n)).rx_available.ring place
        ∙ (later.ids j (omega (arith, lt)) ∙ ap (λ p. (n.rx_taken.ring p).id) (sym entry))

-- In a valid state with at most 16 frames pending, after one call of virtio_net_recv for each frame
-- none is pending, and the next call returns 0 and changes nothing.
receives_all :
    (n : Net)
    → IsValid n
    → n.rx_available.idx < 2 ^ 16
    → pending n ≤ 16
    → let m = receives (pending n) n in (pending m ≡ 0) × (virtio_net_recv m ≡ ((0, []), m))
receives_all n v a few =
    let drained = receives-Drained (pending n) n v a (omega arith) few in
    let none_left : pending (receives (pending n) n) ≡ 0 = omega (arith, drained.left) in
    (none_left, recv-idle (receives (pending n) n) drained.valid none_left)
