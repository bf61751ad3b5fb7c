-- ===== src/Mdk/Mesh/Knows.antt =====
-- What a node has heard stays in its table.
use mathlib.Core.Path.{subst}
use bumbellbee_testing.Base.{
  ℕ, ◌<◌, ◌≡◌, inl, inr, Bool, true, false, length, get_or, arith, refl, ap, ◌∙◌, ◌||◌, ◌==◌,
  ==_refl, ltb, Bool-cases, is_some, update,
}
use bumbellbee_testing.Mdk.Cluster.{
  Cluster, MdkMsg, mdk_magic, max_nodes, known, cluster_ping, cluster_poll,
}
use bumbellbee_testing.Mdk.Cluster.Join.{IsValid, set_status_lem, known-poll}
use bumbellbee_testing.Mdk.Mesh.Reach.{
  Mesh, no_msg, Step, ping, hear, ignore, mark, Reach, Inv, message_at, Step-Inv, no_phantom_nodes,
}

or_true : (b : Bool) → (b || true) ≡ true
or_true true = refl
or_true false = refl

-- Whom a node knows.
abbrev pub Knows : Cluster → ℕ → Type 0
Knows c id = is_some (known c id) ≡ true

module _ (ids rams : ℕ → ℕ) where
  stays_known :
      (nodes : ℕ → Cluster) (i : ℕ) (c : Cluster) (j id : ℕ)
      → (Knows (nodes i) id → Knows c id)
      → Knows (nodes j) id
      → Knows (update nodes i c j) id
  stays_known nodes i c j id h k = elim (Bool-cases (j == i)) [
    | inl this ↦
        let e : j ≡ i = ground (arith, this) in rw this (h (subst (λ n. Knows (nodes n) id) e k))
    | inr other ↦ rw other k
  ]

  poll-Knows :
      (ret id : ℕ) (msg : MdkMsg) (c : Cluster)
      → IsValid c
      → Knows c id
      → Knows (cluster_poll ret msg c) id
  poll-Knows ret id msg c v k = known-poll ret id msg c v ∙ rw k refl

  Step-Knows :
      {s t : Mesh} (j id : ℕ)
      → Step ids rams s t
      → Inv ids rams s
      → Knows (s.nodes j) id
      → Knows (t.nodes j) id
  unfolding cluster_ping
  Step-Knows {s} j id (ping i) v k = stays_known s.nodes i _ j id (λ h. h) k
  Step-Knows {s} j id (hear i n lt) v k =
      stays_known s.nodes i _ j id
        (poll-Knows 12 id (get_or s.sent n no_msg) (s.nodes i) (v.each i).valid) k
  Step-Knows {s} j id (ignore i ret msg other) v k =
      stays_known s.nodes i _ j id (poll-Knows ret id msg (s.nodes i) (v.each i).valid) k
  Step-Knows {s} j id (mark i m status) v k =
      stays_known s.nodes i _ j id
        (λ h. ap is_some (set_status_lem m status id (s.nodes i) (v.each i).valid).1 ∙ h) k

  -- What follows a state.
  pub data Later (s : Mesh) : Mesh → Type 0 where
    stay : Later s s
    go : {t u : Mesh} → Later s t → Step ids rams t u → Later s u

  Later-Knows :
      {s t : Mesh} (j id : ℕ)
      → Later s t
      → Inv ids rams s
      → Knows (s.nodes j) id
      → Inv ids rams t × Knows (t.nodes j) id
  Later-Knows j id stay v k = (v, k)
  Later-Knows j id (go l st) v k =
      let (w, m) = Later-Knows j id l v k in (Step-Inv ids rams st w, Step-Knows j id st w m)

  -- In every state that nodes reach, once a node with room in its table has polled a message that
  -- was sent, it knows the node of that message in every later state.
  pub heard_forever :
      {s t : Mesh} (i k : ℕ)
      → Reach ids rams s
      → k < length s.sent
      → (s.nodes i).num_nodes < max_nodes
      → Later
          (record s {
            nodes = update s.nodes i (cluster_poll 12 (get_or s.sent k no_msg) (s.nodes i));
          })
          t
      → Knows (t.nodes i) (get_or s.sent k no_msg).id
  heard_forever {s} i k r lt room later =
      let v = no_phantom_nodes ids rams r in
      let msg = get_or s.sent k no_msg in
      let magic : (msg.magic == mdk_magic) ≡ true = rw (message_at ids rams s v k lt).0 refl in
      let free : ltb (s.nodes i).num_nodes max_nodes ≡ true = ground (arith, room) in
      let heard : Knows (cluster_poll 12 msg (s.nodes i)) msg.id =
        known-poll 12 msg.id msg (s.nodes i) (v.each i).valid
        ∙ rw (magic, ==_refl msg.id, free) (or_true (is_some (known (s.nodes i) msg.id))) in
      (Later-Knows i msg.id later (Step-Inv ids rams (hear i k lt) v) (rw (==_refl i) heard)).1
