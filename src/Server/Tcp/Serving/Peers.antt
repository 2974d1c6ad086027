-- ===== src/Server/Tcp/Serving/Peers.antt =====
-- The connection with a number among those of a listener of sqelf/src/server/tcp.rs.
use mathlib.Core.Path.{subst}
use seq_input_gelf.Common.{
  ℕ, suc, ◌≡◌, refl, ap, List, [], ◌∷◌, Option, none, some, if◌then◌else◌, arith, length, ◌==◌,
  nat_eq, Bool-cases, Option-cases, inl, inr,
}
use seq_input_gelf.Common.Entries.{All}
use seq_input_gelf.Server.Tcp.Connections.{TimeoutStream}
use seq_input_gelf.Server.Tcp.Serving.{Peer, take_peer}

module _ {S : Type 0} where
  -- The connections with a number.
  unfoldable pub mine : ℕ → List (TimeoutStream (Peer S)) → List (TimeoutStream (Peer S))
  mine j [] = []
  mine j (t ∷ l) = let rest = mine j l in if t.stream.id == j then t ∷ rest else rest

  -- What is known of the connection that is taken out, and of the others.
  abbrev pub IsTaken :
      (j id : ℕ)
      → (P : TimeoutStream (Peer S) → Type 0) → List (TimeoutStream (Peer S))
      → Option (TimeoutStream (Peer S) × List (TimeoutStream (Peer S)))
      → Type 0
  IsTaken j id P l none = (id ≡ j → mine j l ≡ [])
  IsTaken j id P l (some (t, others)) =
      (t.stream.id ≡ id)
      × (mine j l ≡ (if id == j then t ∷ mine j others else mine j others))
      × (length l ≡ suc (length others))
      × P t
      × All P others

  pub take_peer-IsTaken :
      (j id : ℕ) (P : TimeoutStream (Peer S) → Type 0) (l : List (TimeoutStream (Peer S)))
      → All P l
      → IsTaken j id P l (take_peer id l)
  unfolding take_peer mine
  take_peer-IsTaken j id P [] h = λ e. refl
  take_peer-IsTaken j id P (t ∷ l) h = elim (Bool-cases (t.stream.id == id)) [
    | inl e ↦ rw (e, take_peer) (ground (arith, e), ground (arith, e), refl, h.0, h.1)
    | inr ne ↦ elim (Option-cases (take_peer id l)) [
      | inl e ↦
          let rest = subst (IsTaken j id P l) e (take_peer-IsTaken j id P l h.1) in
          rw (ne, take_peer, e) (λ same. ground (arith, ne, same, rest same))
      | inr ((u, others), e) ↦
          let (same, found, len, p, ps) =
            subst (IsTaken j id P l) e (take_peer-IsTaken j id P l h.1) in
          rw (ne, take_peer, e) (same, ground (arith, found, ne), ap suc len, p, (h.0, ps))
    ]
  ]
