-- ===== src/Server/Tcp/Connections/Polled.antt =====
-- `Listen::poll_next` of sqelf/src/server/tcp.rs as a function. What is ready in a pass of `'poll_conns`
-- is an argument: the connections that `accept` would give, and the connection of the set that has
-- something, with its place in the set.
use seq_input_gelf.Common.{
  ℕ, zero, suc, Bool, true, false, List, [], ◌∷◌, Option, none, some, length, ltb, if◌then◌else◌,
}
use seq_input_gelf.Server.Tcp.Connections.{Poll, ready, pending, Timeout, Listen, fill, poll_conn}

-- A pass of `'poll_conns`: the times and the streams of new connections, and the place of the ready
-- connection with the time and what its timeout gives.
pub record Pass (S T : Type 0) : Type 0 where
  pub incoming : List (ℕ × S)
  pub polled : Option (ℕ × (ℕ × Timeout S T))

-- The element at a place, and the others.
unfoldable pub take_out {ℓ} : {A : Type ℓ} → ℕ → List A → Option (A × List A)
take_out k [] = none
take_out zero (a ∷ rest) = some (a, rest)
take_out (suc k) (a ∷ rest) = elim (take_out k rest) [
  | none ↦ none
  | some (b, others) ↦ some (b, a ∷ others)
]

module _ {S : Type 0} where
  -- `'fill_conns`.
  unfoldable pub fill_conns : List (ℕ × S) → Listen S → Listen S
  unfolding fill
  fill_conns [] l = l
  fill_conns ((now, stream) ∷ rest) l = elim (ltb (length l.connections) l.max) [
    | true ↦ fill_conns rest (fill now stream l)
    | false ↦ l
  ]

module _ {S T : Type 0} where
  -- `connections().poll_next(cx)` and the `match` on it; `none` where nothing is ready.
  unfoldable pub ready_conn :
      Option (ℕ × (ℕ × Timeout S T)) → Listen S → Option (Listen S × Option T)
  unfolding take_out poll_conn
  ready_conn none l = none
  ready_conn (some (place, (now, outcome))) l = elim (take_out place l.connections) [
    | none ↦ none
    | some (t, others) ↦ some (poll_conn now outcome t (record l { connections = others }))
  ]

  -- `'poll_conns`, until an item is returned or nothing is ready.
  unfoldable pub poll_conns : List (Pass S T) → Listen S → Listen S × Option T
  unfolding fill_conns ready_conn
  poll_conns [] l = (l, none)
  poll_conns (pass ∷ passes) l =
      let filled = fill_conns pass.incoming l in
      elim (ready_conn pass.polled filled) [
        | none ↦ (filled, none)
        | some (l', none) ↦ poll_conns passes l'
        | some (l', some x) ↦ (l', some x)
      ]

  -- `Listen::poll_next`; `is_done` says that `accept` has ended. It never gives an `Err`.
  unfoldable pub poll_listen : Bool → List (Pass S T) → Listen S → Listen S × Poll (Option T)
  unfolding poll_conns
  poll_listen is_done passes l =
      let (l', item) = poll_conns passes l in
      (l', elim item [ some x ↦ ready (some x) | none ↦ if is_done then ready none else pending ])

  -- Call after call of `poll_next`.
  unfoldable pub poll_all : List (Bool × List (Pass S T)) → Listen S → Listen S
  unfolding poll_listen
  poll_all [] l = l
  poll_all ((is_done, passes) ∷ calls) l = poll_all calls (poll_listen is_done passes l).0
