-- ===== src/Server/Tcp/Connections/Bounded.antt =====
-- What `Listen::poll_next` of sqelf/src/server/tcp.rs may do to its connections.
use mathlib.Core.Path.{subst}
use seq_input_gelf.Common.{
  ℕ, zero, suc, ◌≤◌, ◌<◌, ◌≡◌, refl, sym, ap, Bool, List, [], ◌∷◌, ◌++◌, Option, none, some, arith,
  length, ltb, Bool-cases, Option-cases, inl, inr,
}
use seq_input_gelf.Server.Metrics.{Metrics}
use seq_input_gelf.Server.Tcp.Connections.Counted.{length-before}
use seq_input_gelf.Server.Tcp.Connections.{
  TimeoutStream, valid, failed, elapsed, produced, waiting, poll_next, settle, listen, Timeout,
  Listen, fill, poll_conn, Step, accept, poll, Steps, stay, next, new,
}
use seq_input_gelf.Server.Tcp.Connections.Polled.{
  Pass, take_out, fill_conns, ready_conn, poll_conns, poll_listen, poll_all,
}

module _ {S : Type 0} where
  -- At most `max` connections.
  pub record IsBounded (max : ℕ) (l : Listen S) : Type 0 where
    pub same : l.max ≡ max
    pub bounded : length l.connections ≤ max

-- What was taken out stood between the others.
abbrev IsSplit : {A : Type 0} → List A → Option (A × List A) → Type 0
IsSplit l none = Unit
IsSplit {A} l (some (a, others)) =
    (before : List A) × (after : List A) × (l ≡ before ++ a ∷ after) × (others ≡ before ++ after)

take_out-IsSplit : {A : Type 0} (k : ℕ) (l : List A) → IsSplit l (take_out k l)
unfolding take_out
take_out-IsSplit k [] = tt
take_out-IsSplit zero (b ∷ bs) = ([], bs, refl, refl)
take_out-IsSplit (suc k) (b ∷ bs) = elim (Option-cases (take_out k bs)) [
  | inl e ↦ rw (e, take_out) tt
  | inr ((c, cs), e) ↦
      let (before, after, whole, rest) = subst (IsSplit bs) e (take_out-IsSplit k bs) in
      rw (e, take_out) (b ∷ before, after, ap (◌∷◌ b) whole, ap (◌∷◌ b) rest)
]

module _ {S T : Type 0} where
  append-Steps : (l m n : Listen S) → Steps S T l m → Steps S T m n → Steps S T l n
  append-Steps l m n (stay _) t = t
  append-Steps l m n (next _ k _ s ss) t = next l k n s (append-Steps k m n ss t)

  one-Steps : (l m : Listen S) → Step S T l m → Steps S T l m
  one-Steps l m s = next l m m s (stay m)

  fill_conns-Steps : (incoming : List (ℕ × S)) (l : Listen S) → Steps S T l (fill_conns incoming l)
  unfolding fill_conns
  fill_conns-Steps [] l = stay l
  fill_conns-Steps ((now, stream) ∷ rest) l = elim (Bool-cases (ltb (length l.connections) l.max)) [
    | inl e ↦
        rw (e, fill_conns)
          (next l (fill now stream l) _ (accept now stream l (ground (arith, e)))
            (fill_conns-Steps rest (fill now stream l)))
    | inr e ↦ rw (e, fill_conns) (stay l)
  ]

  -- A ready connection is one of the set, and is polled.
  abbrev IsPolled : Listen S → Option (Listen S × Option T) → Type 0
  IsPolled l none = Unit
  IsPolled l (some (l', item)) = Step S T l l'

  ready_conn-IsPolled :
      (polled : Option (ℕ × (ℕ × Timeout S T))) (l : Listen S) → IsPolled l (ready_conn polled l)
  unfolding ready_conn
  ready_conn-IsPolled none l = tt
  ready_conn-IsPolled (some (place, (now, outcome))) l =
      elim (Option-cases (take_out place l.connections)) [
        | inl e ↦ rw (e, ready_conn) tt
        | inr ((t, others), e) ↦
            let (before, after, whole, rest) =
              subst (IsSplit l.connections) e (take_out-IsSplit place l.connections) in
            rw (e, ready_conn)
              (subst
                (λ (o : List (TimeoutStream S)).
                  Step S T l (poll_conn now outcome t (record l { connections = o })).0)
                (sym rest) (poll now outcome before after t l whole))
      ]

  poll_conns-Steps : (passes : List (Pass S T)) (l : Listen S) → Steps S T l (poll_conns passes l).0
  unfolding poll_conns
  poll_conns-Steps [] l = stay l
  poll_conns-Steps (pass ∷ passes) l =
      let filled = fill_conns pass.incoming l in
      let fills = fill_conns-Steps pass.incoming l in
      let polls = ready_conn-IsPolled pass.polled filled in
      elim (Option-cases (ready_conn pass.polled filled)) [
        | inl e ↦ rw (e, poll_conns) fills
        | inr ((l', none), e) ↦
            let step = subst (IsPolled filled) e polls in
            rw (e, poll_conns)
              (append-Steps l filled _ fills (next filled l' _ step (poll_conns-Steps passes l')))
        | inr ((l', some x), e) ↦
            let step = subst (IsPolled filled) e polls in
            rw (e, poll_conns) (append-Steps l filled l' fills (one-Steps filled l' step))
      ]

  poll_listen-Steps :
      (is_done : Bool) (passes : List (Pass S T)) (l : Listen S)
      → Steps S T l (poll_listen is_done passes l).0
  unfolding poll_listen
  poll_listen-Steps is_done passes l = poll_conns-Steps passes l

  poll_all-Steps :
      (calls : List (Bool × List (Pass S T))) (l : Listen S) → Steps S T l (poll_all calls l)
  unfolding poll_all
  poll_all-Steps [] l = stay l
  poll_all-Steps ((is_done, passes) ∷ calls) l =
      append-Steps l (poll_listen is_done passes l).0 _ (poll_listen-Steps is_done passes l)
        (poll_all-Steps calls (poll_listen is_done passes l).0)

  poll_conn-IsBounded :
      (max now : ℕ) (o : Timeout S T) (t : TimeoutStream S) (l : Listen S)
      → l.max ≡ max
      → length l.connections < max
      → IsBounded max (poll_conn now o t l).0
  unfolding poll_conn poll_next settle
  poll_conn-IsBounded max now elapsed t l e h = record { same = e; bounded = omega (arith, h) }
  poll_conn-IsBounded max now (produced none stream) t l e h = record {
    same = e;
    bounded = omega (arith, h);
  }
  poll_conn-IsBounded max now (produced (some (valid item)) stream) t l e h = record {
    same = e;
    bounded = omega (arith, h);
  }
  poll_conn-IsBounded max now (produced (some (failed x)) stream) t l e h = record {
    same = e;
    bounded = omega (arith, h);
  }
  poll_conn-IsBounded max now waiting t l e h = record { same = e; bounded = omega (arith, h) }

  Steps-IsBounded :
      (max : ℕ) (l l' : Listen S) → Steps S T l l' → IsBounded max l → IsBounded max l'
  unfolding fill new
  Steps-IsBounded max l l' (stay _) h = h
  Steps-IsBounded max l l' (next _ k _ (accept now stream _ room) ss) h =
      Steps-IsBounded max k l' ss (record { same = h.same; bounded = omega (arith, h.same, room) })
  Steps-IsBounded max l l' (next _ k _ (poll now o before after t _ e) ss) h =
      let n = length-before before after t in
      Steps-IsBounded max k l' ss (
        poll_conn-IsBounded max now o t (record l { connections = before ++ after }) h.same
          (omega (arith, ap length e, n, h.bounded)))

  -- However often a new listener is polled, and whatever is ready in each pass, its calls come to
  -- acceptances below the maximum and polls of connections of its set, as the steps of a listener
  -- allow them; and it never has more connections than its maximum.
  pub poll_all-IsBounded :
      (keep_alive max : ℕ) (m : Metrics) (calls : List (Bool × List (Pass S T)))
      → Steps S T (listen keep_alive max m) (poll_all calls (listen keep_alive max m))
        × IsBounded max (poll_all calls (listen keep_alive max m))
  unfolding listen
  poll_all-IsBounded keep_alive max m calls =
      let l = listen {S = S} keep_alive max m in
      let steps = poll_all-Steps calls l in
      (
        steps,
        Steps-IsBounded max l (poll_all calls l) steps
            (record { same = refl; bounded = omega arith }),
      )
