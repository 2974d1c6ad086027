-- ===== src/Server/Tcp/Serving/Own.antt =====
-- What the server of sqelf/src/server/tcp.rs gives after a poll, seen from one of its connections.
use mathlib.Core.Path.{subst}
use seq_input_gelf.Common.{
  ℕ, ◌≤◌, ◌≡◌, refl, sym, ap, ◌∙◌, List, [], ◌∷◌, Option, none, some, if◌then◌else◌, arith, length,
  ◌==◌, nat_eq, Bool, true, false, Bool-cases, inl, inr,
}
use seq_input_gelf.Common.Entries.{All}
use seq_input_gelf.Receive.Outcome.{Bytes, Result}
use seq_input_gelf.Receive.Message.{Message}
use seq_input_gelf.Server.Received.{Received}
use seq_input_gelf.Server.Metrics.{Metrics}
use seq_input_gelf.Server.Tcp.Connections.{TimeoutStream, Listen}
use seq_input_gelf.Server.Tcp.Timed.{Socket, serve}
use seq_input_gelf.Server.Tcp.Serving.{Peer, Turn, accept, poll, take_peer, poll_peer, serve_all}
use seq_input_gelf.Server.Tcp.Serving.Outcomes.{IsPeer, expected, with_item, put, IsNext, Outcome}
use seq_input_gelf.Server.Tcp.Serving.Peers.{mine}

-- The items of a connection among those of all.
unfoldable pub own : ℕ → List (ℕ × (ℕ × Received)) → List (ℕ × Received)
own j [] = []
own j ((i, x) ∷ items) = let rest = own j items in if i == j then x ∷ rest else rest

-- Its polls among all turns.
unfoldable pub polls_of : ℕ → List Turn → List (ℕ × Socket)
polls_of j [] = []
polls_of j (accept now ∷ turns) = polls_of j turns
polls_of j (poll now id arrived ∷ turns) =
    let rest = polls_of j turns in if id == j then (now, arrived) ∷ rest else rest

module _ {S : Type 0} (receive : Bytes → S → S × Result (Option Message))
    (elapses : ℕ → ℕ → Bool → Bool) (max : ℕ) (first : Metrics) (s : S) where
  abbrev pub serves : List Turn → ℕ → Listen (Peer S) → List (ℕ × (ℕ × Received))
  serves = serve_all receive elapses max first s

  -- The item of a connection before those that follow.
  abbrev pub emit : ℕ → ℕ → Option Received → List (ℕ × (ℕ × Received)) → List (ℕ × (ℕ × Received))
  emit id now none items = items
  emit id now (some x) items = (id, (now, x)) ∷ items

  pub serve_all-poll :
      (now id : ℕ) (arrived : Socket) (turns : List Turn) (n : ℕ) (l l' : Listen (Peer S))
      (t : TimeoutStream (Peer S)) (others : List (TimeoutStream (Peer S))) (out : Option Received)
      → take_peer id l.connections ≡ some (t, others)
      → poll_peer receive elapses now arrived t (record l { connections = others }) ≡ some (l', out)
      → serves (poll now id arrived ∷ turns) n l ≡ emit id now out (serves turns n l')
  unfolding serve_all
  serve_all-poll now id arrived turns n l l' t others none e h = rw (e, serve_all, h) refl
  serve_all-poll now id arrived turns n l l' t others (some x) e h = rw (e, serve_all, h) refl

  pub serve_all-absent :
      (now id : ℕ) (arrived : Socket) (turns : List Turn) (n : ℕ) (l : Listen (Peer S))
      → take_peer id l.connections ≡ none
      → serves (poll now id arrived ∷ turns) n l ≡ serves turns n l
  unfolding serve_all
  serve_all-absent now id arrived turns n l e = rw (e, serve_all) refl

  own-emit_self :
      (j id now : ℕ) (out : Option Received) (items : List (ℕ × (ℕ × Received)))
      → id == j ≡ true
      → own j (emit id now out items) ≡ with_item receive elapses now out (own j items)
  unfolding own
  own-emit_self j id now none items h = refl
  own-emit_self j id now (some x) items h = ground (arith, h)

  pub own-emit_other :
      (j id now : ℕ) (out : Option Received) (items : List (ℕ × (ℕ × Received)))
      → id == j ≡ false
      → own j (emit id now out items) ≡ own j items
  unfolding own
  own-emit_other j id now none items h = refl
  own-emit_other j id now (some x) items h = ground (arith, h)

  mine-put_self :
      (j id : ℕ) (left : Option (TimeoutStream (Peer S))) (others : List (TimeoutStream (Peer S)))
      → IsNext receive elapses id left
      → id == j ≡ true
      → mine j others ≡ []
      → mine j (put receive elapses left others) ≡ put receive elapses left []
  unfolding mine
  mine-put_self j id none others h this e = e
  mine-put_self j id (some u) others h this e = ground (arith, h.0, this, e)

  mine-put_other :
      (j id : ℕ) (left : Option (TimeoutStream (Peer S))) (others : List (TimeoutStream (Peer S)))
      → IsNext receive elapses id left
      → id == j ≡ false
      → mine j (put receive elapses left others) ≡ mine j others
  unfolding mine
  mine-put_other j id none others h e = refl
  mine-put_other j id (some u) others h e = ground (arith, h.0, e)

  pub All-put :
      (id : ℕ) (left : Option (TimeoutStream (Peer S))) (others : List (TimeoutStream (Peer S)))
      → IsNext receive elapses id left
      → All (IsPeer receive elapses) others
      → All (IsPeer receive elapses) (put receive elapses left others)
  All-put id none others h hs = hs
  All-put id (some u) others h hs = (h.1, hs)

  -- The items of the connections with a number, of which there is one at most.
  abbrev pub seen :
      List (ℕ × Socket) → Metrics → List (TimeoutStream (Peer S)) → List (ℕ × Received)
  seen polls m [] = []
  seen polls m (t ∷ rest) = expected receive elapses polls m (some t)

  seen-put :
      (polls : List (ℕ × Socket)) (m : Metrics) (left : Option (TimeoutStream (Peer S)))
      → seen polls m (put receive elapses left []) ≡ expected receive elapses polls m left
  seen-put polls m none = refl
  seen-put polls m (some t) = refl

  pub seen_nil : (m : Metrics) (cs : List (TimeoutStream (Peer S))) → [] ≡ seen [] m cs
  unfolding serve
  seen_nil m [] = refl
  seen_nil m (t ∷ rest) = refl

  -- A poll of a connection that is not there.
  pub seen_absent :
      (j id now : ℕ) (arrived : Socket) (turns : List Turn) (m : Metrics)
      (cs : List (TimeoutStream (Peer S)))
      → (id ≡ j → cs ≡ [])
      → seen (polls_of j turns) m cs ≡ seen (polls_of j (poll now id arrived ∷ turns)) m cs
  unfolding polls_of
  seen_absent j id now arrived turns m cs h = elim (Bool-cases (id == j)) [
    | inl this ↦ let gone : cs ≡ [] = h (ground (arith, this)) in rw (gone) refl
    | inr other ↦ rw (other) refl
  ]

  -- The set of connections, seen from the one with a number.
  pub record Tracks (j : ℕ) (cs : List (TimeoutStream (Peer S))) : Type 0 where
    pub valid : All (IsPeer receive elapses) cs
    pub single : length (mine j cs) ≤ 1

  pub none_left :
      (t : TimeoutStream (Peer S)) (rest : List (TimeoutStream (Peer S)))
      → length (t ∷ rest) ≤ 1
      → rest ≡ []
  none_left t [] h = refl
  none_left t (u ∷ rest) h = absurd (omega (arith, h))

  pub length-put :
      (left : Option (TimeoutStream (Peer S))) → length (put receive elapses left []) ≤ 1
  length-put none = omega arith
  length-put (some t) = omega arith

  -- A poll of a connection that is taken out, and what follows it.
  module _ (j id now : ℕ) (arrived : Socket) (turns : List Turn) (n : ℕ) (l : Listen (Peer S))
      (t : TimeoutStream (Peer S)) (others : List (TimeoutStream (Peer S))) (m : Metrics)
      (e : take_peer id l.connections ≡ some (t, others)) (same : t.stream.id ≡ id)
      (ps : All (IsPeer receive elapses) others)
      (o : Outcome receive elapses now arrived t (record l { connections = others }) m) where
    next : IsNext receive elapses id o.left
    next = subst (λ (i : ℕ). IsNext receive elapses i o.left) same o.next

    abbrev pub follows : List (ℕ × (ℕ × Received))
    follows = serves turns n o.listener

    pub polled_self :
        id == j ≡ true
        → mine j others ≡ []
        → mine j o.listener.connections ≡ put receive elapses o.left []
    polled_self this gone =
        ap (mine j) o.connections ∙ mine-put_self j id o.left others next this gone

    pub polled_other : id == j ≡ false → mine j o.listener.connections ≡ mine j others
    polled_other other = ap (mine j) o.connections ∙ mine-put_other j id o.left others next other

    pub Tracks-of : length (mine j o.listener.connections) ≤ 1 → Tracks j o.listener.connections
    Tracks-of single = record {
      valid =
          subst (All (IsPeer receive elapses)) (sym o.connections)
            (All-put id o.left others next ps);
      single = single;
    }

    abbrev pub Follows : Type 0
    Follows = own j follows ≡ seen (polls_of j turns) m (mine j o.listener.connections)

    -- A poll of the connection itself.
    pub own_polled :
        id == j ≡ true
        → mine j others ≡ []
        → Follows
        → own j (serves (poll now id arrived ∷ turns) n l)
          ≡ expected receive elapses ((now, arrived) ∷ polls_of j turns) m (some t)
    own_polled this gone rest =
        ap (own j) (serve_all-poll now id arrived turns n l o.listener t others o.out e o.polls)
        ∙ own-emit_self j id now o.out follows this
        ∙ ap (with_item receive elapses now o.out) (
            rest
            ∙ ap (seen (polls_of j turns) m) (polled_self this gone)
            ∙ seen-put (polls_of j turns) m o.left)
        ∙ sym (o.served (polls_of j turns))

    -- A poll of another connection.
    pub own_unpolled :
        id == j ≡ false
        → Follows
        → own j (serves (poll now id arrived ∷ turns) n l)
          ≡ seen (polls_of j turns) m (mine j others)
    own_unpolled other rest =
        ap (own j) (serve_all-poll now id arrived turns n l o.listener t others o.out e o.polls)
        ∙ own-emit_other j id now o.out follows other
        ∙ rest
        ∙ ap (seen (polls_of j turns) m) (polled_other other)

    -- A poll of either, once what follows it is known.
    pub own_poll :
        mine j l.connections ≡ (if id == j then t ∷ mine j others else mine j others)
        → length (mine j l.connections) ≤ 1
        → (Tracks j o.listener.connections → Follows)
        → own j (serves (poll now id arrived ∷ turns) n l)
          ≡ seen (polls_of j (poll now id arrived ∷ turns)) m (mine j l.connections)
    unfolding polls_of
    own_poll found single rest = elim (Bool-cases (id == j)) [
      | inl this ↦
          let whole : mine j l.connections ≡ t ∷ mine j others = found ∙ rw (this) refl in
          let gone =
            none_left t (mine j others)
              (subst (λ (cs : List (TimeoutStream (Peer S))). length cs ≤ 1) whole single) in
          let last =
            subst (λ (cs : List (TimeoutStream (Peer S))). length cs ≤ 1)
              (sym (polled_self this gone)) (length-put o.left) in
          rw (this) (
            own_polled this gone (rest (Tracks-of last))
            ∙ sym (ap (seen ((now, arrived) ∷ polls_of j turns) m) whole))
      | inr other ↦
          let kept : mine j l.connections ≡ mine j others = found ∙ rw (other) refl in
          let last =
            subst (λ (cs : List (TimeoutStream (Peer S))). length cs ≤ 1)
              (kept ∙ sym (polled_other other)) single in
          rw (other)
            (own_unpolled other (rest (Tracks-of last)) ∙ sym (ap (seen (polls_of j turns) m) kept))
    ]
