-- ===== src/Server/Tcp/Serving/Alone.antt =====
-- A connection of the server of sqelf/src/server/tcp.rs is served as if it were alone.
use mathlib.Core.Path.{subst}
use seq_input_gelf.Common.{
  ℕ, suc, ◌+◌, ◌≤◌, ◌<◌, ◌≡◌, refl, sym, ap, ◌∙◌, List, [], ◌∷◌, Option, none, some, if◌then◌else◌,
  arith, length, ltb, ◌==◌, nat_eq, Bool, true, Bool-cases, Option-cases, inl, inr,
}
use seq_input_gelf.Common.Entries.{All}
use seq_input_gelf.Receive.Outcome.{Bytes, Result}
use seq_input_gelf.Receive.Message.{Message}
use seq_input_gelf.Server.Metrics.{Metrics}
use seq_input_gelf.Server.Tcp.Decode.{new as new_decoder}
use seq_input_gelf.Server.Tcp.Decode.Framing.{restart-Inv}
use seq_input_gelf.Server.Tcp.Decode.Stream.{opened}
use seq_input_gelf.Server.Tcp.Connections.{TimeoutStream, Listen, listen, fill, new, count_accept}
use seq_input_gelf.Server.Tcp.Timed.{Socket, session}
use seq_input_gelf.Server.Tcp.Serving.{Peer, Turn, accept, poll, take_peer, peer, serve_all}
use seq_input_gelf.Server.Tcp.Serving.Outcomes.{Outcome, IsPeer, put, IsNext, poll_peer-Outcome}
use seq_input_gelf.Server.Tcp.Serving.Own.{
  serve_all-poll, own-emit_other, own, polls_of, seen, serve_all-absent,
}
use seq_input_gelf.Server.Tcp.Serving.Kept.{own-serves}
use seq_input_gelf.Server.Tcp.Serving.Peers.{mine, IsTaken, take_peer-IsTaken}

module _ {S : Type 0} (receive : Bytes → S → S × Result (Option Message))
    (elapses : ℕ → ℕ → Bool → Bool) (max : ℕ) (first : Metrics) (s : S) where
  -- When a connection is accepted, if the listener has room, and its polls from then on.
  unfoldable pub arrival : ℕ → ℕ → List Turn → Option (ℕ × List (ℕ × Socket))
  unfolding polls_of
  arrival j n [] = none
  arrival j n (accept now ∷ turns) =
      let later = arrival j (suc n) turns in if n == j then some (now, polls_of j turns) else later
  arrival j n (poll now id arrived ∷ turns) = arrival j n turns

  unfoldable pub accepts : List Turn → ℕ
  accepts [] = 0
  accepts (accept now ∷ turns) = suc (accepts turns)
  accepts (poll now id arrived ∷ turns) = accepts turns

  abbrev IsBelow : ℕ → TimeoutStream (Peer S) → Type 0
  IsBelow n t = (t.stream.id < n) × IsPeer receive elapses t

  -- A listener before a connection is accepted, with room for all that will be.
  record IsReady (keep_alive n : ℕ) (turns : List Turn) (l : Listen (Peer S)) : Type 0 where
    valid : All (IsBelow n) l.connections
    room : length l.connections + accepts turns ≤ l.max
    same : l.keep_alive ≡ keep_alive

  mine-IsBelow :
      (n j : ℕ) (cs : List (TimeoutStream (Peer S))) → All (IsBelow n) cs → n ≤ j → mine j cs ≡ []
  unfolding mine
  mine-IsBelow n j [] h below = refl
  mine-IsBelow n j (t ∷ cs) h below = ground (arith, h.0.0, below, mine-IsBelow n j cs h.1 below)

  IsBelow-suc :
      (n : ℕ) (cs : List (TimeoutStream (Peer S))) → All (IsBelow n) cs → All (IsBelow (suc n)) cs
  IsBelow-suc n [] h = tt
  IsBelow-suc n (t ∷ cs) h = ((omega (arith, h.0.0), h.0.1), IsBelow-suc n cs h.1)

  IsBelow-IsPeer :
      (n : ℕ) (cs : List (TimeoutStream (Peer S)))
      → All (IsBelow n) cs
      → All (IsPeer receive elapses) cs
  IsBelow-IsPeer n [] h = tt
  IsBelow-IsPeer n (t ∷ cs) h = (h.0.1, IsBelow-IsPeer n cs h.1)

  IsBelow-put :
      (n id : ℕ) (left : Option (TimeoutStream (Peer S))) (others : List (TimeoutStream (Peer S)))
      → id < n
      → IsNext receive elapses id left
      → All (IsBelow n) others
      → All (IsBelow n) (put receive elapses left others)
  IsBelow-put n id none others less h hs = hs
  IsBelow-put n id (some u) others less h hs = ((ground (arith, h.0, less), h.1), hs)

  abbrev filled : ℕ → ℕ → Listen (Peer S) → Listen (Peer S)
  filled n now l = fill now (peer receive elapses max first s n) l

  fresh-IsBelow :
      (n now : ℕ) (l : Listen (Peer S))
      → All (IsBelow n) l.connections
      → All (IsBelow (suc n)) (filled n now l).connections
  unfolding fill new peer opened new_decoder
  fresh-IsBelow n now l h = (
    (omega arith, restart-Inv (opened receive max first s).decoder []),
    IsBelow-suc n l.connections h,
  )

  -- A connection that was just accepted.
  own-accepted :
      (n now : ℕ) (turns : List Turn) (l : Listen (Peer S))
      → All (IsBelow n) l.connections
      → own n (serve_all receive elapses max first s turns (suc n) (filled n now l))
        ≡ (session receive elapses max l.keep_alive now first s (polls_of n turns)).0
  unfolding fill new peer opened new_decoder mine session
  own-accepted n now turns l h =
      let gone : mine n l.connections ≡ [] = mine-IsBelow n n l.connections h (omega arith) in
      let fresh = (filled n now l).connections in
      let one : mine n fresh
          ≡ (record {
            keep_alive = l.keep_alive;
            deadline = now + l.keep_alive;
            stream = peer receive elapses max first s n;
          })
            ∷ [] =
        ground (arith, gone) in
      own-serves receive elapses max first s n (count_accept first) turns (suc n) (filled n now l)
        (omega arith)
        (record {
          valid = IsBelow-IsPeer (suc n) fresh (fresh-IsBelow n now l h);
          single = rw (one) (omega arith);
        })
      ∙ ap (seen receive elapses max first s (polls_of n turns) (count_accept first)) one

  abbrev first_of : Option (ℕ × List (ℕ × Socket)) → ℕ × List (ℕ × Socket)
  first_of none = (0, [])
  first_of (some x) = x

  own-first :
      (j keep_alive start : ℕ) (polls : List (ℕ × Socket)) (now : ℕ) (turns : List Turn) (n : ℕ)
      (l : Listen (Peer S))
      → n ≡ j
      → All (IsBelow n) l.connections
      → l.keep_alive ≡ keep_alive
      → ◌≡◌ {A = Option (ℕ × List (ℕ × Socket))}
          (some (now, polls_of j turns))
          (some (start, polls))
      → own j (serve_all receive elapses max first s turns (suc n) (filled n now l))
        ≡ (session receive elapses max keep_alive start first s polls).0
  own-first j keep_alive start polls now turns n l this valid same h =
      ap (λ (i : ℕ). own i (serve_all receive elapses max first s turns (suc n) (filled n now l)))
        (sym this)
      ∙ own-accepted n now turns l valid
      ∙ ap (λ (i : ℕ). (session receive elapses max l.keep_alive now first s (polls_of i turns)).0)
          this
      ∙ ap (λ (k : ℕ). (session receive elapses max k now first s (polls_of j turns)).0) same
      ∙ ap
          (λ (x : ℕ × List (ℕ × Socket)).
            (session receive elapses max keep_alive x.0 first s x.1).0)
          (ap first_of h)

  length-put_le :
      (left : Option (TimeoutStream (Peer S))) (others : List (TimeoutStream (Peer S)))
      → length (put receive elapses left others) ≤ suc (length others)
  length-put_le none others = omega arith
  length-put_le (some t) others = omega arith

  -- A poll of a connection that is taken out keeps the room.
  IsReady-polled :
      (keep_alive n now id : ℕ) (arrived : Socket) (turns : List Turn) (l : Listen (Peer S))
      (t : TimeoutStream (Peer S)) (others : List (TimeoutStream (Peer S))) (m : Metrics)
      → t.stream.id < n
      → length l.connections ≡ suc (length others)
      → All (IsBelow n) others
      → (o : Outcome receive elapses now arrived t (record l { connections = others }) m)
      → IsReady keep_alive n (poll now id arrived ∷ turns) l
      → IsReady keep_alive n turns o.listener
  unfolding accepts
  IsReady-polled keep_alive n now id arrived turns l t others m less len ps o set = record {
    valid =
        subst (All (IsBelow n)) (sym o.connections)
          (IsBelow-put n t.stream.id o.left others less o.next ps);
    room =
        omega
          (arith, ap length o.connections, length-put_le o.left others, len, o.same_max, set.room);
    same = o.same_keep_alive ∙ set.same;
  }

  own-arrival :
      (j keep_alive start : ℕ) (polls : List (ℕ × Socket)) (turns : List Turn) (n : ℕ)
      (l : Listen (Peer S))
      → n ≤ j
      → IsReady keep_alive n turns l
      → arrival j n turns ≡ some (start, polls)
      → own j (serve_all receive elapses max first s turns n l)
        ≡ (session receive elapses max keep_alive start first s polls).0
  unfolding serve_all arrival accepts fill
  own-arrival j keep_alive start polls [] n l below set h = absurd (cc (h))
  own-arrival j keep_alive start polls (accept now ∷ turns) n l below set h =
      let room : ltb (length l.connections) l.max ≡ true = ground (arith, set.room) in
      elim (Bool-cases (n == j)) [
        | inl this ↦
            rw (room, serve_all)
              (own-first j keep_alive start polls now turns n l (ground (arith, this)) set.valid
                set.same (sym (rw (this, arrival) refl) ∙ h))
        | inr other ↦
            let later : arrival j n (accept now ∷ turns) ≡ arrival j (suc n) turns =
              rw (other, arrival) refl in
            rw (room, serve_all)
              (own-arrival j keep_alive start polls turns (suc n) (filled n now l)
                (ground (arith, below, other))
                (record {
                  valid = fresh-IsBelow n now l set.valid;
                  room = omega (arith, set.room);
                  same = set.same;
                })
                (sym later ∙ h))
      ]
  own-arrival j keep_alive start polls (poll now id arrived ∷ turns) n l below set h =
      let P = IsBelow n in
      let taken = take_peer-IsTaken j id P l.connections set.valid in
      elim (Option-cases (take_peer id l.connections)) [
        | inl e ↦
            ap (own j) (serve_all-absent receive elapses max first s now id arrived turns n l e)
            ∙ own-arrival j keep_alive start polls turns n l below
                (record { valid = set.valid; room = set.room; same = set.same }) h
        | inr ((t, others), e) ↦
            let (same, found, len, p, ps) = subst (IsTaken j id P l.connections) e taken in
            let o =
              poll_peer-Outcome receive elapses now arrived t (record l { connections = others })
                first p.1 in
            ap (own j) (
              serve_all-poll receive elapses max first s now id arrived turns n l o.listener t
                others o.out e o.polls)
            ∙ own-emit_other receive elapses max first s j id now o.out
                (serve_all receive elapses max first s turns n o.listener)
                (ground (arith, same, p.0, below))
            ∙ own-arrival j keep_alive start polls turns n o.listener below
                (IsReady-polled keep_alive n now id arrived turns l t others first p.0 len ps o set)
                h
      ]

  -- If a listener may keep as many connections as are accepted, then a connection that is accepted at
  -- `start` gives exactly the items of its own session, from `start` on and over its own polls, at their
  -- times: however the polls of all connections are interleaved, and whichever of the others time out,
  -- are closed by their peers, fail with an error of their sockets or send what is refused.
  pub serve_all-alone :
      (j keep_alive max_connections start : ℕ) (m : Metrics) (polls : List (ℕ × Socket))
      (turns : List Turn)
      → accepts turns ≤ max_connections
      → arrival j 0 turns ≡ some (start, polls)
      → own j (serve_all receive elapses max first s turns 0 (listen keep_alive max_connections m))
        ≡ (session receive elapses max keep_alive start first s polls).0
  unfolding listen
  serve_all-alone j keep_alive max_connections start m polls turns room h =
      own-arrival j keep_alive start polls turns 0 (listen keep_alive max_connections m)
        (omega arith) (record { valid = tt; room = omega (arith, room); same = refl }) h
