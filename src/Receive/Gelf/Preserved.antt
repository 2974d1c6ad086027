-- ===== src/Receive/Gelf/Preserved.antt =====
-- `push` and `decode` keep the decoder's invariant.
use seq_input_gelf.Common.{
  ℕ, ◌+◌, ◌<◌, ◌≡◌, ◌≢◌, ap, inl, inr, List, some, none, arith, nat_eq, nat_ord, ◌==◌, false,
  Bool-cases, ◌⊎◌,
}
use seq_input_gelf.Common.HashMap
use seq_input_gelf.Common.BTreeMap
use seq_input_gelf.Common.BTreeMap.{Rising, KeysBelow}
use seq_input_gelf.Common.Entries.{Has}
use seq_input_gelf.Receive.Outcome.{Bytes, Result-cases}
use seq_input_gelf.Receive.Time.{SystemTime, UniqueTimestamp, timestamp_ord, duration_since_epoch}
use seq_input_gelf.Receive.Header.{ChunkHeader}
use seq_input_gelf.Receive.Chunks.{Chunk, Chunks}
use seq_input_gelf.Receive.Chunks
use seq_input_gelf.Receive.Gelf.Cases.{
  IsSeveral, stamp, counted, begin_ok, begin_err, gc_cases, push_cases, decode_cases,
}
use seq_input_gelf.Receive.Gelf.Invariant.{IsOpen, Inv, counted-Inv, gc-Inv}
use seq_input_gelf.Receive.Gelf.{
  Gelf, Readings, u64_mod, clear_if_full, remove_expired, gc, join, push, decode, admit,
}

new-IsOpen : (total : ℕ) (c : Chunk) → c.seq < total → 1 < total → IsOpen (Chunks.new total c)
unfolding Chunks.new BTreeMap.insert
new-IsOpen total c h k = omega arith

insert-IsOpen :
    (c : Chunk) (cs : Chunks)
    → c.seq < cs.expected_total
    → IsOpen cs
    → Chunks.is_complete (Chunks.insert c cs) ≡ false
    → IsOpen (Chunks.insert c cs)
unfolding Chunks.insert Chunks.is_complete
insert-IsOpen c cs h v more = record {
  rising = rising';
  within = within';
  started = ground (arith, v.started, BTreeMap.length-insert 0 c.seq c.bytes cs.inner v.rising);
  missing =
      ground (arith, BTreeMap.length-Rising 0 cs.expected_total _ rising' within' (omega arith));
}
  where
    rising' : Rising 0 (BTreeMap.insert c.seq c.bytes cs.inner)
    rising' = BTreeMap.insert-Rising 0 c.seq c.bytes cs.inner (omega arith) v.rising

    within' : KeysBelow cs.expected_total (BTreeMap.insert c.seq c.bytes cs.inner)
    within' = BTreeMap.insert-KeysBelow cs.expected_total c.seq c.bytes cs.inner h v.within

module _ (g : Gelf) (v : Inv g) where
  -- A new arrival key is above all that are there, as long as the counter does not wrap.
  admit-Inv :
      (d : ℕ) (h : ChunkHeader) (c : Chunk)
      → g.by_arrival.counter + 1 < u64_mod
      → HashMap.get h.id g.by_id.chunks ≡ none
      → c.seq < h.seq_count
      → 1 < h.seq_count
      → Inv (admit (stamp d g) (counted g) h c g)
  unfolding admit
  admit-Inv d h c small new inside several = record {
    forward = λ id cs t found. elim (found_cases id cs t found) [
      | inl (same, _, at) ↦ rw (same, at) (BTreeMap.Has-insert_self key h.id arrivals)
      | inr (_, old) ↦
          let here = v.forward id cs t old in
          BTreeMap.Has-insert_ne key t h.id id arrivals (newer t id here) here
    ];
    backward = λ t id m. elim (BTreeMap.Has-of-insert key t h.id id arrivals m) [
      | inl e ↦ (
        Chunks.new h.seq_count c,
        ground (arith, HashMap.get-insert h.id id (Chunks.new h.seq_count c, key) ids),
      )
      | inr here ↦
          let (cs, old) = v.backward t id here in
          (cs, ground (arith, HashMap.get-insert h.id id (Chunks.new h.seq_count c, key) ids))
    ];
    unique = λ t i j m n.
        unique' t i j (BTreeMap.Has-of-insert key t h.id i arrivals m)
          (BTreeMap.Has-of-insert key t h.id j arrivals n);
    fresh = λ t id m. elim (BTreeMap.Has-of-insert key t h.id id arrivals m) [
      | inl e ↦ ground arith
      | inr here ↦ omega (arith, v.fresh t id here)
    ];
    opened = λ id cs t found. elim (found_cases id cs t found) [
      | inl (_, e, _) ↦ rw e (new-IsOpen h.seq_count c inside several)
      | inr (_, old) ↦ v.opened id cs t old
    ];
  }
    where
      key : UniqueTimestamp
      key = stamp d g

      ids : List (ℕ × (Chunks × UniqueTimestamp))
      ids = g.by_id.chunks

      arrivals : List (UniqueTimestamp × ℕ)
      arrivals = g.by_arrival.chunks

      newer : (t : UniqueTimestamp) (id : ℕ) → Has (t, id) arrivals → key ≢ t
      newer t id m e = omega (arith, v.fresh t id m, ap (λ (u : UniqueTimestamp). u.counter) e)

      found_cases :
          (id : ℕ) (cs : Chunks) (t : UniqueTimestamp)
          → HashMap.get id (HashMap.insert h.id (Chunks.new h.seq_count c, key) ids) ≡ some (cs, t)
          → ((id ≡ h.id) × (cs ≡ Chunks.new h.seq_count c) × (t ≡ key))
            ⊎ ((id ≢ h.id) × (HashMap.get id ids ≡ some (cs, t)))
      found_cases id cs t found =
          ground (arith, HashMap.get-insert h.id id (Chunks.new h.seq_count c, key) ids)

      unique' :
          (t : UniqueTimestamp) (i j : ℕ)
          → (◌≡◌ {A = UniqueTimestamp × ℕ} (t, i) (key, h.id)) ⊎ Has (t, i) arrivals
          → (◌≡◌ {A = UniqueTimestamp × ℕ} (t, j) (key, h.id)) ⊎ Has (t, j) arrivals
          → i ≡ j
      unique' t i j (inl e) (inl f) = cc
      unique' t i j (inl e) (inr n) = absurd (newer t j n (cc))
      unique' t i j (inr m) (inl f) = absurd (newer t i m (cc))
      unique' t i j (inr m) (inr n) = v.unique t i j m n

  -- A message that is complete goes, with its arrival.
  complete-Inv :
      (id : ℕ) (cs : Chunks) (t : UniqueTimestamp)
      → HashMap.get id g.by_id.chunks ≡ some (cs, t)
      → Inv (record g {
        by_id = record { chunks = HashMap.remove id g.by_id.chunks };
        by_arrival = record g.by_arrival { chunks = BTreeMap.remove t g.by_arrival.chunks };
      })
  complete-Inv id cs t at = record {
    forward = λ i ds u found.
        let (other, old) = left i ds u found in
        let here = v.forward i ds u old in
        BTreeMap.Has-remove_ne t u i g.by_arrival.chunks
          (λ e. other (v.unique u id i (rw e at (v.forward id cs t at)) here)) here;
    backward = λ u i m.
        let (other, here) = BTreeMap.Has-of-remove t u i g.by_arrival.chunks m in
        let (ds, old) = v.backward u i here in
        (ds, ground (arith, HashMap.get-remove id i g.by_id.chunks));
    unique = λ u i j m n.
        v.unique u i j (BTreeMap.Has-of-remove t u i g.by_arrival.chunks m).1
          (BTreeMap.Has-of-remove t u j g.by_arrival.chunks n).1;
    fresh = λ u i m. v.fresh u i (BTreeMap.Has-of-remove t u i g.by_arrival.chunks m).1;
    opened = λ i ds u found. v.opened i ds u (left i ds u found).1;
  }
    where
      left :
          (i : ℕ) (ds : Chunks) (u : UniqueTimestamp)
          → HashMap.get i (HashMap.remove id g.by_id.chunks) ≡ some (ds, u)
          → (id ≢ i) × (HashMap.get i g.by_id.chunks ≡ some (ds, u))
      left i ds u found = ground (arith, HashMap.get-remove id i g.by_id.chunks)

  -- A message that grows keeps its place and its arrival.
  grow-Inv :
      (id : ℕ) (cs ds : Chunks) (t : UniqueTimestamp)
      → HashMap.get id g.by_id.chunks ≡ some (cs, t)
      → IsOpen ds
      → Inv (record g { by_id = record { chunks = HashMap.insert id (ds, t) g.by_id.chunks } })
  grow-Inv id cs ds t at open' = record {
    forward = λ i es u found. elim (found_cases i es u found) [
      | inl (same, _, e) ↦ rw (same, e) (v.forward id cs t at)
      | inr old ↦ v.forward i es u old
    ];
    backward = λ u i m.
        let (es, old) = v.backward u i m in
        elim (Bool-cases (id == i)) [
          | inl same ↦ (ds, ground (arith, HashMap.get-insert id i (ds, t) g.by_id.chunks))
          | inr other ↦ (es, ground (arith, HashMap.get-insert id i (ds, t) g.by_id.chunks))
        ];
    unique = v.unique;
    fresh = v.fresh;
    opened = λ i es u found. elim (found_cases i es u found) [
      | inl (_, e, _) ↦ rw e open'
      | inr old ↦ v.opened i es u old
    ];
  }
    where
      found_cases :
          (i : ℕ) (es : Chunks) (u : UniqueTimestamp)
          → HashMap.get i (HashMap.insert id (ds, t) g.by_id.chunks) ≡ some (es, u)
          → ((i ≡ id) × (es ≡ ds) × (u ≡ t)) ⊎ (HashMap.get i g.by_id.chunks ≡ some (es, u))
      found_cases i es u found = ground (arith, HashMap.get-insert id i (ds, t) g.by_id.chunks)

join-Inv :
    (h : ChunkHeader) (c : Chunk) (cs : Chunks) (t : UniqueTimestamp) (g : Gelf)
    → Inv g
    → HashMap.get h.id g.by_id.chunks ≡ some (cs, t)
    → c.seq < cs.expected_total
    → Inv (join h c cs t g).0
unfolding join
join-Inv h c cs t g v at inside = elim (Bool-cases (Chunks.is_complete (Chunks.insert c cs))) [
  | inl whole ↦ rw whole (counted-Inv _ _ (complete-Inv g v h.id cs t at))
  | inr part ↦ rw part (
      grow-Inv g v h.id cs (Chunks.insert c cs) t at
        (insert-IsOpen c cs inside (v.opened h.id cs t at) part))
]

pub push-Inv :
    (now : SystemTime) (h : ChunkHeader) (bytes : Bytes) (g : Gelf)
    → Inv g
    → g.by_arrival.counter + 1 < u64_mod
    → IsSeveral g h
    → Inv (push now h (record { seq = h.seq_num; bytes = bytes }) g).0
push-Inv now h bytes g v small (inside, several, few) =
    push_cases Inv now h c g v
      (λ new. elim (Result-cases (duration_since_epoch now)) [
        | inr (_, e) ↦ rw (begin_err now h c g e) v
        | inl (d, e) ↦ rw (begin_ok now h c g e) (admit-Inv g v d h c small new inside several)
      ])
      λ cs t at same. join-Inv h c cs t g v at (rw same inside)
  where
    c : Chunk
    c = record { seq = h.seq_num; bytes = bytes }

pub counter-gc :
    (now : SystemTime) (g : Gelf) → (gc now g).0.by_arrival.counter ≡ g.by_arrival.counter
unfolding clear_if_full remove_expired
counter-gc now g =
    gc_cases (λ g'. g'.by_arrival.counter ≡ g.by_arrival.counter) now g (ground arith)
      (λ limit. ground arith)

-- If the two indexes of the decoder are in step and its messages incomplete, then so they are
-- after any call, whatever the datagram and the clock, as long as the counter of arrivals does not
-- wrap.
pub decode-Inv :
    (now : Readings) (src : Bytes) (g : Gelf)
    → Inv g
    → g.by_arrival.counter + 1 < u64_mod
    → Inv (decode now src g).0
decode-Inv now src g v small =
    decode_cases Inv Ready now src g (λ m. counted-Inv m g v)
      (λ m. (gc-Inv now.at_gc _ (counted-Inv m g v), rw (counter-gc now.at_gc _) small))
      (λ g' q. q.0) λ h bytes g' q several. push-Inv now.at_push h bytes g' q.0 q.1 several
  where
    Ready : Gelf → Type 0
    Ready g' = Inv g' × (g'.by_arrival.counter + 1 < u64_mod)
