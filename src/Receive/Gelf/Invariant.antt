-- ===== src/Receive/Gelf/Invariant.antt =====
-- The decoder's invariant: its two indexes name the same messages, and each message is incomplete.
use seq_input_gelf.Common.{
  ℕ, ◌<◌, ◌≡◌, ◌∙◌, inl, inr, List, some, nat_eq, nat_ord, length, Bool-cases, leb,
}
use seq_input_gelf.Common.HashMap
use seq_input_gelf.Common.BTreeMap
use seq_input_gelf.Common.BTreeMap.{Rising, KeysBelow}
use seq_input_gelf.Common.Entries.{Has}
use seq_input_gelf.Receive.Time.{SystemTime, UniqueTimestamp, timestamp_ord}
use seq_input_gelf.Receive.Chunks.{Chunks}
use seq_input_gelf.Receive.Gelf.Expiry.{
  get-of-remove_all, get-remove_all, Has-of-remove_all, Has-remove_all,
}
use seq_input_gelf.Receive.Gelf.Cases.{gc_cases}
use seq_input_gelf.Receive.Gelf.{Gelf, Config, Metrics, clear_if_full, remove_expired, gc, new}

-- A message that waits: its chunks stand in order, are numbered below the total, and some are
-- missing.
pub record IsOpen (cs : Chunks) : Type 0 where
  pub rising : Rising 0 cs.inner
  pub within : KeysBelow cs.expected_total cs.inner
  pub started : 0 < length cs.inner
  pub missing : length cs.inner < cs.expected_total

pub record Inv (g : Gelf) : Type 0 where
  -- every message has its arrival, so it can expire
  pub forward :
      (id : ℕ) (cs : Chunks) (t : UniqueTimestamp)
      → HashMap.get id g.by_id.chunks ≡ some (cs, t)
      → Has (t, id) g.by_arrival.chunks
  -- every arrival has its message
  pub backward :
      (t : UniqueTimestamp) (id : ℕ)
      → Has (t, id) g.by_arrival.chunks
      → (cs : Chunks) × (HashMap.get id g.by_id.chunks ≡ some (cs, t))
  -- no two messages share an arrival
  pub unique :
      (t : UniqueTimestamp) (i j : ℕ)
      → Has (t, i) g.by_arrival.chunks
      → Has (t, j) g.by_arrival.chunks
      → i ≡ j
  pub fresh :
      (t : UniqueTimestamp) (id : ℕ)
      → Has (t, id) g.by_arrival.chunks
      → t.counter < g.by_arrival.counter
  pub opened :
      (id : ℕ) (cs : Chunks) (t : UniqueTimestamp)
      → HashMap.get id g.by_id.chunks ≡ some (cs, t)
      → IsOpen cs

-- A new decoder has no messages.
pub new-Inv : (c : Config) (m : Metrics) → Inv (new c m)
unfolding new HashMap.get
new-Inv c m = record {
  forward = λ id cs t e. cc;
  backward = λ t id h. absurd h;
  unique = λ t i j h k. absurd h;
  fresh = λ t id h. absurd h;
  opened = λ id cs t e. cc;
}

-- The invariant says nothing of the metrics.
pub counted-Inv : (m : Metrics) (g : Gelf) → Inv g → Inv (record g { metrics = m })
counted-Inv m g v = record {
  forward = v.forward;
  backward = v.backward;
  unique = v.unique;
  fresh = v.fresh;
  opened = v.opened;
}

clear_if_full-Inv : (g : Gelf) → Inv g → Inv (clear_if_full g)
unfolding clear_if_full HashMap.get
clear_if_full-Inv g v =
    elim (Bool-cases (leb g.config.incomplete_capacity (length g.by_id.chunks))) [
      | inr room ↦ rw room v
      | inl full ↦ rw full (record {
        forward = λ id cs t e. cc;
        backward = λ t id h. absurd h;
        unique = λ t i j h k. absurd h;
        fresh = λ t id h. absurd h;
        opened = λ id cs t e. cc;
      })
    ]

remove_expired-Inv : (limit : UniqueTimestamp) (g : Gelf) → Inv g → Inv (remove_expired limit g)
unfolding remove_expired
remove_expired-Inv limit g v = record {
  forward = λ id cs t e.
      let (old, free) = get-of-remove_all expired ids arrivals id (cs, t) e in
      let here = v.forward id cs t old in
      Has-remove_all expired ids arrivals t id
        (λ j m. free t (
          (BTreeMap.Has-range_below limit t id arrivals).1
            (((BTreeMap.Has-range_below limit t j arrivals).0 m).0, here)))
        here;
  backward = λ t id h.
      let (old, free) = Has-of-remove_all expired ids arrivals t id h in
      let (cs, e) = v.backward t id old in
      (
        cs,
        get-remove_all expired ids arrivals id (λ u m. free id (same_arrival t u id cs e m)) ∙ e,
      );
  unique = λ t i j h k.
      v.unique t i j (Has-of-remove_all expired ids arrivals t i h).0
        (Has-of-remove_all expired ids arrivals t j k).0;
  fresh = λ t id h. v.fresh t id (Has-of-remove_all expired ids arrivals t id h).0;
  opened = λ id cs t e. v.opened id cs t (get-of-remove_all expired ids arrivals id (cs, t) e).0;
}
  where
    ids : List (ℕ × (Chunks × UniqueTimestamp))
    ids = g.by_id.chunks

    arrivals : List (UniqueTimestamp × ℕ)
    arrivals = g.by_arrival.chunks

    expired : List (UniqueTimestamp × ℕ)
    expired = BTreeMap.range_below limit arrivals

    same_arrival :
        (t u : UniqueTimestamp) (id : ℕ) (cs : Chunks)
        → HashMap.get id ids ≡ some (cs, t)
        → Has (u, id) expired
        → Has (t, id) expired
    same_arrival t u id cs e m =
        let (_, e') = v.backward u id ((BTreeMap.Has-range_below limit u id arrivals).0 m).1 in
        let same : u ≡ t = cc in rw same at m

pub gc-Inv : (now : SystemTime) (g : Gelf) → Inv g → Inv (gc now g).0
gc-Inv now g v =
    gc_cases Inv now g (clear_if_full-Inv g v)
      (λ limit. remove_expired-Inv limit _ (clear_if_full-Inv g v))
