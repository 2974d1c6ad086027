-- ===== src/Receive/Gelf/Expired.antt =====
-- Which messages `gc` keeps.
use seq_input_gelf.Common.{
  ℕ, ◌<◌, ◌≡◌, sym, ap, ◌∙◌, true, false, inl, inr, none, some, arith, nat_eq, Bool-cases,
  Option-cases, if◌then◌else◌,
}
use seq_input_gelf.Common.HashMap
use seq_input_gelf.Common.BTreeMap
use seq_input_gelf.Receive.Outcome.{ok}
use seq_input_gelf.Receive.Time.{
  SystemTime, UniqueTimestamp, timestamp_ord, timestamp_lt, since, from_millis,
}
use seq_input_gelf.Receive.Chunks.{Chunks}
use seq_input_gelf.Receive.Gelf.Bounds.{waiting}
use seq_input_gelf.Receive.Gelf.Expiry.{get-of-remove_all, get-remove_all}
use seq_input_gelf.Receive.Gelf.Invariant.{Inv}
use seq_input_gelf.Receive.Gelf.{Gelf, gc, clear_if_full, remove_expired}

module _ (g : Gelf) (limit : UniqueTimestamp) (id : ℕ) (cs : Chunks) (t : UniqueTimestamp)
    (v : Inv g) (at : HashMap.get id g.by_id.chunks ≡ some (cs, t)) where
  removed_old :
      timestamp_lt t limit ≡ true → HashMap.get id (remove_expired limit g).by_id.chunks ≡ none
  unfolding remove_expired
  removed_old old = elim (Option-cases (HashMap.get id (remove_expired limit g).by_id.chunks)) [
    | inl e ↦ e
    | inr (w, e) ↦
        let expired =
          (BTreeMap.Has-range_below limit t id g.by_arrival.chunks).1 (old, v.forward id cs t at) in
        absurd (
          (get-of-remove_all (BTreeMap.range_below limit g.by_arrival.chunks) g.by_id.chunks
              g.by_arrival.chunks id w e).1
            t expired)
  ]

  kept_young :
      timestamp_lt t limit ≡ false
      → HashMap.get id (remove_expired limit g).by_id.chunks ≡ some (cs, t)
  unfolding remove_expired
  kept_young young =
      get-remove_all (BTreeMap.range_below limit g.by_arrival.chunks) g.by_id.chunks
        g.by_arrival.chunks id
        (λ u m.
          let (lt, there) = (BTreeMap.Has-range_below limit u id g.by_arrival.chunks).0 m in
          let (cs', e) = v.backward u id there in
          let same : u ≡ t = cc (e, at) in
          let lt' : timestamp_lt t limit ≡ true =
            ap (λ (x : UniqueTimestamp). timestamp_lt x limit) (sym same) ∙ lt in
          absurd (ground (arith, lt', young)))
      ∙ at

  -- While the decoder is not full and the clock, less the timeout, is past the epoch, `gc` drops a
  -- waiting message exactly if its first chunk arrived before the time that the timeout allows; any
  -- other message keeps its chunks and its arrival.
  pub gc-expires :
      (now : SystemTime)
      → waiting g < g.config.incomplete_capacity
      → since now (from_millis g.config.incomplete_timeout_ms) ≡ ok limit
      → HashMap.get id (gc now g).0.by_id.chunks
        ≡ (if timestamp_lt t limit then none else some (cs, t))
  unfolding gc clear_if_full
  gc-expires now room e = elim (Bool-cases (timestamp_lt t limit)) [
    | inl old ↦ ground (arith, removed_old old)
    | inr young ↦ ground (arith, kept_young young)
  ]
