-- ===== src/Receive/Gelf/Expiry.antt =====
-- The loop of `gc`: which messages and arrivals it removes.
use seq_input_gelf.Common.{
  ℕ, ◌≡◌, refl, sym, ap, ◌∙◌, inl, inr, List, [], ◌∷◌, some, arith, nat_eq, ◌==◌, Bool-cases,
}
use seq_input_gelf.Common.HashMap
use seq_input_gelf.Common.BTreeMap
use seq_input_gelf.Common.Entries.{Has}
use seq_input_gelf.Receive.Time.{UniqueTimestamp, timestamp_ord}
use seq_input_gelf.Receive.Chunks.{Chunks}
use seq_input_gelf.Receive.Gelf.{remove_all}

abbrev pub Ids : Type 0
Ids = List (ℕ × (Chunks × UniqueTimestamp))

abbrev pub Arrivals : Type 0
Arrivals = List (UniqueTimestamp × ℕ)

-- A message that is left was there, and no removed arrival names it.
pub get-of-remove_all :
    (l : Arrivals) (ids : Ids) (arrivals : Arrivals) (id : ℕ) (v : Chunks × UniqueTimestamp)
    → HashMap.get id (remove_all l ids arrivals).0 ≡ some v
    → (HashMap.get id ids ≡ some v) × ((t : UniqueTimestamp) → ¬ Has (t, id) l)
unfolding remove_all
get-of-remove_all [] ids arrivals id v h = (h, λ t m. m)
get-of-remove_all ((t, i) ∷ l) ids arrivals id v h =
    let (kept, free) =
      get-of-remove_all l (HashMap.remove i ids) (BTreeMap.remove t arrivals) id v h in
    (
      ground (arith, HashMap.get-remove i id ids),
      λ u m. elim m [ inl e ↦ ground (arith, HashMap.get-remove i id ids) | inr m' ↦ free u m' ],
    )

-- A message that no removed arrival names is left.
pub get-remove_all :
    (l : Arrivals) (ids : Ids) (arrivals : Arrivals) (id : ℕ)
    → ((t : UniqueTimestamp) → ¬ Has (t, id) l)
    → HashMap.get id (remove_all l ids arrivals).0 ≡ HashMap.get id ids
unfolding remove_all
get-remove_all [] ids arrivals id free = refl
get-remove_all ((t, i) ∷ l) ids arrivals id free =
    get-remove_all l (HashMap.remove i ids) (BTreeMap.remove t arrivals) id (λ u m. free u (inr m))
    ∙ elim (Bool-cases (i == id)) [
      | inl same ↦ absurd (free t (inl (ground arith)))
      | inr other ↦ ground (arith, HashMap.get-remove i id ids)
    ]

-- An arrival that is left was there, and its key is not among the removed ones.
pub Has-of-remove_all :
    (l : Arrivals) (ids : Ids) (arrivals : Arrivals) (t : UniqueTimestamp) (id : ℕ)
    → Has (t, id) (remove_all l ids arrivals).1
    → Has (t, id) arrivals × ((j : ℕ) → ¬ Has (t, j) l)
unfolding remove_all
Has-of-remove_all [] ids arrivals t id h = (h, λ j m. m)
Has-of-remove_all ((u, i) ∷ l) ids arrivals t id h =
    let (kept, free) =
      Has-of-remove_all l (HashMap.remove i ids) (BTreeMap.remove u arrivals) t id h in
    let (ne, old) = BTreeMap.Has-of-remove u t id arrivals kept in
    (
      old,
      λ j m. elim m [
        | inl e ↦ ne (ap (λ (p : UniqueTimestamp × ℕ). p.0) (sym e))
        | inr m' ↦ free j m'
      ],
    )

-- An arrival whose key is not among the removed ones is left.
pub Has-remove_all :
    (l : Arrivals) (ids : Ids) (arrivals : Arrivals) (t : UniqueTimestamp) (id : ℕ)
    → ((j : ℕ) → ¬ Has (t, j) l)
    → Has (t, id) arrivals
    → Has (t, id) (remove_all l ids arrivals).1
unfolding remove_all
Has-remove_all [] ids arrivals t id free h = h
Has-remove_all ((u, i) ∷ l) ids arrivals t id free h =
    Has-remove_all l (HashMap.remove i ids) (BTreeMap.remove u arrivals) t id
      (λ j m. free j (inr m))
      (BTreeMap.Has-remove_ne u t id arrivals (λ e. free i (inl (ap (λ v. (v, i)) (sym e)))) h)
