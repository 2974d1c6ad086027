-- ===== src/Process/Str/Keys.antt =====
-- A `HashMap` whose keys are `Str` (sqelf/src/process/clef.rs, process/mod.rs) is one whose keys are
-- texts: `Eq` and `Hash` of sqelf/src/process/str.rs agree. The hasher is a parameter.
use Prim.Native.String.{String}
use text.Mathlib.Text.{◌==◌ as str_eq}
use text.Mathlib.TextEquality.{eq_iff}
use seq_input_gelf.Common.{
  ℕ, ◌≡◌, refl, ap, Bool, false, List, [], ◌∷◌, Option, none, some, arith, Bool-cases, inl, inr,
  string_eq, if◌then◌else◌, nat_eq, ◌==◌,
}
use seq_input_gelf.Common.HashMap
use seq_input_gelf.Process.Str.{Owned, Str, as_ref, eq, hash}
use seq_input_gelf.Process.Str.Texts.{hash-eq}

-- A `BuildHasher`: the hasher it makes, what it does with a text, and its `finish`.
pub record BuildHasher (H : Type 0) : Type 0 where
  pub build_hasher : H
  pub write : String → H → H
  pub finish : H → ℕ

module _ (O : Owned) {H : Type 0} (hasher : BuildHasher H) where
  -- The hash of a key: the place of the table that is searched for it.
  unfoldable pub hash_one : Str O.Carrier → ℕ
  unfolding hash
  hash_one k = hasher.finish (hash O hasher.write k hasher.build_hasher)

  -- An entry is found by a key only if it has the key's hash, and is `==` to it.
  unfoldable pub matches : Str O.Carrier → Str O.Carrier → Bool
  unfolding eq hash_one
  matches j k = if hash_one j == hash_one k then eq O O j k else false

  matches-eq : (j k : Str O.Carrier) → matches j k ≡ str_eq (as_ref O j) (as_ref O k)
  unfolding matches eq hash_one
  matches-eq j k = elim (Bool-cases (eq O O j k)) [
    | inl e ↦
        let same : hash_one j ≡ hash_one k =
          ap hasher.finish (hash-eq O O hasher.write j k hasher.build_hasher e) in
        ground (arith, same, e)
    | inr e ↦ ground (arith, e)
  ]

  module _ {V : Type 0} where
    -- `HashMap::get` and `HashMap::insert`. `insert` keeps the key that is there.
    unfoldable pub get : Str O.Carrier → List (Str O.Carrier × V) → Option V
    unfolding matches
    get k [] = none
    get k ((j, v) ∷ m) = if matches j k then some v else get k m

    unfoldable pub insert : Str O.Carrier → V → List (Str O.Carrier × V) → List (Str O.Carrier × V)
    unfolding matches
    insert k v [] = (k, v) ∷ []
    insert k v ((j, w) ∷ m) = if matches j k then (j, v) ∷ m else (j, w) ∷ insert k v m

    -- The map with the texts of its keys.
    unfoldable pub texts : List (Str O.Carrier × V) → List (String × V)
    texts [] = []
    texts ((k, v) ∷ m) = (as_ref O k, v) ∷ texts m

    get-texts :
        (k : Str O.Carrier) (m : List (Str O.Carrier × V))
        → get k m ≡ HashMap.get (as_ref O k) (texts m)
    unfolding get texts HashMap.get
    get-texts k [] = refl
    get-texts k ((j, v) ∷ m) = rw (matches-eq j k, get-texts k m) refl

    insert-texts :
        (k : Str O.Carrier) (v : V) (m : List (Str O.Carrier × V))
        → texts (insert k v m) ≡ HashMap.insert (as_ref O k) v (texts m)
    unfolding insert texts HashMap.insert
    insert-texts k v [] = refl
    insert-texts k v ((j, w) ∷ m) = elim (Bool-cases (str_eq (as_ref O j) (as_ref O k))) [
      | inl same ↦
          rw (matches-eq j k, same)
            (ap (λ (s : String). (s, v) ∷ texts m) ((eq_iff (as_ref O j) (as_ref O k)).0 same))
      | inr other ↦ rw (matches-eq j k, other) (ap (◌∷◌ (as_ref O j, w)) (insert-texts k v m))
    ]

    -- Whatever the hasher does, a map over borrowed and owned keys, of which a lookup sees only the
    -- entries with the hash of the key, holds what the map over their texts holds: a lookup finds the
    -- same, and after an insertion the two maps still agree.
    pub texts-Refines :
        (k : Str O.Carrier) (v : V) (m : List (Str O.Carrier × V))
        → (get k m ≡ HashMap.get (as_ref O k) (texts m))
          × (texts (insert k v m) ≡ HashMap.insert (as_ref O k) v (texts m))
    texts-Refines k v m = (get-texts k m, insert-texts k v m)
