-- ===== src/Common/BTreeMap.antt =====
-- `BTreeMap` of the standard library, as an association list in the order of its keys.
use seq_input_gelf.Common.{
  ℕ, zero, suc, ◌+◌, ◌≤◌, ◌<◌, ◌≡◌, ◌≢◌, ◌⊎◌, ◌↔◌, true, inl, refl, List, [], ◌∷◌, Option, none,
  some, arith, Ord, if◌then◌else◌, length, nat_ord, map, get_elem?,
}
use seq_input_gelf.Common.Entries.{Has, All}

module _ {K V : Type 0} ⦃o : Ord K⦄ where
  unfoldable pub get : K → List (K × V) → Option V
  get k [] = none
  get k ((j, v) ∷ m) = if o.beq j k then some v else get k m

  unfoldable pub insert : K → V → List (K × V) → List (K × V)
  insert k v [] = (k, v) ∷ []
  insert k v ((j, w) ∷ m) =
      if o.beq j k
      then (k, v) ∷ m
      else (if o.lt k j then (k, v) ∷ (j, w) ∷ m else (j, w) ∷ insert k v m)

  unfoldable pub remove : K → List (K × V) → List (K × V)
  remove k [] = []
  remove k ((j, w) ∷ m) = let rest = remove k m in if o.beq j k then rest else (j, w) ∷ rest

  -- `range(..k)`: the entries whose keys are below `k`.
  unfoldable pub range_below : K → List (K × V) → List (K × V)
  range_below k [] = []
  range_below k ((j, w) ∷ m) =
      let rest = range_below k m in if o.lt j k then (j, w) ∷ rest else rest

  pub get-insert :
      (k j : K) (v : V) (m : List (K × V))
      → get j (insert k v m) ≡ (if o.beq k j then some v else get j m)
  unfolding get insert
  get-insert k j v [] = refl
  get-insert k j v ((i, w) ∷ m) =
      ground (arith, o.beq_iff k j, o.beq_iff i k, o.beq_iff i j, get-insert k j v m)

  pub Has-insert_self : (k : K) (v : V) (m : List (K × V)) → Has (k, v) (insert k v m)
  unfolding insert
  Has-insert_self k v [] = inl refl
  Has-insert_self k v ((i, w) ∷ m) = ground (arith, Has-insert_self k v m)

  pub Has-insert_ne :
      (k j : K) (v w : V) (m : List (K × V)) → k ≢ j → Has (j, w) m → Has (j, w) (insert k v m)
  unfolding insert
  Has-insert_ne k j v w [] n h = elim h [ ]
  Has-insert_ne k j v w ((i, u) ∷ m) n h = ground (arith, o.beq_iff i k, Has-insert_ne k j v w m n)

  -- An entry after an insertion is the new one or an old one.
  pub Has-of-insert :
      (k j : K) (v w : V) (m : List (K × V))
      → Has (j, w) (insert k v m)
      → (◌≡◌ {A = K × V} (j, w) (k, v)) ⊎ Has (j, w) m
  unfolding insert
  Has-of-insert k j v w [] h = h
  Has-of-insert k j v w ((i, u) ∷ m) h = ground (arith, Has-of-insert k j v w m)

  pub Has-remove_ne :
      (k j : K) (w : V) (m : List (K × V)) → k ≢ j → Has (j, w) m → Has (j, w) (remove k m)
  unfolding remove
  Has-remove_ne k j w [] n h = elim h [ ]
  Has-remove_ne k j w ((i, u) ∷ m) n h = ground (arith, o.beq_iff i k, Has-remove_ne k j w m n)

  pub Has-of-remove :
      (k j : K) (w : V) (m : List (K × V)) → Has (j, w) (remove k m) → (k ≢ j) × Has (j, w) m
  unfolding remove
  Has-of-remove k j w [] h = elim h [ ]
  Has-of-remove k j w ((i, u) ∷ m) h =
      ground (arith, o.beq_iff i k, o.beq_iff k j, Has-of-remove k j w m)

  pub Has-range_below :
      (k j : K) (w : V) (m : List (K × V))
      → Has (j, w) (range_below k m) ↔ ((o.lt j k ≡ true) × Has (j, w) m)
  unfolding range_below
  Has-range_below k j w m = (Has-of-range_below m, λ h. Has-range_below_of m h.0 h.1)
    where
      Has-of-range_below :
          (m : List (K × V)) → Has (j, w) (range_below k m) → (o.lt j k ≡ true) × Has (j, w) m
      Has-of-range_below [] h = elim h [ ]
      Has-of-range_below ((i, u) ∷ m) h = ground (arith, Has-of-range_below m)

      Has-range_below_of :
          (m : List (K × V)) → o.lt j k ≡ true → Has (j, w) m → Has (j, w) (range_below k m)
      Has-range_below_of [] b h = elim h [ ]
      Has-range_below_of ((i, u) ∷ m) b h = ground (arith, Has-range_below_of m b)

-- Maps over numbers, sorted: the keys rise and start at `lo` or above.
module _ {V : Type 0} where
  abbrev pub Rising : ℕ → List (ℕ × V) → Type 0
  Rising lo [] = Unit {0}
  Rising lo ((k, v) ∷ m) = (lo ≤ k) × Rising (suc k) m

  abbrev pub KeysBelow : ℕ → List (ℕ × V) → Type 0
  KeysBelow n m = All (λ e. e.0 < n) m

  abbrev pub values : List (ℕ × V) → List V
  values m = map (λ e. e.1) m

  pub insert-Rising :
      (lo k : ℕ) (v : V) (m : List (ℕ × V)) → lo ≤ k → Rising lo m → Rising lo (insert k v m)
  unfolding insert
  insert-Rising lo k v [] h r = (h, tt)
  insert-Rising lo k v ((j, w) ∷ m) h r = ground (arith, insert-Rising (suc j) k v m)

  pub insert-KeysBelow :
      (n k : ℕ) (v : V) (m : List (ℕ × V)) → k < n → KeysBelow n m → KeysBelow n (insert k v m)
  unfolding insert
  insert-KeysBelow n k v [] h b = (h, tt)
  insert-KeysBelow n k v ((j, w) ∷ m) h b = ground (arith, insert-KeysBelow n k v m)

  -- A rising map whose keys lie in `lo .. n` has at most `n - lo` entries.
  pub length-Rising :
      (lo n : ℕ) (m : List (ℕ × V)) → Rising lo m → KeysBelow n m → lo ≤ n → lo + length m ≤ n
  length-Rising lo n [] r b h = omega arith
  length-Rising lo n ((k, v) ∷ m) r b h =
      omega (arith, length-Rising (suc k) n m r.1 b.1 (omega arith))

  get_below : (lo i : ℕ) (m : List (ℕ × V)) → Rising lo m → i < lo → get i m ≡ none
  unfolding get
  get_below lo i [] r h = refl
  get_below lo i ((k, v) ∷ m) r h = ground (arith, get_below (suc k) i m)

  -- A full map has every key, and its values stand in the order of the keys.
  pub get_elem?-values :
      (lo n i : ℕ) (m : List (ℕ × V))
      → Rising lo m
      → KeysBelow n m
      → lo + length m ≡ n
      → get_elem? (values m) i ≡ get (lo + i) m
  unfolding get
  get_elem?-values lo n i [] r b h = refl
  get_elem?-values lo n zero ((k, v) ∷ m) r b h = ground (arith, length-Rising (suc k) n m r.1 b.1)
  get_elem?-values lo n (suc i) ((k, v) ∷ m) r b h =
      ground (arith, length-Rising (suc k) n m r.1 b.1, get_elem?-values (suc k) n i m r.1 b.1)

  -- A new key adds an entry, an old one does not.
  pub length-insert :
      (lo k : ℕ) (v : V) (m : List (ℕ × V))
      → Rising lo m
      → length (insert k v m) ≡ elim (get k m) [ none ↦ length m + 1 | some _ ↦ length m ]
  unfolding insert get
  length-insert lo k v [] r = omega arith
  length-insert lo k v ((j, w) ∷ m) r =
      ground (arith, length-insert (suc j) k v m, get_below (suc j) k m)
