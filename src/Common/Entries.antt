-- ===== src/Common/Entries.antt =====
-- Predicates over the entries of a list, by recursion, so that they compute to sums and tuples.
use seq_input_gelf.Common.{◌≡◌, refl, ◌⊎◌, inl, inr, List, [], ◌∷◌}

-- `x` is an element of the list.
abbrev pub Has : {A : Type 0} → A → List A → Type 0
Has x [] = ⊥
Has x (y ∷ l) = (x ≡ y) ⊎ Has x l

abbrev pub All {ℓ κ} : {A : Type ℓ} → (A → Type κ) → List A → Type κ
All P [] = Unit
All P (x ∷ l) = P x × All P l

pub All-Has : {A : Type 0} (P : A → Type 0) (l : List A) → ((x : A) → Has x l → P x) → All P l
All-Has P [] h = tt
All-Has P (x ∷ l) h = (h x (inl refl), All-Has P l (λ y m. h y (inr m)))
