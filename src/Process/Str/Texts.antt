-- ===== src/Process/Str/Texts.antt =====
-- A `Str` is its text, however it is stored (sqelf/src/process/str.rs).
use Prim.Native.Nat.{Ordering}
use Prim.Native.String.{String, len}
use text.Mathlib.TextEquality.{eq_iff}
use seq_input_gelf.Common.{
  ℕ, ◌≤◌, ◌≡◌, ◌↔◌, refl, ap, ◌∙◌, Bool, true, false, arith, ltb, Bool-cases, inl, inr,
}
use seq_input_gelf.Process.Str.{
  Owned, Str, as_ref, eq, hash, cmp, serialize, Visited, str, borrowed_str, own_string, text_of,
  deserialize, Inlinable, inline, spilled, inlinable_as_ref, inlinable_deserialize,
}

-- `Eq`, `Hash` and `Ord` of two texts, however they are stored, fit together: they are equal exactly if
-- they compare as equal, and then any hasher treats them alike.
pub Str-agree :
    (A B : Owned) (a : Str A.Carrier) (b : Str B.Carrier)
    → ((eq A B a b ≡ true) ↔ (cmp A B a b ≡ Ordering.eq))
      × ((eq A B a b ≡ true) ↔ (as_ref A a ≡ as_ref B b))
unfolding eq cmp as_ref
Str-agree A B a b = (ground arith, eq_iff (as_ref A a) (as_ref B b))

-- Equal texts, however they are stored, go to one place of a hash table.
pub hash-eq :
    (A B : Owned) {H : Type 0} (write : String → H → H) (a : Str A.Carrier) (b : Str B.Carrier)
    → (state : H) → eq A B a b ≡ true
    → hash A write a state ≡ hash B write b state
unfolding hash eq as_ref
hash-eq A B write a b state h =
    ap (λ (s : String). write s state) ((eq_iff (as_ref A a) (as_ref B b)).0 h)

-- A text that is read and written again is the same text, whether the deserializer lent it, borrowed
-- it from the input or owned it, as long as the owned type keeps texts and is written as its text.
pub serialize-deserialize :
    (O : Owned) {R : Type 0} (serialize_str : String → R) (serialize_owned : O.Carrier → R)
    → (v : Visited) → ((s : String) → O.as_ref (O.from s) ≡ s)
    → ((s : O.Carrier) → serialize_owned s ≡ serialize_str (O.as_ref s))
    → (serialize serialize_str serialize_owned (deserialize O v) ≡ serialize_str (text_of v))
      × (as_ref O (deserialize O v) ≡ text_of v)
unfolding serialize deserialize as_ref
serialize-deserialize O w wo (str value) keeps written =
    (written (O.from value) ∙ ap w (keeps value), keeps value)
serialize-deserialize O w wo (borrowed_str value) keeps written = (refl, refl)
serialize-deserialize O w wo (own_string value) keeps written =
    (written (O.from value) ∙ ap w (keeps value), keeps value)

abbrev pub is_inline : {S : Type 0} → Inlinable S → Bool
is_inline (inline s) = true
is_inline (spilled s) = false

-- A text that may be stored inline keeps its characters, and is stored inline exactly if its bytes fit
-- into the capacity.
pub inlinable-text :
    (O : Owned) (capacity : ℕ) (v : Visited)
    → ((s : String) → O.as_ref (O.from s) ≡ s)
    → (inlinable_as_ref O (inlinable_deserialize O capacity v) ≡ text_of v)
      × ((is_inline (inlinable_deserialize O capacity v) ≡ true) ↔ (len (text_of v) ≤ capacity))
unfolding inlinable_as_ref inlinable_deserialize
inlinable-text O capacity v keeps = elim (Bool-cases (ltb capacity (len (text_of v)))) [
  | inl long ↦ rw (long) (keeps (text_of v), ground arith)
  | inr fits ↦ rw (fits) (refl, ground arith)
]
