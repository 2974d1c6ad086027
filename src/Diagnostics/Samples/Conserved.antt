-- ===== src/Diagnostics/Samples/Conserved.antt =====
-- No addition to a metric is lost between the samples.
use Prim.Native.String.{String}
use text.Mathlib.Text.{◌==◌ as str_eq}
use text.Mathlib.TextEquality.{eq_iff}
use seq_input_gelf.Common.{
  ℕ, ◌+◌, ◌%◌, ◌≡◌, refl, ◌∙◌, Bool, true, false, List, [], ◌∷◌, ◌++◌, arith, if◌then◌else◌,
  Bool-cases, inl, inr,
}
use seq_input_gelf.Diagnostics.{Level, includes, increment, usize_mod}
use seq_input_gelf.Diagnostics.Counting.{increment_counting}
use seq_input_gelf.Diagnostics.Samples.{
  Fields, load, has, store, Atomic, add, swap, apply, run, reported, additions, take,
}

pub load-store_self :
    (name : String) (n : ℕ) (m : Fields) → has name m ≡ true → load name (store name n m) ≡ n
unfolding store
load-store_self name n [] h = absurd (cc)
load-store_self name n ((k, v) ∷ m) h = ground (arith, load-store_self name n m)

load-store_ne :
    (k name : String) (n : ℕ) (m : Fields)
    → str_eq k name ≡ false
    → load name (store k n m) ≡ load name m
unfolding store
load-store_ne k name n [] h = refl
load-store_ne k name n ((j, v) ∷ m) h =
    ground (arith, load-store_ne k name n m h, eq_iff j k, eq_iff j name, eq_iff k name)

pub has-store : (k name : String) (n : ℕ) (m : Fields) → has name (store k n m) ≡ has name m
unfolding store
has-store k name n [] = refl
has-store k name n ((j, v) ∷ m) = ground (arith, has-store k name n m)

pub run-has :
    (min_level : ℕ) (name : String) (ops : List Atomic) (m : Fields)
    → has name (run min_level ops m).0 ≡ has name m
unfolding run apply
run-has min_level name [] m = refl
run-has min_level name (add k ∷ ops) m =
    run-has min_level name ops _ ∙ has-store k name (increment min_level (load k m)) m
run-has min_level name (swap k ∷ ops) m = run-has min_level name ops _ ∙ has-store k name 0 m

reported-append :
    (name : String) (xs ys : List (String × ℕ))
    → reported name (xs ++ ys) ≡ reported name xs + reported name ys
unfolding reported
reported-append name [] ys = omega arith
reported-append name ((k, v) ∷ xs) ys = ground (arith, reported-append name xs ys)

str_eq-true : (k name : String) → str_eq k name ≡ true → k ≡ name
str_eq-true k name h = (eq_iff k name).0 h

additions-cons :
    (name : String) (op : Atomic) (ops : List Atomic)
    → additions name (op ∷ ops) ≡ additions name (op ∷ []) + additions name ops
unfolding additions
additions-cons name (add k) ops = ground arith
additions-cons name (swap k) ops = omega arith

if_zero : (b : Bool) {n : ℕ} → n ≡ 0 → (if b then 0 else n) ≡ 0
if_zero true h = refl
if_zero false h = h

module _ (min_level : ℕ) (counting : includes min_level Level.debug ≡ true) (name : String) where
  apply-has : (op : Atomic) (m : Fields) → has name (apply min_level op m).0 ≡ has name m
  unfolding apply
  apply-has (add k) m = has-store k name (increment min_level (load k m)) m
  apply-has (swap k) m = has-store k name 0 m

  apply-conserves :
      (op : Atomic) (m : Fields)
      → has name m ≡ true
      → (reported name (apply min_level op m).1 + load name (apply min_level op m).0) % usize_mod
        ≡ (load name m + additions name (op ∷ [])) % usize_mod
  unfolding apply additions reported
  apply-conserves (add k) m h = elim (Bool-cases (str_eq k name)) [
    | inl e ↦
        let p = str_eq-true k name e in
        let q = load-store_self name ((load name m + 1) % usize_mod) m h in
        rw (e, p, increment_counting min_level (load name m) counting, q) (omega arith)
    | inr e ↦
        let q = load-store_ne k name (increment min_level (load k m)) m e in ground (arith, q, e)
  ]
  apply-conserves (swap k) m h = elim (Bool-cases (str_eq k name)) [
    | inl e ↦
        let p = str_eq-true k name e in
        let q = load-store_self name 0 m h in rw (e, p, q) (omega arith)
    | inr e ↦ let q = load-store_ne k name 0 m e in ground (arith, q, e)
  ]

  -- If the minimum level counts metrics and a metric is a field, then after any additions and swaps,
  -- in any order, what was handed out of the metric and what is still in it are what was in it at
  -- first and its additions, up to the wrap of the counter: no addition is lost or reported twice.
  pub run-conserves :
      (ops : List Atomic) (m : Fields)
      → has name m ≡ true
      → (reported name (run min_level ops m).1 + load name (run min_level ops m).0) % usize_mod
        ≡ (load name m + additions name ops) % usize_mod
  unfolding run additions reported
  run-conserves [] m h = omega arith
  run-conserves (op ∷ ops) m h =
      let a = apply min_level op m in
      let rest = run min_level ops a.0 in
      omega (
        arith,
        apply-conserves op m h,
        run-conserves ops a.0 (apply-has op m ∙ h),
        reported-append name a.1 rest.1,
        additions-cons name op ops,
      )

  additions-take : (m : Fields) → additions name (take m) ≡ 0
  unfolding additions take
  additions-take [] = refl
  additions-take ((k, v) ∷ m) = additions-take m

  run-take :
      (fields m : Fields)
      → has name m ≡ true
      → load name (run min_level (take fields) m).0 ≡ (if has name fields then 0 else load name m)
  unfolding run take apply
  run-take [] m h = refl
  run-take ((k, v) ∷ fields) m h = elim (Bool-cases (str_eq k name)) [
    | inl e ↦
        let p = str_eq-true k name e in
        let q = load-store_self name 0 m h in
        let r = run-take fields (store k 0 m) (has-store k name 0 m ∙ h) in
        let z : load name (store k 0 m) ≡ 0 = rw (p) q in rw (e) (r ∙ if_zero (has name fields) z)
    | inr e ↦
        let q = load-store_ne k name 0 m e in
        let r = run-take fields (store k 0 m) (has-store k name 0 m ∙ h) in rw (e) (r ∙ rw (q) refl)
  ]

  -- If the minimum level counts metrics and a metric is a field, then `take`, which nothing
  -- interrupts, leaves the metric at 0 and hands out what was in it, up to the wrap of the counter.
  pub take-reports :
      (m : Fields)
      → has name m ≡ true
      → (load name (run min_level (take m) m).0 ≡ 0)
        × (reported name (run min_level (take m) m).1 % usize_mod ≡ load name m % usize_mod)
  take-reports m h =
      let zeroed : load name (run min_level (take m) m).0 ≡ 0 = run-take m m h ∙ rw (h) refl in
      (zeroed, omega (arith, zeroed, run-conserves (take m) m h, additions-take m))
