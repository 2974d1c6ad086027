-- ===== src/Diagnostics/Samples/Reported.antt =====
-- What the event of a sample says of each metric.
use Prim.Native.String.{String}
use text.Mathlib.Text.{◌==◌ as str_eq}
use text.Mathlib.TextEquality.{eq_iff}
use mathlib.Core.List.{append_assoc}
use seq_input_gelf.Common.{
  ℕ, ◌+◌, ◌%◌, ◌≡◌, refl, sym, ap, ◌∙◌, ◌++◌, Bool, true, false, List, [], ◌∷◌, some, arith,
  string_eq, if◌then◌else◌,
}
use seq_input_gelf.Common.HashMap
use seq_input_gelf.Diagnostics.{Level, includes, usize_mod}
use seq_input_gelf.Diagnostics.Events.{extend}
use seq_input_gelf.Diagnostics.Samples.{
  Fields, load, has, store, Atomic, add, swap, apply, run, reported, additions, take,
}
use seq_input_gelf.Diagnostics.Samples.Conserved.{
  run-conserves, run-has, has-store, load-store_self,
}

-- The operations that are swaps, which the additions of other threads come between.
unfoldable pub swaps : List Atomic → List Atomic
swaps [] = []
swaps (add k ∷ ops) = swaps ops
swaps (swap k ∷ ops) = swap k ∷ swaps ops

-- No two fields have the same name.
unfoldable pub distinct : Fields → Bool
distinct [] = true
distinct ((k, v) ∷ m) = let rest = distinct m in if has k m then false else rest

-- What is handed out has the names of the swaps.
run-swaps :
    (min_level : ℕ) (ops : List Atomic) (m : Fields) → take (run min_level ops m).1 ≡ swaps ops
unfolding take run swaps apply
run-swaps min_level [] m = refl
run-swaps min_level (add k ∷ ops) m = run-swaps min_level ops _
run-swaps min_level (swap k ∷ ops) m = ap (◌∷◌ (swap k)) (run-swaps min_level ops _)

-- Lists of the same names have the same fields.
has-take : (name : String) (m out : Fields) → take out ≡ take m → has name out ≡ has name m
unfolding take
has-take name [] [] h = refl
has-take name [] (x ∷ out) h = absurd (cc (h))
has-take name (x ∷ m) [] h = absurd (cc (h))
has-take name ((k, v) ∷ m) ((j, w) ∷ out) h = grind (arith, h, has-take name m out)

distinct-take : (m out : Fields) → take out ≡ take m → distinct out ≡ distinct m
unfolding take distinct
distinct-take [] [] h = refl
distinct-take [] (x ∷ out) h = absurd (cc (h))
distinct-take (x ∷ m) [] h = absurd (cc (h))
distinct-take ((k, v) ∷ m) ((j, w) ∷ out) h =
    grind (arith, h, distinct-take m out, has-take k m out)

reported-absent : (name : String) (out : Fields) → has name out ≡ false → reported name out ≡ 0
unfolding reported
reported-absent name [] h = refl
reported-absent name ((k, v) ∷ out) h = ground (arith, reported-absent name out)

-- A map that is extended by distinct names.
get-extend :
    (name : String) (out m : Fields)
    → distinct out ≡ true
    → HashMap.get name (extend m out)
      ≡ (if has name out then some (reported name out) else HashMap.get name m)
unfolding extend distinct reported
get-extend name [] m h = refl
get-extend name ((k, v) ∷ out) m h = ground (
  arith,
  eq_iff k name,
  reported-absent k out,
  get-extend name out (HashMap.insert k v m),
  HashMap.get-insert k name v m,
)

-- What two runs, one after the other, leave and hand out.
run-append :
    (min_level : ℕ) (before after : List Atomic) (m : Fields)
    → (run min_level (before ++ after) m).0 ≡ (run min_level after (run min_level before m).0).0
      × ((run min_level (before ++ after) m).1
          ≡ (run min_level before m).1 ++ (run min_level after (run min_level before m).0).1)
unfolding run
run-append min_level [] after m = (refl, refl)
run-append min_level (op ∷ before) after m =
    let a = apply min_level op m in
    let (left, out) = run-append min_level before after a.0 in
    (left, ap (λ (l : Fields). a.1 ++ l) out ∙ sym (append_assoc a.1 _ _))

has-middle : (name : String) (v : ℕ) (a b : Fields) → has name (a ++ (name, v) ∷ b) ≡ true
has-middle name v [] b = ground (arith, eq_iff name name)
has-middle name v ((k, w) ∷ a) b = ground (arith, has-middle name v a b)

-- A name that is handed out among distinct ones has no other number.
reported-middle :
    (name : String) (v : ℕ) (a b : Fields)
    → distinct (a ++ (name, v) ∷ b) ≡ true
    → (reported name (a ++ (name, v) ∷ b) ≡ v) × (reported name a ≡ 0) × (reported name b ≡ 0)
unfolding distinct reported
reported-middle name v [] b h =
    let absent = reported-absent name b (ground (arith, h)) in
    (ground (arith, absent, eq_iff name name), refl, absent)
reported-middle name v ((k, w) ∷ a) b h =
    let (whole, first, last) = reported-middle name v a b (ground (arith, h)) in
    let other : str_eq k name ≡ false = ground (arith, h, eq_iff k name, has-middle name v a b) in
    (ground (arith, other, whole), ground (arith, other, first), last)

-- If the minimum level counts metrics, then whatever additions of other threads come between the
-- swaps of a `take` of metrics of different names, the map that the event of the sample has for them
-- holds for each metric exactly what was in it before and was added to it before its own swap, and
-- from this swap on the metric counts from 0: it is left with what was added to it afterwards. Both
-- are up to the wrap of the counter.
pub run-reports :
    (min_level : ℕ)
    → includes min_level Level.debug ≡ true
    → (before after : List Atomic) (name : String) (m : Fields)
    → swaps (before ++ swap name ∷ after) ≡ take m
    → distinct m ≡ true
    → (n : ℕ) × (HashMap.get name (extend [] (run min_level (before ++ swap name ∷ after) m).1)
        ≡ some n)
      × (n % usize_mod ≡ (load name m + additions name before) % usize_mod)
      × (load name (run min_level (before ++ swap name ∷ after) m).0 % usize_mod
          ≡ additions name after % usize_mod)
unfolding run apply
run-reports min_level counting before after name m whole unique =
    let ops = before ++ swap name ∷ after in
    let m1 = (run min_level before m).0 in
    let a = (run min_level before m).1 in
    let b = (run min_level after (store name 0 m1)).1 in
    let out = (run min_level ops m).1 in
    let parts = run-append min_level before (swap name ∷ after) m in
    let same : take out ≡ take m = run-swaps min_level ops m ∙ whole in
    let unique_out : distinct out ≡ true = distinct-take m out same ∙ unique in
    let has_out : has name out ≡ true =
      ap (has name) parts.1 ∙ has-middle name (load name m1) a b in
    let has_m : has name m ≡ true = sym (has-take name m out same) ∙ has_out in
    let has_m1 : has name m1 ≡ true = run-has min_level name before m ∙ has_m in
    let split = reported-middle name (load name m1) a b (ap distinct (sym parts.1) ∙ unique_out) in
    let first = run-conserves min_level counting name before m has_m in
    let last =
      run-conserves min_level counting name after (store name 0 m1)
        (has-store name name 0 m1 ∙ has_m1) in
    (
      load name m1,
      get-extend name out [] unique_out
          ∙ rw (has_out) (ap some (ap (reported name) parts.1 ∙ split.0)),
      omega (arith, first, split.1),
      omega (arith, ap (load name) parts.0, last, split.2, load-store_self name 0 m1 has_m1),
    )
