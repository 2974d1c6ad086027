-- ===== src/Process/ToClef/Fields.antt =====
-- The fields of the event that `to_clef` makes (sqelf/src/process/mod.rs).
use Prim.Native.String.{String}
use Prim.Native.String.{count}
use text.Mathlib.Text.{◌==◌ as str_eq}
use text.Mathlib.TextLemmas.{length-cons}
use text.Mathlib.TextEquality.{eq_iff}
use seq_input_gelf.Common.{
  ℕ, suc, ◌∙◌, ◌≡◌, refl, false, List, Option, none, some, if◌then◌else◌, arith, string_eq, inl,
  inr, ap, Bool-cases, Option-cases,
}
use seq_input_gelf.Common.HashMap.{get, insert, get-insert}
use seq_input_gelf.Process.Json.{Json}
use seq_input_gelf.Process.Gelf
use seq_input_gelf.Process.ToClef.{
  override_value, override_some, override_all, underscored, fields_of, additional, to_clef, Given,
}
use seq_input_gelf.Receive.Outcome.{and_then}

module _ {V : Type 0} where
  get-override_value_new :
      (fields : List (String × V)) (name j : String) (v : V)
      → get name fields ≡ none
      → get j (override_value fields name v) ≡ (if str_eq name j then some v else get j fields)
  unfolding override_value
  get-override_value_new fields name j v h = rw (h, override_value) (get-insert name j v fields)

  get-override_value_old :
      (fields : List (String × V)) (name j : String) (v old : V)
      → get name fields ≡ some old
      → get j (override_value fields name v) ≡ (
          if str_eq (underscored name) j
          then some old
          else (if str_eq name j then some v else get j fields))
  unfolding override_value
  get-override_value_old fields name j v old h =
      rw (h, override_value)
        (get-insert (underscored name) j old (insert name v fields)
          ∙ ap (λ (o : Option V). if str_eq (underscored name) j then some old else o)
              (get-insert name j v fields))

count-underscored : (name : String) → count (underscored name) ≡ suc (suc (count name))
unfolding underscored
count-underscored name = length-cons "_" (String.◌∷◌ "_" name) ∙ ap suc (length-cons "_" name)

-- Two more characters make another text.
underscored-ne : (name : String) → str_eq (underscored name) name ≡ false
underscored-ne name = elim (Bool-cases (str_eq (underscored name) name)) [
  | inl h ↦
      let e = ap count ((eq_iff (underscored name) name).0 h) in
      absurd (omega (arith, e, count-underscored name))
  | inr h ↦ h
]

module _ {V : Type 0} where
  get-override_value_self :
      (fields : List (String × V)) (name : String) (v : V)
      → get name (override_value fields name v) ≡ some v
  get-override_value_self fields name v = elim (Option-cases (get name fields)) [
    | inl h ↦ ground (arith, get-override_value_new fields name name v h, eq_iff name name)
    | inr (old, h) ↦ ground (
      arith,
      get-override_value_old fields name name v old h,
      eq_iff name name,
      underscored-ne name,
    )
  ]

  get-override_value_ne :
      (fields : List (String × V)) (name j : String) (v : V)
      → str_eq (underscored name) j ≡ false
      → str_eq name j ≡ false
      → get j (override_value fields name v) ≡ get j fields
  get-override_value_ne fields name j v h k = elim (Option-cases (get name fields)) [
    | inl e ↦ ground (arith, get-override_value_new fields name j v e)
    | inr (old, e) ↦ ground (arith, get-override_value_old fields name j v old e)
  ]

  -- A field that is overridden has the new value, the value it had before is under the name with two
  -- underscores in front, and a field of any third name is as it was.
  pub override_value_lem :
      (fields : List (String × V)) (name j : String) (v old : V)
      → get name fields ≡ some old
      → str_eq (underscored name) j ≡ false
      → str_eq name j ≡ false
      → (get name (override_value fields name v) ≡ some v)
        × (get (underscored name) (override_value fields name v) ≡ some old)
        × (get j (override_value fields name v) ≡ get j fields)
  override_value_lem fields name j v old e h k = (
    get-override_value_self fields name v,
    ground (
      arith,
      get-override_value_old fields name (underscored name) v old e,
      eq_iff (underscored name) (underscored name),
    ),
    get-override_value_ne fields name j v h k,
  )

  get-override_some_ne :
      (fields : List (String × V)) (name j : String) (o : Option V)
      → str_eq (underscored name) j ≡ false
      → str_eq name j ≡ false
      → get j (override_some fields name o) ≡ get j fields
  unfolding override_some
  get-override_some_ne fields name j none h k = refl
  get-override_some_ne fields name j (some v) h k = get-override_value_ne fields name j v h k

  get-override_some_self :
      (fields : List (String × V)) (name : String) (v : V)
      → get name (override_some fields name (some v)) ≡ some v
  unfolding override_some
  get-override_some_self fields name v = get-override_value_self fields name v

module _ {V : Type 0} (fields : List (String × V)) where
  host_wins :
      (host facility file line : Option V) (v : V)
      → host ≡ some v
      → get "host" (
          override_some
            (override_some
              (override_some (override_some fields "host" host) "facility" facility)
              "file"
              file)
            "line"
            line)
        ≡ some v
  unfolding underscored
  host_wins host facility file line v h =
      get-override_some_ne _ "line" "host" line refl refl
      ∙ get-override_some_ne _ "file" "host" file refl refl
      ∙ get-override_some_ne _ "facility" "host" facility refl refl
      ∙ rw (h) (get-override_some_self fields "host" v)

  facility_wins :
      (facility file line : Option V) (v : V)
      → facility ≡ some v
      → get "facility" (
          override_some
            (override_some (override_some fields "facility" facility) "file" file)
            "line"
            line)
        ≡ some v
  unfolding underscored
  facility_wins facility file line v h =
      get-override_some_ne _ "line" "facility" line refl refl
      ∙ get-override_some_ne _ "file" "facility" file refl refl
      ∙ rw (h) (get-override_some_self fields "facility" v)

  file_wins :
      (file line : Option V) (v : V)
      → file ≡ some v
      → get "file" (override_some (override_some fields "file" file) "line" line) ≡ some v
  unfolding underscored
  file_wins file line v h =
      get-override_some_ne _ "line" "file" line refl refl
      ∙ rw (h) (get-override_some_self fields "file" v)

  line_wins :
      (line : Option V) (v : V)
      → line ≡ some v
      → get "line" (override_some fields "line" line) ≡ some v
  line_wins line v h = rw (h) (get-override_some_self fields "line" v)

module _ (J : Json) {Decimal : Type 0} where
  open J use {Value, string, number}

  fields_of-envelope :
      (m : Gelf.Message Value Decimal)
      → (fields : List (String × Value)) → (host facility file : String) → (line : ℕ)
      → m.host ≡ some host
      → m.facility ≡ some facility
      → m.file ≡ some file
      → m.line ≡ some line
      → (get "host" (fields_of J m fields) ≡ some (string host))
        × (get "facility" (fields_of J m fields) ≡ some (string facility))
        × (get "file" (fields_of J m fields) ≡ some (string file))
        × (get "line" (fields_of J m fields) ≡ some (number line))
  unfolding fields_of
  fields_of-envelope m fields host facility file line a b c d =
      let of_text = λ (o : Option String). and_then o (λ s. some (string s)) in
      let of_line = λ (o : Option ℕ). and_then o (λ n. some (number n)) in
      let base = override_all fields (additional J m.additional) in
      let with_host = override_some base "host" (of_text m.host) in
      let with_facility = override_some with_host "facility" (of_text m.facility) in
      let with_file = override_some with_facility "file" (of_text m.file) in
      (
        host_wins base (of_text m.host) (of_text m.facility) (of_text m.file) (of_line m.line)
            (string host) (ap of_text a),
        facility_wins with_host (of_text m.facility) (of_text m.file) (of_line m.line)
            (string facility) (ap of_text b),
        file_wins with_facility (of_text m.file) (of_line m.line) (string file) (ap of_text c),
        line_wins with_file (of_line m.line) (number line) (ap of_line d),
      )

module _ (J : Json) {Time Decimal : Type 0} (g : Given J.Value Time Decimal) where
  open J use {Value, string, number}

  -- The built-in fields of a GELF envelope win: host, facility, file and line, where the envelope has
  -- all four, are fields of the event with the envelope's values, whatever the additional fields and
  -- an embedded event hold.
  pub to_clef-envelope :
      (m : Gelf.Message Value Decimal)
      → (host facility file : String) → (line : ℕ) → m.host ≡ some host
      → m.facility ≡ some facility
      → m.file ≡ some file
      → m.line ≡ some line
      → (get "host" (to_clef J g m).additional ≡ some (string host))
        × (get "facility" (to_clef J g m).additional ≡ some (string facility))
        × (get "file" (to_clef J g m).additional ≡ some (string file))
        × (get "line" (to_clef J g m).additional ≡ some (number line))
  unfolding to_clef
  to_clef-envelope m host facility file line a b c d =
      fields_of-envelope J m _ host facility file line a b c d
