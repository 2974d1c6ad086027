-- ===== src/Application/Printed.antt =====
-- What the processor prints of the messages that it is given.
use Prim.Native.String.{String}
use seq_input_gelf.Common.{
  ℕ, ◌≡◌, refl, sym, ap, ◌∙◌, Bool, List, [], ◌∷◌, ◌++◌, Option, some, Option-cases, inl, inr, ◌⊎◌,
}
use seq_input_gelf.Common.Entries.{Has}
use seq_input_gelf.Receive.Message.{Message}
use seq_input_gelf.Receive.Readable.{Reading, readable}
use seq_input_gelf.Process.Json.{Json}
use seq_input_gelf.Process.Clef
use seq_input_gelf.Process.Gelf
use seq_input_gelf.Process.Run
use seq_input_gelf.Process.Run.{Parsers, read_as_clef, with_clef, parse_message, print}
use seq_input_gelf.Process.ToClef.{Given, to_clef}
use seq_input_gelf.Server.Loop.Counted.{process_all}
use seq_input_gelf.Application.{Processor, process}

Has-append_left : {A : Type 0} (x : A) (xs ys : List A) → Has x xs → Has x (xs ++ ys)
Has-append_left x [] ys h = elim h [ ]
Has-append_left x (y ∷ xs) ys (inl e) = inl e
Has-append_left x (y ∷ xs) ys (inr h) = inr (Has-append_left x xs ys h)

Has-append_last : {A : Type 0} (x : A) (xs : List A) → Has x (xs ++ x ∷ [])
Has-append_last x [] = inl refl
Has-append_last x (y ∷ xs) = inr (Has-append_last x xs)

module _ (J : Json) {Time Decimal : Type 0} (p : Parsers J.Value Decimal) (d : Reading)
    (given : Given J.Value Time Decimal) (to_string : Clef.Message J.Value Time → Option String)
    (config : Run.Config) (min_level : ℕ) where
  abbrev step : Message → Processor → Processor × Bool
  step = process J p d given to_string config min_level

  abbrev parsed : Message → Run.Result (Gelf.Message J.Value Decimal)
  parsed msg = parse_message J (readable d) p config.include_raw_payload msg

  Result-cases :
      {A : Type 0} (r : Run.Result A)
      → ((a : A) × (r ≡ Run.ok a)) ⊎ ((e : Run.Error) × (r ≡ Run.err e))
  Result-cases (Run.ok a) = inl (a, refl)
  Result-cases (Run.err e) = inr (e, refl)

  -- What was printed stays printed.
  step-keeps : (l : String) (msg : Message) (s : Processor) → Has l s.1 → Has l (step msg s).0.1
  unfolding process read_as_clef with_clef print
  step-keeps l msg s h = elim (Result-cases (parsed msg)) [
    | inr (e, f) ↦ rw (f, process, read_as_clef, with_clef) h
    | inl (m, f) ↦ elim (Option-cases (to_string (to_clef J given m))) [
      | inl e ↦ rw (f, process, read_as_clef, with_clef, e, print) h
      | inr (line, e) ↦
          rw (f, process, read_as_clef, with_clef, e, print) (Has-append_left l s.1 (line ∷ []) h)
    ]
  ]

  -- A message that parses and whose event serializes is printed.
  step-prints :
      (line : String) (msg : Message) (m : Gelf.Message J.Value Decimal) (s : Processor)
      → parsed msg ≡ Run.ok m
      → to_string (to_clef J given m) ≡ some line
      → Has line (step msg s).0.1
  unfolding process read_as_clef with_clef print
  step-prints line msg m s f e =
      rw (f, process, read_as_clef, with_clef, e, print) (Has-append_last line s.1)

  all-keeps :
      (l : String) (msgs : List Message) (s : Processor)
      → Has l s.1
      → Has l (process_all step msgs s).1
  unfolding process_all
  all-keeps l [] s h = h
  all-keeps l (msg ∷ msgs) s h = all-keeps l msgs (step msg s).0 (step-keeps l msg s h)

  -- A message among those that are processed, if it parses and its event serializes, is printed, and
  -- what came before or comes later does not take it back.
  pub all-prints :
      (line : String) (msg : Message) (m : Gelf.Message J.Value Decimal) (msgs : List Message)
      → (s : Processor) → parsed msg ≡ Run.ok m
      → to_string (to_clef J given m) ≡ some line
      → Has msg msgs
      → Has line (process_all step msgs s).1
  unfolding process_all
  all-prints line msg m [] s f e h = elim h [ ]
  all-prints line msg m (first ∷ msgs) s f e (inl same) =
      all-keeps line msgs (step first s).0 (step-prints line first m s (ap parsed (sym same) ∙ f) e)
  all-prints line msg m (first ∷ msgs) s f e (inr h) =
      all-prints line msg m msgs (step first s).0 f e h
