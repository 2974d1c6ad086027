-- ===== src/Diagnostics/Events/Chain.antt =====
-- What an error looks like in the log.
use Prim.Native.String.{String, ◌++◌}
use text.Mathlib.TextLemmas.{append_assoc}
use seq_input_gelf.Common.{none, ℕ, zero, suc, ◌≡◌, refl, ap, ◌∙◌, sym, some}
use seq_input_gelf.Diagnostics.{Level, includes, set_min_level, from_usize, get_min_level, to_usize}
use seq_input_gelf.Diagnostics.Events.{
  Failure, root, caused, sources, display, write_all, format_error, emit_err, new,
}

-- The chain of an error: its text, a colon, and the chain of its source.
unfoldable pub chain : Failure → String
chain (root s) = s
chain (caused s f) = s ++ (": " ++ chain f)

write_all-chain : (p : String) (f : Failure) → write_all (p ++ display f) (sources f) ≡ p ++ chain f
unfolding write_all sources chain
write_all-chain p (root s) = refl
write_all-chain p (caused s f) =
    ap (λ (x : String). write_all x (sources f)) (sym (append_assoc (p ++ s) ": " (display f)))
    ∙ write_all-chain ((p ++ s) ++ ": ") f
    ∙ append_assoc (p ++ s) ": " (chain f)
    ∙ append_assoc p s (": " ++ chain f)

format_error-chain : (f : Failure) → format_error f ≡ chain f
unfolding format_error write_all sources chain
format_error-chain (root s) = refl
format_error-chain (caused s f) =
    ap (λ (x : String). write_all x (sources f)) (sym (append_assoc s ": " (display f)))
    ∙ write_all-chain (s ++ ": ") f
    ∙ append_assoc s ": " (chain f)

pub emit_err-any :
    (min_level : ℕ) (error : Failure) (template : String)
    → emit_err min_level error template ≡ some (new "ERROR" (some (chain error)) template none)
unfolding emit_err includes get_min_level from_usize to_usize
emit_err-any zero error template =
    ap (λ (s : String). some (new "ERROR" (some s) template none)) (format_error-chain error)
emit_err-any (suc n) error template =
    ap (λ (s : String). some (new "ERROR" (some s) template none)) (format_error-chain error)

-- An error is written to the log whatever the minimum level of the process, as an event of the level
-- `ERROR`, with the whole chain of its sources.
pub emit_err-chain :
    (level : Level) (error : Failure) (template : String)
    → emit_err (set_min_level level) error template
      ≡ some (new "ERROR" (some (chain error)) template none)
emit_err-chain level error template = emit_err-any (set_min_level level) error template
