-- ===== src/Tests/Texts.antt =====
-- The texts of sqelf/src/process/str.rs.
use Prim.Native.String.{String, len}
use seq_input_gelf.Common.{ℕ, ◌+◌, ◌%◌, ◌≡◌, List, [], ◌∷◌, string_eq}
use seq_input_gelf.Common.HashMap
use seq_input_gelf.Process.Str.{Str, borrowed, owned, string, as_ref}
use seq_input_gelf.Process.Str.Keys
use seq_input_gelf.Process.Str.Keys.{BuildHasher, texts, texts-Refines}

abbrev lent : Str String
lent = borrowed "host"

abbrev kept : Str String
kept = owned "host"

-- A hasher that keeps the number of bytes and of calls.
abbrev hasher : BuildHasher ℕ
hasher = record { build_hasher = 7; write = λ s h. h + len s + 1; finish = λ h. h % 5 }

abbrev keyed : List (Str String × ℕ)
keyed = (lent, 1) ∷ (borrowed "line", 2) ∷ []

texts-Refines_example :
    (Keys.get string hasher kept keyed ≡ HashMap.get "host" (texts string hasher keyed))
    × (texts string hasher (Keys.insert string hasher kept 3 keyed)
        ≡ HashMap.insert "host" 3 (texts string hasher keyed))
unfolding as_ref
texts-Refines_example = texts-Refines string hasher kept 3 keyed
