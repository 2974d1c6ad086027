-- ===== src/Common/Equality.antt =====
-- Decidable equality and order of map keys, as instances (`Eq` and `Ord` of the standard library).
use Prim.Native.String.{String}
use text.Mathlib.Text.{◌==◌ as str_eq}
use text.Mathlib.TextEquality.{eq_iff}
use Prim.Native.Nat.{ℕ}
use mathlib.Core.Bool.{Bool, true}
use mathlib.Core.Logic.{◌↔◌}
use mathlib.Core.Path.{◌≡◌}
use seq_input_gelf.Common.Tests.{ltb, ◌==◌, ==_iff}

pub record Eq {ℓ} (A : Type ℓ) : Type ℓ where
  pub beq : A → A → Bool
  pub beq_iff : (a b : A) → (beq a b ≡ true) ↔ (a ≡ b)

instance abbrev pub nat_eq : Eq ℕ
nat_eq = record { beq = ◌==◌; beq_iff = ==_iff }

instance abbrev pub string_eq : Eq String
string_eq = record { beq = str_eq; beq_iff = eq_iff }

-- The strict order that a `BTreeMap` keeps its keys in.
pub record Ord {ℓ} (A : Type ℓ) : Type ℓ where
  pub eq : Eq A
  pub open eq use *
  pub lt : A → A → Bool

instance abbrev pub nat_ord : Ord ℕ
nat_ord = record { eq = nat_eq; lt = ltb }
