-- ===== src/Process/Clef/Decimal.antt =====
-- `Timestamp::from_decimal` of sqelf/src/process/clef.rs. The decimals of rust_decimal are an
-- interface; arithmetic on `u32` that leaves its range is an outcome of its own.
pub mod Nanos
use seq_input_gelf.Common.{
  ℕ, ◌+◌, ◌-◌, ◌*◌, ◌^◌, ◌≤◌, ◌<◌, ◌≡◌, Bool, true, false, Option, none, some, ltb, leb,
  if◌then◌else◌, arith,
}

pub record Decimal : Type 1 where
  pub Carrier : Type 0
  pub is_sign_negative : Carrier → Bool
  -- `trunc().to_u64()`
  pub trunc_to_u64 : Carrier → Option ℕ
  -- `fract()`, `set_scale(0)` and `to_u32()`: the digits behind the point, as a number
  pub fract_digits : Carrier → Option ℕ
  pub scale : Carrier → ℕ
  -- there are as many digits behind the point as the scale says
  pub fract_digits-lt : (d : Carrier) (n : ℕ) → fract_digits d ≡ some n → n < 10 ^ scale d

-- A computation on `u32`, or its overflow: a panic where overflow is checked, a wrong number elsewhere.
pub data Checked (A : Type 0) : Type 0 where
  value : A → Checked A
  overflow : Checked A

-- `scaled_fract * 10u32.pow(9 - scale)`.
unfoldable pub nanos : ℕ → ℕ → Checked ℕ
nanos scaled_fract scale =
    if ltb 9 scale
    then overflow
    else (let n = scaled_fract * 10 ^ (9 - scale) in if leb (2 ^ 32) n then overflow else value n)

module _ (D : Decimal) {Time : Type 0} (epoch : Time) (checked_add : ℕ → ℕ → Option Time) where
  open D use {Carrier, is_sign_negative, trunc_to_u64, fract_digits, scale}

  -- `Timestamp::from_decimal`. `checked_add` adds seconds and nanoseconds to the epoch.
  unfoldable pub from_decimal : Carrier → Checked (Option Time)
  unfolding nanos
  from_decimal ts = elim (is_sign_negative ts) [
    | true ↦ value (some epoch)
    | false ↦ elim (trunc_to_u64 ts) [
      | none ↦ value none
      | some secs ↦ elim (fract_digits ts) [
        | none ↦ value none
        | some scaled_fract ↦ elim (nanos scaled_fract (scale ts)) [
          | overflow ↦ overflow
          | value n ↦ value (checked_add secs n)
        ]
      ]
    ]
  ]
