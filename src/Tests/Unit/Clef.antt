-- ===== src/Tests/Unit/Clef.antt =====
-- The unit tests of sqelf/src/process/clef.rs. A decimal is its sign, its digits and its scale; a time is
-- its seconds and nanoseconds since the epoch, which the platform keeps in 63 bits.
use native.Mathlib.Nat.{mod-lt}
use native.Mathlib.Omega.{pow_step}
use seq_input_gelf.Common.{
  ℕ, zero, suc, ◌-◌, ◌/◌, ◌^◌, ◌%◌, ◌<◌, ◌≡◌, refl, Bool, false, Option, none, some, ltb,
  if◌then◌else◌, arith,
}
use seq_input_gelf.Process.Clef.Decimal.{Decimal, Checked, value, from_decimal, nanos}

abbrev fract : Bool × (ℕ × ℕ) → Option ℕ
fract d = some (d.1.0 % 10 ^ d.1.1)

pow_pos : (k : ℕ) → zero < 10 ^ k
pow_pos zero = omega arith
pow_pos (suc k) = omega (arith, pow_step 10 k, pow_pos k)

decimals_fract : (d : Bool × (ℕ × ℕ)) (n : ℕ) → fract d ≡ some n → n < 10 ^ d.1.1
decimals_fract d n h = ground (arith, h, mod-lt d.1.0 (pow_pos d.1.1))

abbrev decimals : Decimal
decimals = record {
  Carrier = Bool × (ℕ × ℕ);
  is_sign_negative = λ d. d.0;
  trunc_to_u64 = λ d. let n = d.1.0 / 10 ^ d.1.1 in if ltb n (2 ^ 64) then some n else none;
  fract_digits = fract;
  scale = λ d. d.1.1;
  fract_digits-lt = decimals_fract;
}

abbrev checked_add : ℕ → ℕ → Option (ℕ × ℕ)
checked_add secs nanos = if ltb secs (2 ^ 63) then some (secs, nanos) else none

abbrev timestamp_from_decimal : Checked (Option (ℕ × ℕ))
timestamp_from_decimal = from_decimal decimals (0, 0) checked_add (false, (1666223567, 0))

abbrev timestamp_from_decimal_overflow : Checked (Option (ℕ × ℕ))
timestamp_from_decimal_overflow = from_decimal decimals (0, 0) checked_add (false, (2 ^ 64 - 1, 0))

-- Each test has the result its assertion asks for.
all_pass :
    (timestamp_from_decimal ≡ value (some (1666223567, 0)))
    × (timestamp_from_decimal_overflow ≡ value none)
unfolding from_decimal nanos
all_pass = (refl, refl)
