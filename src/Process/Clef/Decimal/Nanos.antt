-- ===== src/Process/Clef/Decimal/Nanos.antt =====
-- The nanoseconds of `Timestamp::from_decimal` (sqelf/src/process/clef.rs).
use native.Mathlib.Omega.{pow_step}
use seq_input_gelf.Common.{ℕ, zero, suc, ◌+◌, ◌-◌, ◌*◌, ◌^◌, ◌≤◌, ◌<◌, ◌≡◌, arith, ap}
use seq_input_gelf.Process.Clef.Decimal.{value, nanos}

-- A fraction of `s` digits, with `k` zeros behind it, has `s + k` digits.
below : (f s k : ℕ) → f < 10 ^ s → f * 10 ^ k < 10 ^ (s + k)
below f s zero h = grind (arith, h)
below f s (suc k) h =
    let r = below (f * 10) (suc s) k (omega (arith, h, pow_step 10 s)) in
    let e : s + suc k ≡ suc s + k = omega arith in rw (e, pow_step 10 k) (grind (arith, r))

-- A fraction of at most nine digits, of which `f` is the number that they make, is a number of
-- nanoseconds below one second, and the arithmetic on `u32` does not overflow.
pub nanos-lt :
    (f s : ℕ)
    → s ≤ 9
    → f < 10 ^ s
    → (nanos f s ≡ value (f * 10 ^ (9 - s))) × (f * 10 ^ (9 - s) < 10 ^ 9)
unfolding nanos
nanos-lt f s h k =
    let e : s + (9 - s) ≡ 9 = omega (arith, h) in
    let p : 10 ^ (s + (9 - s)) ≡ 10 ^ 9 = ap (λ (n : ℕ). 10 ^ n) e in
    let b : f * 10 ^ (9 - s) < 10 ^ 9 = omega (arith, p, below f s (9 - s) k) in
    (ground (arith, h, b), b)
