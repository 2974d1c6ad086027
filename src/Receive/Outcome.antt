-- ===== src/Receive/Outcome.antt =====
-- The results of the receiver's fallible functions: `anyhow::Result`, with an error for each
-- `bail!` and each failing `?` of sqelf/src/receive.rs.
use seq_input_gelf.Common.{ℕ, List, Option, none, some, ◌≡◌, refl, ◌⊎◌, inl, inr}

-- A `Bytes` buffer: each number is a byte.
abbrev pub Bytes : Type 0
Bytes = List ℕ

pub data Error : Type 0 where
  -- the system clock is before the epoch
  clock : Error
  -- the buffer cannot hold a chunk header
  too_small : Error
  -- "expected {} chunks but got {}"
  bad_sequence : ℕ → ℕ → Error
  -- "message expects {} chunks but the max allowed is {}"
  too_many_chunks : ℕ → ℕ → Error
  -- "chunk expected total {} is not consistent with previous value {}"
  inconsistent_total : ℕ → ℕ → Error

pub data Result {ℓ} (A : Type ℓ) : Type ℓ where
  ok : A → Result A
  err : Error → Result A

-- `Option::and_then`.
abbrev pub and_then {ℓ κ} : {A : Type ℓ} {B : Type κ} → Option A → (A → Option B) → Option B
and_then none f = none
and_then (some a) f = f a

-- To split on a computed result and keep the equation.
pub Result-cases {ℓ} :
    {A : Type ℓ} (r : Result A) → ((a : A) × (r ≡ ok a)) ⊎ ((e : Error) × (r ≡ err e))
Result-cases (ok a) = inl (a, refl)
Result-cases (err e) = inr (e, refl)
