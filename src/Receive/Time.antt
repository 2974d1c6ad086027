-- ===== src/Receive/Time.antt =====
-- The clock and the arrival keys of sqelf/src/receive.rs: `SystemTime`, `UniqueTimestamp`. Times are
-- in nanoseconds; that a time leaves the range of the platform's clock is not modelled.
use seq_input_gelf.Common.{
  ℕ, ◌+◌, ◌-◌, ◌*◌, ◌≡◌, ◌↔◌, Bool, true, ◌&&◌, ◌||◌, arith, ltb, leb, ◌==◌, if◌then◌else◌, Ord,
}
use seq_input_gelf.Receive.Outcome.{Error, Result, ok, err}

-- A reading of the clock: so long after the epoch, or so long before it, plus one nanosecond.
pub data SystemTime : Type 0 where
  since_epoch : ℕ → SystemTime
  before_epoch : ℕ → SystemTime

-- `SystemTime - Duration`.
unfoldable pub minus : SystemTime → ℕ → SystemTime
minus (since_epoch n) d = if leb d n then since_epoch (n - d) else before_epoch (d - n - 1)
minus (before_epoch n) d = before_epoch (n + d)

-- `duration_since(UNIX_EPOCH)`.
unfoldable pub duration_since_epoch : SystemTime → Result ℕ
duration_since_epoch (since_epoch n) = ok n
duration_since_epoch (before_epoch n) = err Error.clock

-- `Duration::from_millis`.
abbrev pub from_millis : ℕ → ℕ
from_millis ms = ms * 1_000_000

pub record UniqueTimestamp : Type 0 where
  pub arrival : ℕ
  pub counter : ℕ

-- The derived `PartialEq` and `Ord`: field by field, in order.
abbrev pub timestamp_eq : UniqueTimestamp → UniqueTimestamp → Bool
timestamp_eq a b = a.arrival == b.arrival && a.counter == b.counter

abbrev pub timestamp_lt : UniqueTimestamp → UniqueTimestamp → Bool
timestamp_lt a b = ltb a.arrival b.arrival || (a.arrival == b.arrival && ltb a.counter b.counter)

pub timestamp_eq_iff : (a b : UniqueTimestamp) → (timestamp_eq a b ≡ true) ↔ (a ≡ b)
timestamp_eq_iff a b = ground arith

instance abbrev pub timestamp_ord : Ord UniqueTimestamp
timestamp_ord = record {
  eq = record { beq = timestamp_eq; beq_iff = timestamp_eq_iff };
  lt = timestamp_lt;
}

-- `UniqueTimestamp::since`.
unfoldable pub since : SystemTime → ℕ → Result UniqueTimestamp
unfolding minus duration_since_epoch
since now duration = elim (duration_since_epoch (minus now duration)) [
  | ok d ↦ ok (record { arrival = d; counter = 0 })
  | err e ↦ err e
]
