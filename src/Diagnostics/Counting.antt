-- ===== src/Diagnostics/Counting.antt =====
-- `increment!` of sqelf/src/diagnostics.rs in a process that logs at `DEBUG`.
use seq_input_gelf.Common.{ℕ, ◌+◌, ◌%◌, ◌≡◌, refl, true}
use seq_input_gelf.Diagnostics.{Level, includes, increment, usize_mod}

pub increment_counting :
    (min_level n : ℕ)
    → includes min_level Level.debug ≡ true
    → increment min_level n ≡ (n + 1) % usize_mod
unfolding increment
increment_counting min_level n h = rw (h, increment) refl
