-- ===== src/Diagnostics.antt =====
-- sqelf/src/diagnostics.rs: the levels of the self log, the process-wide minimum, and the
-- `increment!` of a metric.
pub mod Counting
pub mod Samples
pub mod Events
pub mod Lifecycle
use Prim.Native.String.{String}
use text.Mathlib.Text.{◌==◌ as str_eq}
use seq_input_gelf.Common.{
  Option, none, some, ℕ, zero, suc, ◌+◌, ◌%◌, ◌^◌, Bool, leb, if◌then◌else◌,
}

pub data Level : Type 0 where
  debug error : Level

-- `Level::from_str`.
unfoldable pub from_str : String → Option Level
from_str s =
    if str_eq s "DEBUG"
    then some Level.debug
    else (if str_eq s "ERROR" then some Level.error else none)

unfoldable pub to_usize : Level → ℕ
to_usize Level.debug = 0
to_usize Level.error = 1

unfoldable pub from_usize : ℕ → Level
from_usize zero = Level.debug
from_usize (suc _) = Level.error

-- `MIN_LEVEL` is an atomic number; it is 0 until `init` sets it.
unfoldable pub set_min_level : Level → ℕ
set_min_level = to_usize

unfoldable pub get_min_level : ℕ → Level
get_min_level = from_usize

-- `MIN_LEVEL.includes(level)`.
unfoldable pub includes : ℕ → Level → Bool
unfolding get_min_level from_usize to_usize
includes min_level level = leb (to_usize (get_min_level min_level)) (to_usize level)

abbrev pub usize_mod : ℕ
usize_mod = 2 ^ 64

-- `increment!`: `fetch_add` wraps, and only a process that logs at `DEBUG` counts.
unfoldable pub increment : ℕ → ℕ → ℕ
unfolding includes
increment min_level n = if includes min_level Level.debug then (n + 1) % usize_mod else n
