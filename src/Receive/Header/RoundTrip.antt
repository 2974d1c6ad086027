-- ===== src/Receive/Header/RoundTrip.antt =====
-- What a client encodes, the receiver's header parser reads back.
use native.Mathlib.Nat.{pow-suc}
use seq_input_gelf.Common.{
  ℕ, zero, suc, ◌+◌, ◌*◌, ◌/◌, ◌%◌, ◌^◌, ◌<◌, ◌≡◌, refl, [], ◌∷◌, ◌++◌, arith, length,
  length-append,
}
use seq_input_gelf.Receive.Outcome.{Bytes, ok}
use seq_input_gelf.Receive.Header.{from_be, to_be, read_fields, get, chunk}

from_be-append :
    (acc : ℕ) (xs : Bytes) (b : ℕ) → from_be acc (xs ++ b ∷ []) ≡ from_be acc xs * 256 + b
unfolding from_be
from_be-append acc [] b = refl
from_be-append acc (x ∷ xs) b = from_be-append (acc * 256 + x) xs b

length-to_be : (w n : ℕ) → length (to_be w n) ≡ w
unfolding to_be
length-to_be zero n = refl
length-to_be (suc w) n =
    omega (arith, length-append (to_be w (n / 256)) ((n % 256) ∷ []), length-to_be w (n / 256))

pub from_be-to_be : (w n : ℕ) → n < 256 ^ w → from_be 0 (to_be w n) ≡ n
unfolding to_be from_be
from_be-to_be zero n h = omega arith
from_be-to_be (suc w) n h = omega (
  arith,
  from_be-append 0 (to_be w (n / 256)) (n % 256),
  from_be-to_be w (n / 256) (omega (arith, pow-suc 256 w)),
)

-- A chunk that a client encodes is read back as it was meant, the data behind the header included.
pub get-chunk :
    (id seq_num seq_count : ℕ) (bytes : Bytes)
    → id < 2 ^ 64
    → seq_num < seq_count
    → get (chunk id seq_num seq_count bytes)
      ≡ ok (record { id = id; seq_num = seq_num; seq_count = seq_count }, bytes)
unfolding get read_fields chunk to_be
get-chunk id s t bytes h k = ground (arith, from_be-to_be 8 id h)
