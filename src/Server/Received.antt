-- ===== src/Server/Received.antt =====
-- `Received` and `OptionMessageExt::into_received` of sqelf/src/server/mod.rs.
use seq_input_gelf.Common.{Option, none, some, ◌≡◌, refl}
use seq_input_gelf.Receive.Outcome.{Error, Result, ok, err}
use seq_input_gelf.Receive.Message.{Message}

pub data Received : Type 0 where
  incomplete : Received
  complete : Message → Received
  error : Error → Received

-- `into_received`; the source's `Option` is always `Some`.
unfoldable pub into_received : Result (Option Message) → Option Received
into_received (ok (some msg)) = some (complete msg)
into_received (ok none) = some incomplete
into_received (err e) = some (error e)

-- Every result of the receiver becomes an item.
pub into_received-some : (r : Result (Option Message)) → (x : Received) × (into_received r ≡ some x)
unfolding into_received
into_received-some (ok (some msg)) = (complete msg, refl)
into_received-some (ok none) = (incomplete, refl)
into_received-some (err e) = (error e, refl)
