-- ===== src/Server/Udp.antt =====
-- `Decode` of sqelf/src/server/udp.rs: each datagram is a frame.
use seq_input_gelf.Common.{[], ◌∷◌, Option, none}
use seq_input_gelf.Receive.Outcome.{Bytes, Result}
use seq_input_gelf.Receive.Message.{Message}
use seq_input_gelf.Server.Received.{Received, into_received}

module _ {S : Type 0} (receive : Bytes → S → S × Result (Option Message)) where
  -- `Decoder::decode`: the buffer that it leaves, the receiver's state, and the item.
  unfoldable pub decode : Bytes → S → Bytes × (S × Option Received)
  decode [] s = ([], (s, none))
  decode (b ∷ bs) s = let r = receive (b ∷ bs) s in ([], (r.0, into_received r.1))
