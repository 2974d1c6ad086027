-- ===== src/Tests/Reader.antt =====
-- The reader of sqelf/src/receive.rs on a message of three chunks.
use seq_input_gelf.Common.{◌≡◌, [], ◌∷◌, take}
use seq_input_gelf.Receive.Message.{Message, chunked}
use seq_input_gelf.Receive.Reader.Stream.{body}
use seq_input_gelf.Receive.Reader.Body.{reads-body, sum}
use seq_input_gelf.Receive.Reader.{reads, open_msg, done}

abbrev message : Message
message = chunked ((1 ∷ 2 ∷ []) ∷ [] ∷ (3 ∷ 4 ∷ 5 ∷ []) ∷ [])

reads-body_example :
    reads (1 ∷ 3 ∷ 0 ∷ 2 ∷ []) (open_msg message)
    ≡ done (take (sum (1 ∷ 3 ∷ 0 ∷ 2 ∷ [])) (body message))
reads-body_example = reads-body message (1 ∷ 3 ∷ 0 ∷ 2 ∷ [])
