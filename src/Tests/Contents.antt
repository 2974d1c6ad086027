-- ===== src/Tests/Contents.antt =====
-- Messages that are read to their ends, with a decoder for a format that only marks its texts.
use seq_input_gelf.Common.{◌<◌, ℕ, ◌≡◌, refl, true, [], ◌∷◌, Option, none, some, arith}
use seq_input_gelf.Receive.Outcome.{Bytes}
use seq_input_gelf.Receive.Compression.{gzip, detect, peek_magic_bytes}
use seq_input_gelf.Receive.Message.{chunked, compression, detect_bytes}
use seq_input_gelf.Receive.Reader.Stream.{body, concat}
use seq_input_gelf.Receive.Contents.{Inflate, inflate, contents}
use seq_input_gelf.Receive.Contents.Laws.{contents_lem}
use seq_input_gelf.Receive.Contents.Compressed.{IsCodec, contents-chunked}
use seq_input_gelf.Receive.Readable.{Reading, readable}
use seq_input_gelf.Process.Run.{Parsers, parse_message, of_bytes}
use seq_input_gelf.Process.Run.Transport.{IsUtf8, parse_message-contents}
use seq_input_gelf.Tests.Values.{values, envelope, visit}
use seq_input_gelf.Process.Gelf.Texts.{deserialize_message}
use seq_input_gelf.Process.Str.{string, str, borrowed_str}

-- A stream is the magic bytes of gzip and the text itself.
abbrev deflate : Bytes → Bytes
deflate src = 31 ∷ 139 ∷ src

abbrev unmark : Bytes → Option Bytes
unmark [] = none
unmark (a ∷ []) = none
unmark (a ∷ b ∷ src) = some src

abbrev marks : Inflate
marks = record { gunzip = unmark; unzlib = λ src. none }

marks-IsCodec : IsCodec marks gzip deflate
unfolding inflate detect_bytes peek_magic_bytes detect
marks-IsCodec = record { undone = λ src. refl; marked = λ src. refl }

contents_lem_example :
    contents marks 3 (chunked ((1 ∷ 2 ∷ []) ∷ (3 ∷ 4 ∷ []) ∷ []))
    ≡ inflate marks
        (compression (chunked ((1 ∷ 2 ∷ []) ∷ (3 ∷ 4 ∷ []) ∷ [])))
        (body (chunked ((1 ∷ 2 ∷ []) ∷ (3 ∷ 4 ∷ []) ∷ [])))
contents_lem_example =
    contents_lem marks 3 (chunked ((1 ∷ 2 ∷ []) ∷ (3 ∷ 4 ∷ []) ∷ [])) (omega arith)

contents-chunked_example :
    contents marks 3 (chunked ((31 ∷ 139 ∷ 7 ∷ []) ∷ (8 ∷ []) ∷ [])) ≡ some (7 ∷ 8 ∷ [])
unfolding concat
contents-chunked_example =
    contents-chunked marks gzip deflate 3 (7 ∷ 8 ∷ []) (31 ∷ 139 ∷ 7 ∷ []) ((8 ∷ []) ∷ [])
      marks-IsCodec (omega arith) (omega arith) refl

-- Parsers that read one text, which they borrow from bytes and copy from a reader; two bytes fit inline.
abbrev pub parsers : Parsers values.Value ℕ
parsers = record {
  from_slice = λ src. some (visit borrowed_str envelope);
  from_text = λ text. some (visit borrowed_str envelope);
  from_reader = λ src. some (visit str envelope);
  from_utf8 = λ src. some "text";
  from_utf8_lossy = λ src. "text";
  cached = string;
  capacity = 2;
}

pub utf8 : (src : Bytes) → IsUtf8 parsers src "text"
unfolding deserialize_message
utf8 src = record {
  valid = refl;
  same_parse = refl;
  same_reader = refl;
  lossless = refl;
  keeps = λ s. refl;
}

two_pieces : contents marks 3 (chunked ((31 ∷ 139 ∷ 7 ∷ []) ∷ (8 ∷ []) ∷ [])) ≡ some (7 ∷ 8 ∷ [])
unfolding concat
two_pieces =
    contents-chunked marks gzip deflate 3 (7 ∷ 8 ∷ []) (31 ∷ 139 ∷ 7 ∷ []) ((8 ∷ []) ∷ [])
      marks-IsCodec (omega arith) (omega arith) refl

pub some_room : 0 < 3
some_room = omega arith

abbrev pub reading : Reading
reading = record { inflates = marks; buffer = 3; room = some_room }

parse_message-contents_example :
    parse_message values
      (readable reading)
      parsers
      true
      (chunked ((31 ∷ 139 ∷ 7 ∷ []) ∷ (8 ∷ []) ∷ []))
    ≡ of_bytes values parsers true (7 ∷ 8 ∷ [])
parse_message-contents_example =
    parse_message-contents values parsers (readable reading) true
      (chunked ((31 ∷ 139 ∷ 7 ∷ []) ∷ (8 ∷ []) ∷ [])) (7 ∷ 8 ∷ []) "text" (utf8 (7 ∷ 8 ∷ []))
      two_pieces
