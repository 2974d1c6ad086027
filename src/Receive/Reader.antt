-- ===== src/Receive/Reader.antt =====
-- `ChunkRead` and `Reader` of sqelf/src/receive.rs: a message read as one stream of bytes. The
-- decoders of libflate are parameters.
pub mod Stream
pub mod Body
use seq_input_gelf.Common.{
  ℕ, zero, suc, ◌+◌, ◌-◌, min, true, false, List, [], ◌∷◌, ◌++◌, Option, none, some, ltb, ◌==◌,
  if◌then◌else◌, length, take, drop, get_elem?,
}
use seq_input_gelf.Receive.Outcome.{Bytes}
use seq_input_gelf.Receive.Compression.{Compression}
use seq_input_gelf.Receive.Message.{Message, single, chunked, compression}

pub record ChunkRead : Type 0 where
  pub chunk : ℕ
  pub cursor : ℕ
  pub msg : Message

-- A read gives the bytes that it wrote to the buffer; a slice past the end of a chunk is a panic.
pub data Read (A : Type 0) : Type 0 where
  done : A → Read A
  panicked : Read A
  out_of_fuel : Read A

-- A position in a message: the chunk, and the cursor within it.
pub record Place : Type 0 where
  pub chunk : ℕ
  pub cursor : ℕ

-- One turn of the loop over a chunk's readable bytes, with `n` bytes of the buffer left: where it
-- leaves the reader.
unfoldable pub advance : Bytes → ℕ → Place → Place
advance readable n p =
    let read = min (length readable) n in
    if read == length readable
    then record { chunk = p.chunk + 1; cursor = 0 }
    else record p { cursor = p.cursor + read }

-- The loop of `ChunkRead::read` over the chunks of a message; `out` is what is written so far.
unfoldable pub read_loop : ℕ → List Bytes → ℕ → Place → Bytes → Read (Bytes × Place)
read_loop zero chunks n p out = out_of_fuel
read_loop (suc fuel) chunks n p out = elim (n == 0) [
  | true ↦ done (out, p)
  | false ↦ elim (get_elem? chunks p.chunk) [
    | none ↦ done (out, p)
    | some bytes ↦ elim (ltb (length bytes) p.cursor) [
      | true ↦ panicked
      | false ↦
          let readable = drop p.cursor bytes in
          let read = min (length readable) n in
          read_loop fuel chunks (n - read) (advance readable n p) (out ++ take read readable)
    ]
  ]
]

-- Each turn but the last one finishes a chunk.
abbrev pub enough : List Bytes → ℕ
enough chunks = length chunks + 2

at_place : ChunkRead → Place → ChunkRead
at_place r p = record r { chunk = p.chunk; cursor = p.cursor }

-- `ChunkRead::read` into a buffer of `n` bytes.
unfoldable pub read_msg : Message → ℕ → Place → Read (Bytes × Place)
read_msg (single c bytes) n p =
    if n == 0
    then done ([], p)
    else (if ltb (length bytes) p.cursor
        then panicked
        else (let readable = drop p.cursor bytes in
            let read = min (length readable) n in
            done (take read readable, record p { cursor = p.cursor + read })))
read_msg (chunked chunks) n p = read_loop (enough chunks) chunks n p []

unfoldable pub read : ℕ → ChunkRead → Read (Bytes × ChunkRead)
unfolding at_place read_msg
read n r = elim (read_msg r.msg n (record { chunk = r.chunk; cursor = r.cursor })) [
  | done (bytes, p) ↦ done (bytes, at_place r p)
  | panicked ↦ panicked
  | out_of_fuel ↦ out_of_fuel
]

-- The reader that `into_reader` builds over a message: from its beginning.
unfoldable pub open_msg : Message → ChunkRead
open_msg msg = record { chunk = 0; cursor = 0; msg = msg }

-- `ReaderInner`, over the decoders of libflate.
pub data Reader (Gzip Zlib : Type 0) : Type 0 where
  uncompressed : ChunkRead → Reader Gzip Zlib
  gunzip : Gzip → Reader Gzip Zlib
  unzlib : Zlib → Reader Gzip Zlib

-- `MemRead::into_reader`. `new_gzip` and `new_zlib` stand for the constructors of those decoders,
-- which read a header and may fail.
module _ {Gzip Zlib : Type 0} (new_gzip : ChunkRead → Option Gzip)
    (new_zlib : ChunkRead → Option Zlib) where
  unfoldable pub into_reader : Message → Option (Reader Gzip Zlib)
  unfolding open_msg
  into_reader msg = elim (compression msg) [
    | none ↦ some (uncompressed (open_msg msg))
    | some Compression.gzip ↦ elim (new_gzip (open_msg msg)) [
      | none ↦ none
      | some d ↦ some (gunzip d)
    ]
    | some Compression.zlib ↦ elim (new_zlib (open_msg msg)) [
      | none ↦ none
      | some d ↦ some (unzlib d)
    ]
  ]

-- `Reader::read`: the decoders' own reads may fail, which is `none`.
module _ {Gzip Zlib : Type 0} (read_gzip : ℕ → Gzip → Option (Read (Bytes × Gzip)))
    (read_zlib : ℕ → Zlib → Option (Read (Bytes × Zlib))) where
  map_read : {A B : Type 0} → (A → B) → Read (Bytes × A) → Read (Bytes × B)
  map_read f (done (bytes, a)) = done (bytes, f a)
  map_read f panicked = panicked
  map_read f out_of_fuel = out_of_fuel

  unfoldable pub read_reader : ℕ → Reader Gzip Zlib → Option (Read (Bytes × Reader Gzip Zlib))
  unfolding map_read read
  read_reader n (uncompressed msg) = some (map_read uncompressed (read n msg))
  read_reader n (gunzip d) = elim (read_gzip n d) [
    | none ↦ none
    | some r ↦ some (map_read gunzip r)
  ]
  read_reader n (unzlib d) = elim (read_zlib n d) [
    | none ↦ none
    | some r ↦ some (map_read unzlib r)
  ]

-- Reads one after the other, with buffers of the given lengths: all the bytes that they write.
unfoldable pub reads : List ℕ → ChunkRead → Read Bytes
reads [] r = done []
reads (n ∷ ns) r = elim (read n r) [
  | done (bytes, r') ↦ elim (reads ns r') [
    | done rest ↦ done (bytes ++ rest)
    | panicked ↦ panicked
    | out_of_fuel ↦ out_of_fuel
  ]
  | panicked ↦ panicked
  | out_of_fuel ↦ out_of_fuel
]
