-- ===== src/Receive/Chunks.antt =====
-- `Chunks` and `Chunk` of sqelf/src/receive.rs: the pieces of one message that have arrived.
use seq_input_gelf.Common.{ℕ, List, [], Bool, ◌==◌, length, nat_ord}
use seq_input_gelf.Common.BTreeMap
use seq_input_gelf.Receive.Outcome.{Bytes}

pub record Chunk : Type 0 where
  pub seq : ℕ
  pub bytes : Bytes

pub record Chunks : Type 0 where
  pub expected_total : ℕ
  pub inner : List (ℕ × Bytes)

-- `Chunks::insert`: a chunk that comes again replaces the earlier one.
unfoldable pub insert : Chunk → Chunks → Chunks
insert chunk c = record c { inner = BTreeMap.insert chunk.seq chunk.bytes c.inner }

-- `Chunks::new`.
unfoldable pub new : ℕ → Chunk → Chunks
new expected_total chunk = record {
  expected_total = expected_total;
  inner = BTreeMap.insert chunk.seq chunk.bytes [];
}

unfoldable pub is_complete : Chunks → Bool
is_complete c = c.expected_total == length c.inner

-- `chunks.inner.into_iter().map(|(_, chunk)| chunk)`.
abbrev pub into_values : Chunks → List Bytes
into_values c = BTreeMap.values c.inner
