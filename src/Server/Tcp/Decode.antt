-- ===== src/Server/Tcp/Decode.antt =====
-- `Decode` of sqelf/src/server/tcp.rs: a stream of bytes cut into frames at its null bytes. The
-- buffer `src` is the caller's; a frame goes to `receive`, a parameter with a state of its own.
pub mod Segments
pub mod Framing
pub mod Loop
pub mod Stream
pub mod Eof
use seq_input_gelf.Common.{
  ℕ, zero, suc, ◌+◌, ◌-◌, ◌*◌, ◌^◌, min, Bool, true, false, List, [], ◌∷◌, Option, none, some, ltb,
  ◌==◌, if◌then◌else◌, length, take, drop,
}
use seq_input_gelf.Receive.Outcome.{Bytes, Result}
use seq_input_gelf.Receive.Message.{Message}
use seq_input_gelf.Server.Received.{Received, into_received}
use seq_input_gelf.Server.Metrics.{Metrics, count_overflow}

pub record Decode : Type 0 where
  pub max_size_bytes : ℕ
  pub read_head : ℕ
  pub discarding : Bool
  pub metrics : Metrics

-- `Decode::new`.
unfoldable pub new : ℕ → Metrics → Decode
new max_size_bytes metrics = record {
  max_size_bytes = max_size_bytes;
  read_head = 0;
  discarding = false;
  metrics = metrics;
}

-- `iter().position(|b| *b == b'\0')`.
unfoldable pub position : Bytes → Option ℕ
position [] = none
position (b ∷ bs) =
    if b == 0 then some 0 else elim (position bs) [ none ↦ none | some i ↦ some (suc i) ]

-- `max_size_bytes.saturating_add(1)`.
abbrev pub saturating_suc : ℕ → ℕ
saturating_suc n = min (n + 1) (2 ^ 64 - 1)

-- How the loop of `decode` ends: with a frame, with the need of more bytes, or with a panic, which is
-- a slice past the end of the buffer.
pub data Step : Type 0 where
  frame : Bytes → Step
  more : Step
  panicked : Step
  out_of_fuel : Step

-- The loop `'read_frame`, with the decoder and the buffer that it leaves.
unfoldable pub next_frame : ℕ → Decode → Bytes → Step × Decode × Bytes
next_frame zero d src = (out_of_fuel, d, src)
next_frame (suc fuel) d src = elim (ltb (length src) d.read_head) [
  | true ↦ (panicked, d, src)
  | false ↦
      let read_to = min (saturating_suc d.max_size_bytes) (length src) in
      elim (position (drop d.read_head src)) [
        | some offset ↦ elim d.discarding [
          | false ↦
              let frame_end = offset + d.read_head in
              elim (ltb d.max_size_bytes frame_end) [
                | true ↦
                    next_frame fuel
                      (record d { discarding = true; metrics = count_overflow d.metrics }) src
                | false ↦ (
                  frame (take frame_end src),
                  record d { read_head = 0 },
                  drop (frame_end + 1) src,
                )
              ]
          | true ↦
              next_frame fuel (record d { discarding = false; read_head = 0 })
                (drop (offset + d.read_head + 1) src)
        ]
        | none ↦ elim d.discarding [
          | false ↦ elim (ltb d.max_size_bytes (length src)) [
            | true ↦
                next_frame fuel (record d { discarding = true; metrics = count_overflow d.metrics })
                  src
            | false ↦ (more, record d { read_head = read_to }, src)
          ]
          | true ↦
              let rest = drop read_to src in
              elim rest [
                | [] ↦ (more, record d { read_head = 0 }, [])
                | b ∷ bs ↦ next_frame fuel (record d { read_head = 0 }) (b ∷ bs)
              ]
        ]
      ]
]

-- Each turn drops bytes or starts to discard.
abbrev pub enough : Bytes → ℕ
enough src = 2 * length src + 2

-- A call of the decoder: its answer, or its panic.
pub data Answer : Type 0 where
  item : Option Received → Answer
  panic : Answer

-- A connection: its decoder, its buffer, and the state of its receiver.
pub record Connection (S : Type 0) : Type 0 where
  pub decoder : Decode
  pub src : Bytes
  pub receiver : S

module _ {S : Type 0} (receive : Bytes → S → S × Result (Option Message)) where
  -- What a call does with the end of its loop.
  unfoldable pub finish : Connection S → Step × Decode × Bytes → Connection S × Answer
  finish c (frame bytes, d, rest) =
      let (s, result) = receive bytes c.receiver in
      (record { decoder = d; src = rest; receiver = s }, item (into_received result))
  finish c (more, d, rest) = (record c { decoder = d; src = rest }, item none)
  finish c (panicked, d, rest) = (c, panic)
  finish c (out_of_fuel, d, rest) = (c, panic)

  -- `Decoder::decode`. It always returns `Ok`.
  unfoldable pub decode : Connection S → Connection S × Answer
  unfolding finish
  decode c = finish c (next_frame (enough c.src) c.decoder c.src)

  -- What `decode_eof` does when `decode` finds no frame: what is left is the last frame.
  unfoldable pub last_frame : Connection S → Connection S × Answer
  last_frame c = elim c.src [
    | [] ↦ (c, item none)
    | b ∷ bs ↦
        let (s, result) = receive (b ∷ bs) c.receiver in
        (
          record { decoder = record c.decoder { read_head = 0 }; src = []; receiver = s },
          item (into_received result),
        )
  ]

  -- `Decoder::decode_eof`.
  unfoldable pub decode_eof : Connection S → Connection S × Answer
  unfolding decode last_frame
  decode_eof c =
      let (c', answer) = decode c in
      elim answer [
        | item (some received) ↦ (c', item (some received))
        | item none ↦ last_frame c'
        | panic ↦ (c', panic)
      ]
