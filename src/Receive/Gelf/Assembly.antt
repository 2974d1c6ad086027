-- ===== src/Receive/Gelf/Assembly.antt =====
-- The chunks of one message, offered to its slot in any order, are put together in the order of
-- their numbers.
use mathlib.Core.Option.{get_or}
use seq_input_gelf.Common.{
  ℕ, zero, suc, ◌+◌, ◌-◌, ◌≤◌, ◌<◌, ◌≡◌, ◌≢◌, refl, sym, ap, ◌∙◌, List, [], ◌∷◌, Option, none, some,
  arith, nat_ord, map, ◌==◌, if◌then◌else◌, length, length-map, fun_ext,
}
use seq_input_gelf.Common.BTreeMap
use seq_input_gelf.Common.BTreeMap.{Rising, KeysBelow, values}
use seq_input_gelf.Common.Entries.{All}
use seq_input_gelf.Receive.Outcome.{Bytes, Result, ok}
use seq_input_gelf.Receive.Message.{Message, chunked, new_chunked}
use seq_input_gelf.Receive.Chunks.{Chunk, Chunks, into_values}
use seq_input_gelf.Receive.Chunks
use seq_input_gelf.Receive.Gelf.Slot.{Slot, offer, add_chunk}

-- The answers of a slot to chunks that come one after the other, and what the slot holds then.
unfoldable pub offers : List (ℕ × Chunk) → Slot → Slot × List (Result (Option Message))
offers [] s = (s, [])
offers ((n, c) ∷ cs) s = let r = offer n c s in let rest = offers cs r.0 in (rest.0, r.1 ∷ rest.1)

-- The data of the first chunk with a number.
unfoldable pub payload : ℕ → List Chunk → Option Bytes
payload i [] = none
payload i (c ∷ cs) = if c.seq == i then some c.bytes else payload i cs

-- `k` pieces from number `i` on.
unfoldable pub in_order : ℕ → ℕ → (ℕ → Option Bytes) → List Bytes
in_order zero i f = []
in_order (suc k) i f = get_or (f i) [] ∷ in_order k (suc i) f

-- No two chunks have one number.
abbrev pub Distinct : List Chunk → Type 0
Distinct [] = Unit {0}
Distinct (c ∷ cs) = All (λ (d : Chunk). c.seq ≢ d.seq) cs × Distinct cs

abbrev pub NumberedBelow : ℕ → List Chunk → Type 0
NumberedBelow n cs = All (λ (c : Chunk). c.seq < n) cs

-- Nothing until the last chunk, then the message.
unfoldable pub answers : ℕ → Message → List (Result (Option Message))
answers zero m = ok (some m) ∷ []
answers (suc k) m = ok none ∷ answers k m

in_order_cong :
    (k i : ℕ) (f g : ℕ → Option Bytes)
    → ((j : ℕ) → i ≤ j → f j ≡ g j)
    → in_order k i f ≡ in_order k i g
unfolding in_order
in_order_cong zero i f g h = refl
in_order_cong (suc k) i f g h =
    cc (h i (omega arith), in_order_cong k (suc i) f g (λ j le. h j (omega arith)))

-- The values of a map that has every key from `lo` below `n`.
values-in_order :
    (lo n : ℕ) (m : List (ℕ × Bytes))
    → Rising lo m
    → KeysBelow n m
    → lo + length m ≡ n
    → values m ≡ in_order (length m) lo (λ i. BTreeMap.get i m)
unfolding in_order BTreeMap.get
values-in_order lo n [] r b h = refl
values-in_order lo n ((k, v) ∷ m) r b h =
    let at : k ≡ lo = omega (arith, BTreeMap.length-Rising (suc k) n m r.1 b.1 b.0) in
    let head_lem : v ≡ get_or (BTreeMap.get lo ((k, v) ∷ m)) [] = ground arith in
    cc (
      head_lem,
      values-in_order (suc lo) n m (rw at at r.1) b.1 (omega arith),
      in_order_cong (length m) (suc lo) (λ i. BTreeMap.get i m) (λ i. BTreeMap.get i ((k, v) ∷ m))
          (λ j le. ground arith),
    )

-- What the chunks so far and those to come say of each number.
either_payload : List (ℕ × Bytes) → List Chunk → ℕ → Option Bytes
either_payload m cs i = elim (BTreeMap.get i m) [ none ↦ payload i cs | some b ↦ some b ]

-- The chunks that are still to come do not repeat a number that is there.
abbrev New : List (ℕ × Bytes) → List Chunk → Type 0
New m cs = All (λ (c : Chunk). BTreeMap.get c.seq m ≡ none) cs

insert-New :
    (c : Chunk) (m : List (ℕ × Bytes)) (cs : List Chunk)
    → All (λ (d : Chunk). c.seq ≢ d.seq) cs
    → New m cs
    → New (BTreeMap.insert c.seq c.bytes m) cs
insert-New c m [] a f = tt
insert-New c m (d ∷ cs) a f =
    (ground (arith, BTreeMap.get-insert c.seq d.seq c.bytes m), insert-New c m cs a.1 f.1)

either_payload-insert :
    (c : Chunk) (m : List (ℕ × Bytes)) (cs : List Chunk) (i : ℕ)
    → BTreeMap.get c.seq m ≡ none
    → either_payload (BTreeMap.insert c.seq c.bytes m) cs i ≡ either_payload m (c ∷ cs) i
unfolding either_payload payload
either_payload-insert c m cs i new = ground (arith, BTreeMap.get-insert c.seq i c.bytes m)

-- A whole message so far: its chunks in order, none missing or to come.
record Collects (n : ℕ) (m : List (ℕ × Bytes)) (cs : List Chunk) : Type 0 where
  rising : Rising 0 m
  within : KeysBelow n m
  sum : length m + length cs ≡ n
  new : New m cs
  distinct : Distinct cs
  numbered : NumberedBelow n cs

Collects-insert :
    (n : ℕ) (m : List (ℕ × Bytes)) (c : Chunk) (cs : List Chunk)
    → Collects n m (c ∷ cs)
    → Collects n (BTreeMap.insert c.seq c.bytes m) cs
Collects-insert n m c cs v = record {
  rising = BTreeMap.insert-Rising 0 c.seq c.bytes m (omega arith) v.rising;
  within = BTreeMap.insert-KeysBelow n c.seq c.bytes m v.numbered.0 v.within;
  sum = ground (arith, BTreeMap.length-insert 0 c.seq c.bytes m v.rising);
  new = insert-New c m cs v.distinct.0 v.new.1;
  distinct = v.distinct.1;
  numbered = v.numbered.1;
}

module _ (n : ℕ) (m : List (ℕ × Bytes)) (c : Chunk) where
  abbrev after : List (ℕ × Bytes)
  after = BTreeMap.insert c.seq c.bytes m

  values-after : Collects n m (c ∷ []) → values after ≡ in_order n 0 (either_payload m (c ∷ []))
  unfolding either_payload payload
  values-after v =
      let w = Collects-insert n m c [] v in
      let size : length after ≡ n = omega (arith, w.sum) in
      values-in_order 0 n after w.rising w.within (omega arith)
      ∙ rw size (
          in_order_cong n 0 (λ i. BTreeMap.get i after) (either_payload m (c ∷ []))
            (λ i _. sym (either_payload_nil i) ∙ either_payload-insert c m [] i v.new.0))
    where
      either_payload_nil : (i : ℕ) → either_payload after [] i ≡ BTreeMap.get i after
      either_payload_nil i = ground arith

  offer_last :
      Collects n m (c ∷ [])
      → offer n c (some (record { expected_total = n; inner = m }))
        ≡ (none, ok (some (chunked (in_order n 0 (either_payload m (c ∷ []))))))
  unfolding offer add_chunk Chunks.insert Chunks.is_complete new_chunked
  offer_last v =
      ground (arith, Collects-insert n m c [] v, values-after v, length-map after (λ e. e.1))

  offer_more :
      (d : Chunk) (cs : List Chunk)
      → Collects n m (c ∷ d ∷ cs)
      → offer n c (some (record { expected_total = n; inner = m }))
        ≡ (some (record { expected_total = n; inner = after }), ok none)
  unfolding offer add_chunk Chunks.insert Chunks.is_complete
  offer_more d cs v = ground (arith, Collects-insert n m c (d ∷ cs) v)

-- The slot of a message that has `m` and is owed `cs`.
collect :
    (n : ℕ) (m : List (ℕ × Bytes)) (c : Chunk) (cs : List Chunk)
    → Collects n m (c ∷ cs)
    → offers (map (λ d. (n, d)) (c ∷ cs)) (some (record { expected_total = n; inner = m }))
      ≡ (none, answers (length cs) (chunked (in_order n 0 (either_payload m (c ∷ cs)))))
unfolding offers answers
collect n m c [] v = rw (offer_last n m c v)
collect n m c (d ∷ cs) v = rw (offer_more n m c d cs v) (
    ap (λ (r : Slot × List (Result (Option Message))). (r.0, ok none ∷ r.1))
      (collect n (BTreeMap.insert c.seq c.bytes m) d cs (Collects-insert n m c (d ∷ cs) v)
        ∙ ap (λ (f : ℕ → Option Bytes). (none, answers (length cs) (chunked (in_order n 0 f))))
            (fun_ext (λ i. either_payload-insert c m (d ∷ cs) i v.new.0))))

-- Chunks that make up a message of `n`: as many as it has, numbered below `n`, no number twice.
pub record IsWhole (n : ℕ) (cs : List Chunk) : Type 0 where
  pub count : length cs ≡ n
  pub numbered : NumberedBelow n cs
  pub distinct : Distinct cs

-- Nothing has come of a whole message.
New-nil : (cs : List Chunk) → New [] cs
unfolding BTreeMap.get
New-nil [] = tt
New-nil (c ∷ cs) = (refl, New-nil cs)

IsWhole-Collects : (n : ℕ) (cs : List Chunk) → IsWhole n cs → Collects n [] cs
IsWhole-Collects n cs v = record {
  rising = tt;
  within = tt;
  sum = omega (arith, v.count);
  new = New-nil cs;
  distinct = v.distinct;
  numbered = v.numbered;
}

-- An empty slot that is offered all the chunks of a message of two or more, in any order, answers
-- nothing until the last one, and then the message with its data in the order of their numbers; the
-- slot is empty again.
pub offers_whole :
    (n : ℕ) (cs : List Chunk)
    → 1 < n
    → IsWhole n cs
    → offers (map (λ c. (n, c)) cs) none
      ≡ (none, answers (n - 1) (chunked (in_order n 0 (λ i. payload i cs))))
unfolding offers offer Chunks.new answers either_payload BTreeMap.get
offers_whole n [] h v = absurd (omega (arith, v.count))
offers_whole n (c ∷ []) h v = absurd (omega (arith, v.count))
offers_whole n (c ∷ d ∷ cs) h v =
    let e : n - 1 ≡ suc (length cs) = omega (arith, v.count) in
    let w = IsWhole-Collects n (c ∷ d ∷ cs) v in
    rw e (
      ap (λ (r : Slot × List (Result (Option Message))). (r.0, ok none ∷ r.1))
        (collect n (BTreeMap.insert c.seq c.bytes []) d cs (Collects-insert n [] c (d ∷ cs) w)
          ∙ ap (λ (f : ℕ → Option Bytes). (none, answers (length cs) (chunked (in_order n 0 f))))
              (fun_ext (λ i. either_payload-insert c [] (d ∷ cs) i w.new.0))))
