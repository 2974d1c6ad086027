-- ===== src/Server/Tcp/Timed/Polls.antt =====
-- A poll of the frames of a connection of sqelf/src/server/tcp.rs takes the next frame that is owed, or
-- reads all that has arrived.
use mathlib.Core.List.{append_assoc}
use seq_input_gelf.Common.{
  ◌≡◌, refl, sym, ap, ◌∙◌, List, [], ◌∷◌, ◌++◌, Option, none, some, ◌⊎◌, inl, inr,
}
use seq_input_gelf.Receive.Outcome.{Bytes, Result}
use seq_input_gelf.Receive.Message.{Message}
use seq_input_gelf.Receive.Reader.Stream.{concat}
use seq_input_gelf.Server.Received.{Received, into_received, into_received-some}
use seq_input_gelf.Server.Tcp.Decode.Segments.{frames}
use seq_input_gelf.Server.Tcp.Decode.{Connection, Answer, item, decode}
use seq_input_gelf.Server.Tcp.Decode.Stream.{
  receive_more, IsValid, IsLast, owed, decode-Takes, arrive-IsValid,
}
use seq_input_gelf.Server.Tcp.Timed.{poll_framed}

pub concat-append : (xs ys : List Bytes) → concat (xs ++ ys) ≡ concat xs ++ concat ys
unfolding concat
concat-append [] ys = refl
concat-append (x ∷ xs) ys =
    ap (◌++◌ x) (concat-append xs ys) ∙ sym (append_assoc x (concat xs) (concat ys))

module _ {S : Type 0} (receive : Bytes → S → S × Result (Option Message)) where
  -- A poll that has no item, and has read the socket to its end.
  pub record Asks (socket : List Bytes) (c : Connection S)
      (r : Answer × (List Bytes × Connection S)) : Type 0 where
    pub answer : r.0 ≡ item none
    pub emptied : r.1.0 ≡ []
    pub receiver : r.1.1.receiver ≡ c.receiver
    pub same : (later : Bytes) → owed receive c (concat socket ++ later) ≡ owed receive r.1.1 later
    pub settled : owed receive r.1.1 [] ≡ []
    pub last : IsLast receive r.1.1

  -- A poll whose item is what the receiver makes of the next frame.
  pub record Answers (socket : List Bytes) (c : Connection S)
      (r : Answer × (List Bytes × Connection S)) : Type 0 where
    pub bytes : Bytes
    pub received : Received
    pub made : into_received (receive bytes c.receiver).1 ≡ some received
    pub answer : r.0 ≡ item (some received)
    pub receiver : r.1.1.receiver ≡ (receive bytes c.receiver).0
    pub same :
        (later : Bytes)
        → owed receive c (concat socket ++ later)
          ≡ bytes ∷ owed receive r.1.1 (concat r.1.0 ++ later)

  abbrev pub Polls : List Bytes → Connection S → Answer × (List Bytes × Connection S) → Type 0
  Polls socket c r = IsValid receive r.1.1 × (Asks socket c r ⊎ Answers socket c r)

  -- Bytes that come to the buffer are the next ones.
  owed_more :
      (c : Connection S) (bytes later : Bytes)
      → owed receive c (bytes ++ later) ≡ owed receive (receive_more receive bytes c) later
  owed_more c bytes later =
      ap (frames c.decoder.max_size_bytes c.decoder.discarding)
        (sym (append_assoc c.src bytes later))

  -- What is owed once the first bytes of the socket are in the buffer.
  owed_read :
      (c polled : Connection S) (bytes : Bytes) (socket : List Bytes)
      → ((later : Bytes) → owed receive c later ≡ owed receive polled later)
      → (later : Bytes)
      → owed receive c (concat (bytes ∷ socket) ++ later)
        ≡ owed receive (receive_more receive bytes polled) (concat socket ++ later)
  unfolding concat
  owed_read c polled bytes socket same later =
      ap (owed receive c) (append_assoc bytes (concat socket) later)
      ∙ same (bytes ++ (concat socket ++ later))
      ∙ owed_more polled bytes (concat socket ++ later)

  -- A poll that reads asks for more, or answers, as the poll after the read does.
  Polls-read :
      (c polled : Connection S) (bytes : Bytes) (socket : List Bytes)
      (r : Answer × (List Bytes × Connection S))
      → ((later : Bytes) → owed receive c later ≡ owed receive polled later)
      → polled.receiver ≡ c.receiver
      → Polls socket (receive_more receive bytes polled) r
      → Polls (bytes ∷ socket) c r
  Polls-read c polled bytes socket r same kept (u, inl asks) = (
    u,
    inl (record {
      answer = asks.answer;
      emptied = asks.emptied;
      receiver = asks.receiver ∙ kept;
      same = λ later. owed_read c polled bytes socket same later ∙ asks.same later;
      settled = asks.settled;
      last = asks.last;
    }),
  )
  Polls-read c polled bytes socket r same kept (u, inr answers) = (
    u,
    inr (record {
      bytes = answers.bytes;
      received = answers.received;
      made = ap (λ (s : S). into_received (receive answers.bytes s).1) (sym kept) ∙ answers.made;
      answer = answers.answer;
      receiver = answers.receiver ∙ ap (λ (s : S). (receive answers.bytes s).0) kept;
      same = λ later. owed_read c polled bytes socket same later ∙ answers.same later;
    }),
  )

  pub poll_framed-Polls :
      (socket : List Bytes) (c : Connection S)
      → IsValid receive c
      → Polls socket c (poll_framed receive socket c)
  unfolding poll_framed concat
  poll_framed-Polls [] c v =
      let (w, taken) = decode-Takes receive c v in
      (
        w,
        elim taken [
          | inl (a, same, kept, done, last) ↦ inl (record {
            answer = a;
            emptied = refl;
            receiver = kept;
            same = same;
            settled = done;
            last = last;
          })
          | inr (f, a, moved, same) ↦
              let (x, e) = into_received-some (receive f c.receiver).1 in
              inr (record {
                bytes = f;
                received = x;
                made = e;
                answer = a ∙ ap item e;
                receiver = moved;
                same = same;
              })
        ],
      )
  poll_framed-Polls (bytes ∷ socket) c v =
      let (w, taken) = decode-Takes receive c v in
      let polled = (decode receive c).0 in
      elim taken [
        | inl (a, same, kept, _, _) ↦
            let rest =
              poll_framed-Polls socket (receive_more receive bytes polled)
                (arrive-IsValid receive bytes polled w) in
            rw (a, poll_framed)
              (Polls-read c polled bytes socket
                (poll_framed receive socket (receive_more receive bytes polled)) same kept rest)
        | inr (f, a, moved, same) ↦
            let (x, e) = into_received-some (receive f c.receiver).1 in
            rw (a ∙ ap item e, poll_framed)
              (
                w,
                inr (record {
                  bytes = f;
                  received = x;
                  made = e;
                  answer = refl;
                  receiver = moved;
                  same = λ later. same (concat (bytes ∷ socket) ++ later);
                }),
              )
      ]
