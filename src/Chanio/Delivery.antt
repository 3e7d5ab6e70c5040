-- ===== src/Chanio/Delivery.antt =====
-- What is written is what is read, where a reader and writers share a channel of
-- internal/chanio/chanio.go.
use dutctl.Base.{
  ℕ, zero, suc, ◌+◌, ◌-◌, ◌≡◌, ◌<◌, refl, sym, ◌∙◌, ap, true, false, Option, none, some, List, [],
  ◌∷◌, ◌++◌, arith, nat_eq, ℕ_discrete, leb, if◌then◌else◌, Text, length, length-append, Bool-cases,
  inl, inr,
}
use mathlib.Core.List.{append-nil, flatten}
use dutctl.Chanio.{
  Arrival, message, channel_closed, done_closed, Got, receive, read, receiver_takes, write,
}
use dutctl.Chanio.Streams.{
  bytes_of, got_of, receive-message, read-served, read-received, read-flow, length-take_positive,
}

-- The arrivals end with the close of the channel.
unfoldable pub Closes : List Arrival → Type 0
Closes [] = ⊥
Closes (message chunk ∷ rest) = Closes rest
Closes (channel_closed ∷ rest) = rest ≡ []
Closes (done_closed ∷ rest) = ⊥

-- What a call on such arrivals gives: some bytes, or the end of the stream.
Ended : Got → Type 0
Ended got =
    (got.eof ≡ true → got.buf ++ bytes_of got.waiting ≡ [])
    × (got.eof ≡ false → Closes got.waiting × (0 < length got.bytes))

receive-Closes :
    (from_buf : Text) (r : ℕ) (rest : List Arrival)
    → Closes rest
    → (got : Got) × (receive from_buf (suc r) [] rest ≡ some got) × Ended got
unfolding receive bytes_of Closes Ended ℕ_discrete
receive-Closes from_buf r [] c = absurd c
receive-Closes from_buf r (done_closed ∷ rest) c = absurd c
receive-Closes from_buf r (channel_closed ∷ rest) c =
    (_, refl, (λ _. rw (c, bytes_of) refl, λ h. absurd cc))
receive-Closes [] r (message [] ∷ rest) c = receive-Closes [] r rest c
receive-Closes [] r (message (x ∷ t) ∷ rest) c = (
  got_of [] (suc r) (x ∷ t) rest,
  receive-message [] (suc r) (x ∷ t) rest (omega arith),
  (λ h. absurd cc, λ _. (c, omega arith)),
)
receive-Closes (y ∷ f) r (message t ∷ rest) c = (
  got_of (y ∷ f) (suc r) t rest,
  receive-message (y ∷ f) (suc r) t rest (omega arith),
  (λ h. absurd cc, λ _. (c, omega arith)),
)

read-Closes :
    (buf : Text) (w : ℕ) (rest : List Arrival)
    → Closes rest
    → (got : Got) × (read buf (suc w) rest ≡ some got) × Ended got
unfolding Ended
read-Closes buf w rest c = elim (Bool-cases (leb (suc w) (length buf))) [
  | inl e ↦ (
    _,
    read-served buf (suc w) rest e,
    (λ h. absurd cc, λ _. (c, length-take_positive w buf (ground (arith, e)))),
  )
  | inr e ↦
      let (got, e', ended) = receive-Closes buf (w - length buf) rest c in
      (got, read-received buf (suc w) rest e (w - length buf) (ground (arith, e)) ∙ e', ended)
]

-- A consumer that reads `suc w` bytes at a time until the end of the stream, as io.ReadAll does.
unfoldable pub read_all : ℕ → ℕ → Text → List Arrival → Option Text
read_all zero w buf rest = none
read_all (suc n) w buf rest = elim (read buf (suc w) rest) [
  | none ↦ none
  | some got ↦ if got.eof then some got.bytes else elim (read_all n w got.buf got.waiting) [
    | none ↦ none
    | some more ↦ some (got.bytes ++ more)
  ]
]

read_all-flow :
    (n w : ℕ) (buf : Text) (rest : List Arrival)
    → Closes rest
    → length buf + length (bytes_of rest) < n
    → read_all n w buf rest ≡ some (buf ++ bytes_of rest)
unfolding read_all Ended
read_all-flow zero w buf rest c h = absurd omega (arith, h)
read_all-flow (suc n) w buf rest c h =
    let (got, e, ended) = read-Closes buf w rest c in
    let all = read-flow buf (suc w) rest e in
    elim (Bool-cases got.eof) [
      | inl b ↦
          rw (read_all, e, b)
            (ap some
              (sym (append-nil got.bytes) ∙ ap (λ t. got.bytes ++ t) (sym (ended.0 b)) ∙ all))
      | inr b ↦
          let (closes, some_bytes) = ended.1 b in
          let shorter : length got.buf + length (bytes_of got.waiting) < n = omega (
            arith,
            ap length all,
            length-append got.bytes (got.buf ++ bytes_of got.waiting),
            length-append got.buf (bytes_of got.waiting),
            length-append buf (bytes_of rest),
          ) in
          rw (read_all, e, b, read_all-flow n w got.buf got.waiting closes shorter) (ap some all)
    ]

-- The messages of writers whose messages are taken.
unfoldable pub sent : List Text → List Arrival
unfolding write
sent [] = channel_closed ∷ []
sent (bytes ∷ more) = elim (write bytes receiver_takes).2 [
  | none ↦ sent more
  | some chunk ↦ message chunk ∷ sent more
]

sent-Closes : (writes : List Text) → Closes (sent writes)
unfolding sent Closes
sent-Closes [] = refl
sent-Closes (bytes ∷ more) = sent-Closes more

bytes_of-sent : (writes : List Text) → bytes_of (sent writes) ≡ flatten writes
unfolding sent bytes_of flatten
bytes_of-sent [] = refl
bytes_of-sent (bytes ∷ more) = ap (λ t. bytes ++ t) (bytes_of-sent more)

-- What is written to a channel that is closed afterwards is what a consumer reads from it, byte for
-- byte: reading `suc w` bytes at a time ends, with the written bytes in order, whatever the sizes of
-- the writes and of the slice, after at most one call more than there are bytes.
pub read_all-sent :
    (w : ℕ) (writes : List Text)
    → read_all (suc (length (flatten writes))) w [] (sent writes) ≡ some (flatten writes)
read_all-sent w writes =
    rw (← bytes_of-sent writes)
      (read_all-flow _ w [] (sent writes) (sent-Closes writes) (omega arith))
