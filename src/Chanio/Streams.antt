-- ===== src/Chanio/Streams.antt =====
-- A reader of internal/chanio/chanio.go delivers the bytes of its messages, in order.
use dutctl.Base.{
  ℕ, zero, suc, ◌+◌, ◌-◌, ◌≡◌, ◌≤◌, ◌<◌, refl, sym, ◌∙◌, ap, subst, true, false, some, List, [],
  ◌∷◌, ◌++◌, arith, nat_eq, ℕ_discrete, ltb, leb, if◌then◌else◌, Text, length, take, drop,
  take-append-drop, length-append, Bool-cases, inl, inr,
}
use mathlib.Core.Option.{some-injective}
use mathlib.Core.List.{append_assoc}
use dutctl.Chanio.{Arrival, message, channel_closed, done_closed, Got, receive, read}

-- The bytes that have arrived.
unfoldable pub bytes_of : List Arrival → Text
bytes_of [] = []
bytes_of (message chunk ∷ rest) = chunk ++ bytes_of rest
bytes_of (_ ∷ rest) = bytes_of rest

-- The bytes that a call has returned, followed by those that the next one will find.
abbrev pub flow : Got → Text
flow got = got.bytes ++ (got.buf ++ bytes_of got.waiting)

length-take : (n : ℕ) (xs : Text) → length (take n xs) ≤ n
length-take zero xs = omega arith
length-take (suc n) [] = omega arith
length-take (suc n) (x ∷ xs) = omega (arith, length-take n xs)

take_all : (n : ℕ) (xs : Text) → length xs ≤ n → (take n xs ≡ xs) × (drop n xs ≡ [])
take_all zero [] h = (refl, refl)
take_all zero (x ∷ xs) h = absurd omega arith
take_all (suc n) [] h = (refl, refl)
take_all (suc n) (x ∷ xs) h = let (e, e') = take_all n xs (omega arith) in (ap (λ r. x ∷ r) e, e')

-- What is buffered of a message of which n bytes were copied.
unfoldable pub surplus : ℕ → Text → Text
surplus n chunk = if ltb n (length chunk) then drop n chunk else []

-- What `copy` takes of a message and what is buffered make up the message.
copied-kept :
    (room : ℕ) (chunk : Text) → take room chunk ++ surplus (length (take room chunk)) chunk ≡ chunk
unfolding surplus
copied-kept zero [] = refl
copied-kept zero (x ∷ c) = ground arith
copied-kept (suc r) [] = ground arith
copied-kept (suc r) (x ∷ c) = ground (arith, copied-kept r c)

got_message :
    (from_buf : Text) (room : ℕ) (chunk : Text) (rest : List Arrival)
    → flow (record {
      bytes = from_buf ++ take room chunk;
      eof = false;
      buf = surplus (length (take room chunk)) chunk;
      waiting = rest;
    })
      ≡ from_buf ++ (chunk ++ bytes_of rest)
got_message from_buf room chunk rest =
    append_assoc from_buf (take room chunk) _
    ∙ ap (λ t. from_buf ++ t)
        (sym (append_assoc (take room chunk) _ (bytes_of rest))
          ∙ ap (λ t. t ++ bytes_of rest) (copied-kept room chunk))

-- What a message gives of which there is room for some, or that follows bytes of the buffer.
abbrev pub got_of : Text → ℕ → Text → List Arrival → Got
got_of from_buf room chunk rest = record {
  bytes = from_buf ++ take room chunk;
  eof = false;
  buf = surplus (length (take room chunk)) chunk;
  waiting = rest;
}

pub receive-message :
    (from_buf : Text) (room : ℕ) (chunk : Text) (rest : List Arrival)
    → 0 < length from_buf + length (take room chunk)
    → receive from_buf room [] (message chunk ∷ rest) ≡ some (got_of from_buf room chunk rest)
unfolding receive surplus
receive-message from_buf room chunk rest h = ground arith

receive-flow :
    (from_buf : Text) (r : ℕ) (rest : List Arrival) {got : Got}
    → receive from_buf (suc r) [] rest ≡ some got
    → flow got ≡ from_buf ++ bytes_of rest
unfolding receive bytes_of surplus ℕ_discrete
receive-flow from_buf r [] h = ground arith
receive-flow from_buf r (done_closed ∷ rest) h = ground arith
receive-flow from_buf r (channel_closed ∷ rest) h = ground arith
receive-flow [] r (message [] ∷ rest) h = receive-flow [] r rest h
receive-flow [] r (message (x ∷ c) ∷ rest) h =
    ap flow
      (sym (some-injective _ _ (sym (receive-message [] (suc r) (x ∷ c) rest (omega arith)) ∙ h)))
    ∙ got_message [] (suc r) (x ∷ c) rest
receive-flow (y ∷ f) r (message c ∷ rest) h =
    ap flow
      (sym (some-injective _ _ (sym (receive-message (y ∷ f) (suc r) c rest (omega arith)) ∙ h)))
    ∙ got_message (y ∷ f) (suc r) c rest

pub read-served :
    (buf : Text) (want : ℕ) (rest : List Arrival)
    → leb want (length buf) ≡ true
    → read buf want rest
      ≡ some (record { bytes = take want buf; eof = false; buf = drop want buf; waiting = rest })
unfolding read
read-served buf want rest h = rw (h, read) refl

pub read-received :
    (buf : Text) (want : ℕ) (rest : List Arrival)
    → leb want (length buf) ≡ false
    → (n : ℕ) → want ≡ suc n + length buf
    → read buf want rest ≡ receive buf (suc n) [] rest
unfolding read
read-received buf want rest h n k =
    let (t, d) = take_all want buf (ground (arith, h)) in
    let room : want - length buf ≡ suc n = omega (arith, k) in
    rw (h, t, d, read) (ground (arith, room, k))

-- A call returns the next bytes of the stream: what it returns, what it buffers and what has not
-- been looked at make up what was buffered and had arrived, in order and without a loss, for every
-- size of the slice.
pub read-flow :
    (buf : Text) (want : ℕ) (rest : List Arrival) {got : Got}
    → read buf want rest ≡ some got
    → flow got ≡ buf ++ bytes_of rest
read-flow buf want rest h = elim (Bool-cases (leb want (length buf))) [
  | inl e ↦
      ap flow (sym (some-injective _ _ (sym (read-served buf want rest e) ∙ h)))
      ∙ sym (append_assoc (take want buf) _ _)
      ∙ ap (λ t. t ++ bytes_of rest) (take-append-drop want buf)
  | inr e ↦
      receive-flow buf (want - suc (length buf)) rest
        (sym (read-received buf want rest e (want - suc (length buf)) (ground (arith, e))) ∙ h)
]

pub length-take_positive : (w : ℕ) (buf : Text) → 0 < length buf → 0 < length (take (suc w) buf)
length-take_positive w [] h = absurd omega arith
length-take_positive w (x ∷ buf) h = omega arith

got_of-IsContract :
    (from_buf : Text) (room : ℕ) (chunk : Text) (rest : List Arrival)
    → 0 < length from_buf + length (take room chunk)
    → let got = got_of from_buf room chunk rest in
      (length got.bytes ≤ length from_buf + room) × (got.eof ≡ false → 0 < length got.bytes)
got_of-IsContract from_buf room chunk rest h = (
  omega (arith, length-append from_buf (take room chunk), length-take room chunk),
  λ _. omega (arith, h, length-append from_buf (take room chunk)),
)

receive-IsContract :
    (from_buf : Text) (r : ℕ) (rest : List Arrival) {got : Got}
    → receive from_buf (suc r) [] rest ≡ some got
    → (length got.bytes ≤ length from_buf + suc r) × (got.eof ≡ false → 0 < length got.bytes)
unfolding receive ℕ_discrete
receive-IsContract from_buf r [] h = ground arith
receive-IsContract from_buf r (done_closed ∷ rest) h = ground arith
receive-IsContract from_buf r (channel_closed ∷ rest) h = ground arith
receive-IsContract [] r (message [] ∷ rest) h = receive-IsContract [] r rest h
receive-IsContract [] r (message (x ∷ c) ∷ rest) {got} h =
    subst
      (λ (g : Got).
        (length g.bytes ≤ length {A = ℕ} [] + suc r) × (g.eof ≡ false → 0 < length g.bytes))
      (some-injective _ _ (sym (receive-message [] (suc r) (x ∷ c) rest (omega arith)) ∙ h))
      (got_of-IsContract [] (suc r) (x ∷ c) rest (omega arith))
receive-IsContract (y ∷ f) r (message c ∷ rest) {got} h =
    subst
      (λ (g : Got).
        (length g.bytes ≤ length (y ∷ f) + suc r) × (g.eof ≡ false → 0 < length g.bytes))
      (some-injective _ _ (sym (receive-message (y ∷ f) (suc r) c rest (omega arith)) ∙ h))
      (got_of-IsContract (y ∷ f) (suc r) c rest (omega arith))

-- `io.Reader`'s contract for a slice that is not empty: a call returns at most as many bytes as the
-- slice has room for, and at least one unless the stream has ended.
pub read-IsContract :
    (buf : Text) (w : ℕ) (rest : List Arrival) {got : Got}
    → read buf (suc w) rest ≡ some got
    → (length got.bytes ≤ suc w) × (got.eof ≡ false → 0 < length got.bytes)
read-IsContract buf w rest {got} h = elim (Bool-cases (leb (suc w) (length buf))) [
  | inl e ↦
      subst (λ (g : Got). (length g.bytes ≤ suc w) × (g.eof ≡ false → 0 < length g.bytes))
        (some-injective _ _ (sym (read-served buf (suc w) rest e) ∙ h))
        (length-take (suc w) buf, λ _. length-take_positive w buf (ground (arith, e)))
  | inr e ↦
      let (most, some_bytes) =
        receive-IsContract buf (w - length buf) rest
          (sym (read-received buf (suc w) rest e (w - length buf) (ground (arith, e))) ∙ h) in
      (ground (arith, most, e), some_bytes)
]
