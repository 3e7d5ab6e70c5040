-- ===== src/Serial/Engine/Bounds.antt =====
-- Memory and output of the loops of pkg/module/serial/engine.go.
use mathlib.Core.List.{append-nil, append_assoc}
use dutctl.Base.{
  ℕ, zero, suc, ◌+◌, ◌-◌, ◌≡◌, ◌≢◌, ◌≤◌, refl, ap, String, Bool, true, false, Option, none, some,
  List, [], ◌∷◌, ◌++◌, arith, ◌==◌, nat_eq, if◌then◌else◌, length, length-append, length-drop, drop,
  All, Text, Bool-cases, Option-cases, inl, inr,
}
use dutctl.Serial.Escape.{read_chunk, max_remainder, seq_end, strip_from, strip_escapes, clean}
use dutctl.Serial.Escape.Chunks.{clean_all}
use dutctl.Serial.Engine.{
  match_window, Engine, Turn, Ending, waiting, cap_buffer, forward, read_turn, read_until,
  pump_turn, pump,
}

length-strip_from : (k : ℕ) (s : Text) → length (strip_from k s).0 ≤ length s
unfolding strip_from
length-strip_from zero [] = omega arith
length-strip_from (suc k) [] = omega arith
length-strip_from (suc k) (c ∷ s) = omega (arith, length-strip_from k s)
length-strip_from zero (c ∷ s) = elim (Option-cases (seq_end s)) [
  | inl f ↦ ground (arith, length-strip_from zero s)
  | inr (n, f) ↦ ground (arith, length-strip_from zero s, length-strip_from n s)
]

clean_bounds :
    (filter : Bool) (rem chunk : Text)
    → length rem ≤ max_remainder
    → (length (clean filter rem chunk).0 ≤ max_remainder)
      × (length (clean filter rem chunk).1 ≤ max_remainder + length chunk)
unfolding clean strip_escapes
clean_bounds false rem chunk h = (h, omega arith)
clean_bounds true rem chunk h =
    (ground arith, ground (arith, length-strip_from zero (rem ++ chunk), length-append rem chunk))

-- The bounds between two rounds of `readUntil`.
pub record IsBounded (e : Engine) : Type 0 where
  pub buffer : length e.buf ≤ match_window + max_remainder + read_chunk
  pub carried : length e.remainder ≤ max_remainder

cap_buffer_bounds :
    (e : Engine)
    → (length (cap_buffer e).buf ≤ match_window) × ((cap_buffer e).remainder ≡ e.remainder)
unfolding cap_buffer
cap_buffer_bounds e =
    (ground (arith, length-drop (length e.buf - match_window) e.buf), ground arith)

forward_bounds :
    (e : Engine) (got : Text) (sink_err : Option String)
    → length e.remainder ≤ max_remainder
    → length got ≤ read_chunk
    → (length (forward e got sink_err).0.0.remainder ≤ max_remainder)
      × ((forward e got sink_err).0.0.buf ≡ e.buf)
      × (length (forward e got sink_err).0.1 ≤ max_remainder + read_chunk)
unfolding forward
forward_bounds e got sink_err h small = ground (arith, clean_bounds e.filter e.remainder got h)

read_turn-IsBounded :
    (e : Engine) (t : Turn)
    → length e.buf ≤ match_window
    → length e.remainder ≤ max_remainder
    → length t.got ≤ read_chunk
    → IsBounded (read_turn e t).0
unfolding read_turn
read_turn-IsBounded e t b r small = ground (
  arith,
  forward_bounds e t.got t.sink_err r small,
  length-append (forward e t.got t.sink_err).0.0.buf (forward e t.got t.sink_err).0.1,
)

consumed-IsBounded :
    (e : Engine) (end : ℕ) → IsBounded e → IsBounded (record e { buf = drop end e.buf })
consumed-IsBounded e end b = record {
  buffer = omega (arith, length-drop end e.buf, b.buffer);
  carried = b.carried;
}

capped-IsBounded : (e : Engine) → IsBounded e → IsBounded (cap_buffer e)
capped-IsBounded e b =
    let (window, same) = cap_buffer_bounds e in
    record { buffer = omega arith; carried = omega (arith, ap length same, b.carried) }

-- While a step waits for its pattern the match buffer never exceeds the window by more than one
-- read and one open sequence, and the open sequence never exceeds its own bound, if both bounds
-- hold at the start and no read gives more than a chunk.
pub read_until-IsBounded :
    (find_index : Text → Option ℕ) (e : Engine) (ts : List Turn)
    → All (λ t. length t.got ≤ read_chunk) ts
    → IsBounded e
    → IsBounded (read_until find_index e ts).0
unfolding read_until
read_until-IsBounded find_index e [] h b = elim (Option-cases (find_index e.buf)) [
  | inl f ↦ rw (f, read_until) (capped-IsBounded e b)
  | inr (end, f) ↦ rw (f, read_until) (consumed-IsBounded e end b)
]
read_until-IsBounded find_index e (t ∷ ts) h b = elim (Option-cases (find_index e.buf)) [
  | inr (end, f) ↦ rw (f, read_until) (consumed-IsBounded e end b)
  | inl f ↦
      let (window, same) = cap_buffer_bounds e in
      let next =
        read_turn-IsBounded (cap_buffer e) t window (omega (arith, ap length same, b.carried))
          h.0 in
      elim (Option-cases (read_turn (cap_buffer e) t).1) [
        | inr (ending, g) ↦ rw (f, read_until) (rw (g, read_until) next)
        | inl g ↦
            rw (f, read_until)
              (rw (g, read_until)
                (read_until-IsBounded find_index (read_turn (cap_buffer e) t).0 ts h.1 next))
      ]
]

-- The reads that `Read` returned bytes for.
abbrev pub reads : List Turn → List Text
reads [] = []
reads (t ∷ ts) = if length t.got == 0 then reads ts else t.got ∷ reads ts

nil_of_length : (s : Text) → length s ≡ 0 → s ≡ []
nil_of_length [] h = refl
nil_of_length (c ∷ s) h = absurd (omega arith)

forward-sink :
    (e : Engine) (got : Text) (sink_err : Option String)
    → (forward e got sink_err).1 ≡ none
    → let e' = (forward e got sink_err).0.0 in
      (e'.sink ≡ e.sink ++ (clean e.filter e.remainder got).1)
      × (e'.filter ≡ e.filter)
      × (e'.remainder ≡ (clean e.filter e.remainder got).0)
unfolding forward
forward-sink e got sink_err h =
    ground (arith, append-nil e.sink, nil_of_length (clean e.filter e.remainder got).1)

-- What one round without an ending leaves: the cleaned read is behind the output.
abbrev After : Engine → Text → Engine → Type 0
After e got e' =
    let cleaned = if length got == 0 then (e.remainder, []) else clean e.filter e.remainder got in
    (e'.sink ≡ e.sink ++ cleaned.1) × (e'.filter ≡ e.filter) × (e'.remainder ≡ cleaned.0)

read_turn-After :
    (e : Engine) (t : Turn) → (read_turn e t).1 ≡ none → After e t.got (read_turn e t).0
unfolding read_turn
read_turn-After e t h = ground (arith, append-nil e.sink, forward-sink e t.got t.sink_err)

pump_turn-After :
    (swallow : Bool) (e : Engine) (t : Turn)
    → (pump_turn swallow e t).1 ≡ none
    → After e t.got (pump_turn swallow e t).0
unfolding pump_turn
pump_turn-After swallow e t h = ground (arith, append-nil e.sink, forward-sink e t.got t.sink_err)

cap_buffer_keeps :
    (e : Engine)
    → ((cap_buffer e).sink ≡ e.sink)
      × ((cap_buffer e).filter ≡ e.filter)
      × ((cap_buffer e).remainder ≡ e.remainder)
unfolding cap_buffer
cap_buffer_keeps e = ground arith

read_turn-not_waiting :
    (e : Engine) (t : Turn) (ending : Ending) → (read_turn e t).1 ≡ some ending → ending ≢ waiting
unfolding read_turn
read_turn-not_waiting e t ending g h = ground arith

pump_turn-not_waiting :
    (swallow : Bool) (e : Engine) (t : Turn) (ending : Ending)
    → (pump_turn swallow e t).1 ≡ some ending
    → ending ≢ waiting
unfolding pump_turn
pump_turn-not_waiting swallow e t ending g h = ground arith

-- The output of all reads so far.
abbrev output : Engine → List Turn → Text
output e ts = e.sink ++ (clean_all e.filter e.remainder (reads ts)).1

output-After :
    (e e' : Engine) (t : Turn) (ts : List Turn)
    → After e t.got e'
    → output e' ts ≡ output e (t ∷ ts)
unfolding clean_all
output-After e e' t ts a = elim (Bool-cases (length t.got == 0)) [
  | inl none_read ↦ ground (arith, append-nil e.sink)
  | inr some_read ↦
      let (rem, out) = clean e.filter e.remainder t.got in
      ground (arith, append_assoc e.sink out (clean_all e.filter rem (reads ts)).1)
]

-- Every byte that is read goes to the sink, in order, stripped by the filter but otherwise whole:
-- neither the trimming of the match buffer nor the search for the pattern drops any of it. This is
-- the output of `readUntil` that still waits when the given reads are used up.
pub read_until-output :
    (find_index : Text → Option ℕ) (e : Engine) (ts : List Turn)
    → (read_until find_index e ts).1 ≡ waiting
    → (read_until find_index e ts).0.sink ≡ e.sink ++ (clean_all e.filter e.remainder (reads ts)).1
unfolding read_until clean_all
read_until-output find_index e [] h = ground (arith, append-nil e.sink, cap_buffer_keeps e)
read_until-output find_index e (t ∷ ts) h = elim (Option-cases (find_index e.buf)) [
  | inr (end, f) ↦ absurd (ground arith)
  | inl f ↦ elim (Option-cases (read_turn (cap_buffer e) t).1) [
    | inr (ending, g) ↦ absurd (read_turn-not_waiting (cap_buffer e) t ending g (ground arith))
    | inl g ↦
        let e' = (read_turn (cap_buffer e) t).0 in
        let step = output-After (cap_buffer e) e' t ts (read_turn-After (cap_buffer e) t g) in
        let rest = read_until-output find_index e' ts (ground arith) in
        rw (f, read_until) (rw (g, read_until) (ground (arith, rest, step, cap_buffer_keeps e)))
  ]
]

-- Every byte that `pump` reads, as `monitor` and `drain` run it, goes to the sink, in order,
-- stripped by the filter but otherwise whole, whatever is to be done with read errors. This is
-- the output of a `pump` that is still waiting when the given reads are used up.
pub pump-output :
    (swallow : Bool) (e : Engine) (ts : List Turn)
    → (pump swallow e ts).1 ≡ waiting
    → (pump swallow e ts).0.sink ≡ e.sink ++ (clean_all e.filter e.remainder (reads ts)).1
unfolding pump clean_all
pump-output swallow e [] h = rw append-nil
pump-output swallow e (t ∷ ts) h = elim (Option-cases (pump_turn swallow e t).1) [
  | inr (ending, g) ↦ absurd (pump_turn-not_waiting swallow e t ending g (ground arith))
  | inl g ↦
      let e' = (pump_turn swallow e t).0 in
      let step = output-After e e' t ts (pump_turn-After swallow e t g) in
      let rest = pump-output swallow e' ts (ground arith) in
      rw (g, pump) (ground (arith, rest, step))
]
