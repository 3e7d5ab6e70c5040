-- ===== src/Serial/Escape/Chunks.antt =====
-- Sequences split across reads (pkg/module/serial/engine.go).
use dutctl.Base.{
  ℕ, zero, suc, ◌≡◌, ◌≤◌, refl, Bool, true, List, [], ◌∷◌, ◌++◌, arith, ◌==◌, nat_eq, length, Text,
  Bool-cases, Option-cases, inl, inr,
}
use mathlib.Core.List.{flatten, append-nil, append_assoc}
use dutctl.Serial.Escape.{esc_byte, seq_end, strip_from, strip_escapes, clean, max_remainder}
use dutctl.Serial.Escape.Resume.{
  resumed, strip_from-plain, strip_from-open, strip_from-closed, strip_from-append,
}

-- The cleaning of successive reads: `clean` on each, with the remainder carried over.
unfoldable pub clean_all : Bool → Text → List Text → Text × Text
clean_all filter remainder [] = (remainder, [])
clean_all filter remainder (chunk ∷ chunks) =
    let (rem, out) = clean filter remainder chunk in
    let (rem', out') = clean_all filter rem chunks in (rem', out ++ out')

-- No read leaves a remainder that is longer than the bound.
abbrev pub WithinBound : Text → List Text → Type 0
WithinBound remainder [] = Unit {0}
WithinBound remainder (chunk ∷ chunks) =
    (length (strip_escapes (remainder ++ chunk)).1 ≤ max_remainder)
    × WithinBound (strip_escapes (remainder ++ chunk)).1 chunks

-- A remainder is an open sequence: alone it gives no output, and stays as it is.
strip_from-remainder :
    (k : ℕ) (s : Text) → let rem = (strip_from k s).1 in strip_escapes rem ≡ ([], rem)
unfolding strip_from strip_escapes
strip_from-remainder zero [] = refl
strip_from-remainder (suc k) [] = refl
strip_from-remainder (suc k) (c ∷ s) = strip_from-remainder k s
strip_from-remainder zero (c ∷ s) = elim (Bool-cases (c == esc_byte)) [
  | inr e ↦ rw (strip_from-plain c s e) (strip_from-remainder zero s)
  | inl e ↦ elim (Option-cases (seq_end s)) [
    | inl f ↦ rw (strip_from-open c s e f) (strip_from-open c s e f)
    | inr (n, f) ↦ rw (strip_from-closed c s n e f) (strip_from-remainder n s)
  ]
]

strip_escapes-append : (s t : Text) → strip_escapes (s ++ t) ≡ resumed (strip_escapes s) t
unfolding strip_escapes
strip_escapes-append s t = strip_from-append zero s t (omega arith)

clean-strip_escapes :
    (rem chunk : Text)
    → length (strip_escapes (rem ++ chunk)).1 ≤ max_remainder
    → clean true rem chunk ≡ ((strip_escapes (rem ++ chunk)).1, (strip_escapes (rem ++ chunk)).0)
unfolding clean
clean-strip_escapes rem chunk h = ground arith

clean_all-resumed :
    (chunks : List Text) (rem : Text)
    → strip_escapes rem ≡ ([], rem)
    → WithinBound rem chunks
    → strip_escapes (rem ++ flatten chunks)
      ≡ ((clean_all true rem chunks).1, (clean_all true rem chunks).0)
unfolding clean_all flatten
clean_all-resumed [] rem stable h = rw append-nil stable
clean_all-resumed (chunk ∷ chunks) rem stable h =
    let first = clean-strip_escapes rem chunk h.0 in
    let rem' = (strip_escapes (rem ++ chunk)).1 in
    let later =
      clean_all-resumed chunks rem'
        (unfold strip_escapes in strip_from-remainder zero (rem ++ chunk)) h.1 in
    let whole = strip_escapes-append (rem ++ chunk) (flatten chunks) in
    let split : (rem ++ chunk) ++ flatten chunks ≡ rem ++ flatten (chunk ∷ chunks) =
      append_assoc rem chunk (flatten chunks) in
    ground (arith, first, later, whole, split)

-- However the bytes that come from the port are split into reads, cleaning them read by read gives
-- the same output and the same open sequence at the end as stripping them at once, as long as no
-- open sequence grows beyond the bound on the remainder.
pub clean_all-flatten :
    (chunks : List Text)
    → WithinBound [] chunks
    → strip_escapes (flatten chunks) ≡ ((clean_all true [] chunks).1, (clean_all true [] chunks).0)
unfolding strip_escapes
clean_all-flatten chunks h = clean_all-resumed chunks [] refl h
