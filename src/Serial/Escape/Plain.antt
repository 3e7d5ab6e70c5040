-- ===== src/Serial/Escape/Plain.antt =====
-- What the filter of pkg/module/serial/engine.go lets through.
use dutctl.Base.{
  ℕ, zero, suc, ◌≡◌, ◌≢◌, ◌≤◌, refl, ap, true, [], ◌∷◌, ◌++◌, arith, ◌==◌, nat_eq, length, Text,
  Bool-cases, Option-cases, inl, inr, All,
}
use dutctl.Serial.Escape.{esc_byte, seq_end, strip_from, strip_escapes, clean, max_remainder}
use dutctl.Serial.Escape.Resume.{strip_from-plain, strip_from-open, strip_from-closed}

strip_from-no_esc : (k : ℕ) (s : Text) → All (λ c. c ≢ esc_byte) (strip_from k s).0
unfolding strip_from
strip_from-no_esc zero [] = tt
strip_from-no_esc (suc k) [] = tt
strip_from-no_esc (suc k) (c ∷ s) = strip_from-no_esc k s
strip_from-no_esc zero (c ∷ s) = elim (Bool-cases (c == esc_byte)) [
  | inr e ↦ rw (strip_from-plain c s e) (λ f. ground arith, strip_from-no_esc zero s)
  | inl e ↦ elim (Option-cases (seq_end s)) [
    | inl f ↦ rw (strip_from-open c s e f) tt
    | inr (n, f) ↦ rw (strip_from-closed c s n e f) (strip_from-no_esc n s)
  ]
]

-- With the filter on, no ESC byte goes to the sink, and the remainder stays within its bound.
pub clean-no_esc :
    (remainder chunk : Text)
    → All (λ c. c ≢ esc_byte) (clean true remainder chunk).1
      × (length (clean true remainder chunk).0 ≤ max_remainder)
unfolding clean strip_escapes
clean-no_esc remainder chunk = (strip_from-no_esc zero (remainder ++ chunk), ground arith)

strip_plain : (s : Text) → All (λ c. c ≢ esc_byte) s → strip_escapes s ≡ (s, [])
unfolding strip_escapes
strip_plain [] p = refl
strip_plain (c ∷ s) p =
    rw (strip_from-plain c s (ground arith)) (ap (λ r. (c ∷ r.0, r.1)) (strip_plain s p.1))

-- Text with no ESC byte passes the filter unchanged when no sequence is open.
pub clean_plain : (chunk : Text) → All (λ c. c ≢ esc_byte) chunk → clean true [] chunk ≡ ([], chunk)
unfolding clean
clean_plain chunk h = rw (strip_plain chunk h) (ground arith)
