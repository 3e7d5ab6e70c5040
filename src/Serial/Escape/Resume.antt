-- ===== src/Serial/Escape/Resume.antt =====
-- A sequence that one read leaves open and the next goes on with (pkg/module/serial/engine.go).
use dutctl.Base.{
  ℕ, zero, suc, ◌+◌, ◌≡◌, ◌≤◌, refl, ap, ◌∙◌, Bool, true, false, ◌&&◌, Option, none, some, [], ◌∷◌,
  ◌++◌, arith, ◌==◌, nat_eq, leb, length, drop, Text, Bool-cases, Option-cases, inl, inr,
}
use dutctl.Serial.Escape.{
  esc_byte, plus, in_range, csi_final, csi_end, string_seq_end, is_string_seq_introducer, seq_end,
  strip_from, strip_escapes,
}

-- A sequence that is complete stays so, whatever comes behind it.
string_seq_end-more :
    (osc : Bool) (s t : Text) {n : ℕ}
    → string_seq_end osc s ≡ some n
    → string_seq_end osc (s ++ t) ≡ some n
unfolding string_seq_end
string_seq_end-more osc [] t h = cc
string_seq_end-more osc (c ∷ []) [] h = h
string_seq_end-more osc (c ∷ []) (d ∷ t) h = ground arith
string_seq_end-more osc (c ∷ d ∷ s) t {n = n} h = elim (Option-cases (string_seq_end osc (d ∷ s))) [
  | inl e ↦ ground arith
  | inr (m, e) ↦ ground (arith, string_seq_end-more osc (d ∷ s) t e)
]

string_seq_end-le : (osc : Bool) (s : Text) (n : ℕ) → string_seq_end osc s ≡ some n → n ≤ length s
unfolding string_seq_end
string_seq_end-le osc [] n h = cc
string_seq_end-le osc (c ∷ []) n h = ground arith
string_seq_end-le osc (c ∷ d ∷ s) n h = elim (Option-cases (string_seq_end osc (d ∷ s))) [
  | inl e ↦ ground arith
  | inr (m, e) ↦ ground (arith, string_seq_end-le osc (d ∷ s) m e)
]

drop-more : (n : ℕ) (s t r : Text) (d : ℕ) → drop n s ≡ d ∷ r → drop n (s ++ t) ≡ drop n s ++ t
drop-more zero s t r d h = refl
drop-more (suc n) [] t r d h = cc
drop-more (suc n) (c ∷ s) t r d h = drop-more n s t r d h

drop-nonempty :
    (n : ℕ) (s r : Text) (d : ℕ) → drop n s ≡ d ∷ r → (d' : ℕ) × (r' : Text) × (s ≡ d' ∷ r')
drop-nonempty zero s r d h = (d, r, h)
drop-nonempty (suc n) [] r d h = cc
drop-nonempty (suc n) (c ∷ s) r d h = (c, s, refl)

drop-lt : (n : ℕ) (s r : Text) (d : ℕ) → drop n s ≡ d ∷ r → n + 1 + length r ≡ length s
drop-lt zero s r d h = omega (arith, ap length h)
drop-lt (suc n) [] r d h = cc
drop-lt (suc n) (c ∷ s) r d h = omega (arith, drop-lt n s r d h)

-- Where a byte out of range was seen, more bytes at the end change nothing.
in_range-more :
    (lo hi : ℕ) (s t r : Text) (d : ℕ)
    → drop (in_range lo hi s) s ≡ d ∷ r
    → in_range lo hi (s ++ t) ≡ in_range lo hi s
unfolding in_range
in_range-more lo hi [] t r d h = cc
in_range-more lo hi (c ∷ s) t r d h = elim (Bool-cases (leb lo c && leb c hi)) [
  | inl e ↦ rw e (ap suc (in_range-more lo hi s t r d (rw (e, in_range) at h)))
  | inr e ↦ rw e
]

csi_final-some :
    (s : Text) (n : ℕ)
    → csi_final s ≡ some n
    → (d : ℕ) × (r : Text) × (s ≡ d ∷ r) × (n ≤ 1) × ((t : Text) → csi_final (d ∷ t) ≡ some n)
unfolding csi_final
csi_final-some [] n h = cc
csi_final-some (c ∷ s) n h = (c, s, refl, ground arith, λ t. ground arith)

plus-some :
    (k : ℕ) (o : Option ℕ) (n : ℕ) → plus k o ≡ some n → (m : ℕ) × (o ≡ some m) × (n ≡ k + m)
plus-some k none n h = cc
plus-some k (some m) n h = (m, refl, ground arith)

csi_end-more :
    (s t : Text) (n : ℕ) → csi_end s ≡ some n → (csi_end (s ++ t) ≡ some n) × (n ≤ length s)
unfolding csi_end
csi_end-more s t n h =
    let params = in_range 0x30 0x3f s in
    let s' = drop params s in
    let inters = in_range 0x20 0x2f s' in
    let (m, e, sum) = plus-some params (plus inters (csi_final (drop inters s'))) n h in
    let (k, f, sum') = plus-some inters (csi_final (drop inters s')) m e in
    let (d, r, at, small, final) = csi_final-some (drop inters s') k f in
    let (d', r', at') = drop-nonempty inters s' r d at in
    let head = in_range-more 0x30 0x3f s t r' d' at' in
    let body = drop-more params s t r' d' at' in
    let inner = in_range-more 0x20 0x2f s' t r d at in
    let tail : drop inters (s' ++ t) ≡ d ∷ (r ++ t) =
      drop-more inters s' t r d at ∙ ap (λ x. x ++ t) at in
    (
      rw (head, csi_end)
          (rw (body, csi_end)
            (rw (inner, csi_end) (rw (tail, csi_end) (rw (final (r ++ t)) (ground arith))))),
      omega (arith, drop-lt params s r' d' at', drop-lt inters s' r d at, ap length at'),
    )

seq_end-more :
    (s t : Text) (n : ℕ) → seq_end s ≡ some n → (seq_end (s ++ t) ≡ some n) × (n ≤ length s)
unfolding seq_end
seq_end-more [] t n h = cc
seq_end-more (b ∷ s) t n h = elim (Bool-cases (is_string_seq_introducer b)) [
  | inl e ↦
      let (m, f, sum) = plus-some 1 (string_seq_end (b == b']') s) n (rw (e, seq_end) at h) in
      (
        rw e (rw (string_seq_end-more (b == b']') s t f) (ground arith)),
        omega (arith, string_seq_end-le (b == b']') s m f),
      )
  | inr e ↦ elim (Bool-cases (b == b'[')) [
    | inl f ↦
        let (m, g, sum) = plus-some 1 (csi_end s) n (rw (f, seq_end) at (rw (e, seq_end) at h)) in
        let (more, small) = csi_end-more s t m g in
        (rw e (rw f (rw more (ground arith))), omega arith)
    | inr f ↦ (rw e (rw f (rw (f, seq_end) at (rw (e, seq_end) at h))), ground arith)
  ]
]

-- The result of a strip goes on with the bytes of the next read behind the remainder.
abbrev pub resumed : Text × Text → Text → Text × Text
resumed (out, rem) t = (out ++ (strip_escapes (rem ++ t)).0, (strip_escapes (rem ++ t)).1)

pub strip_from-plain :
    (c : ℕ) (s : Text)
    → (c == esc_byte) ≡ false
    → strip_from zero (c ∷ s) ≡ (c ∷ (strip_from zero s).0, (strip_from zero s).1)
unfolding strip_from
strip_from-plain c s e = rw e

pub strip_from-open :
    (c : ℕ) (s : Text)
    → (c == esc_byte) ≡ true
    → seq_end s ≡ none
    → strip_from zero (c ∷ s) ≡ ([], c ∷ s)
unfolding strip_from
strip_from-open c s e f = rw e (rw (f, strip_from))

pub strip_from-closed :
    (c : ℕ) (s : Text) (n : ℕ)
    → (c == esc_byte) ≡ true
    → seq_end s ≡ some n
    → strip_from zero (c ∷ s) ≡ strip_from n s
unfolding strip_from
strip_from-closed c s n e f = rw e (rw (f, strip_from))

pub strip_from-append :
    (k : ℕ) (s t : Text) → k ≤ length s → strip_from k (s ++ t) ≡ resumed (strip_from k s) t
unfolding strip_escapes strip_from
strip_from-append zero [] t h = refl
strip_from-append (suc k) [] t h = absurd (omega arith)
strip_from-append (suc k) (c ∷ s) t h = strip_from-append k s t (omega arith)
strip_from-append zero (c ∷ s) t h = elim (Bool-cases (c == esc_byte)) [
  | inr e ↦
      rw (strip_from-plain c (s ++ t) e)
        (rw (strip_from-plain c s e) (ground (arith, strip_from-append zero s t (omega arith))))
  | inl e ↦ elim (Option-cases (seq_end s)) [
    | inl f ↦ rw (strip_from-open c s e f)
    | inr (n, f) ↦
        let (more, small) = seq_end-more s t n f in
        rw (strip_from-closed c (s ++ t) n e more)
          (rw (strip_from-closed c s n e f) (strip_from-append n s t small))
  ]
]
