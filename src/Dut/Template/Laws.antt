-- ===== src/Dut/Template/Laws.antt =====
-- What the substitution of pkg/dut/templating.go does to a text.
use dutctl.Base.{
  ℕ, zero, suc, ◌+◌, ◌≡◌, ◌≢◌, refl, sym, ap, ◌∙◌, length-append, true, Option, none, some, List,
  [], ◌∷◌, ◌++◌, arith, nat_eq, text_eq, ℕ_discrete, ◌≤◌, length, All, Text, Option-cases, inl, inr,
}
use mathlib.Core.Path.{ap₂}
use mathlib.Core.List.{append_assoc, append_cancel_left}
use dutctl.Base.Dict.{Dict, lookup}
use dutctl.Dut.Template.{
  is_name_char, name_to_brace, nonempty, match_ref, pieces_from, refs_of,
  extract_template_references, written, replace_pieces, replace_all, lit, ref,
}

nonempty-some : (o : Option Text) (name : Text) → nonempty o ≡ some name → o ≡ some name
unfolding nonempty
nonempty-some none name h = cc
nonempty-some (some []) name h = cc
nonempty-some (some (c ∷ s)) name h = h

-- What was matched up to the brace stands in the text, and something is left behind it.
name_to_brace-some :
    (s name : Text) → name_to_brace s ≡ some name → (rest : Text) × (s ≡ name ++ (b'}' ∷ rest))
unfolding name_to_brace
name_to_brace-some [] name h = cc
name_to_brace-some (c ∷ s) name h = elim (ℕ_discrete c b'}') [
  | yes brace ↦ (s, ground arith)
  | no other ↦ elim (Option-cases (name_to_brace s)) [
    | inl e ↦ absurd (ground arith)
    | inr (inner, e) ↦
        let (rest, split) = name_to_brace-some s inner e in (rest, ground (arith, split))
  ]
]

match_ref-some :
    (s name : Text)
    → match_ref s ≡ some name
    → (rest : Text) × (s ≡ b'$' ∷ b'{' ∷ (name ++ (b'}' ∷ rest)))
unfolding match_ref
match_ref-some [] name h = cc
match_ref-some (d ∷ []) name h = cc
match_ref-some (d ∷ b ∷ s) name h =
    let (rest, split) =
      name_to_brace-some s name (nonempty-some (name_to_brace s) name (ground arith)) in
    (rest, ground (arith, split))

pieces_from-skip : (t rest : Text) → pieces_from (length t) (t ++ rest) ≡ pieces_from zero rest
unfolding pieces_from
pieces_from-skip [] rest = refl
pieces_from-skip (c ∷ t) rest = pieces_from-skip t rest

-- None of the references has a value in the map.
abbrev pub Undeclared : Dict Text Text → List Text → Type 0
Undeclared m [] = Unit {0}
Undeclared m (name ∷ names) = (lookup name m ≡ none) × Undeclared m names

pieces_from-lit :
    (c : ℕ) (s : Text)
    → match_ref (c ∷ s) ≡ none
    → pieces_from zero (c ∷ s) ≡ lit c ∷ pieces_from zero s
unfolding pieces_from
pieces_from-lit c s e = rw (e, pieces_from)

-- A match at the front is the reference as it is written, and the scan goes on behind it.
pieces_from-ref :
    (c : ℕ) (s name : Text)
    → match_ref (c ∷ s) ≡ some name
    → (rest : Text) × (c ∷ s ≡ written name ++ rest)
      × (pieces_from zero (c ∷ s) ≡ ref name ∷ pieces_from zero rest)
unfolding pieces_from
pieces_from-ref c s name e =
    let (rest, split) = match_ref-some (c ∷ s) name e in
    let assoc : (name ++ (b'}' ∷ [])) ++ rest ≡ name ++ (b'}' ∷ rest) = append_assoc name _ _ in
    let behind : s ≡ (b'{' ∷ (name ++ (b'}' ∷ []))) ++ rest = ground (arith, split, assoc) in
    let count : length name + 2 ≡ length (b'{' ∷ (name ++ (b'}' ∷ []))) =
      omega (arith, length-append name (b'}' ∷ [])) in
    (
      rest,
      ground (arith, split, assoc),
      rw (e, pieces_from)
          (ap (λ ps. ref name ∷ ps)
            (ap₂ pieces_from count behind ∙ pieces_from-skip (b'{' ∷ (name ++ (b'}' ∷ []))) rest)),
    )

replace_pieces-Undeclared :
    (m : Dict Text Text) (n : ℕ) (s : Text)
    → length s ≤ n
    → Undeclared m (refs_of (pieces_from zero s))
    → replace_pieces m (pieces_from zero s) ≡ s
unfolding pieces_from replace_pieces refs_of
replace_pieces-Undeclared m n [] h u = refl
replace_pieces-Undeclared m zero (c ∷ s) h u = absurd (omega arith)
replace_pieces-Undeclared m (suc n) (c ∷ s) h u = elim (Option-cases (match_ref (c ∷ s))) [
  | inl e ↦
      let at = pieces_from-lit c s e in
      rw at (ap (λ r. c ∷ r) (replace_pieces-Undeclared m n s (omega arith) (rw at at u)))
  | inr (name, e) ↦
      let (rest, split, at) = pieces_from-ref c s name e in
      let u' : Undeclared m (refs_of (ref name ∷ pieces_from zero rest)) = rw at at u in
      let short : length rest ≤ n =
        omega (arith, ap length split, length-append (name ++ (b'}' ∷ [])) rest) in
      let later = replace_pieces-Undeclared m n rest short u'.1 in
      rw at (ground (arith, u'.0, later, split))
]

-- A text none of whose references has a value in the map, as one with no reference at all, comes
-- out of the substitution unchanged; a bare `$NAME` or an open `${` is no reference.
pub replace_all-Undeclared :
    (m : Dict Text Text) (s : Text)
    → Undeclared m (extract_template_references s)
    → replace_all m s ≡ s
unfolding replace_all extract_template_references
replace_all-Undeclared m s u = replace_pieces-Undeclared m (length s) s (omega arith) u

-- A declared name: one or more of the characters that a reference admits.
abbrev pub IsName : Text → Type 0
IsName name = (name ≢ []) × All (λ c. is_name_char c ≡ true) name

not-brace : (c : ℕ) → is_name_char c ≡ true → c ≢ b'}'
unfolding is_name_char
not-brace c h e = ground arith

name_to_brace-name :
    (name rest : Text)
    → All (λ c. is_name_char c ≡ true) name
    → name_to_brace (name ++ (b'}' ∷ rest)) ≡ some name
unfolding name_to_brace
name_to_brace-name [] rest h = ground arith
name_to_brace-name (c ∷ name) rest h =
    let no_brace : c ≢ b'}' = not-brace c h.0 in
    ground (arith, name_to_brace-name name rest h.1, h.0)

match_ref-written : (name rest : Text) → IsName name → match_ref (written name ++ rest) ≡ some name
unfolding match_ref nonempty
match_ref-written [] rest h = absurd (h.0 refl)
match_ref-written (c ∷ name) rest h =
    let close : (name ++ (b'}' ∷ [])) ++ rest ≡ name ++ (b'}' ∷ rest) = append_assoc name _ _ in
    ground (arith, close, name_to_brace-name (c ∷ name) rest h.1)

match_ref-plain : (c : ℕ) (s : Text) → c ≢ b'$' → match_ref (c ∷ s) ≡ none
unfolding match_ref
match_ref-plain c [] plain = refl
match_ref-plain c (b ∷ s) plain = ground arith

-- A declared reference is replaced by its value wherever it stands behind text without a `$`, and
-- the substitution goes on behind the reference, not inside the value.
pub replace_all-written :
    (m : Dict Text Text) (before name val after : Text)
    → All (λ c. c ≢ b'$') before
    → IsName name
    → lookup name m ≡ some val
    → replace_all m (before ++ (written name ++ after)) ≡ before ++ (val ++ replace_all m after)
unfolding replace_all
replace_all-written m [] name val after plain h found =
    let (rest, split, scanned) =
      pieces_from-ref b'$' (b'{' ∷ ((name ++ (b'}' ∷ [])) ++ after)) name
        (match_ref-written name after h) in
    let same : rest ≡ after = append_cancel_left (written name) rest after (sym split) in
    rw scanned (ground (arith, found, same))
replace_all-written m (c ∷ before) name val after plain h found =
    rw (pieces_from-lit c (before ++ (written name ++ after)) (match_ref-plain c _ plain.0))
      (ap (λ r. c ∷ r) (replace_all-written m before name val after plain.1 h found))
