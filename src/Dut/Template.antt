-- ===== src/Dut/Template.antt =====
-- The `${name}` references of pkg/dut/templating.go.
--
-- `templateRefRegex` is `\$\{([a-zA-Z0-9_-]+)\}`. A name has no brace in it, so at each place there
-- is one match at most, and the leftmost ones are found from the left.
pub mod Laws
use dutctl.Base.{
  ℕ, zero, suc, ◌+◌, ◌≡◌, ◌≢◌, refl, sym, ap, ◌∙◌, length-append, Bool, true, ◌&&◌, ◌||◌, Option,
  none, some, List, [], ◌∷◌, ◌++◌, arith, ◌==◌, nat_eq, text_eq, if◌then◌else◌, leb, ℕ_discrete,
  ◌≤◌, length, All, Text, Option-cases, inl, inr,
}
use mathlib.Core.Path.{ap₂}
use mathlib.Core.List.{append_assoc, append_cancel_left}
use dutctl.Base.Dict.{Dict, lookup}

-- `[a-zA-Z0-9_-]`
unfoldable pub is_name_char : ℕ → Bool
is_name_char c =
    (leb b'a' c && leb c b'z')
    || ((leb b'A' c && leb c b'Z') || ((leb b'0' c && leb c b'9') || (c == b'_' || c == b'-')))

-- `+\}` behind at least one character: the name up to the brace.
pub name_to_brace : Text → Option Text
unfolding is_name_char
name_to_brace [] = none
name_to_brace (c ∷ s) =
    let rest = name_to_brace s in
    if c == b'}'
    then some []
    else if is_name_char c
    then elim rest [ none ↦ none | some name ↦ some (c ∷ name) ]
    else none

pub nonempty : Option Text → Option Text
nonempty (some (c ∷ name)) = some (c ∷ name)
nonempty _ = none

-- The name of a reference that starts here.
pub match_ref : Text → Option Text
unfolding name_to_brace nonempty
match_ref (d ∷ b ∷ s) = if d == b'$' && b == b'{' then nonempty (name_to_brace s) else none
match_ref _ = none

-- A text is a sequence of plain characters and references.
pub data Piece : Type 0 where
  lit : ℕ → Piece
  ref : Text → Piece

-- `FindAllStringSubmatch`, with what stands between the matches; the number counts the characters
-- of the last match that are still to be passed over.
pub pieces_from : ℕ → Text → List Piece
unfolding match_ref
pieces_from _ [] = []
pieces_from (suc k) (c ∷ s) = pieces_from k s
pieces_from zero (c ∷ s) = elim (match_ref (c ∷ s)) [
  | none ↦ lit c ∷ pieces_from zero s
  | some name ↦ ref name ∷ pieces_from (length name + 2) s
]

pub pieces : Text → List Piece
unfolding pieces_from
pieces s = pieces_from zero s

pub refs_of : List Piece → List Text
refs_of [] = []
refs_of (lit c ∷ ps) = refs_of ps
refs_of (ref name ∷ ps) = name ∷ refs_of ps

-- `extractTemplateReferences`
unfoldable pub extract_template_references : Text → List Text
unfolding pieces refs_of
extract_template_references s = refs_of (pieces s)

-- A reference as it is written.
abbrev pub written : Text → Text
written name = b'$' ∷ b'{' ∷ (name ++ (b'}' ∷ []))

-- What the replacement function of `SubstituteArgs` gives for one match.
replacement : Dict Text Text → Text → Text
replacement m name = elim (lookup name m) [ some val ↦ val | none ↦ written name ]

pub replace_pieces : Dict Text Text → List Piece → Text
unfolding replacement
replace_pieces m [] = []
replace_pieces m (lit c ∷ ps) = c ∷ replace_pieces m ps
replace_pieces m (ref name ∷ ps) = replacement m name ++ replace_pieces m ps

-- `ReplaceAllStringFunc` as `SubstituteArgs` calls it.
unfoldable pub replace_all : Dict Text Text → Text → Text
unfolding pieces replace_pieces
replace_all m s = replace_pieces m (pieces s)
