-- ===== src/FileModule/Path.antt =====
-- What the file module (pkg/module/file/paths.go) uses of Go's strings and path/filepath, on Unix.
use dutctl.Base.{
  ℕ, suc, zero, Bool, true, false, ◌&&◌, List, [], ◌∷◌, ◌++◌, ◌==◌, nat_eq, text_eq, if◌then◌else◌,
  Text,
}

-- `strings.HasPrefix`, with the prefix first.
unfoldable pub has_prefix : Text → Text → Bool
has_prefix [] s = true
has_prefix (c ∷ p) [] = false
has_prefix (c ∷ p) (d ∷ s) = c == d && has_prefix p s

unfoldable pub on_first : ℕ → List Text → List Text
on_first c [] = (c ∷ []) ∷ []
on_first c (part ∷ parts) = (c ∷ part) ∷ parts

-- `strings.Split` at one code point.
unfoldable pub split : ℕ → Text → List Text
split c [] = [] ∷ []
split c (d ∷ s) = let rest = split c s in if d == c then [] ∷ rest else on_first d rest

abbrev pub slash : ℕ
slash = b'/'

abbrev pub dot : Text
dot = b'.' ∷ []

abbrev pub dots : Text
dots = b'.' ∷ b'.' ∷ []

-- A path that is walked: how far it climbs, and the elements below, the innermost first.
pub record Walk : Type 0 where
  pub ups : ℕ
  pub names : List Text

unfoldable pub climb : Bool → ℕ → List Text → Walk
climb rooted ups (name ∷ names) = record { ups = ups; names = names }
climb rooted ups [] = record { ups = (if rooted then ups else suc ups); names = [] }

unfoldable pub visit : Bool → Text → Walk → Walk
visit rooted part w =
    if part == []
    then w
    else if part == dot
    then w
    else if part == dots
    then climb rooted w.ups w.names
    else record w { names = part ∷ w.names }

unfoldable pub walk : Bool → List Text → Walk → Walk
walk rooted [] w = w
walk rooted (part ∷ parts) w = walk rooted parts (visit rooted part w)

unfoldable pub below : Text → List Text → Text
below start [] = start
below start (name ∷ names) = below start names ++ (slash ∷ name)

-- A path of elements alone, the innermost first.
unfoldable pub spell_names : List Text → Text
spell_names [] = dot
spell_names (name ∷ []) = name
spell_names (name ∷ outer ∷ names) = spell_names (outer ∷ names) ++ (slash ∷ name)

unfoldable pub ups_text : ℕ → Text
ups_text zero = []
ups_text (suc ups) = slash ∷ b'.' ∷ b'.' ∷ ups_text ups

unfoldable pub spell : ℕ → List Text → Text
spell zero names = spell_names names
spell (suc ups) names = b'.' ∷ b'.' ∷ below (ups_text ups) names

unfoldable pub rooted_text : List Text → Text
rooted_text [] = slash ∷ []
rooted_text (name ∷ names) = below [] (name ∷ names)

abbrev pub begin : Walk
begin = record { ups = 0; names = [] }

-- `filepath.Clean`
unfoldable pub clean_path : Text → Text
unfolding rooted_text
clean_path path =
    if has_prefix (slash ∷ []) path
    then rooted_text (walk true (split slash path) begin).names
    else let w = walk false (split slash path) begin in spell w.ups w.names

unfoldable pub last_part : Text → List Text → Text
last_part found [] = found
last_part found (part ∷ parts) = last_part (if part == [] then found else part) parts

-- `filepath.Base`
unfoldable pub base : Text → Text
unfolding last_part
base [] = dot
base (c ∷ path) = last_part (slash ∷ []) (split slash (c ∷ path))
