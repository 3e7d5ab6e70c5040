-- ===== src/FileModule/Within.antt =====
-- Where the paths of the file module lead (pkg/module/file/paths.go).
use dutctl.Base.{
  ℕ, zero, suc, ◌≡◌, ◌≢◌, ◌⊎◌, inl, inr, refl, Bool, true, false, List, [], ◌∷◌, ◌++◌, Eq, ◌==◌,
  text_eq, nat_eq, ℕ_discrete, contains, arith, if◌then◌else◌, Text, All,
}
use mathlib.Core.Logic.{ite}
use dutctl.FileModule.{PathErr, Parsed, ok, fail, sanitize_path}
use dutctl.FileModule.Path.{
  has_prefix, on_first, split, slash, dot, dots, Walk, climb, visit, walk, spell_names, spell,
  below, begin, clean_path, rooted_text,
}

-- An element of a path that goes down.
unfoldable pub IsName : Text → Type 0
IsName name = (name ≢ []) × (name ≢ dot) × (name ≢ dots) × (contains name slash ≡ false)

-- A path that leads to the directory that it starts from or below it.
unfoldable pub IsWithin : Text → Type 0
IsWithin path = (names : List Text) × All IsName names × (path ≡ spell_names names)

pub Bool-test {ℓ κ} :
    {A : Type ℓ} ⦃e : Eq A⦄ (P : Bool → Type κ) (a b : A)
    → (a ≡ b → P true)
    → (a ≢ b → P false)
    → P (a == b)
Bool-test ⦃e = e⦄ P a b h k = decided (e.dec a b)
  where
    decided : (d : Dec (a ≡ b)) → P (ite d true false)
    decided (yes p) = h p
    decided (no n) = k n

pub test {ℓ κ μ} :
    {A : Type ℓ} {B : Type μ} ⦃e : Eq B⦄ (P : A → Type κ) (a b : B) (x y : A)
    → (a ≡ b → P x)
    → (a ≢ b → P y)
    → P (if a == b then x else y)
test P a b x y h k = Bool-test (λ t. P (if t then x else y)) a b h k

abbrev Free : Text → Type 0
Free part = contains part slash ≡ false

on_first-Free :
    (d : ℕ) (parts : List Text) → d ≢ slash → All Free parts → All Free (on_first d parts)
unfolding on_first
on_first-Free d [] n h = (ground arith, tt)
on_first-Free d (part ∷ parts) n (h, hs) = (ground arith, hs)

split-Free : (s : Text) → All Free (split slash s)
unfolding split
split-Free [] = (refl, tt)
split-Free (d ∷ s) =
    test (All Free) d slash ([] ∷ split slash s) (on_first d (split slash s))
      (λ p. (refl, split-Free s)) (λ n. on_first-Free d (split slash s) n (split-Free s))

climb-names :
    (rooted : Bool) (ups : ℕ) (names : List Text)
    → All IsName names
    → All IsName (climb rooted ups names).names
unfolding climb
climb-names rooted ups [] h = tt
climb-names rooted ups (name ∷ names) (h, hs) = hs

visit-names :
    (rooted : Bool) (part : Text) (w : Walk)
    → Free part
    → All IsName w.names
    → All IsName (visit rooted part w).names
unfolding visit IsName
visit-names rooted part w free h =
    test P part [] _ _ (λ p. h)
      (λ n.
        test P part dot _ _ (λ p. h)
          (λ m.
            test P part dots _ _ (λ p. climb-names rooted w.ups w.names h)
              (λ l. ((n, m, l, free), h))))
  where
    P : Walk → Type 0
    P v = All IsName v.names

walk-names :
    (rooted : Bool) (parts : List Text) (w : Walk)
    → All Free parts
    → All IsName w.names
    → All IsName (walk rooted parts w).names
unfolding walk
walk-names rooted [] w hs h = h
walk-names rooted (part ∷ parts) w (free, hs) h =
    walk-names rooted parts (visit rooted part w) hs (visit-names rooted part w free h)

has_prefix-append : (p s t : Text) → has_prefix p s ≡ true → has_prefix p (s ++ t) ≡ true
unfolding has_prefix
has_prefix-append [] s t h = refl
has_prefix-append (c ∷ p) [] t h = absurd cc
has_prefix-append (c ∷ p) (d ∷ s) t h =
    let rest = has_prefix-append p s t in ground (arith, h, rest)

below-rooted :
    (name : Text) (names : List Text) → has_prefix (slash ∷ []) (below [] (name ∷ names)) ≡ true
unfolding has_prefix below ℕ_discrete
below-rooted name [] = refl
below-rooted name (outer ∷ names) =
    has_prefix-append (slash ∷ []) (below [] (outer ∷ names)) (slash ∷ name)
      (below-rooted outer names)

rooted_text-rooted : (names : List Text) → has_prefix (slash ∷ []) (rooted_text names) ≡ true
unfolding has_prefix rooted_text ℕ_discrete
rooted_text-rooted [] = refl
rooted_text-rooted (name ∷ names) = below-rooted name names

-- A path that the code rejects, or one that leads down.
Led : Text → Type 0
Led path = (has_prefix (slash ∷ []) path ≡ true) ⊎ ((has_prefix dots path ≡ true) ⊎ IsWithin path)

spell-Led : (ups : ℕ) (names : List Text) → All IsName names → Led (spell ups names)
unfolding Led spell has_prefix IsWithin ℕ_discrete
spell-Led zero names h = inr (inr (names, h, refl))
spell-Led (suc ups) names h = inr (inl refl)

if-Led : (b : Bool) (p q : Text) → Led p → Led q → Led (if b then p else q)
if-Led true p q h k = h
if-Led false p q h k = k

clean_path-Led : (path : Text) → Led (clean_path path)
unfolding clean_path Led
clean_path-Led path =
    if-Led (has_prefix (slash ∷ []) path) _ (spell w.ups w.names)
      (inl (rooted_text-rooted (walk true (split slash path) begin).names))
      (spell-Led w.ups w.names (walk-names false (split slash path) begin (split-Free path) tt))
  where
    w : Walk
    w = walk false (split slash path) begin

-- What holds of a result, if there is one.
unfoldable pub Gives : (Text → Type 0) → Parsed Text → Type 0
Gives P (ok path) = P path
Gives P (fail e) = Unit

checked :
    (rooted climbs : Bool) (cleaned : Text)
    → (rooted ≡ true) ⊎ ((climbs ≡ true) ⊎ IsWithin cleaned)
    → Gives IsWithin (
        if rooted
        then fail PathErr.absolute_path
        else if climbs
        then fail PathErr.leading_dots
        else ok cleaned)
unfolding Gives
checked true climbs cleaned h = tt
checked false true cleaned h = tt
checked false false cleaned (inl p) = absurd cc
checked false false cleaned (inr (inl p)) = absurd cc
checked false false cleaned (inr (inr h)) = h

pub sanitize_path-IsWithin : (path : Text) → path ≢ [] → Gives IsWithin (sanitize_path path)
unfolding sanitize_path Led
sanitize_path-IsWithin path n =
    test (Gives IsWithin) path [] _ _ (λ p. absurd (n p))
      (λ m.
        checked (has_prefix (slash ∷ []) cleaned) (has_prefix dots cleaned) cleaned
          (clean_path-Led path))
  where
    cleaned : Text
    cleaned = clean_path path
