-- ===== src/Base/Lists.antt =====
-- Lists measured by native numbers, under the library's names.
use Prim.Native.Nat.{ℕ, zero, suc, ◌+◌, ◌-◌}
use mathlib.Core.Path.{◌≡◌, refl, subst}
use mathlib.Core.Bool.{Bool, true, false}
use mathlib.Core.Option.{Option, none, some}
use mathlib.Core.List.{List, [], ◌∷◌, ◌++◌}
use native.Mathlib.Omega.{arith}
use mathlib.Core.Logic.{◌≢◌, ite}
use dutctl.Base.Equality.{Eq, ◌==◌, if◌then◌else◌}

module _ {ℓ} {A : Type ℓ} where
  abbrev pub length : List A → ℕ
  length [] = 0
  length (x ∷ xs) = suc (length xs)

  abbrev pub take : ℕ → List A → List A
  take zero xs = []
  take (suc n) [] = []
  take (suc n) (x ∷ xs) = x ∷ take n xs

  abbrev pub drop : ℕ → List A → List A
  drop zero xs = xs
  drop (suc n) [] = []
  drop (suc n) (x ∷ xs) = drop n xs

  pub length-append : (xs ys : List A) → length (xs ++ ys) ≡ length xs + length ys
  length-append [] ys = omega arith
  length-append (x ∷ xs) ys = omega (arith, length-append xs ys)

  pub take-append-drop : (n : ℕ) (xs : List A) → take n xs ++ drop n xs ≡ xs
  take-append-drop zero xs = refl
  take-append-drop (suc n) [] = refl
  take-append-drop (suc n) (x ∷ xs) = rw (take-append-drop n xs)

  pub length-drop : (n : ℕ) (xs : List A) → length (drop n xs) ≡ length xs - n
  length-drop zero xs = omega arith
  length-drop (suc n) [] = omega arith
  length-drop (suc n) (x ∷ xs) = omega (arith, length-drop n xs)

abbrev pub All {ℓ κ} : {A : Type ℓ} → (A → Type κ) → List A → Type κ
All P [] = Unit
All P (x ∷ xs) = P x × All P xs

-- A property of a result, if there is one.
abbrev pub Holds {ℓ κ} : {A : Type ℓ} → (A → Type κ) → Option A → Type κ
Holds P none = Unit
Holds P (some a) = P a

pub Holds-some {ℓ κ} :
    {A : Type ℓ} (P : A → Type κ) {o : Option A} {a : A} → Holds P o → o ≡ some a → P a
Holds-some P h e = subst (Holds P) e h

pub Holds-all {ℓ κ} :
    {A : Type ℓ} (P : A → Type κ) (o : Option A) → ((a : A) → o ≡ some a → P a) → Holds P o
Holds-all P none h = tt
Holds-all P (some a) h = h a refl

pub Holds-any {ℓ κ} : {A : Type ℓ} (P : A → Type κ) (o : Option A) → ((a : A) → P a) → Holds P o
Holds-any P none h = tt
Holds-any P (some a) h = h a

pub Holds-map {ℓ κ μ} :
    {A : Type ℓ} (P : A → Type κ) (Q : A → Type μ) (o : Option A)
    → Holds P o
    → ((a : A) → P a → Q a)
    → Holds Q o
Holds-map P Q none h k = tt
Holds-map P Q (some a) h k = k a h

pub Holds-if {ℓ κ} :
    {A : Type ℓ} (P : A → Type κ) (b : Bool) (x y : Option A)
    → Holds P x
    → Holds P y
    → Holds P (if b then x else y)
Holds-if P true x y h k = h
Holds-if P false x y h k = k

-- A test of the code for equality.
pub Holds-test {ℓ κ μ} :
    {A : Type ℓ} {B : Type μ} ⦃e : Eq B⦄ (P : A → Type κ) (a b : B) (x y : Option A)
    → (a ≡ b → Holds P x)
    → (a ≢ b → Holds P y)
    → Holds P (if a == b then x else y)
Holds-test {B = B} ⦃e = e⦄ P a b x y h k = decided (e.dec a b)
  where
    decided : (d : Dec (a ≡ b)) → Holds P (if ite d true false then x else y)
    decided (yes p) = h p
    decided (no n) = k n

pub Holds-then {ℓ κ} :
    {A B : Type ℓ} (P : A → Type κ) (Q : B → Type κ) (o : Option A) (next : A → Option B)
    → Holds P o
    → ((a : A) → P a → Holds Q (next a))
    → Holds Q (elim o [ none ↦ none | some a ↦ next a ])
Holds-then P Q none next h k = tt
Holds-then P Q (some a) next h k = k a h
