-- ===== src/Versions.antt =====
-- The compatibility of versions: internal/compat/compat.go, the enforcer of internal/rpc/version.go,
-- and checkMajorMismatch of cmds/exp/dutserver/rpc.go.
--
-- The semver library of golang.org/x/mod is the record Semver. Versions are lists of code points.
pub mod Policy
use dutctl.Base.{
  ℕ, ◌≡◌, Bool, true, false, ◌&&◌, ◌||◌, not, Option, none, some, List, [], ◌∷◌, ◌==◌, nat_eq,
  text_eq, if◌then◌else◌, leb, Text,
}
use dutctl.Agent.Errors.{Err, with_code, failed_precondition, incompatible_versions}

-- The result of `semver.Compare`: -1, 0 or 1.
pub data Order : Type 0 where
  older same newer : Order

pub record Semver : Type 0 where
  pub is_valid : Text → Bool
  pub compare : Text → Text → Order
  pub major : Text → Text
  pub major_minor : Text → Text
  pub canonical : Text → Text
  pub build : Text → Text
  pub prerelease : Text → Text

-- `unicode.IsSpace`
unfoldable pub is_space : ℕ → Bool
is_space c =
    (leb 9 c && leb c 13)
    || (c == 32
        || (c == 0x85
            || (c == 0xa0
                || (c == 0x1680
                    || ((leb 0x2000 c && leb c 0x200a)
                        || (c == 0x2028
                            || (c == 0x2029 || (c == 0x202f || (c == 0x205f || c == 0x3000)))))))))

trim_left : Text → Text
unfolding is_space
trim_left [] = []
trim_left (c ∷ s) = let rest = trim_left s in if is_space c then rest else c ∷ s

trim_right : Text → Text
unfolding is_space
trim_right [] = []
trim_right (c ∷ s) = let rest = trim_right s in if is_space c && (rest == []) then [] else c ∷ rest

-- `strings.TrimSpace`
unfoldable pub trim_space : Text → Text
unfolding trim_left trim_right
trim_space s = trim_right (trim_left s)

-- `strings.TrimSuffix`
unfoldable pub trim_suffix : Text → Text → Text
trim_suffix [] suffix = []
trim_suffix (c ∷ s) suffix =
    let rest = c ∷ trim_suffix s suffix in if (c ∷ s) == suffix then [] else rest

with_v : Text → Text
with_v [] = []
with_v (c ∷ s) = if c == b'v' then c ∷ s else b'v' ∷ c ∷ s

-- `normalize`
unfoldable pub normalize : Text → Text
unfolding trim_space with_v
normalize version = with_v (trim_space version)

pub data Verdict : Type 0 where
  compatible tolerated incompatible : Verdict

pub data Field : Type 0 where
  equal patch prerelease minor major : Field

pub record Result : Type 0 where
  pub verdict : Verdict
  pub field : Field
  pub cmp : Order
  pub valid : Bool

is_same : Order → Bool
is_same same = true
is_same _ = false

module _ (semver : Semver) where
  -- `core`
  unfoldable pub core : Text → Text
  core version =
      let canonical = semver.canonical version in
      let built = trim_suffix canonical (semver.build canonical) in
      trim_suffix built (semver.prerelease built)

  -- The `switch` of `Compare`, on normalized versions.
  classify : Text → Text → Verdict × Field
  unfolding core is_same
  classify self peer =
      if not (semver.major self == semver.major peer)
      then (incompatible, major)
      else if not (semver.major_minor self == semver.major_minor peer)
      then (tolerated, minor)
      else if not (core self == core peer)
      then (compatible, patch)
      else if not (is_same (semver.compare self peer))
      then (tolerated, prerelease)
      else (compatible, equal)

  -- `Compare`
  unfoldable pub compare : Text → Text → Result
  unfolding classify normalize
  compare self peer =
      let s = normalize self in
      let p = normalize peer in
      if not (semver.is_valid s) || not (semver.is_valid p)
      then record { verdict = tolerated; field = equal; cmp = same; valid = false }
      else record {
        verdict = (classify s p).0;
        field = (classify s p).1;
        cmp = semver.compare s p;
        valid = true;
      }

  -- `versionEnforcer.enforce`
  unfoldable pub enforce : Text → Text → Option Err
  enforce version peer = elim (compare version peer).verdict [
    | incompatible ↦ some (with_code failed_precondition incompatible_versions)
    | compatible ↦ none
    | tolerated ↦ none
  ]

  -- `versionEnforcer.WrapUnary` and `WrapStreamingHandler`: the handler runs only behind the check.
  unfoldable pub enforced : {A : Type 0} → Text → Text → (Err → A) → A → A
  enforced version peer refuse next = elim (enforce version peer) [
    | some e ↦ refuse e
    | none ↦ next
  ]

  -- `checkMajorMismatch`
  unfoldable pub check_major_mismatch : Text → Text → Option Err
  check_major_mismatch version peer = elim (compare version peer).field [
    | major ↦ some (with_code failed_precondition incompatible_versions)
    | _ ↦ none
  ]
