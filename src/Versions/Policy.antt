-- ===== src/Versions/Policy.antt =====
-- What the comparison of internal/compat/compat.go promises to both ends.
use dutctl.Base.{◌≡◌, refl, ◌&&◌, not, none, some, ◌==◌, text_eq, if◌then◌else◌, Text, arith}
use dutctl.Agent.Errors.{with_code, failed_precondition, incompatible_versions}
use dutctl.Versions.{
  Order, older, same, newer, Semver, normalize, is_same, core, classify, compare, enforce,
  check_major_mismatch,
}

-- The other direction of an order.
unfoldable pub opposite : Order → Order
opposite older = newer
opposite same = same
opposite newer = older

same_swapped : (a b : Text) → (a == b) ≡ (b == a)
same_swapped a b = ground arith

is_same-opposite : (o : Order) → is_same (opposite o) ≡ is_same o
unfolding is_same opposite
is_same-opposite older = refl
is_same-opposite same = refl
is_same-opposite newer = refl

module _ (semver : Semver) where
  -- `semver.Compare` orders two versions the same from both sides.
  unfoldable pub IsAntisymmetric : Type 0
  IsAntisymmetric = (a b : Text) → semver.compare b a ≡ opposite (semver.compare a b)

  classify-swapped : IsAntisymmetric → (a b : Text) → classify semver b a ≡ classify semver a b
  unfolding classify IsAntisymmetric
  classify-swapped anti a b = rw (same_swapped (semver.major b) (semver.major a)) (
      rw (same_swapped (semver.major_minor b) (semver.major_minor a)) (
        rw (same_swapped (core semver b) (core semver a))
          (rw (anti a b) (rw (is_same-opposite (semver.compare a b)) refl))))

  -- The comparison is symmetric: both ends come to the same verdict, the same differing field and
  -- the same validity, and to opposite orders, if the library's order is antisymmetric.
  pub compare-swapped :
      IsAntisymmetric
      → (self peer : Text)
      → let here = compare semver self peer in
        let there = compare semver peer self in
        (there.verdict ≡ here.verdict)
        × (there.field ≡ here.field)
        × (there.valid ≡ here.valid)
        × (there.cmp ≡ opposite here.cmp)
  unfolding compare IsAntisymmetric opposite
  compare-swapped anti self peer =
      let swapped = classify-swapped anti (normalize self) (normalize peer) in
      (
        ground (arith, swapped),
        ground (arith, swapped),
        ground arith,
        ground (arith, anti (normalize self) (normalize peer)),
      )

  -- The enforcer refuses a request exactly if both versions are valid and differ in the major
  -- number, always with failed_precondition, and exactly then the relay of dutserver refuses it.
  pub enforce-outcome :
      (version peer : Text)
      → let apart = not (semver.major (normalize version) == semver.major (normalize peer)) in
        (enforce semver version peer ≡ (
          if (semver.is_valid (normalize version) && semver.is_valid (normalize peer)) && apart
          then some (with_code failed_precondition incompatible_versions)
          else none))
        × (check_major_mismatch semver version peer ≡ enforce semver version peer)
  unfolding enforce check_major_mismatch compare classify
  enforce-outcome version peer = (ground arith, ground arith)
