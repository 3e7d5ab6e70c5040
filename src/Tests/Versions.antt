-- ===== src/Tests/Versions.antt =====
-- A library of versions that orders them by their length (internal/compat).
use dutctl.Base.{
  ◌≡◌, ◌&&◌, not, none, some, [], ◌∷◌, arith, ltb, length, take, ◌==◌, nat_eq, text_eq,
  if◌then◌else◌, Text,
}
use dutctl.Agent.Errors.{with_code, failed_precondition, incompatible_versions}
use dutctl.Versions.{Order, older, same, newer, Semver, normalize, enforce, check_major_mismatch}
use dutctl.Versions.Policy.{opposite, IsAntisymmetric, enforce-outcome}

by_length : Text → Text → Order
by_length a b =
    if ltb (length a) (length b) then older else if ltb (length b) (length a) then newer else same

abbrev lengths : Semver
lengths = record {
  is_valid = λ v. ltb 1 (length v);
  compare = by_length;
  major = take 2;
  major_minor = take 4;
  canonical = λ v. v;
  build = λ v. [];
  prerelease = λ v. [];
}

lengths-IsAntisymmetric : IsAntisymmetric lengths
unfolding IsAntisymmetric by_length opposite
lengths-IsAntisymmetric a b = ground arith

abbrev one : Text
one = b'1' ∷ b'.' ∷ b'2' ∷ []

abbrev two : Text
two = b'v' ∷ b'2' ∷ []

enforce-outcome_example :
    let apart = not (lengths.major (normalize one) == lengths.major (normalize two)) in
    (enforce lengths one two ≡ (
      if (lengths.is_valid (normalize one) && lengths.is_valid (normalize two)) && apart
      then some (with_code failed_precondition incompatible_versions)
      else none))
    × (check_major_mismatch lengths one two ≡ enforce lengths one two)
enforce-outcome_example = enforce-outcome lengths one two
