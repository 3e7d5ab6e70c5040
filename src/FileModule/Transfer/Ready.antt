-- ===== src/FileModule/Transfer/Ready.antt =====
-- What the check of a configuration leaves (Init of pkg/module/file/file.go).
use dutctl.Base.{
  ◌⊎◌, inl, inr, ℕ, ◌≡◌, refl, Bool, true, false, Option, none, some, [], string_eq, text_eq,
  nat_eq, if◌then◌else◌, Text,
}
use dutctl.FileModule.Within.{test}
use dutctl.FileModule.Transfer.{
  Config, Fault, init, check_operation, default_permission, starts_octal, bad_permission,
}

module _ (parse_octal : Text → Option ℕ) where
  -- A configuration that has been checked.
  unfoldable pub IsReady : Config → Type 0
  IsReady c =
      ((n : ℕ) × (parse_octal c.permission ≡ some n))
      × ((c.operation ≡ "upload") ⊎ (c.operation ≡ "download"))

  unfoldable pub Checked : Config × Option Fault → Type 0
  Checked (c, none) = IsReady c
  Checked (c, some e) = Unit

  check_operation-Checked :
      (c : Config) (n : ℕ)
      → parse_octal c.permission ≡ some n
      → Checked (check_operation parse_octal c)
  unfolding check_operation Checked IsReady
  check_operation-Checked c n h =
      test Checked c.operation "" _ _ (λ p. tt)
        (λ k.
          test Checked c.operation "upload" _ _ (λ p. ((n, h), inl p))
            (λ k. test Checked c.operation "download" _ _ (λ p. ((n, h), inr p)) (λ k. tt)))

  pub init-Checked :
      (c : Config) (n : ℕ) → parse_octal default_permission ≡ some n → Checked (init parse_octal c)
  unfolding init Checked
  init-Checked c n h =
      test Checked c.permission [] _ _
        (λ p. check_operation-Checked (record c { permission = default_permission }) n h)
        (λ k. started (starts_octal c.permission))
    where
      parses :
          (o : Option ℕ)
          → parse_octal c.permission ≡ o
          → Checked (elim o [
            | none ↦ (c, some bad_permission)
            | some mode ↦ check_operation parse_octal c
          ])
      parses none e = tt
      parses (some m) e = check_operation-Checked c m e

      started :
          (b : Bool)
          → Checked (
              if b
              then elim (parse_octal c.permission) [
                | none ↦ (c, some bad_permission)
                | some mode ↦ check_operation parse_octal c
              ]
              else (c, some bad_permission))
      started true = parses (parse_octal c.permission) refl
      started false = tt
