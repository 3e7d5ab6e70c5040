-- ===== src/Dut/Bound.antt =====
-- What `validateTemplateReferences` (pkg/dut/templating.go) buys `SubstituteArgs`.
use dutctl.Base.{
  ◌≡◌, true, false, none, some, List, [], ◌∷◌, arith, ◌==◌, text_eq, if◌then◌else◌, length, All,
  Text, contains, Bool-cases, Option-cases, inl, inr,
}
use dutctl.Base.Dict.{Dict, lookup, insert, lookup-insert}
use dutctl.Dut.{Module, ArgDecl, Command}
use dutctl.Dut.Template.{extract_template_references}
use dutctl.Dut.Args.{
  arg_map, bind_args, arg_names, first_undefined, args_undefined, modules_undefined,
  validate_template_references,
}

-- The map has a value for the name.
abbrev pub Bound : Dict Text Text → Text → Type 0
Bound m name = (val : Text) × (lookup name m ≡ some val)

bind_args-keeps :
    (ds : List ArgDecl) (vs : List Text) (m : Dict Text Text) (name : Text)
    → Bound m name
    → Bound (bind_args ds vs m) name
unfolding bind_args
bind_args-keeps [] vs m name b = b
bind_args-keeps (d ∷ ds) [] m name b = b
bind_args-keeps (d ∷ ds) (v ∷ vs) m name (val, e) =
    bind_args-keeps ds vs (insert d.name v m) name
      (if name == d.name then v else val, ground (arith, lookup-insert name d.name v m))

bind_args-Bound :
    (ds : List ArgDecl) (vs : List Text) (m : Dict Text Text) (name : Text)
    → length vs ≡ length ds
    → contains (arg_names ds) name ≡ true
    → Bound (bind_args ds vs m) name
unfolding bind_args arg_names
bind_args-Bound [] vs m name h c = cc
bind_args-Bound (d ∷ ds) [] m name h c = absurd (omega arith)
bind_args-Bound (d ∷ ds) (v ∷ vs) m name h c = elim (text_eq.dec name d.name) [
  | yes e ↦
      bind_args-keeps ds vs (insert d.name v m) name
        (v, ground (arith, lookup-insert name d.name v m))
  | no n ↦ bind_args-Bound ds vs (insert d.name v m) name (omega arith) (ground arith)
]

abbrev RefsIn : (Text → Type 0) → List Text → Type 0
RefsIn P args = All (λ arg. All P (extract_template_references arg)) args

module _ (names : List Text) (P : Text → Type 0)
    (known : (name : Text) → contains names name ≡ true → P name) where
  first_undefined-none : (refs : List Text) → first_undefined names refs ≡ none → All P refs
  unfolding first_undefined
  first_undefined-none [] h = tt
  first_undefined-none (r ∷ refs) h = elim (Bool-cases (contains names r)) [
    | inl e ↦ (known r e, first_undefined-none refs (rw (e, first_undefined) at h))
    | inr e ↦ absurd (ground arith)
  ]

  args_undefined-none : (args : List Text) → args_undefined names args ≡ none → RefsIn P args
  unfolding args_undefined
  args_undefined-none [] h = tt
  args_undefined-none (arg ∷ args) h =
      elim (Option-cases (first_undefined names (extract_template_references arg))) [
        | inl e ↦ (first_undefined-none _ e, args_undefined-none args (ground arith))
        | inr (r, e) ↦ absurd (ground arith)
      ]

  modules_undefined-none :
      (ms : List Module)
      → modules_undefined names ms ≡ none
      → All (λ m. m.passthrough ≡ false → RefsIn P m.args) ms
  unfolding modules_undefined
  modules_undefined-none [] h = tt
  modules_undefined-none (m ∷ ms) h = elim (Bool-cases m.passthrough) [
    | inl e ↦ (λ f. absurd (cc), modules_undefined-none ms (ground arith))
    | inr e ↦ elim (Option-cases (args_undefined names m.args)) [
      | inl u ↦ (λ _. args_undefined-none m.args u, modules_undefined-none ms (ground arith))
      | inr (r, u) ↦ absurd (ground arith)
    ]
  ]

-- If the configuration's check of the references found nothing and the number of runtime
-- arguments is the declared one, then every reference in the arguments of every module that is no
-- passthrough module has a value in the map that the substitution uses.
pub validate_template_references-Bound :
    (c : Command) (runtime : List Text)
    → validate_template_references c ≡ none
    → length runtime ≡ length c.args
    → All
        (λ m.
          m.passthrough ≡ false
          → All
              (λ arg. All (Bound (arg_map c.args runtime)) (extract_template_references arg))
              m.args)
        c.modules
unfolding validate_template_references arg_map
validate_template_references-Bound c runtime h fits =
    modules_undefined-none (arg_names c.args) (Bound (arg_map c.args runtime))
      (λ name known. bind_args-Bound c.args runtime [] name fits known) c.modules h
