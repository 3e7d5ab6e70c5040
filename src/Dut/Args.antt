-- ===== src/Dut/Args.antt =====
-- Argument resolution: `ModuleArgs` of pkg/dut/dut.go, and `SubstituteArgs` and
-- `validateTemplateReferences` of pkg/dut/templating.go.
use dutctl.Base.{
  ℕ, ◌≡◌, ◌≢◌, refl, true, not, ◌&&◌, ◌||◌, Option, none, some, List, [], ◌∷◌, map, arith, ◌==◌,
  nat_eq, text_eq, if◌then◌else◌, length, ltb, Text, contains, ◌⊎◌,
}
use dutctl.Base.Dict.{Dict, insert}
use dutctl.Dut.{Module, ArgDecl, Command, count_modules, count_passthrough, has_passthrough}
use dutctl.Dut.Template.{extract_template_references, replace_all}

pub data ArgsError : Type 0 where
  no_receiver_for_args : ArgsError
  expected_arguments : ℕ → ℕ → ArgsError

pub data Args {ℓ} (A : Type ℓ) : Type ℓ where
  ok : A → Args A
  err : ArgsError → Args A

-- The map from the names of the declared arguments to the values, by position.
unfoldable pub bind_args : List ArgDecl → List Text → Dict Text Text → Dict Text Text
bind_args (d ∷ ds) (v ∷ vs) m = bind_args ds vs (insert d.name v m)
bind_args [] vs m = m
bind_args (d ∷ ds) [] m = m

unfoldable pub arg_map : List ArgDecl → List Text → Dict Text Text
unfolding bind_args
arg_map decls values = bind_args decls values []

-- `Command.SubstituteArgs`
unfoldable pub substitute_args : Command → List Text → List Text → Args (List Text)
substitute_args c args runtime =
    if length c.args == 0
    then ok args
    else if length runtime == length c.args
    then ok (map (replace_all (arg_map c.args runtime)) args)
    else err (expected_arguments (length c.args) (length runtime))

-- The loop of `ModuleArgs`, which stops at the first error.
cons_args : List Text → Args (List (List Text)) → Args (List (List Text))
cons_args xs (ok rest) = ok (xs ∷ rest)
cons_args xs (err e) = err e

resolve : Command → List Module → List Text → Args (List (List Text))
unfolding cons_args
resolve c [] runtime = ok []
resolve c (m ∷ ms) runtime =
    let rest = resolve c ms runtime in
    if m.passthrough
    then cons_args runtime rest
    else elim (substitute_args c m.args runtime) [ ok xs ↦ cons_args xs rest | err e ↦ err e ]

-- `Command.ModuleArgs`
unfoldable pub module_args : Command → List Text → Args (List (List Text))
unfolding resolve
module_args c runtime =
    if ltb 0 (length runtime) && (not (has_passthrough c) && (length c.args == 0))
    then err no_receiver_for_args
    else resolve c c.modules runtime

-- The references of `args` that no declaration names: the first of them, if any.
unfoldable pub first_undefined : List Text → List Text → Option Text
first_undefined names [] = none
first_undefined names (ref ∷ refs) =
    if contains names ref then first_undefined names refs else some ref

unfoldable pub args_undefined : List Text → List Text → Option Text
unfolding first_undefined
args_undefined names [] = none
args_undefined names (arg ∷ args) = elim (first_undefined names (extract_template_references arg)) [
  | some ref ↦ some ref
  | none ↦ args_undefined names args
]

unfoldable pub modules_undefined : List Text → List Module → Option Text
unfolding args_undefined
modules_undefined names [] = none
modules_undefined names (m ∷ ms) =
    let rest = modules_undefined names ms in
    if m.passthrough
    then rest
    else elim (args_undefined names m.args) [ some ref ↦ some ref | none ↦ rest ]

-- `argNamesList`
unfoldable pub arg_names : List ArgDecl → List Text
arg_names [] = []
arg_names (d ∷ ds) = d.name ∷ arg_names ds

-- `Command.validateTemplateReferences`: the undefined reference that it reports.
unfoldable pub validate_template_references : Command → Option Text
unfolding modules_undefined
validate_template_references c = modules_undefined (arg_names c.args) c.modules

-- The arguments that one module gets.
unfoldable pub module_arg : Command → List Text → Module → List Text
module_arg c runtime m =
    if m.passthrough
    then runtime
    else if length c.args == 0
    then m.args
    else map (replace_all (arg_map c.args runtime)) m.args

-- The number of runtime arguments is one that `SubstituteArgs` accepts.
abbrev Fits : Command → List Text → Type 0
Fits c runtime = (length c.args ≡ 0) ⊎ (length runtime ≡ length c.args)

resolve-ok :
    (c : Command) (ms : List Module) (runtime : List Text)
    → Fits c runtime
    → resolve c ms runtime ≡ ok (map (module_arg c runtime) ms)
unfolding resolve substitute_args module_arg
resolve-ok c [] runtime h = refl
resolve-ok c (m ∷ ms) runtime h = ground (arith, resolve-ok c ms runtime h)

resolve-err :
    (c : Command) (m : Module) (ms : List Module) (runtime : List Text)
    → count_modules (m ∷ ms) ≡ 0
    → length c.args ≢ 0
    → length runtime ≢ length c.args
    → resolve c (m ∷ ms) runtime ≡ err (expected_arguments (length c.args) (length runtime))
unfolding resolve substitute_args count_modules
resolve-err c m ms runtime none_passes declared wrong = ground arith

-- The outcome of `ModuleArgs` for a command that the configuration accepts: it has a module, and
-- declares arguments only if no module is a passthrough module. It succeeds exactly if there is a
-- passthrough module or the number of arguments is the declared one, and then gives each module,
-- in order, the arguments as they are (passthrough) or its own with the references replaced. The
-- error tells a command that takes no arguments from one that takes another number.
module_args_outcome :
    (c : Command) (runtime : List Text)
    → c.modules ≢ []
    → (has_passthrough c ≡ true → length c.args ≡ 0)
    → module_args c runtime ≡ (
        if has_passthrough c || (length runtime == length c.args)
        then ok (map (module_arg c runtime) c.modules)
        else if length c.args == 0
        then err no_receiver_for_args
        else err (expected_arguments (length c.args) (length runtime)))
unfolding module_args has_passthrough count_passthrough
module_args_outcome c runtime some_module either = go c.modules refl
  where
    go :
        (ms : List Module)
        → c.modules ≡ ms
        → module_args c runtime ≡ (
            if has_passthrough c || (length runtime == length c.args)
            then ok (map (module_arg c runtime) c.modules)
            else if length c.args == 0
            then err no_receiver_for_args
            else err (expected_arguments (length c.args) (length runtime)))
    go [] e = absurd (some_module e)
    go (m ∷ ms) e = ground (arith, resolve-ok c c.modules runtime, resolve-err c m ms runtime)
