-- ===== src/Dut/Config/Accepted.antt =====
-- What the checks of pkg/dut/config.go establish for a command and for a map of commands.
use dutctl.Base.{
  ℕ, ◌≡◌, ◌≢◌, ◌≤◌, refl, subst, String, true, false, none, some, [], ◌∷◌, arith, string_eq, nat_eq,
  length, ◌⊎◌, inl, inr, Bool-cases,
}
use mathlib.Core.Option.{some-injective}
use dutctl.Base.Dict.{Dict, lookup, insert, lookup-insert, lookup-nil}
use dutctl.Dut.{Command, count_passthrough, has_passthrough, is_reserved_command_name}
use dutctl.Dut.Args.{validate_template_references}
use dutctl.Dut.Config.{
  ConfigError, Decoded, ok, config, plain, check_command, passthrough_has_args, CommandNode, null,
  value, zero_command, decode_command, Entries, cmds_mapping, name_command, decode_entries,
  decode_cmds,
}

-- What the checks of a command establish.
pub record IsAccepted (c : Command) : Type 0 where
  pub has_module : c.modules ≢ []
  pub one_passthrough : count_passthrough c ≤ 1
  pub either : has_passthrough c ≡ true → length c.args ≡ 0
  pub no_passthrough_args : passthrough_has_args c.modules ≡ false
  pub references : validate_template_references c ≡ none

-- A command of a loaded configuration: it passed the checks, or its value was a null.
abbrev pub IsLoaded : Command → Type 0
IsLoaded c = (c ≡ zero_command) ⊎ IsAccepted c

check_command-IsAccepted :
    (line : ℕ) (c d : Command) → check_command line c ≡ ok d → (c ≡ d) × IsAccepted c
unfolding check_command
check_command-IsAccepted line c d h = (
  ground arith,
  record {
    has_module = λ e. ground arith;
    one_passthrough = ground arith;
    either = λ p. ground arith;
    no_passthrough_args = ground arith;
    references = ground arith;
  },
)

pub ok-injective {ℓ} : {A : Type ℓ} {a b : A} → Decoded.ok a ≡ ok b → a ≡ b
ok-injective h = cc

pub Decoded-cases {ℓ} :
    {A : Type ℓ} (d : Decoded A)
    → ((a : A) × (d ≡ ok a))
      ⊎ (((e : ConfigError) × (d ≡ config e)) ⊎ ((t : String) × (d ≡ plain t)))
Decoded-cases (ok a) = inl (a, refl)
Decoded-cases (config e) = inr (inl (e, refl))
Decoded-cases (plain t) = inr (inr (t, refl))

decode_command-IsLoaded :
    (node : CommandNode) (c : Command) → decode_command node ≡ ok c → IsLoaded c
unfolding decode_command
decode_command-IsLoaded null c h = inl (ground arith)
decode_command-IsLoaded (value line (ok d)) c h =
    let (e, a) = check_command-IsAccepted line d c h in inr (rw (← e) a)
decode_command-IsLoaded (value line (config e)) c h = cc
decode_command-IsLoaded (value line (plain e)) c h = cc

name_command-ok :
    (name : String) (d : Decoded Command) (c : Command) → name_command name d ≡ ok c → d ≡ ok c
unfolding name_command
name_command-ok name (ok x) c h = h
name_command-ok name (config e) c h = cc
name_command-ok name (plain e) c h = cc

-- Every command of the map is loaded, and none has a reserved name.
abbrev pub GoodCmds : Dict String Command → Type 0
GoodCmds cmds =
    (name : String) (c : Command)
    → lookup name cmds ≡ some c
    → IsLoaded c × (is_reserved_command_name name ≡ false)

insert-GoodCmds :
    (name : String) (c : Command) (cmds : Dict String Command)
    → IsLoaded c
    → is_reserved_command_name name ≡ false
    → GoodCmds cmds
    → GoodCmds (insert name c cmds)
insert-GoodCmds name c cmds l free good other x h = elim (string_eq.dec other name) [
  | yes e ↦
      let same : some c ≡ some x = ground (arith, lookup-insert other name c cmds) in
      (subst IsLoaded (some-injective c x same) l, rw e free)
  | no n ↦ good other x (ground (arith, lookup-insert other name c cmds))
]

decode_entries-GoodCmds :
    (es : Entries CommandNode) (cmds out : Dict String Command)
    → GoodCmds cmds
    → decode_entries es cmds ≡ ok out
    → GoodCmds out
unfolding decode_entries
decode_entries-GoodCmds [] cmds out good h = subst GoodCmds (ok-injective h) good
decode_entries-GoodCmds ((name, line, node) ∷ es) cmds out good h =
    elim (Bool-cases (is_reserved_command_name name)) [
      | inl e ↦ absurd (ground arith)
      | inr free ↦ elim (Decoded-cases (name_command name (decode_command node))) [
        | inl (c, e) ↦
            decode_entries-GoodCmds es (insert name c cmds) out
              (insert-GoodCmds name c cmds
                (decode_command-IsLoaded node c (name_command-ok name (decode_command node) c e))
                free good)
              (ground arith)
        | inr bad ↦ absurd (ground arith)
      ]
    ]

pub empty-GoodCmds : GoodCmds []
empty-GoodCmds name c h = cc (lookup-nil {V = Command} name)

pub decode_cmds-GoodCmds :
    (es : Entries CommandNode) (out : Dict String Command)
    → decode_cmds (cmds_mapping es) ≡ ok out
    → GoodCmds out
unfolding decode_cmds
decode_cmds-GoodCmds [] out h = cc
decode_cmds-GoodCmds (e ∷ es) out h = decode_entries-GoodCmds (e ∷ es) [] out empty-GoodCmds h
