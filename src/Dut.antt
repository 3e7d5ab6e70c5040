-- ===== src/Dut.antt =====
-- Devices, commands and modules: pkg/dut/dut.go and internal/keyword/keyword.go.
--
-- Go maps are association lists. Of a module's implementation only its help text is kept; its
-- `with` options are decoded by the YAML library and are left out. Arguments are texts that
-- templating.go walks, so they are lists of code points; all other names are strings.
pub mod Template
pub mod Args
pub mod Bound
pub mod Modules
pub mod Config
use dutctl.Base.{
  ℕ, suc, ◌+◌, String, Bool, true, false, ◌||◌, Option, none, some, List, [], ◌∷◌, ◌==◌, string_eq,
  nat_eq, if◌then◌else◌, length, ltb, Text,
}
use dutctl.Base.Dict.{Dict, keys, lookup}

-- internal/keyword/keyword.go
abbrev pub version_keyword : String
version_keyword = "version"

abbrev pub list_keyword : String
list_keyword = "list"

abbrev pub lock_keyword : String
lock_keyword = "lock"

abbrev pub unlock_keyword : String
unlock_keyword = "unlock"

abbrev pub help_keyword : String
help_keyword = "help"

abbrev pub force_keyword : String
force_keyword = "force"

unfoldable pub is_reserved_device_name : String → Bool
is_reserved_device_name name = name == list_keyword || name == version_keyword

unfoldable pub is_reserved_command_name : String → Bool
is_reserved_command_name name =
    name == lock_keyword || (name == unlock_keyword || name == help_keyword)

pub record ModuleConfig : Type 0 where
  pub name : String
  pub passthrough : Bool
  pub args : List Text

pub record Module : Type 0 where
  pub config : ModuleConfig
  pub open config use *
  pub help : String

pub record ArgDecl : Type 0 where
  pub name : Text
  pub desc : String

pub record Command : Type 0 where
  pub desc : String
  pub args : List ArgDecl
  pub modules : List Module

pub record Device : Type 0 where
  pub desc : String
  pub cmds : Dict String Command

abbrev pub Devlist : Type 0
Devlist = Dict String Device

-- The sentinel errors of the lookups.
pub data LookupError : Type 0 where
  device_not_found command_not_found no_modules multiple_passthrough_modules : LookupError

pub data Found {ℓ} (A : Type ℓ) : Type ℓ where
  found : A → Found A
  missing : LookupError → Found A

unfoldable pub count_modules : List Module → ℕ
count_modules [] = 0
count_modules (m ∷ ms) = if m.passthrough then suc (count_modules ms) else count_modules ms

-- `Command.countPassthrough`
unfoldable pub count_passthrough : Command → ℕ
unfolding count_modules
count_passthrough c = count_modules c.modules

-- `Command.HasPassthrough`
unfoldable pub has_passthrough : Command → Bool
has_passthrough c = ltb 0 (count_passthrough c)

-- `Devlist.Find`
unfoldable pub find : Devlist → String → Found Device
find devs device = elim (lookup device devs) [ none ↦ missing device_not_found | some d ↦ found d ]

-- The part of `Devlist.FindCmd` that looks at the command.
check_cmd : Device → Command → Found (Device × Command)
check_cmd dev cmd =
    if length cmd.modules == 0
    then missing no_modules
    else if ltb 1 (count_passthrough cmd)
    then missing multiple_passthrough_modules
    else found (dev, cmd)

-- `Devlist.FindCmd`
unfoldable pub find_cmd : Devlist → String → String → Found (Device × Command)
unfolding check_cmd
find_cmd devs device command = elim (lookup device devs) [
  | none ↦ missing device_not_found
  | some dev ↦ elim (lookup command dev.cmds) [
    | none ↦ missing command_not_found
    | some cmd ↦ check_cmd dev cmd
  ]
]

-- `ModuleRef` and `Devlist.AllModules`, in the order of the lists.
pub record ModuleRef : Type 0 where
  pub device : String
  pub command : String
  pub target : Module

module_refs : String → String → List Module → List ModuleRef → List ModuleRef
module_refs device command [] rest = rest
module_refs device command (m ∷ ms) rest =
    record { device = device; command = command; target = m } ∷ module_refs device command ms rest

command_refs : String → Dict String Command → List ModuleRef → List ModuleRef
unfolding module_refs
command_refs device [] rest = rest
command_refs device ((name, cmd) ∷ cmds) rest =
    module_refs device name cmd.modules (command_refs device cmds rest)

unfoldable pub all_modules : Devlist → List ModuleRef
unfolding command_refs
all_modules [] = []
all_modules ((name, dev) ∷ devs) = command_refs name dev.cmds (all_modules devs)
