-- ===== src/Dut/Config.antt =====
-- The validation of a device configuration: the UnmarshalYAML methods of pkg/dut/config.go.
--
-- The YAML library is not modelled. A node is what the methods see of it: a null, a mapping with
-- its pairs in order, or another kind of node with the outcome of the library's default decoding.
-- A command's value comes with the outcome of decoding it into `commandAlias`, which runs
-- `Module.UnmarshalYAML` on each module and so may give a `ConfigError` of its own.
pub mod Accepted
pub mod Load
use dutctl.Base.{
  ℕ, ◌≡◌, refl, String, Bool, true, false, not, ◌&&◌, Option, none, some, List, [], ◌∷◌, ◌==◌,
  nat_eq, string_eq, if◌then◌else◌, length, ltb, Text,
}
use dutctl.Base.Dict.{Dict, insert}
use dutctl.Dut.{
  Module, Command, Device, Devlist, count_passthrough, has_passthrough, is_reserved_command_name,
  is_reserved_device_name,
}
use dutctl.Dut.Args.{validate_template_references}

pub data ConfigErr : Type 0 where
  no_modules multiple_passthrough passthrough_with_args passthrough_with_command_args : ConfigErr
  module_not_found module_validation empty_devices no_commands reserved_name : ConfigErr
  undefined_arg_reference : Text → ConfigErr
  other_err : String → ConfigErr

-- `ConfigError`; the empty name and line 0 stand for what is not known.
pub record ConfigError : Type 0 where
  pub device : String
  pub command : String
  pub line : ℕ
  pub err : ConfigErr

-- The outcome of a decoding step: `plain` is an error of the YAML library itself.
pub data Decoded {ℓ} (A : Type ℓ) : Type ℓ where
  ok : A → Decoded A
  config : ConfigError → Decoded A
  plain : String → Decoded A

abbrev at_line {ℓ} : {A : Type ℓ} → ℕ → ConfigErr → Decoded A
at_line n e = config (record { device = ""; command = ""; line = n; err = e })

unfoldable pub passthrough_has_args : List Module → Bool
passthrough_has_args [] = false
passthrough_has_args (m ∷ ms) =
    let rest = passthrough_has_args ms in
    if m.passthrough && ltb 0 (length m.args) then true else rest

-- The checks of `Command.UnmarshalYAML`, in order.
unfoldable pub check_command : ℕ → Command → Decoded Command
check_command line c =
    if length c.modules == 0
    then at_line line no_modules
    else if ltb 1 (count_passthrough c)
    then at_line line multiple_passthrough
    else if has_passthrough c && ltb 0 (length c.args)
    then at_line line passthrough_with_command_args
    else if passthrough_has_args c.modules
    then at_line line passthrough_with_args
    else elim (validate_template_references c) [
      | some ref ↦ at_line line (undefined_arg_reference ref)
      | none ↦ ok c
    ]

-- A command's value. The library skips UnmarshalYAML for a null, and leaves the zero value.
pub data CommandNode : Type 0 where
  null : CommandNode
  value : ℕ → Decoded Command → CommandNode

abbrev pub zero_command : Command
zero_command = record { desc = ""; args = []; modules = [] }

unfoldable pub decode_command : CommandNode → Decoded Command
decode_command null = ok zero_command
decode_command (value line (ok c)) = check_command line c
decode_command (value line (config e)) = config e
decode_command (value line (plain e)) = plain e

abbrev pub Entries : Type 0 → Type 0
Entries A = List (String × ℕ × A)

pub data CmdsNode : Type 0 where
  cmds_mapping : Entries CommandNode → CmdsNode
  cmds_other : Decoded (Dict String Command) → CmdsNode

-- The name of the command goes into a `ConfigError` from below; another error is wrapped.
name_command : String → Decoded Command → Decoded Command
name_command name (ok c) = ok c
name_command name (config e) = config (record e { command = name })
name_command name (plain e) =
    config (record { device = ""; command = name; line = 0; err = other_err e })

-- The loop of `decodeCmds`.
decode_entries : Entries CommandNode → Dict String Command → Decoded (Dict String Command)
unfolding name_command
decode_entries [] cmds = ok cmds
decode_entries ((name, line, node) ∷ rest) cmds =
    if is_reserved_command_name name
    then config (record { device = ""; command = name; line = line; err = reserved_name })
    else elim (name_command name (decode_command node)) [
      | ok c ↦ decode_entries rest (insert name c cmds)
      | config e ↦ config e
      | plain e ↦ plain e
    ]

-- `decodeCmds`
unfoldable pub decode_cmds : CmdsNode → Decoded (Dict String Command)
unfolding decode_entries
decode_cmds (cmds_other d) = d
decode_cmds (cmds_mapping []) = at_line 0 no_commands
decode_cmds (cmds_mapping (e ∷ es)) = decode_entries (e ∷ es) []

pub data Field : Type 0 where
  desc_field : String → Field
  cmds_field : CmdsNode → Field
  unknown_field : Field

pub data DeviceNode : Type 0 where
  device_null : DeviceNode
  device_mapping : List Field → DeviceNode
  device_other : Decoded Device → DeviceNode

-- The walk over a device's fields.
decode_fields : List Field → Device → Decoded Device
unfolding decode_cmds
decode_fields [] dev = ok dev
decode_fields (desc_field text ∷ fs) dev = decode_fields fs (record dev { desc = text })
decode_fields (cmds_field node ∷ fs) dev = elim (decode_cmds node) [
  | ok cmds ↦ decode_fields fs (record dev { cmds = cmds })
  | config e ↦ config e
  | plain e ↦ plain e
]
decode_fields (unknown_field ∷ fs) dev = decode_fields fs dev

require_commands : Decoded Device → Decoded Device
require_commands (ok dev) = if length dev.cmds == 0 then at_line 0 no_commands else ok dev
require_commands (config e) = config e
require_commands (plain e) = plain e

abbrev pub zero_device : Device
zero_device = record { desc = ""; cmds = [] }

-- `Device.UnmarshalYAML`; again a null skips it.
unfoldable pub decode_device : DeviceNode → Decoded Device
unfolding decode_fields require_commands
decode_device device_null = ok zero_device
decode_device (device_mapping fs) = require_commands (decode_fields fs zero_device)
decode_device (device_other d) = require_commands d

name_device : String → Decoded Device → Decoded Device
name_device name (ok dev) =
    if length dev.cmds == 0
    then config (record { device = name; command = ""; line = 0; err = no_commands })
    else ok dev
name_device name (config e) = config (record e { device = name })
name_device name (plain e) =
    config (record { device = name; command = ""; line = 0; err = other_err e })

pub data DevlistNode : Type 0 where
  devices_mapping : Entries DeviceNode → DevlistNode
  devices_other : Decoded Devlist → DevlistNode

decode_devices : Entries DeviceNode → Devlist → Decoded Devlist
unfolding name_device
decode_devices [] devs = ok devs
decode_devices ((name, line, node) ∷ rest) devs =
    if is_reserved_device_name name
    then config (record { device = name; command = ""; line = line; err = reserved_name })
    else elim (name_device name (decode_device node)) [
      | ok dev ↦ decode_devices rest (insert name dev devs)
      | config e ↦ config e
      | plain e ↦ plain e
    ]

-- `Devlist.UnmarshalYAML`
unfoldable pub decode_devlist : DevlistNode → Decoded Devlist
unfolding decode_devices
decode_devlist (devices_other d) = d
decode_devlist (devices_mapping []) = at_line 0 empty_devices
decode_devlist (devices_mapping (e ∷ es)) = decode_devices (e ∷ es) []
