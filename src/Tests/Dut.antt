-- ===== src/Tests/Dut.antt =====
-- A board with one command (pkg/dut).
use dutctl.Base.{
  ◌≡◌, ◌≢◌, refl, String, false, some, List, [], ◌∷◌, ◌++◌, arith, nat_eq, string_eq, text_eq,
  ℕ_discrete, All, Text, ◌⊎◌,
}
use dutctl.Base.Dict.{Dict, lookup, insert}
use dutctl.Dut.{
  Module, Command, Device, Devlist, found, missing, device_not_found, command_not_found, no_modules,
  find_cmd, has_passthrough, count_passthrough, is_reserved_device_name, is_reserved_command_name,
}
use dutctl.Dut.Template.{written, extract_template_references, replace_all, is_name_char}
use dutctl.Dut.Template.Laws.{replace_all-written, IsName}
use dutctl.Dut.Args.{arg_map, validate_template_references, arg_names}
use dutctl.Dut.Bound.{Bound, validate_template_references-Bound}
use dutctl.Dut.Config
use dutctl.Dut.Config.{
  Entries, DeviceNode, device_mapping, cmds_field, cmds_mapping, value, null, zero_command,
  decode_devlist, decode_device, decode_cmds, decode_command, check_command, passthrough_has_args,
  devices_mapping,
}
use dutctl.Dut.Config.Load.{find_cmd-loaded, null_command_loads}
use dutctl.Dut.Config.Accepted.{IsAccepted}

abbrev pub port_name : Text
port_name = b'p' ∷ []

abbrev pub shell : Module
shell = record {
  config = record { name = "shell"; passthrough = false; args = (b'-' ∷ written port_name) ∷ [] };
  help = "";
}

abbrev pub on_cmd : Command
on_cmd = record {
  desc = "";
  args = record { name = port_name; desc = "" } ∷ [];
  modules = shell ∷ [];
}

abbrev pub rpi : String
rpi = "rpi"

abbrev pub on : String
on = "on"

abbrev pub board : Device
board = record { desc = ""; cmds = (on, on_cmd) ∷ [] }

abbrev pub boards : Devlist
boards = (rpi, board) ∷ []

abbrev file : Entries DeviceNode
file =
    (
      rpi,
      2,
      device_mapping (cmds_field (cmds_mapping ((on, 4, value 5 (Config.ok on_cmd)) ∷ [])) ∷ []),
    )
    ∷ []

abbrev given : List Text
given = (b'8' ∷ []) ∷ []

abbrev values : Dict Text Text
values = (port_name, b'8' ∷ b'$' ∷ []) ∷ []

port_name-IsName : IsName port_name
unfolding is_name_char
port_name-IsName = (λ e. cc, (refl, tt))

replace_all-written_example :
    replace_all values ((b'-' ∷ []) ++ (written port_name ++ (b'!' ∷ [])))
    ≡ (b'-' ∷ []) ++ ((b'8' ∷ b'$' ∷ []) ++ replace_all values (b'!' ∷ []))
unfolding lookup text_eq ℕ_discrete
replace_all-written_example =
    replace_all-written values (b'-' ∷ []) port_name (b'8' ∷ b'$' ∷ []) (b'!' ∷ [])
      ((λ e. omega arith), tt) port_name-IsName refl

nonempty_modules : ◌≢◌ {A = List Module} on_cmd.modules []
nonempty_modules = λ e. cc

validate_template_references-Bound_example :
    All
      (λ (m : Module).
        m.passthrough ≡ false
        → All
            (λ arg. All (Bound (arg_map on_cmd.args given)) (extract_template_references arg))
            m.args)
      on_cmd.modules
unfolding validate_template_references extract_template_references text_eq ℕ_discrete arg_names
validate_template_references-Bound_example =
    validate_template_references-Bound on_cmd given refl refl

find_cmd-loaded_example :
    ((find_cmd boards rpi on ≡ missing device_not_found)
      ⊎ (find_cmd boards rpi on ≡ missing command_not_found))
    ⊎ (((find_cmd boards rpi on ≡ missing no_modules)
          × (dev : Device) × (lookup rpi boards ≡ some dev)
          × (lookup on dev.cmds ≡ some zero_command))
        ⊎ ((dev : Device) × (c : Command) × (find_cmd boards rpi on ≡ found (dev, c))
            × IsAccepted c
            × (is_reserved_device_name rpi ≡ false)
            × (is_reserved_command_name on ≡ false)))
unfolding decode_devlist decode_device decode_cmds decode_command check_command passthrough_has_args
    count_passthrough has_passthrough validate_template_references extract_template_references
    insert is_reserved_device_name is_reserved_command_name string_eq text_eq ℕ_discrete arg_names
find_cmd-loaded_example = find_cmd-loaded file boards ((tt, tt)) refl rpi on

null_command_loads_example :
    (devs : Devlist) × (decode_devlist (
        devices_mapping
          ((rpi, 1, device_mapping (cmds_field (cmds_mapping ((on, 2, null) ∷ [])) ∷ [])) ∷ []))
      ≡ Config.ok devs)
    × (find_cmd devs rpi on ≡ missing no_modules)
unfolding is_reserved_device_name is_reserved_command_name string_eq
null_command_loads_example = null_command_loads rpi on 1 2 refl refl

-- A `$` that begins no reference, and a reference with another name.
abbrev shell_text : Text
shell_text = b'$' ∷ b'x' ∷ written (b'q' ∷ [])
