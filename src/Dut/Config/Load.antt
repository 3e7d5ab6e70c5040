-- ===== src/Dut/Config/Load.antt =====
-- What a configuration that pkg/dut/config.go accepts guarantees to the lookups of pkg/dut/dut.go.
use dutctl.Base.{
  ℕ, ◌≡◌, ◌≢◌, refl, subst, ap, ◌∙◌, String, false, some, List, [], ◌∷◌, arith, string_eq, nat_eq,
  length, ◌⊎◌, inl, inr, Bool-cases, Option-cases,
}
use mathlib.Core.Option.{some-injective}
use dutctl.Base.Dict.{lookup, insert, lookup-insert, lookup-nil}
use dutctl.Dut.{
  Module, Command, Device, Devlist, found, missing, device_not_found, command_not_found, no_modules,
  check_cmd, find_cmd, is_reserved_command_name, is_reserved_device_name,
}
use dutctl.Dut.Config.{
  Decoded, ok, config, plain, null, zero_command, decode_command, Entries, cmds_mapping, cmds_other,
  name_command, decode_entries, decode_cmds, Field, desc_field, cmds_field, unknown_field,
  DeviceNode, device_null, device_mapping, device_other, decode_fields, require_commands,
  zero_device, decode_device, name_device, devices_mapping, decode_devices, decode_devlist,
}
use dutctl.Dut.Config.Accepted.{
  IsAccepted, ok-injective, Decoded-cases, GoodCmds, empty-GoodCmds, decode_cmds-GoodCmds,
}

-- A device whose `cmds` are written as mappings, so that none is left to the library's decoding.
abbrev pub IsPlainFields : List Field → Type 0
IsPlainFields [] = Unit {0}
IsPlainFields (cmds_field (cmds_other d) ∷ fs) = ⊥
IsPlainFields (_ ∷ fs) = IsPlainFields fs

abbrev pub IsPlainDevice : DeviceNode → Type 0
IsPlainDevice device_null = Unit {0}
IsPlainDevice (device_mapping fs) = IsPlainFields fs
IsPlainDevice (device_other d) = ⊥

abbrev pub IsPlainDevices : Entries DeviceNode → Type 0
IsPlainDevices [] = Unit {0}
IsPlainDevices ((name, line, node) ∷ rest) = IsPlainDevice node × IsPlainDevices rest

decode_fields-GoodCmds :
    (fs : List Field) (dev out : Device)
    → IsPlainFields fs
    → GoodCmds dev.cmds
    → decode_fields fs dev ≡ ok out
    → GoodCmds out.cmds
unfolding decode_fields
decode_fields-GoodCmds [] dev out p good h =
    subst (λ (d : Device). GoodCmds d.cmds) (ok-injective h) good
decode_fields-GoodCmds (desc_field t ∷ fs) dev out p good h =
    decode_fields-GoodCmds fs (record dev { desc = t }) out p good h
decode_fields-GoodCmds (unknown_field ∷ fs) dev out p good h =
    decode_fields-GoodCmds fs dev out p good h
decode_fields-GoodCmds (cmds_field (cmds_other d) ∷ fs) dev out p good h = absurd p
decode_fields-GoodCmds (cmds_field (cmds_mapping es) ∷ fs) dev out p good h =
    elim (Decoded-cases (decode_cmds (cmds_mapping es))) [
      | inl (cmds, e) ↦
          decode_fields-GoodCmds fs (record dev { cmds = cmds }) out p
            (decode_cmds-GoodCmds es cmds e) (ground arith)
      | inr bad ↦ absurd (ground arith)
    ]

decode_device-GoodCmds :
    (node : DeviceNode) (dev : Device)
    → IsPlainDevice node
    → decode_device node ≡ ok dev
    → GoodCmds dev.cmds
unfolding decode_device require_commands
decode_device-GoodCmds device_null dev p h =
    subst (λ (d : Device). GoodCmds d.cmds) (ok-injective h) empty-GoodCmds
decode_device-GoodCmds (device_mapping fs) dev p h =
    decode_fields-GoodCmds fs zero_device dev p empty-GoodCmds (ground arith)
decode_device-GoodCmds (device_other d) dev p h = absurd p

name_device-ok :
    (name : String) (d : Decoded Device) (dev : Device)
    → name_device name d ≡ ok dev
    → (d ≡ ok dev) × (length dev.cmds ≢ 0)
unfolding name_device
name_device-ok name (ok x) dev h = (ground arith, λ e. ground arith)
name_device-ok name (config e) dev h = cc
name_device-ok name (plain e) dev h = cc

-- A loaded device: it has a command, and its commands are good.
abbrev pub GoodDevs : Devlist → Type 0
GoodDevs devs =
    (name : String) (dev : Device)
    → lookup name devs ≡ some dev
    → GoodCmds dev.cmds × (length dev.cmds ≢ 0) × (is_reserved_device_name name ≡ false)

insert-GoodDevs :
    (name : String) (dev : Device) (devs : Devlist)
    → GoodCmds dev.cmds
    → length dev.cmds ≢ 0
    → is_reserved_device_name name ≡ false
    → GoodDevs devs
    → GoodDevs (insert name dev devs)
insert-GoodDevs name dev devs l some_cmd free good other x h = elim (string_eq.dec other name) [
  | yes e ↦
      let same = some-injective dev x (ground (arith, lookup-insert other name dev devs)) in
      subst
        (λ (d : Device).
          GoodCmds d.cmds × (length d.cmds ≢ 0) × (is_reserved_device_name other ≡ false))
        same (l, some_cmd, rw e free)
  | no n ↦ good other x (ground (arith, lookup-insert other name dev devs))
]

decode_devices-GoodDevs :
    (es : Entries DeviceNode) (devs out : Devlist)
    → IsPlainDevices es
    → GoodDevs devs
    → decode_devices es devs ≡ ok out
    → GoodDevs out
unfolding decode_devices
decode_devices-GoodDevs [] devs out p good h = subst GoodDevs (ok-injective h) good
decode_devices-GoodDevs ((name, line, node) ∷ es) devs out p good h =
    elim (Bool-cases (is_reserved_device_name name)) [
      | inl e ↦ absurd (ground arith)
      | inr free ↦ elim (Decoded-cases (name_device name (decode_device node))) [
        | inl (dev, e) ↦
            let (d, some_cmd) = name_device-ok name (decode_device node) dev e in
            decode_devices-GoodDevs es (insert name dev devs) out p.1
              (insert-GoodDevs name dev devs (decode_device-GoodCmds node dev p.0 d) some_cmd free
                good)
              (ground arith)
        | inr bad ↦ absurd (ground arith)
      ]
    ]

pub decode_devlist-GoodDevs :
    (es : Entries DeviceNode) (devs : Devlist)
    → IsPlainDevices es
    → decode_devlist (devices_mapping es) ≡ ok devs
    → GoodDevs devs
unfolding decode_devlist
decode_devlist-GoodDevs [] devs p h = cc
decode_devlist-GoodDevs (e ∷ es) devs p h =
    decode_devices-GoodDevs (e ∷ es) [] devs p (λ name dev g. cc (lookup-nil {V = Device} name)) h

check_cmd-zero :
    (dev : Device) (c : Command) → c ≡ zero_command → check_cmd dev c ≡ missing no_modules
unfolding check_cmd
check_cmd-zero dev c z = ground arith

check_cmd-IsAccepted :
    (dev : Device) (c : Command) → IsAccepted c → check_cmd dev c ≡ found (dev, c)
unfolding check_cmd
check_cmd-IsAccepted dev c a = go c.modules refl
  where
    go : (ms : List Module) → c.modules ≡ ms → check_cmd dev c ≡ found (dev, c)
    go [] e = absurd (a.has_module e)
    go (m ∷ ms) e = ground (arith, a.one_passthrough)

-- In a configuration that was loaded from mappings of devices and commands, `FindCmd` gives for
-- any two names a command that passed all checks, under a device name and a command name that are
-- not reserved, or says that there is no such device or no such command, or finds the command of
-- a null value and reports that it has no modules. So it never reports several passthrough
-- modules.
pub find_cmd-loaded :
    (es : Entries DeviceNode) (devs : Devlist)
    → IsPlainDevices es
    → decode_devlist (devices_mapping es) ≡ ok devs
    → (device command : String)
    → ((find_cmd devs device command ≡ missing device_not_found)
        ⊎ (find_cmd devs device command ≡ missing command_not_found))
      ⊎ (((find_cmd devs device command ≡ missing no_modules)
            × (dev : Device) × (lookup device devs ≡ some dev)
            × (lookup command dev.cmds ≡ some zero_command))
          ⊎ ((dev : Device) × (c : Command) × (find_cmd devs device command ≡ found (dev, c))
              × IsAccepted c
              × (is_reserved_device_name device ≡ false)
              × (is_reserved_command_name command ≡ false)))
unfolding find_cmd
find_cmd-loaded es devs p h device command = elim (Option-cases (lookup device devs)) [
  | inl e ↦ inl (inl (rw (e, find_cmd)))
  | inr (dev, e) ↦ elim (Option-cases (lookup command dev.cmds)) [
    | inl f ↦ inl (inr (rw (e, find_cmd) (rw (f, find_cmd))))
    | inr (c, f) ↦
        let (cmds, _, free) = decode_devlist-GoodDevs es devs p h device dev e in
        let (l, free') = cmds command c f in
        elim l [
          | inl z ↦ inr (
              inl (
                rw (e, find_cmd) (rw (f, find_cmd) (check_cmd-zero dev c z)),
                dev,
                e,
                f ∙ ap some z,
              ))
          | inr a ↦ inr (
              inr (
                dev,
                c,
                rw (e, find_cmd) (rw (f, find_cmd) (check_cmd-IsAccepted dev c a)),
                a,
                free,
                free',
              ))
        ]
  ]
]

-- A command whose value is a null is loaded, although it has no modules: under any names that are
-- not reserved the configuration is accepted, and `FindCmd` then fails with `no_modules`.
pub null_command_loads :
    (device command : String) (line row : ℕ)
    → is_reserved_device_name device ≡ false
    → is_reserved_command_name command ≡ false
    → let node = devices_mapping (
        (device, line, device_mapping (cmds_field (cmds_mapping ((command, row, null) ∷ [])) ∷ []))
        ∷ []) in
      (devs : Devlist) × (decode_devlist node ≡ ok devs)
      × (find_cmd devs device command ≡ missing no_modules)
unfolding decode_devlist decode_devices decode_device decode_fields decode_cmds decode_entries
    decode_command name_command name_device require_commands find_cmd check_cmd insert lookup
null_command_loads device command line row free free' = (
  (device, record { desc = ""; cmds = (command, zero_command) ∷ [] }) ∷ [],
  ground arith,
  ground arith,
)
