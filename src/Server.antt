-- ===== src/Server.antt =====
-- The registry of cmds/exp/dutserver/rpc.go: agents register the devices that they serve, and the
-- server passes requests for a device on to its agent.
--
-- The map holds the address of the agent for each device; the cached client of an agent is left
-- out. What the agent at an address answers is an argument of the relay.
pub mod Registry
pub mod Relay
use dutctl.Base.{
  ℕ, String, Bool, true, false, ◌||◌, Option, none, some, List, [], ◌∷◌, ◌==◌, string_eq, nat_eq,
  if◌then◌else◌, length, map,
}
use dutctl.Base.Dict.{Dict, keys, lookup, insert}
use dutctl.Agent.Errors.{
  Err, with_code, not_found, invalid_argument, already_exists, internal, unregistered_device,
  missing_address, no_devices, unnamed_device, registered_device,
}
use dutctl.Agent.Handlers.{Reply, reply, refused}

abbrev pub Agents : Type 0
Agents = Dict String String

-- `findAgent`
unfoldable pub find_agent : Agents → String → Reply String
find_agent agents device = elim (lookup device agents) [
  | some address ↦ reply address
  | none ↦ refused (record { cause = unregistered_device; code = none })
]

-- The first loop of `addAgent`: the first device that is taken.
first_taken : Agents → List String → Option String
first_taken agents [] = none
first_taken agents (device ∷ devices) = elim (lookup device agents) [
  | some address ↦ some device
  | none ↦ first_taken agents devices
]

-- The second loop of `addAgent`.
store_devices : String → List String → Agents → Agents
store_devices address [] agents = agents
store_devices address (device ∷ devices) agents =
    store_devices address devices (insert device address agents)

-- `addAgent`
unfoldable pub add_agent : Agents → String → List String → Agents × Option Err
unfolding first_taken store_devices
add_agent agents address devices = elim (first_taken agents devices) [
  | some device ↦ (agents, some (record { cause = registered_device device; code = none }))
  | none ↦ (store_devices address devices agents, none)
]

unnamed : List String → Bool
unnamed [] = false
unnamed (device ∷ devices) = device == "" || unnamed devices

-- The end of `Register`.
added : Agents × Option Err → Agents × Reply (Unit {0})
added (agents, none) = (agents, reply tt)
added (agents, some e) = (agents, refused (with_code already_exists e.cause))

-- `Register`
unfoldable pub register : Agents → String → List String → Agents × Reply (Unit {0})
unfolding unnamed added
register agents address devices =
    if address == ""
    then (agents, refused (with_code invalid_argument missing_address))
    else if length devices == 0
    then (agents, refused (with_code invalid_argument no_devices))
    else if unnamed devices
    then (agents, refused (with_code invalid_argument unnamed_device))
    else added (add_agent agents address devices)

-- `List`; `sort` is the library's sorting.
unfoldable pub list_devices : (List String → List String) → Agents → List String
list_devices sort agents = sort (keys agents)

-- `Commands` and `Details`: the agent's answer, with the code of its error if it has one.
unfoldable pub relay {ℓ} : {A : Type ℓ} → Agents → String → (String → Reply A) → Reply A
relay agents device forward = elim (find_agent agents device) [
  | refused e ↦ refused (with_code not_found e.cause)
  | reply address ↦ elim (forward address) [
    | reply answer ↦ reply answer
    | refused e ↦ elim e.code [ some c ↦ refused e | none ↦ refused (with_code internal e.cause) ]
  ]
]
