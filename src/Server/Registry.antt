-- ===== src/Server/Registry.antt =====
-- What registrations leave behind: cmds/exp/dutserver/rpc.go.
use dutctl.Base.{
  ◌≡◌, ◌≢◌, refl, String, Bool, true, false, ◌&&◌, not, none, some, List, [], ◌∷◌, ◌==◌, string_eq,
  nat_eq, if◌then◌else◌, length, contains, arith, Option-cases, inl, inr,
}
use dutctl.Base.Dict.{lookup, insert, lookup-insert}
use dutctl.Agent.Errors.{Err, not_found}
use dutctl.Agent.Handlers.{Reply, reply, refused}
use dutctl.Server.{
  relay, Agents, find_agent, first_taken, store_devices, add_agent, unnamed, added, register,
}

-- A device name that a registration may bring: not empty, and not registered.
abbrev pub is_fresh : Agents → String → Bool
is_fresh agents device =
    not (device == "") && elim (lookup device agents) [ none ↦ true | some _ ↦ false ]

abbrev pub all_fresh : Agents → List String → Bool
all_fresh agents [] = true
all_fresh agents (device ∷ devices) = is_fresh agents device && all_fresh agents devices

-- A registration that the server accepts.
abbrev pub is_accepted : Agents → String → List String → Bool
is_accepted agents address devices =
    (not (address == "") && not (length devices == 0)) && all_fresh agents devices

all_fresh-split :
    (agents : Agents) (devices : List String)
    → all_fresh agents devices ≡ (
        not (unnamed devices) && elim (first_taken agents devices) [ none ↦ true | some _ ↦ false ])
unfolding unnamed first_taken
all_fresh-split agents [] = refl
all_fresh-split agents (d ∷ ds) = ground (arith, all_fresh-split agents ds)

lookup-store_devices :
    (address other : String) (devices : List String) (agents : Agents)
    → lookup other (store_devices address devices agents)
      ≡ (if contains devices other then some address else lookup other agents)
unfolding store_devices
lookup-store_devices address other [] agents = refl
lookup-store_devices address other (d ∷ ds) agents = ground (
  arith,
  lookup-store_devices address other ds (insert d address agents),
  lookup-insert other d address agents,
)

abbrev pub accepts : Reply (Unit {0}) → Bool
accepts (reply _) = true
accepts (refused _) = false

added-add_agent :
    (agents : Agents) (address other : String) (devices : List String)
    → let free : Bool = elim (first_taken agents devices) [ none ↦ true | some _ ↦ false ] in
      (accepts (added (add_agent agents address devices)).1 ≡ free)
      × (lookup other (added (add_agent agents address devices)).0
          ≡ (if free && contains devices other then some address else lookup other agents))
unfolding add_agent added
added-add_agent agents address other devices = elim (Option-cases (first_taken agents devices)) [
  | inl e ↦ (
    rw (e, add_agent) refl,
    rw (e, add_agent) (lookup-store_devices address other devices agents),
  )
  | inr (d, e) ↦ (rw (e, add_agent) refl, rw (e, add_agent) refl)
]

all_fresh-contains :
    (agents : Agents) (devices : List String) (device : String)
    → all_fresh agents devices ≡ true
    → contains devices device ≡ true
    → lookup device agents ≡ none
all_fresh-contains agents [] device h c = absurd (ground arith)
all_fresh-contains agents (d ∷ ds) device h c = ground (arith, all_fresh-contains agents ds device)

-- A registration succeeds exactly if it has an address and at least one device and every device has
-- a name and is not registered. Then its devices lead to the address and the others to where they
-- led before; a registration that fails leaves every device as it was.
pub register-outcome :
    (agents : Agents) (address other : String) (devices : List String)
    → let (agents', r) = register agents address devices in
      (accepts r ≡ is_accepted agents address devices)
      × (lookup other agents' ≡ (
          if is_accepted agents address devices && contains devices other
          then some address
          else lookup other agents))
unfolding register
register-outcome agents address other devices =
    let (verdict, left) = added-add_agent agents address other devices in
    (
      ground (arith, verdict, all_fresh-split agents devices),
      ground (arith, left, all_fresh-split agents devices),
    )

-- The registrations that the server handles, in order.
unfoldable pub registrations : Agents → List (String × List String) → Agents
registrations agents [] = agents
registrations agents ((address, devices) ∷ rest) =
    registrations (register agents address devices).0 rest

register-keeps :
    (agents : Agents) (address device at : String) (devices : List String)
    → lookup device agents ≡ some at
    → lookup device (register agents address devices).0 ≡ some at
register-keeps agents address device at devices h = ground (
  arith,
  (register-outcome agents address device devices).1,
  all_fresh-contains agents devices device,
)

lookup-registrations :
    (agents : Agents) (device address : String) (rest : List (String × List String))
    → lookup device agents ≡ some address
    → lookup device (registrations agents rest) ≡ some address
unfolding registrations
lookup-registrations agents device address [] h = h
lookup-registrations agents device address ((at, devices) ∷ rest) h =
    lookup-registrations (register agents at devices).0 device address rest
      (register-keeps agents at device address devices h)

-- A device that an agent has registered stays with that agent, whatever registrations follow.
pub registrations-stable :
    (agents : Agents) (device address : String) (rest : List (String × List String))
    → find_agent agents device ≡ reply address
    → find_agent (registrations agents rest) device ≡ reply address
unfolding find_agent
registrations-stable agents device address rest h =
    ground (arith, lookup-registrations agents device address rest)

-- A relayed request that is refused has a code: not_found for a device that is not registered, and
-- an error of the agent that has a code comes through unchanged.
pub relay-coded {ℓ} :
    {A : Type ℓ} (agents : Agents) (device : String) (forward : String → Reply A) (e : Err)
    → relay agents device forward ≡ refused e
    → (e.code ≢ none)
      × (lookup device agents ≡ none → e.code ≡ some not_found)
      × ((address : String) (x : Err)
          → lookup device agents ≡ some address
          → forward address ≡ refused x
          → x.code ≢ none
          → e ≡ x)
unfolding relay find_agent
relay-coded agents device forward e h =
    (λ n. ground arith, λ n. ground arith, λ address x f g c. ground arith)
