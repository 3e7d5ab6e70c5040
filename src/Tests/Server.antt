-- ===== src/Tests/Server.antt =====
-- Two agents at one server (cmds/exp/dutserver).
use dutctl.Base.{◌≡◌, String, ◌&&◌, some, [], ◌∷◌, contains, if◌then◌else◌, string_eq}
use dutctl.Base.Dict.{lookup}
use dutctl.Agent.Errors.{Err, with_code, aborted, unregistered_device}
use dutctl.Agent.Handlers.{Reply, refused}
use dutctl.Server.{Agents, register}
use dutctl.Server.Registry.{accepts, is_accepted, register-outcome}

abbrev east : String
east = "http://east"

abbrev west : String
west = "http://west"

abbrev rpi : String
rpi = "rpi"

abbrev nuc : String
nuc = "nuc"

abbrev agents : Agents
agents = (rpi, east) ∷ []

register-outcome_example :
    let (agents', r) = register agents west (nuc ∷ []) in
    (accepts r ≡ is_accepted agents west (nuc ∷ []))
    × (lookup rpi agents' ≡ (
        if is_accepted agents west (nuc ∷ []) && contains (nuc ∷ []) rpi
        then some west
        else lookup rpi agents))
register-outcome_example = register-outcome agents west rpi (nuc ∷ [])

abbrev broken : Err
broken = with_code aborted unregistered_device

abbrev answers : String → Reply String
answers address = refused broken
