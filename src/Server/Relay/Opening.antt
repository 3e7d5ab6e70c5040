-- ===== src/Server/Relay/Opening.antt =====
-- The head of Run of cmds/exp/dutserver/rpc.go, up to the first message to the agent.
--
-- What the client sends first, its headers, and how the send to the agent ends are arguments.
use dutctl.Base.{
  ◌≡◌, ◌≢◌, refl, ap, String, Option, Option-cases, none, some, arith, Text, inl, inr, string_eq,
}
use dutctl.Base.Dict.{lookup}
use dutctl.Versions.{Semver, check_major_mismatch}
use dutctl.Agent.Errors.{
  Err, with_code, aborted, invalid_argument, not_found, internal, not_a_command,
}
use dutctl.Agent.Run.{CmdMsg, Received, command_msg, other_msg, receive_failed}
use dutctl.Agent.Handlers.{Reply, reply, refused}
use dutctl.Server.{Agents, find_agent}

-- The stream to the agent, with its request headers and its first message.
pub record Upstream : Type 0 where
  pub address : String
  pub user : String
  pub version : Text
  pub first : CmdMsg

-- `isCommandMsg`
is_command_msg : Received → Option CmdMsg
is_command_msg (command_msg cmd) = some cmd
is_command_msg _ = none

-- The error of the send, with its own code if it has one.
sent : Upstream → Option Err → Reply Upstream
sent up none = reply up
sent up (some e) = elim e.code [ some c ↦ refused e | none ↦ refused (with_code internal e.cause) ]

route : Semver → Text → Agents → String → Text → (Upstream → Option Err) → CmdMsg → Reply Upstream
unfolding sent
route semver version agents user client_version send cmd = elim (find_agent agents cmd.device) [
  | refused e ↦ refused (with_code not_found e.cause)
  | reply address ↦ elim (check_major_mismatch semver version client_version) [
    | some e ↦ refused e
    | none ↦
        let up : Upstream = record {
          address = address;
          user = user;
          version = client_version;
          first = cmd;
        } in
        sent up (send up)
  ]
]

received : Received → Option CmdMsg → (CmdMsg → Reply Upstream) → Reply Upstream
received (receive_failed e) cmd next = refused (with_code aborted e.cause)
received _ none next = refused (with_code invalid_argument not_a_command)
received _ (some cmd) next = next cmd

unfoldable pub open_stream :
    Semver → Text → Agents → String → Text → (Upstream → Option Err) → Received → Reply Upstream
unfolding is_command_msg route received
open_stream semver version agents user client_version send first =
    received first (is_command_msg first) (route semver version agents user client_version send)

unfoldable pub IsOpening :
    Semver
    → Text
    → Agents
    → String
    → Text
    → (Upstream → Option Err)
    → Received
    → Reply Upstream
    → Type 0
IsOpening semver version agents user client_version send first (reply up) =
    (first ≡ command_msg up.first)
    × (lookup up.first.device agents ≡ some up.address)
    × (up.user ≡ user)
    × (up.version ≡ client_version)
    × (check_major_mismatch semver version client_version ≡ none)
    × (send up ≡ none)
IsOpening semver version agents user client_version send first (refused e) = e.code ≢ none

sent-IsOpening :
    (semver : Semver) (version : Text) (agents : Agents) (user : String) (client_version : Text)
    (send : Upstream → Option Err) (cmd : CmdMsg) (up : Upstream) (result : Option Err)
    → send up ≡ result
    → cmd ≡ up.first
    → lookup up.first.device agents ≡ some up.address
    → up.user ≡ user
    → up.version ≡ client_version
    → check_major_mismatch semver version client_version ≡ none
    → IsOpening semver version agents user client_version send (command_msg cmd) (sent up result)
unfolding IsOpening sent
sent-IsOpening semver version agents user client_version send cmd up none e first found same same'
      ok =
    (ap command_msg first, found, same, same', ok, e)
sent-IsOpening semver version agents user client_version send cmd up (some x) e first found same
      same' ok =
    elim (Option-cases x.code) [
      | inl c ↦ rw c (λ h. ground arith)
      | inr (c, h) ↦ rw h (λ k. ground (arith, h, k))
    ]

mismatch-code :
    (semver : Semver) (version peer : Text) {e : Err}
    → check_major_mismatch semver version peer ≡ some e
    → e.code ≢ none
unfolding check_major_mismatch
mismatch-code semver version peer h k = ground (arith, h, k)

-- A stream that is opened goes to the agent that has registered the device, with the user, the
-- version and the command of the client as they are, and only for a version that the server can
-- relay; in every other case the client gets an error with a status code.
pub open_stream-IsOpening :
    (semver : Semver) (version : Text) (agents : Agents) (user : String) (client_version : Text)
    (send : Upstream → Option Err) (first : Received)
    → IsOpening semver version agents user client_version send first
        (open_stream semver version agents user client_version send first)
unfolding IsOpening open_stream find_agent route
open_stream-IsOpening semver version agents user client_version send (receive_failed e) =
    λ h. ground arith
open_stream-IsOpening semver version agents user client_version send other_msg = λ h. ground arith
open_stream-IsOpening semver version agents user client_version send (command_msg cmd) =
    elim (Option-cases (lookup cmd.device agents)) [
      | inl e ↦ rw (e, IsOpening, open_stream, route, find_agent) (λ h. ground arith)
      | inr (address, e) ↦
          rw (e, IsOpening, open_stream, route, find_agent)
            (elim (Option-cases (check_major_mismatch semver version client_version)) [
              | inl ok ↦
                  rw (ok, sent)
                    (sent-IsOpening semver version agents user client_version send cmd _ _ refl refl
                      e refl refl ok)
              | inr (x, bad) ↦ rw bad (mismatch-code semver version client_version bad)
            ])
    ]
