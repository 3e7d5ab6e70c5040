-- ===== src/Client.antt =====
-- The command line of the client: cmds/dutctl/dutctl.go, with the requests of cmds/dutctl/rpc.go.
--
-- The arguments behind the flags choose a request. The time library is a parameter: what
-- `time.ParseDuration` makes of a text, and `int64(d.Seconds())`. Timeouts, logging, metadata and the
-- formatter's text are left out.
pub mod Routing
pub mod Requests
pub mod Durations
pub mod Stream
use dutctl.Base.{
  ℕ, String, Bool, true, false, ◌||◌, Option, none, some, List, [], ◌∷◌, ◌==◌, string_eq, nat_eq,
  if◌then◌else◌, ltb,
}
use dutctl.Base.Int.{ℤ, pos, negsuc, nonpositive}
use dutctl.Dut.{
  version_keyword, list_keyword, lock_keyword, unlock_keyword, help_keyword, force_keyword,
}
use dutctl.Agent.Errors.{Code, unavailable}
use dutctl.Agent.Handlers.{DeviceInfo}

-- The request that a command line asks for.
pub data Call : Type 0 where
  list_rpc : Call
  commands_rpc : String → Call
  details_rpc : String → String → String → Call
  lock_rpc : String → List String → Call
  unlock_rpc : String → Bool → Call
  run_rpc : String → String → List String → Call

-- `parseUnlockArgs`; `none` is `errInvalidCmdline`, here and below.
unfoldable pub parse_unlock_args : List String → Option Bool
parse_unlock_args [] = some false
parse_unlock_args (a ∷ []) = if a == force_keyword then some true else none
parse_unlock_args (a ∷ b ∷ more) = none

-- The `help` keyword, or else a run.
help_or_run : String → String → List String → Option Call
help_or_run device command [] = some (run_rpc device command [])
help_or_run device command (a ∷ []) =
    if a == help_keyword
    then some (details_rpc device command help_keyword)
    else some (run_rpc device command (a ∷ []))
help_or_run device command (a ∷ b ∷ more) =
    if a == help_keyword then none else some (run_rpc device command (a ∷ b ∷ more))

lock_call : String → List String → Option Call
lock_call device [] = some (lock_rpc device [])
lock_call device (a ∷ []) = some (lock_rpc device (a ∷ []))
lock_call device (a ∷ b ∷ more) = none

-- `dispatchCommand`
unfoldable pub dispatch_command : String → String → List String → Option Call
unfolding parse_unlock_args help_or_run lock_call
dispatch_command device command args =
    if command == lock_keyword
    then lock_call device args
    else if command == unlock_keyword
    then elim (parse_unlock_args args) [ none ↦ none | some force ↦ some (unlock_rpc device force) ]
    else help_or_run device command args

-- `route`
unfoldable pub route : List String → Option Call
unfolding dispatch_command
route [] = some list_rpc
route (a ∷ []) = if a == list_keyword then some list_rpc else some (commands_rpc a)
route (a ∷ b ∷ args) = if a == list_keyword then none else dispatch_command a b args

-- What `start` does.
pub data Action : Type 0 where
  print_version invalid_cmdline : Action
  call : Call → Action

routed : Option Call → Action
routed none = invalid_cmdline
routed (some c) = call c

-- `start`, with `dispatch`
unfoldable pub start : List String → Action
unfolding route routed
start [] = routed (route [])
start (a ∷ args) = if a == version_keyword then print_version else routed (route (a ∷ args))

-- An error at the end of an invocation, and what `exit` shows of it.
pub data Failure : Type 0 where
  interrupted invalid : Failure
  rpc_error : Code → String → Failure
  plain_error : String → Failure

pub data Shown : Type 0 where
  interrupted_text : Shown
  text : String → Shown
  unreachable : String → String → Shown

-- `asInterrupt`; `signalled` is whether the context has been cancelled by a signal.
unfoldable pub as_interrupt : Bool → Option Failure → Option Failure
as_interrupt signalled none = none
as_interrupt signalled (some e) = if signalled then some interrupted else some e

is_unavailable : Code → Bool
is_unavailable unavailable = true
is_unavailable _ = false

-- `userFacingError`
unfoldable pub user_facing_error : String → Failure → Shown
unfolding is_unavailable
user_facing_error server interrupted = text "interrupted"
user_facing_error server invalid = text "invalid command line"
user_facing_error server (rpc_error code message) =
    if is_unavailable code then unreachable server message else text message
user_facing_error server (plain_error message) = text message

-- `exit`: the exit code, what is written, and whether the synopsis is.
pub record Exit : Type 0 where
  pub code : ℕ
  pub shown : Option Shown
  pub synopsis : Bool

unfoldable pub exit : String → Option Failure → Exit
unfolding user_facing_error
exit server none = record { code = 0; shown = none; synopsis = false }
exit server (some interrupted) = record {
  code = 130;
  shown = some interrupted_text;
  synopsis = false;
}
exit server (some invalid) = record {
  code = 1;
  shown = some (user_facing_error server invalid);
  synopsis = true;
}
exit server (some e) = record {
  code = 1;
  shown = some (user_facing_error server e);
  synopsis = false;
}

-- What the client uses of the time library.
pub record Time : Type 0 where
  pub parse_duration : String → Option ℤ
  pub whole_seconds : ℤ → ℤ

pub data Duration : Type 0 where
  given : ℤ → Duration
  unparsable nonpositive_duration : Duration

-- `parseLockDuration`
unfoldable pub parse_lock_duration : Time → List String → Duration
parse_lock_duration time [] = given (pos 0)
parse_lock_duration time (a ∷ args) =
    if a == "" then given (pos 0) else elim (time.parse_duration a) [
      | none ↦ unparsable
      | some d ↦ if nonpositive d then nonpositive_duration else given d
    ]

-- The field `DurationSeconds` that `lockRPC` sends, if it sends a request.
unfoldable pub lock_seconds : Time → List String → Option ℤ
unfolding parse_lock_duration
lock_seconds time args = elim (parse_lock_duration time args) [
  | given d ↦ some (time.whole_seconds d)
  | unparsable ↦ none
  | nonpositive_duration ↦ none
]

-- Whether the function of a call gets to its request: `lockRPC` returns before it on a bad duration.
sends_request : Time → Call → Bool
sends_request time (lock_rpc device args) = elim (parse_lock_duration time args) [
  | given d ↦ true
  | unparsable ↦ false
  | nonpositive_duration ↦ false
]
sends_request time _ = true

sent_call : Time → Action → Option Call
unfolding sends_request
sent_call time print_version = none
sent_call time invalid_cmdline = none
sent_call time (call c) = if sends_request time c then some c else none

-- The request that a command line makes, if it makes one.
unfoldable pub request : Time → List String → Option Call
unfolding sent_call
request time args = sent_call time (start args)

-- `output.DeviceEntry`, as `listRPC` fills it.
pub record DeviceEntry : Type 0 where
  pub name : String
  pub locked : Bool
  pub owner : String
  pub expires_at : ℤ

unfoldable pub device_entry : DeviceInfo → DeviceEntry
device_entry info = elim info.lock [
  | none ↦ record { name = info.name; locked = false; owner = ""; expires_at = pos 0 }
  | some l ↦ record { name = info.name; locked = true; owner = l.owner; expires_at = l.expires_at }
]
