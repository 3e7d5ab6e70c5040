-- ===== src/Agent/Handlers.antt =====
-- The other requests: cmds/dutagent/rpc.go.
--
-- A context carries the identity or not; a request's message gives the other arguments. Each
-- reading of the clock by the locker is an argument. Seconds and durations are int64.
pub mod Locking
use dutctl.Base.{
  ℕ, suc, ◌+◌, ◌-◌, ◌*◌, ◌/◌, ◌%◌, String, Bool, true, false, Option, none, some, List, [], ◌∷◌,
  ◌==◌, string_eq, nat_eq, if◌then◌else◌, ltb, map,
}
use dutctl.Base.Dict.{Dict, keys, lookup}
use dutctl.Base.Int.{ℤ, pos, negsuc}
use dutctl.Dut.{Devlist, Device, Command, LookupError, found, missing, find, find_cmd, help_keyword}
use dutctl.Locker
use dutctl.Locker.{
  Locker, Hold, wrong_owner, not_locked, invalid_duration, lock, clear_lock, force_clear_lock,
  status_all,
}
use dutctl.Agent.Errors.{
  Code, Err, with_code, internal, unauthenticated, invalid_argument, failed_precondition,
  permission_denied, no_identity, anonymous_caller, lookup_error, lock_error, unknown_keyword,
}
use dutctl.Agent.Run.{Identity, lookup_code}

pub data Reply {ℓ} (A : Type ℓ) : Type ℓ where
  reply : A → Reply A
  refused : Err → Reply A

-- `pb.LockState` and `pb.DeviceInfo`
pub record LockState : Type 0 where
  pub owner : String
  pub locked_at : ℤ
  pub expires_at : ℤ

pub record DeviceInfo : Type 0 where
  pub name : String
  pub lock : Option LockState

-- `a - b`
abbrev pub difference : ℕ → ℕ → ℤ
difference a b = if ltb a b then negsuc (b - a - 1) else pos (a - b)

-- `Time.Unix`: the zero time is 62135596800 seconds before the Unix epoch.
abbrev pub unix : ℕ → ℤ
unix t = difference (t / 1000000000) 62135596800

-- `expiresAtUnix`
unfoldable pub expires_at_unix : ℕ → ℤ
expires_at_unix t = if t == 0 then pos 0 else unix t

lock_state : Hold → LockState
unfolding expires_at_unix
lock_state h = record {
  owner = h.owner;
  locked_at = unix h.locked_at;
  expires_at = expires_at_unix h.expires_at;
}

-- `caller`
unfoldable pub caller : Option Identity → Reply Identity
caller none = refused (with_code internal no_identity)
caller (some id) = reply id

-- `requireNamed`
unfoldable pub require_named : Identity → Option Err
require_named id = if id.anonymous then some (with_code unauthenticated anonymous_caller) else none

device_infos : List String → Dict String Hold → List DeviceInfo
unfolding lock_state
device_infos [] locks = []
device_infos (name ∷ names) locks =
    record {
      name = name;
      lock = elim (lookup name locks) [ none ↦ none | some h ↦ some (lock_state h) ];
    }
    ∷ device_infos names locks

-- `List`; `sort` is the library's sorting of the device names.
unfoldable pub list_request :
    (List String → List String) → Devlist → Locker → (String → ℕ) → Locker × List DeviceInfo
unfolding device_infos
list_request sort devices l clock =
    let (l', locks) = status_all l clock in (l', device_infos (sort (keys devices)) locks)

-- `Commands`, with `Devlist.CmdNames`
unfoldable pub commands_request :
    (List String → List String) → Devlist → String → Reply (List String)
commands_request sort devices device = elim (find devices device) [
  | found dev ↦ reply (sort (keys dev.cmds))
  | missing e ↦ refused (with_code (lookup_code e) (lookup_error e))
]

-- `Details`; `help_text` is the rendering of `Command.HelpText`.
unfoldable pub details_request :
    (Command → String) → Devlist → String → String → String → Reply String
details_request help_text devices device command keyword =
    if keyword == help_keyword
    then elim (find_cmd devices device command) [
      | found (dev, cmd) ↦ reply (help_text cmd)
      | missing e ↦ refused (with_code (lookup_code e) (lookup_error e))
    ]
    else refused (with_code invalid_argument unknown_keyword)

-- A product in int64, from its magnitude modulo 2 ^ 64.
signed64 : ℕ → ℤ
signed64 r = if ltb r 9223372036854775808 then pos r else negsuc (18446744073709551615 - r)

-- `time.Duration(seconds) * time.Second`
unfoldable pub nanoseconds : ℤ → ℤ
unfolding signed64
nanoseconds (pos n) = signed64 ((n * 1000000000) % 18446744073709551616)
nanoseconds (negsuc n) =
    signed64
      ((18446744073709551616 - (suc n * 1000000000) % 18446744073709551616) % 18446744073709551616)

is_zero : ℤ → Bool
is_zero (pos n) = n == 0
is_zero (negsuc n) = false

-- `defaultLockDuration`
abbrev pub default_lock_duration : ℤ
default_lock_duration = pos 1800000000000

-- The duration that `Lock` passes on.
unfoldable pub requested_duration : ℤ → ℤ
unfolding nanoseconds is_zero
requested_duration seconds =
    let dur = nanoseconds seconds in if is_zero dur then default_lock_duration else dur

unfoldable pub acquire_error : Locker.Error → Code
acquire_error (wrong_owner _ _) = failed_precondition
acquire_error invalid_duration = invalid_argument
acquire_error not_locked = internal

unfoldable pub release_error : Locker.Error → Code
release_error (wrong_owner _ _) = permission_denied
release_error not_locked = failed_precondition
release_error invalid_duration = internal

lock_reply : Locker × Locker.Result → Locker × Reply LockState
unfolding acquire_error lock_state
lock_reply (l, Locker.ok hold) = (l, reply (lock_state hold))
lock_reply (l, Locker.err e) = (l, refused (with_code (acquire_error e) (lock_error e)))

-- `Lock`
unfoldable pub lock_request :
    Devlist → Option Identity → Locker → String → ℤ → ℕ → ℕ → ℕ → Locker × Reply LockState
unfolding caller require_named requested_duration lock_reply
lock_request devices id l device seconds checked now again = elim (caller id) [
  | refused e ↦ (l, refused e)
  | reply who ↦ elim (require_named who) [
    | some e ↦ (l, refused e)
    | none ↦ elim (find devices device) [
      | missing e ↦ (l, refused (with_code (lookup_code e) (lookup_error e)))
      | found _ ↦ lock_reply (lock l device who.user (requested_duration seconds) checked now again)
    ]
  ]
]

unlock_reply : Locker × Option Locker.Error → Locker × Reply (Unit {0})
unfolding release_error
unlock_reply (l, none) = (l, reply tt)
unlock_reply (l, some e) = (l, refused (with_code (release_error e) (lock_error e)))

-- `Unlock`
unfoldable pub unlock_request :
    Option Identity → Locker → String → Bool → ℕ → Locker × Reply (Unit {0})
unfolding caller require_named unlock_reply
unlock_request id l device force now = elim (caller id) [
  | refused e ↦ (l, refused e)
  | reply who ↦
      if force then unlock_reply (force_clear_lock l device now) else elim (require_named who) [
        | some e ↦ (l, refused e)
        | none ↦ unlock_reply (clear_lock l device who.user now)
      ]
]
