-- ===== src/Tests/Agent.antt =====
-- A run of the board's command, and a lock of it (cmds/dutagent).
use dutctl.Base.{
  ◌+◌, ◌*◌, ◌≡◌, ◌≢◌, ◌≤◌, refl, false, Option, none, some, List, [], ◌∷◌, arith, string_eq, nat_eq,
  text_eq, ℕ_discrete,
}
use dutctl.Base.Dict.{lookup, insert, erase}
use dutctl.Base.Int.{pos, negsuc}
use dutctl.Dut.{find, find_cmd, count_passthrough, has_passthrough}
use dutctl.Dut.Args.{module_args, substitute_args}
use dutctl.Locker.{
  Locker, Hold, new, lock, auto_lock, clear_auto_lock, check_access, check_locked, live_reservation,
}
use dutctl.Fsm
use dutctl.Agent.Errors.{Err, with_code, ctx_canceled, internal, no_identity}
use dutctl.Agent.Run.{
  Identity, command_msg, RunEnv, ctx_done, broker_closed, module_ready, returned, run, step, start,
  conclude, wait, run_modules, release,
}
use dutctl.Agent.Run.Laws.{Stops, run-ends}
use dutctl.Agent.Run.Success.{Succeeded, run-succeeds}
use dutctl.Agent.Run.Release.{IsIdle, run-releases}
use dutctl.Agent.Handlers.{
  LockState, lock_request, requested_duration, nanoseconds, caller, require_named, expires_at_unix,
}
use dutctl.Agent.Handlers.Locking.{counted, lock_request-lasts}
use dutctl.Tests.Dut.{rpi, on, boards}

abbrev ann : Identity
ann = record { user = "ann"; anonymous = false }

abbrev canceled_err : Err
canceled_err = record { cause = ctx_canceled; code = none }

abbrev still : List (Option Err)
still = none ∷ none ∷ none ∷ none ∷ none ∷ none ∷ []

abbrev env : RunEnv
env = record {
  devices = boards;
  received = command_msg (record { device = rpi; command = on; args = (b'8' ∷ []) ∷ [] });
  access_at = 20;
  lock_checked_at = 20;
  lock_at = 20;
  polls = still;
  ctx_before = λ made. none;
  ctx_end = canceled_err;
  call_module = λ made m args. some (returned none);
  ready = broker_closed ∷ module_ready ∷ [];
  others = λ s l. l;
  others_at_end = λ l. l;
}

ran : run env (some ann) new ≡ some (new, none)
unfolding run Fsm.run step start conclude wait run_modules release find_cmd count_passthrough
    has_passthrough module_args substitute_args new auto_lock clear_auto_lock check_access
    check_locked live_reservation lookup insert erase string_eq text_eq ℕ_discrete
ran = refl

-- The module never returns, and the context ends.
abbrev stuck : RunEnv
stuck = record env { call_module = λ made m args. none; ready = broker_closed ∷ ctx_done ∷ [] }

stuck-Stops : Stops stuck.ready
unfolding Stops
stuck-Stops = tt

run-ends_example : run stuck (some ann) new ≢ none
run-ends_example = run-ends stuck (some ann) new stuck-Stops (omega arith)

run-succeeds_example : Succeeded env
run-succeeds_example = run-succeeds env ann new new ran

nobody_busy : IsIdle ann.user rpi new
unfolding IsIdle new lookup
nobody_busy = λ h p. absurd (ground arith)

run-releases_example : IsIdle ann.user rpi new
run-releases_example = run-releases env ann rpi new new none (λ s m i. i) (λ m i. i) nobody_busy ran

abbrev coded : Err
coded = with_code internal no_identity

run_unidentified : run env none new ≡ some (new, some coded)
unfolding run
run_unidentified = refl

abbrev nobody : Option Identity
nobody = none

abbrev held : Locker
held = (lock_request boards (some ann) new rpi (pos 60) 10 10 10).0

abbrev answer : LockState
answer = record { owner = "ann"; locked_at = negsuc 62135596799; expires_at = negsuc 62135596739 }

lock_request-lasts_example :
    (hold : Hold) × (lookup rpi held.reservations ≡ some hold)
    × (hold.owner ≡ ann.user)
    × (10 + counted 60 * 1000000000 ≤ hold.expires_at)
    × (ann.anonymous ≡ false)
unfolding lock_request caller require_named find requested_duration nanoseconds expires_at_unix lock
    new check_locked live_reservation lookup string_eq ℕ_discrete
lock_request-lasts_example =
    lock_request-lasts boards ann new rpi 60 10 10 10 answer (omega arith) (omega arith) refl
