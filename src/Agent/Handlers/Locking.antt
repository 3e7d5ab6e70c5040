-- ===== src/Agent/Handlers/Locking.antt =====
-- Lock and Unlock as a client sees them: cmds/dutagent/rpc.go.
use dutctl.Base.{
  ℕ, ◌+◌, ◌*◌, ◌%◌, ◌≤◌, ◌≡◌, ◌≢◌, refl, sym, ◌∙◌, ap, subst, String, Bool, true, false, Option,
  none, some, ◌==◌, string_eq, nat_eq, if◌then◌else◌, arith,
}
use dutctl.Base.Dict.{lookup}
use dutctl.Base.Int.{ℤ, pos, pos_part}
use dutctl.Dut.{Devlist, device_not_found, find}
use dutctl.Locker
use dutctl.Locker.{
  Locker, Hold, wrong_owner, not_locked, invalid_duration, lock, clear_lock, force_clear_lock,
  is_expired,
}
use dutctl.Locker.Laws.{reservation}
use dutctl.Locker.Holds.{lock_grants}
use dutctl.Locker.Releases.{clear_lock_outcome}
use dutctl.Agent.Errors.{
  with_code, internal, unauthenticated, not_found, failed_precondition, permission_denied,
  no_identity, anonymous_caller, lookup_error, lock_error,
}
use dutctl.Agent.Run.{Identity, lookup_code}
use dutctl.Agent.Handlers.{
  reply, refused, LockState, caller, require_named, nanoseconds, requested_duration, signed64,
  is_zero, release_error, lock_reply, unlock_reply, lock_request, unlock_request,
}

-- The seconds that count for a request of `n` seconds.
abbrev pub counted : ℕ → ℕ
counted n = if n == 0 then 1800 else n

small : (n : ℕ) → n ≤ 9223372036 → (n * 1000000000) % 18446744073709551616 ≡ n * 1000000000
small n h = omega arith

nanoseconds-small : (n : ℕ) → n ≤ 9223372036 → nanoseconds (pos n) ≡ pos (n * 1000000000)
unfolding nanoseconds signed64
nanoseconds-small n h = rw (small n h) (ground arith)

pub requested_duration-counted :
    (n : ℕ) → n ≤ 9223372036 → requested_duration (pos n) ≡ pos (counted n * 1000000000)
unfolding requested_duration is_zero
requested_duration-counted n h = rw (nanoseconds-small n h) (ground arith)

-- A Lock request that is refused before it reaches the locker leaves it as it is: a request without
-- an identity (internal), of an anonymous caller (unauthenticated), or for a device that the
-- configuration does not have (not found).
pub lock_request-guarded :
    (devices : Devlist) (id : Option Identity) (l : Locker) (device : String) (seconds : ℤ)
    (checked now again : ℕ)
    → let (l', r) = lock_request devices id l device seconds checked now again in
      (id ≡ none → (l' ≡ l) × (r ≡ refused (with_code internal no_identity)))
      × ((who : Identity)
          → id ≡ some who
          → (who.anonymous ≡ true
              → (l' ≡ l) × (r ≡ refused (with_code unauthenticated anonymous_caller)))
            × (who.anonymous ≡ false
                → lookup device devices ≡ none
                → (l' ≡ l) × (r ≡ refused (with_code not_found (lookup_error device_not_found)))))
unfolding lock_request find lookup_code caller require_named
lock_request-guarded devices none l device seconds checked now again =
    (λ h. (refl, refl), λ who h. cc)
lock_request-guarded devices (some id) l device seconds checked now again =
    (λ h. cc, λ who h. (λ a. (ground arith, ground arith), λ a u. (ground arith, ground arith)))

lock_reply-ok :
    (r : Locker × Locker.Result) {s : LockState}
    → (lock_reply r).1 ≡ reply s
    → (hold : Hold) × (r.1 ≡ Locker.ok hold) × ((lock_reply r).0 ≡ r.0)
unfolding lock_reply
lock_reply-ok (l, Locker.ok hold) h = (hold, refl, refl)
lock_reply-ok (l, Locker.err e) h = absurd (ground arith)

-- A request that gets a lock is of a named caller, and reached the locker.
lock_request-through :
    (devices : Devlist) (who : Identity) (l : Locker) (device : String) (seconds : ℤ)
    (checked now again : ℕ) {s : LockState}
    → (lock_request devices (some who) l device seconds checked now again).1 ≡ reply s
    → (who.anonymous ≡ false)
      × (lock_request devices (some who) l device seconds checked now again
          ≡ lock_reply (lock l device who.user (requested_duration seconds) checked now again))
unfolding lock_request caller require_named find
lock_request-through devices who l device seconds checked now again {s} h =
    (ground arith, ground arith)

-- A Lock request for `n` seconds that gets a lock gives the caller a reservation of the device for
-- at least that time, or half an hour where `n` is 0. The seconds are at most 9223372036, since the
-- product with 10 ^ 9 of a larger number does not fit in int64. The clock does not run backwards.
pub lock_request-lasts :
    (devices : Devlist) (who : Identity) (l : Locker) (device : String) (n checked now again : ℕ)
    (s : LockState)
    → n ≤ 9223372036
    → checked ≤ again
    → (lock_request devices (some who) l device (pos n) checked now again).1 ≡ reply s
    → (hold : Hold) × (lookup device
          (lock_request devices (some who) l device (pos n) checked now again).0.reservations
        ≡ some hold)
      × (hold.owner ≡ who.user)
      × (now + counted n * 1000000000 ≤ hold.expires_at)
      × (who.anonymous ≡ false)
lock_request-lasts devices who l device n checked now again s fits later h =
    let (named, e) =
      lock_request-through devices who l device (pos n) checked now again {s = s} h in
    let (hold, got, stays) =
      lock_reply-ok (lock l device who.user (requested_duration (pos n)) checked now again) {s = s}
        (sym (ap (λ r. r.1) e) ∙ h) in
    let (stored, owned, lasts, _) =
      lock_grants l device who.user (requested_duration (pos n)) checked now again hold later got in
    (
      hold,
      ap (λ r. lookup device r.reservations) (ap (λ r. r.0) e ∙ stays) ∙ stored,
      owned,
      subst (λ d. now + pos_part d ≤ hold.expires_at) (requested_duration-counted n fits) lasts,
      named,
    )

unlock_reply-parts :
    (r : Locker × Option Locker.Error)
    → ((unlock_reply r).0 ≡ r.0)
      × ((unlock_reply r).1 ≡ (elim r.1 [
        | none ↦ reply tt
        | some e ↦ refused (with_code (release_error e) (lock_error e))
      ]))
unfolding unlock_reply
unlock_reply-parts (l, none) = (refl, refl)
unlock_reply-parts (l, some e) = (refl, refl)

unlock_request-cases :
    (who : Identity) (l : Locker) (device : String) (force : Bool) (now : ℕ)
    → (force ≡ true
        → unlock_request (some who) l device force now
          ≡ unlock_reply (force_clear_lock l device now))
      × (force ≡ false
          → who.anonymous ≡ true
          → unlock_request (some who) l device force now
            ≡ (l, refused (with_code unauthenticated anonymous_caller)))
      × (force ≡ false
          → who.anonymous ≡ false
          → unlock_request (some who) l device force now
            ≡ unlock_reply (clear_lock l device who.user now))
unfolding unlock_request caller require_named
unlock_request-cases who l device force now =
    (λ h. ground arith, λ h a. ground arith, λ h a. ground arith)

-- A plain Unlock request of a named caller: it succeeds for the owner of the device's live
-- reservation, which it then removes; without a reservation it fails with failed_precondition,
-- and on another owner's with permission_denied, and such a reservation stays.
pub unlock_request-outcome :
    (who : Identity) (l : Locker) (device : String) (now : ℕ)
    → who.anonymous ≡ false
    → let (l', r) = unlock_request (some who) l device false now in
      (reservation l device now ≡ none
        → r ≡ refused (with_code failed_precondition (lock_error not_locked)))
      × ((hold : Hold)
          → reservation l device now ≡ some hold
          → (hold.owner ≡ who.user → (r ≡ reply tt) × (lookup device l'.reservations ≡ none))
            × (hold.owner ≢ who.user
                → (r ≡ refused (with_code permission_denied (lock_error (wrong_owner device hold))))
                  × (lookup device l'.reservations ≡ some hold)))
unfolding release_error
unlock_request-outcome who l device now named =
    let through = (unlock_request-cases who l device false now).2 refl named in
    let (kept, said) = unlock_reply-parts (clear_lock l device who.user now) in
    let (verdict, left, _) = clear_lock_outcome l device who.user device now in
    (
      λ gone. rw (through, said, verdict, gone) refl,
      λ hold live. (
        λ own. (
          rw (through, said, verdict, live) (ground arith),
          rw (through, kept, left, verdict, live) (ground arith),
        ),
        λ other. (
          rw (through, said, verdict, live) (ground arith),
          rw (through, kept, left, verdict, live) (ground arith),
        ),
      ),
    )

wrapped : (k : ℕ) → ((k * 36028797018963968) * 1000000000) % 18446744073709551616 ≡ 0
wrapped k = omega arith

-- The product of the seconds and the nanoseconds of a second is not checked for overflow: every
-- multiple of 2 ^ 55 seconds counts as a request that gives no duration, and asks
-- for half an hour.
pub requested_duration-wraps :
    (k : ℕ) → requested_duration (pos (k * 36028797018963968)) ≡ requested_duration (pos 0)
unfolding requested_duration nanoseconds signed64 is_zero
requested_duration-wraps k = rw (wrapped k) (ground arith)
