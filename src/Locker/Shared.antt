-- ===== src/Locker/Shared.antt =====
-- Two Runs of one owner on the same device: AutoLock and ClearAutoLock of locker.go.
use dutctl.Base.{ℕ, ◌≡◌, refl, ap, String, none, some, arith, string_eq}
use dutctl.Base.Dict.{lookup, insert, erase, lookup-insert, lookup-erase}
use dutctl.Locker.{
  busy, Locker, Hold, ok, blocks, check_locked, unless_blocked, take_busy, live_reservation,
  auto_lock, clear_auto_lock,
}

abbrev pub run_hold : String → ℕ → Hold
run_hold owner now = record { owner = owner; locked_at = now; expires_at = 0; kind = busy }

auto_lock-free :
    (l : Locker) (device owner : String) (checked now : ℕ)
    → lookup device l.reservations ≡ none
    → lookup device l.busies ≡ none
    → auto_lock l device owner checked now
      ≡ (record l { busies = insert device (run_hold owner now) l.busies }, ok (run_hold owner now))
unfolding auto_lock check_locked live_reservation unless_blocked take_busy blocks
auto_lock-free l device owner checked now free idle = ground arith

auto_lock-again :
    (l : Locker) (device owner : String) (checked now since : ℕ)
    → lookup device l.reservations ≡ none
    → lookup device l.busies ≡ some (run_hold owner since)
    → auto_lock l device owner checked now ≡ (l, ok (run_hold owner since))
unfolding auto_lock check_locked live_reservation unless_blocked take_busy blocks
auto_lock-again l device owner checked now since free mine = ground arith

clear_auto_lock-own :
    (l : Locker) (device owner : String) (since : ℕ)
    → lookup device l.busies ≡ some (run_hold owner since)
    → clear_auto_lock l device owner ≡ (record l { busies = erase device l.busies }, none)
unfolding clear_auto_lock
clear_auto_lock-own l device owner since mine = ground arith

-- Two Runs of one owner on the same device share one busy hold: the second `AutoLock` succeeds
-- with the hold of the first, and the `ClearAutoLock` of the Run that ends first removes it, so
-- that any other owner can take the device while the other Run goes on. This is for a device
-- that is neither reserved nor busy at the start.
pub clear_auto_lock-shared :
    (l : Locker) (device owner rival : String) (c1 n1 c2 n2 c3 n3 : ℕ)
    → lookup device l.reservations ≡ none
    → lookup device l.busies ≡ none
    → let first = auto_lock l device owner c1 n1 in
      let second = auto_lock first.0 device owner c2 n2 in
      let ended = clear_auto_lock second.0 device owner in
      (first.1 ≡ ok (run_hold owner n1))
      × (second.1 ≡ ok (run_hold owner n1))
      × (ended.1 ≡ none)
      × ((auto_lock ended.0 device rival c3 n3).1 ≡ ok (run_hold rival n3))
clear_auto_lock-shared l device owner rival c1 n1 c2 n2 c3 n3 free idle =
    rw (auto_lock-free l device owner c1 n1 free idle) (
      rw (auto_lock-again m device owner c2 n2 n1 free added) (
        rw (clear_auto_lock-own m device owner n1 added) (
          refl,
          refl,
          refl,
          ap (λ r. r.1)
              (auto_lock-free (record m { busies = erase device m.busies }) device rival c3 n3 free
                gone),
        )))
  where
    m : Locker
    m = record l { busies = insert device (run_hold owner n1) l.busies }

    added : lookup device m.busies ≡ some (run_hold owner n1)
    added = ground (arith, lookup-insert device device (run_hold owner n1) l.busies)

    gone : lookup device (erase device m.busies) ≡ none
    gone = ground (arith, lookup-erase device device m.busies)
