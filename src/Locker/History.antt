-- ===== src/Locker/History.antt =====
-- Histories of calls to the locker of locker.go, in the order in which its mutex admits them.
use dutctl.Base.{ℕ, ◌≡◌, ◌≢◌, String, List, [], ◌∷◌, some, arith, string_eq}
use dutctl.Base.Dict.{lookup}
use dutctl.Base.Int.{ℤ}
use dutctl.Locker.{
  reserved, busy, Hold, Locker, new, lock, clear_lock, force_clear_lock, auto_lock, clear_auto_lock,
  check_access, status_all,
}
use dutctl.Locker.Invariant.{
  Inv, new-Inv, lock-Inv, clear_lock-Inv, force_clear_lock-Inv, auto_lock-Inv, clear_auto_lock-Inv,
  check_access-Inv, status_all-Inv,
}

-- A call with its readings of the clock.
pub data Call : Type 0 where
  locks : String → String → ℤ → ℕ → ℕ → ℕ → Call
  clears : String → String → ℕ → Call
  forces : String → ℕ → Call
  auto_locks : String → String → ℕ → ℕ → Call
  clear_autos : String → String → Call
  checks : String → String → ℕ → Call
  lists : (String → ℕ) → Call

unfoldable pub step : Locker → Call → Locker
step l (locks device owner dur checked now again) = (lock l device owner dur checked now again).0
step l (clears device owner now) = (clear_lock l device owner now).0
step l (forces device now) = (force_clear_lock l device now).0
step l (auto_locks device owner checked now) = (auto_lock l device owner checked now).0
step l (clear_autos device owner) = (clear_auto_lock l device owner).0
step l (checks device owner now) = (check_access l device owner now).0
step l (lists clock) = (status_all l clock).0

unfoldable pub run : Locker → List Call → Locker
unfolding step
run l [] = l
run l (c ∷ cs) = run (step l c) cs

pub step-Inv : (l : Locker) (c : Call) → Inv l → Inv (step l c)
unfolding step
step-Inv l (locks device owner dur checked now again) inv =
    lock-Inv l device owner dur checked now again inv
step-Inv l (clears device owner now) inv = clear_lock-Inv l device owner now inv
step-Inv l (forces device now) inv = force_clear_lock-Inv l device now inv
step-Inv l (auto_locks device owner checked now) inv = auto_lock-Inv l device owner checked now inv
step-Inv l (clear_autos device owner) inv = clear_auto_lock-Inv l device owner inv
step-Inv l (checks device owner now) inv = check_access-Inv l device owner now inv
step-Inv l (lists clock) inv = status_all-Inv l clock inv

pub run-Inv : (l : Locker) (cs : List Call) → Inv l → Inv (run l cs)
unfolding run
run-Inv l [] inv = inv
run-Inv l (c ∷ cs) inv = run-Inv (step l c) cs (step-Inv l c inv)

-- After any history of calls on a new locker, the reservation and the busy hold of a device that
-- has both belong to the same owner, the first is of kind `reserved` with an expiry that is not
-- the zero time, and the second of kind `busy` with no expiry.
pub run-one_owner :
    (cs : List Call) (device : String) (r b : Hold)
    → lookup device (run new cs).reservations ≡ some r
    → lookup device (run new cs).busies ≡ some b
    → (r.owner ≡ b.owner)
      × (r.kind ≡ reserved)
      × (r.expires_at ≢ 0)
      × (b.kind ≡ busy)
      × (b.expires_at ≡ 0)
run-one_owner cs device r b p q = ground (arith, run-Inv new cs new-Inv device)
