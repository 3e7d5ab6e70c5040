-- ===== src/Locker/Busies.antt =====
-- What each operation of locker.go that a Run calls does to the busy holds.
use dutctl.Base.{
  sym, ap, ◌∙◌, subst, ℕ, ◌≡◌, ◌≢◌, refl, String, Option, none, some, arith, string_eq,
}
use dutctl.Base.Dict.{lookup, lookup-insert, lookup-erase}
use dutctl.Locker.{
  busy, Locker, Hold, Error, err, check_locked, unless_blocked, take_busy, check_access, auto_lock,
  clear_auto_lock,
}
use dutctl.Locker.Laws.{check_locked-state, live_reservation-busies}

pub check_access-busies :
    (l : Locker) (device owner : String) (now : ℕ)
    → (check_access l device owner now).0.busies ≡ l.busies
unfolding check_access
check_access-busies l device owner now =
    rw (check_locked-state l device owner now) (live_reservation-busies l device now)

unless_blocked-busies :
    (r : Locker × Option Error) (device other owner : String) (now : ℕ)
    → other ≢ device
    → lookup other (unless_blocked r (λ l. take_busy l device owner now)).0.busies
      ≡ lookup other r.0.busies
unfolding unless_blocked take_busy
unless_blocked-busies (l, some e) device other owner now apart = refl
unless_blocked-busies (l, none) device other owner now apart = ground (
  arith,
  lookup-insert other device
      (record { owner = owner; locked_at = now; expires_at = 0; kind = busy }) l.busies,
)

unless_blocked-err :
    (r : Locker × Option Error) (device owner : String) (now : ℕ) {e : Error}
    → (unless_blocked r (λ l. take_busy l device owner now)).1 ≡ err e
    → (unless_blocked r (λ l. take_busy l device owner now)).0.busies ≡ r.0.busies
unfolding unless_blocked take_busy
unless_blocked-err (l, some e) device owner now h = refl
unless_blocked-err (l, none) device owner now h = ground arith

check_locked-busies :
    (l : Locker) (device owner : String) (now : ℕ)
    → (check_locked l device owner now).0.busies ≡ l.busies
check_locked-busies l device owner now =
    rw (check_locked-state l device owner now) (live_reservation-busies l device now)

pub auto_lock-other :
    (l : Locker) (device other owner : String) (checked now : ℕ)
    → other ≢ device
    → lookup other (auto_lock l device owner checked now).0.busies ≡ lookup other l.busies
unfolding auto_lock
auto_lock-other l device other owner checked now apart =
    unless_blocked-busies (check_locked l device owner checked) device other owner now apart
    ∙ ap (lookup other) (check_locked-busies l device owner checked)

pub auto_lock-err :
    (l : Locker) (device owner : String) (checked now : ℕ) {e : Error}
    → (auto_lock l device owner checked now).1 ≡ err e
    → (auto_lock l device owner checked now).0.busies ≡ l.busies
unfolding auto_lock
auto_lock-err l device owner checked now {e} h =
    unless_blocked-err (check_locked l device owner checked) device owner now {e = e} h
    ∙ check_locked-busies l device owner checked

clear_auto_lock_self :
    (l : Locker) (device owner : String) (h : Hold)
    → lookup device (clear_auto_lock l device owner).0.busies ≡ some h
    → h.owner ≢ owner
unfolding clear_auto_lock
clear_auto_lock_self l device owner h p = λ q. ground (arith, lookup-erase device device l.busies)

-- A busy hold that `ClearAutoLock` leaves was there before, and of the device itself it leaves
-- only another owner's.
pub clear_auto_lock-leaves :
    (l : Locker) (device other owner : String) (h : Hold)
    → lookup other (clear_auto_lock l device owner).0.busies ≡ some h
    → (lookup other l.busies ≡ some h) × (device ≡ other → h.owner ≢ owner)
unfolding clear_auto_lock
clear_auto_lock-leaves l device other owner h p = (
  ground (arith, lookup-erase other device l.busies),
  λ e.
      clear_auto_lock_self l device owner h
        (subst (λ x. lookup x (clear_auto_lock l device owner).0.busies ≡ some h) (sym e) p),
)
