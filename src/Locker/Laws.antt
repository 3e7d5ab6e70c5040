-- ===== src/Locker/Laws.antt =====
-- What each step of locker.go does to the holds of the device that it names, and of any other.
use dutctl.Base.{
  ℕ, ◌≡◌, refl, ◌↔◌, String, Option, none, some, arith, ◌==◌, string_eq, if◌then◌else◌,
}
use dutctl.Base.Dict.{lookup, lookup-erase}
use dutctl.Locker.{Hold, Locker, is_expired, live_reservation, blocks, check_locked}

-- The live reservation of a device, without the pruning.
unfoldable pub reservation : Locker → String → ℕ → Option Hold
reservation l device now = elim (lookup device l.reservations) [
  | none ↦ none
  | some hold ↦ if is_expired hold now then none else some hold
]

pub live_reservation-value :
    (l : Locker) (device : String) (now : ℕ)
    → (live_reservation l device now).1 ≡ reservation l device now
unfolding live_reservation reservation
live_reservation-value l device now = ground arith

pub live_reservation-busies :
    (l : Locker) (device : String) (now : ℕ) → (live_reservation l device now).0.busies ≡ l.busies
unfolding live_reservation
live_reservation-busies l device now = ground arith

-- Afterwards the map holds exactly the live reservation of the device.
pub live_reservation-lookup :
    (l : Locker) (device other : String) (now : ℕ)
    → lookup other (live_reservation l device now).0.reservations
      ≡ (if other == device then reservation l device now else lookup other l.reservations)
unfolding live_reservation reservation
live_reservation-lookup l device other now =
    ground (arith, lookup-erase other device l.reservations)

-- A hold that does not stand in the way of `owner`.
abbrev pub IsOwn : String → Option Hold → Type 0
IsOwn owner none = Unit {0}
IsOwn owner (some hold) = hold.owner ≡ owner

pub blocks-none_iff :
    (device owner : String) (held : Option Hold)
    → (blocks device owner held ≡ none) ↔ IsOwn owner held
unfolding blocks
blocks-none_iff device owner none = (λ _. tt, λ _. refl)
blocks-none_iff device owner (some hold) = (λ h. ground arith, λ h. ground arith)

pub check_locked-state :
    (l : Locker) (device owner : String) (now : ℕ)
    → (check_locked l device owner now).0 ≡ (live_reservation l device now).0
unfolding check_locked
check_locked-state l device owner now = ground arith

pub check_locked-value :
    (l : Locker) (device owner : String) (now : ℕ)
    → (check_locked l device owner now).1 ≡ (elim (blocks device owner (reservation l device now)) [
      | some e ↦ some e
      | none ↦ blocks device owner (lookup device l.busies)
    ])
unfolding check_locked
check_locked-value l device owner now =
    ground (arith, live_reservation-value l device now, live_reservation-busies l device now)

-- Access is granted exactly when neither hold belongs to somebody else.
pub check_locked-none_iff :
    (l : Locker) (device owner : String) (now : ℕ)
    → ((check_locked l device owner now).1 ≡ none)
      ↔ (IsOwn owner (reservation l device now) × IsOwn owner (lookup device l.busies))
check_locked-none_iff l device owner now = ground (
  arith,
  check_locked-value l device owner now,
  blocks-none_iff device owner (reservation l device now),
  blocks-none_iff device owner (lookup device l.busies),
)

-- The effective hold: a live reservation shadows a busy hold.
unfoldable pub effective : Locker → String → ℕ → Option Hold
effective l device now = elim (reservation l device now) [
  | some hold ↦ some hold
  | none ↦ lookup device l.busies
]

-- What is returned is what the map holds afterwards.
pub live_reservation-lookup_self :
    (l : Locker) (device : String) (now : ℕ)
    → lookup device (live_reservation l device now).0.reservations
      ≡ (live_reservation l device now).1
live_reservation-lookup_self l device now =
    ground (arith, live_reservation-lookup l device device now, live_reservation-value l device now)

-- Looking again, later, finds the same reservation or none.
pub reservation_again :
    (l : Locker) (device owner : String) (now again : ℕ)
    → IsOwn owner (reservation l device now)
    → IsOwn owner (reservation (live_reservation l device now).0 device again)
unfolding reservation live_reservation
reservation_again l device owner now again own =
    ground (arith, lookup-erase device device l.reservations)

pub IsOwn-checked :
    (l : Locker) (device owner : String) (now : ℕ)
    → (check_locked l device owner now).1 ≡ none
    → IsOwn owner (reservation l device now) × IsOwn owner (lookup device l.busies)
IsOwn-checked l device owner now = (check_locked-none_iff l device owner now).0

-- What a granted check leaves for the next step: both holds of the device are the owner's.
pub IsOwn-pruned :
    (l : Locker) (device owner : String) (now again : ℕ)
    → (check_locked l device owner now).1 ≡ none
    → IsOwn owner (reservation (check_locked l device owner now).0 device again)
      × IsOwn owner (lookup device (check_locked l device owner now).0.reservations)
      × IsOwn owner (lookup device (check_locked l device owner now).0.busies)
IsOwn-pruned l device owner now again free =
    let (own, own') = IsOwn-checked l device owner now free in
    rw (check_locked-state l device owner now) (
      reservation_again l device owner now again own,
      rw (live_reservation-lookup_self l device now, live_reservation-value l device now) own,
      rw (live_reservation-busies l device now) own',
    )
