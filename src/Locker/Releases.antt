-- ===== src/Locker/Releases.antt =====
-- What the releases of locker.go promise their callers.
use dutctl.Base.{ℕ, ◌≡◌, refl, String, none, some, arith, ◌==◌, string_eq, nat_eq, if◌then◌else◌}
use dutctl.Base.Dict.{Dict, lookup, insert, erase, lookup-insert, lookup-erase}
use dutctl.Locker.{
  busy, Hold, Locker, not_locked, wrong_owner, ok, live_reservation, check_locked, unless_blocked,
  take_busy, clear_lock, force_clear_lock, auto_lock, clear_auto_lock,
}
use dutctl.Locker.Laws.{
  reservation, effective, live_reservation-value, live_reservation-lookup,
  live_reservation-lookup_self, live_reservation-busies, check_locked-state,
}

-- `ForceClearLock` fails exactly where the device has no effective hold; in either case the device
-- has no live reservation and no busy hold afterwards, and the holds of other devices stay.
pub force_clear_lock-frees :
    (l : Locker) (device other : String) (now : ℕ)
    → let (l', e) = force_clear_lock l device now in
      (e ≡ (elim (effective l device now) [ none ↦ some not_locked | some _ ↦ none ]))
      × (lookup other l'.reservations
          ≡ (if other == device then none else lookup other l.reservations))
      × (lookup other l'.busies ≡ (if other == device then none else lookup other l.busies))
unfolding force_clear_lock effective
force_clear_lock-frees l device other now = (
  ground (arith, live_reservation-value l device now, live_reservation-busies l device now),
  ground (
    arith,
    live_reservation-value l device now,
    live_reservation-busies l device now,
    live_reservation-lookup l device other now,
    lookup-erase other device (live_reservation l device now).0.reservations,
  ),
  ground (
    arith,
    live_reservation-value l device now,
    live_reservation-busies l device now,
    lookup-erase other device l.busies,
  ),
)

-- `ClearLock` succeeds exactly for the owner of the live reservation, fails with `not_locked` where
-- there is none, and with the holder where another owner has it. Only a success removes a live
-- reservation, and neither the busy holds nor the reservations of other devices change.
pub clear_lock_outcome :
    (l : Locker) (device owner other : String) (now : ℕ)
    → let (l', e) = clear_lock l device owner now in
      (e ≡ (elim (reservation l device now) [
        | none ↦ some not_locked
        | some hold ↦ if hold.owner == owner then none else some (wrong_owner device hold)
      ]))
      × (lookup other l'.reservations ≡ (
          if other == device
          then elim e [ none ↦ none | some _ ↦ reservation l device now ]
          else lookup other l.reservations))
      × (l'.busies ≡ l.busies)
unfolding clear_lock
clear_lock_outcome l device owner other now = (
  ground (arith, live_reservation-value l device now),
  ground (
    arith,
    live_reservation-value l device now,
    live_reservation-lookup l device other now,
    lookup-erase other device (live_reservation l device now).0.reservations,
  ),
  ground (arith, live_reservation-busies l device now),
)

auto_lock-taken :
    (l : Locker) (device owner : String) (checked now : ℕ)
    → (check_locked l device owner checked).1 ≡ none
    → lookup device l.busies ≡ none
    → let m = (live_reservation l device checked).0 in
      let hold : Hold = record { owner = owner; locked_at = now; expires_at = 0; kind = busy } in
      auto_lock l device owner checked now
      ≡ (record m { busies = insert device hold m.busies }, ok hold)
unfolding auto_lock take_busy unless_blocked
auto_lock-taken l device owner checked now free idle =
    ground
      (arith, check_locked-state l device owner checked, live_reservation-busies l device checked)

-- `AutoLock` followed by `ClearAutoLock` of the same owner, as in a Run that is not forced open:
-- where the check lets the owner in and the device was not busy, both calls succeed, the device is
-- not busy afterwards, and a reservation that was live at the check is still there.
pub clear_auto_lock-auto_lock :
    (l : Locker) (device owner : String) (checked now : ℕ)
    → (check_locked l device owner checked).1 ≡ none
    → lookup device l.busies ≡ none
    → let taken = auto_lock l device owner checked now in
      let freed = clear_auto_lock taken.0 device owner in
      (taken.1 ≡ ok (record { owner = owner; locked_at = now; expires_at = 0; kind = busy }))
      × (freed.1 ≡ none)
      × (lookup device freed.0.busies ≡ none)
      × (lookup device freed.0.reservations ≡ reservation l device checked)
unfolding clear_auto_lock
clear_auto_lock-auto_lock l device owner checked now free idle =
    rw (auto_lock-taken l device owner checked now free idle) (
      refl,
      ground (arith, added),
      ground (arith, added, removed),
      ground (
        arith,
        added,
        live_reservation-lookup_self l device checked,
        live_reservation-value l device checked,
      ),
    )
  where
    hold : Hold
    hold = record { owner = owner; locked_at = now; expires_at = 0; kind = busy }

    before : Dict String Hold
    before = (live_reservation l device checked).0.busies

    added : lookup device (insert device hold before) ≡ some hold
    added = ground (arith, lookup-insert device device hold before)

    removed : lookup device (erase device (insert device hold before)) ≡ none
    removed = ground (arith, lookup-erase device device (insert device hold before))
