-- ===== src/Locker/Shown.antt =====
-- The slots that the maps of locker.go show, and what its steps do to them.
use dutctl.Base.{
  ℕ, ◌≡◌, refl, String, Option, none, some, arith, ◌==◌, string_eq, sym, if◌then◌else◌, nat_eq,
}
use dutctl.Base.Dict.{lookup, insert, erase, lookup-insert, lookup-erase}
use dutctl.Locker.{
  Hold, Locker, Error, not_locked, invalid_duration, wrong_owner, Result, ok, err, lock, clear_lock,
  force_clear_lock, auto_lock, clear_auto_lock, check_access, live_reservation, check_locked,
  is_expired, blocks, is_some, status_all,
}
use dutctl.Locker.Laws.{
  reservation, live_reservation-value, live_reservation-lookup, live_reservation-busies,
  check_locked-state, check_locked-value,
}
use dutctl.Locker.Invariant.{IsSlot, Inv}
use dutctl.Locker.History.{Call, locks, clears, forces, auto_locks, clear_autos, checks, lists}
use dutctl.Locker.Slots.{
  Slot, free, kept, used, both, Reply, Entry, entry, granted_to, done, no_lock, bad_duration,
  taken_by, listed, expire, in_the_way, Slots,
}

-- The slot that two holds show.
unfoldable pub shown : Option Hold → Option Hold → Slot
shown none none = free
shown (some r) none = kept r.owner r.locked_at r.expires_at
shown none (some b) = used b.owner b.locked_at
shown (some r) (some b) = both r.owner r.locked_at r.expires_at b.locked_at

unfoldable pub slots : Locker → Slots
unfolding shown
slots l device = shown (lookup device l.reservations) (lookup device l.busies)

pub shown-expire :
    (r b : Option Hold) (now : ℕ)
    → IsSlot r b
    → shown (elim r [ none ↦ none | some hold ↦ if is_expired hold now then none else some hold ]) b
      ≡ expire now (shown r b)
unfolding shown expire is_expired
shown-expire none none now s = refl
shown-expire none (some b) now s = refl
shown-expire (some r) none now s = ground arith
shown-expire (some r) (some b) now s = ground arith

pub live_reservation-slots :
    (l : Locker) (device other : String) (now : ℕ)
    → Inv l
    → slots (live_reservation l device now).0 other
      ≡ (if other == device then expire now (slots l device) else slots l other)
unfolding slots reservation
live_reservation-slots l device other now inv = ground (
  arith,
  live_reservation-lookup l device other now,
  live_reservation-busies l device now,
  shown-expire (lookup device l.reservations) (lookup device l.busies) now (inv device),
)

-- A hold of the code, and the reply that a result of the code is.
unfoldable pub entry_of : Hold → Entry
entry_of hold = entry hold.kind hold.owner hold.locked_at hold.expires_at

unfoldable pub refusal : Error → Reply
unfolding entry_of
refusal not_locked = no_lock
refusal invalid_duration = bad_duration
refusal (wrong_owner device hold) = taken_by (entry_of hold)

unfoldable pub outcome : Option Error → Reply
unfolding refusal
outcome none = done
outcome (some e) = refusal e

unfoldable pub result : Result → Reply
unfolding refusal entry_of
result (ok hold) = granted_to (entry_of hold)
result (err e) = refusal e

unfoldable pub listing : Option Hold → Option Entry
unfolding entry_of
listing none = none
listing (some hold) = some (entry_of hold)

unfoldable pub answer : Locker → Call → Reply
unfolding result outcome listing
answer l (locks device owner dur checked now again) =
    result (lock l device owner dur checked now again).1
answer l (clears device owner now) = outcome (clear_lock l device owner now).1
answer l (forces device now) = outcome (force_clear_lock l device now).1
answer l (auto_locks device owner checked now) = result (auto_lock l device owner checked now).1
answer l (clear_autos device owner) = outcome (clear_auto_lock l device owner).1
answer l (checks device owner now) = outcome (check_access l device owner now).1
answer l (lists clock) = listed (λ device. listing (lookup device (status_all l clock).1))

-- The error of a check, as a reply.
unfoldable pub blocked : Option Error → Option Reply
unfolding refusal
blocked none = none
blocked (some e) = some (refusal e)

unfoldable pub taken : Option Entry → Option Reply
taken none = none
taken (some e) = some (taken_by e)

pub blocked-shown :
    (device user : String) (r b : Option Hold)
    → IsSlot r b
    → blocked (elim (blocks device user r) [ some e ↦ some e | none ↦ blocks device user b ])
      ≡ taken (in_the_way user (shown r b))
unfolding shown blocks in_the_way blocked taken
blocked-shown device user none none s = refl
blocked-shown device user none (some b) s = ground arith
blocked-shown device user (some r) none s = ground arith
blocked-shown device user (some r) (some b) s = ground arith

-- The slot of a device whose reservation has just been looked at.
pub live_reservation-shown :
    (l : Locker) (device : String) (now : ℕ)
    → Inv l
    → expire now (slots l device)
      ≡ shown
          (live_reservation l device now).1
          (lookup device (live_reservation l device now).0.busies)
unfolding slots reservation
live_reservation-shown l device now inv =
    rw (live_reservation-value l device now, live_reservation-busies l device now)
      (sym (shown-expire (lookup device l.reservations) (lookup device l.busies) now (inv device)))

-- What the operations write, as slots.
pub erased-slots :
    (l : Locker) (device other : String)
    → slots (record l { reservations = erase device l.reservations }) other
      ≡ (if other == device then shown none (lookup device l.busies) else slots l other)
unfolding slots
erased-slots l device other = ground (arith, lookup-erase other device l.reservations)

pub kept_busies-slots :
    (l : Locker) (device other : String)
    → slots (record l { busies = erase device l.busies }) other
      ≡ (if other == device then shown (lookup device l.reservations) none else slots l other)
unfolding slots
kept_busies-slots l device other = ground (arith, lookup-erase other device l.busies)

pub stored-slots :
    (l : Locker) (device other : String) (hold : Hold)
    → slots (record l { reservations = insert device hold l.reservations }) other
      ≡ (if other == device then shown (some hold) (lookup device l.busies) else slots l other)
unfolding slots
stored-slots l device other hold = ground (arith, lookup-insert other device hold l.reservations)

pub taken-slots :
    (l : Locker) (device other : String) (hold : Hold)
    → slots (record l { busies = insert device hold l.busies }) other ≡ (
        if other == device then shown (lookup device l.reservations) (some hold) else slots l other)
unfolding slots
taken-slots l device other hold = ground (arith, lookup-insert other device hold l.busies)

pub freed-slots :
    (l : Locker) (device other : String)
    → slots
        (record {
          reservations =
              if is_some (lookup device l.reservations)
              then erase device l.reservations
              else l.reservations;
          busies = if is_some (lookup device l.busies) then erase device l.busies else l.busies;
        })
        other
      ≡ (if other == device then free else slots l other)
unfolding slots shown
freed-slots l device other =
    ground (arith, lookup-erase other device l.busies, lookup-erase other device l.reservations)

-- The check of a user, on the slot.
pub reservation-shown :
    (l : Locker) (device : String) (now : ℕ)
    → Inv l
    → (expire now (slots l device) ≡ shown (reservation l device now) (lookup device l.busies))
      × IsSlot (reservation l device now) (lookup device l.busies)
unfolding slots reservation
reservation-shown l device now inv = (
  sym (shown-expire (lookup device l.reservations) (lookup device l.busies) now (inv device)),
  ground (arith, inv device),
)

pub check_locked-blocked :
    (l : Locker) (device user : String) (now : ℕ)
    → Inv l
    → blocked (check_locked l device user now).1
      ≡ taken (in_the_way user (expire now (slots l device)))
check_locked-blocked l device user now inv =
    let (e, slot) = reservation-shown l device now inv in
    rw (e, check_locked-value l device user now)
      (blocked-shown device user (reservation l device now) (lookup device l.busies) slot)

-- After a check, whatever it finds.
pub checked-slots :
    (l : Locker) (device user other : String) (now : ℕ)
    → Inv l
    → slots (check_locked l device user now).0 other
      ≡ (if other == device then expire now (slots l device) else slots l other)
checked-slots l device user other now inv =
    rw (check_locked-state l device user now) (live_reservation-slots l device other now inv)
