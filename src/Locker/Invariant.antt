-- ===== src/Locker/Invariant.antt =====
-- The well-formedness of the locker's two maps, kept by every operation of locker.go.
use dutctl.Base.{
  ℕ, ◌≡◌, refl, ◌<◌, ◌+◌, String, false, Option, none, some, List, [], ◌∷◌, arith, Bool-cases, inl,
  inr, string_eq, nat_eq,
}
use dutctl.Base.Dict.{Dict, keys, lookup, insert, erase, lookup-insert, lookup-erase, lookup-nil}
use dutctl.Base.Int.{ℤ, pos, negsuc, nonpositive, pos_part}
use dutctl.Locker.{
  reserved, busy, Hold, Locker, Error, Result, unless_blocked, take_busy, new, live_reservation,
  check_locked, granted, store_reservation, lock, clear_lock, force_clear_lock, auto_lock,
  clear_auto_lock, check_access, status_all, scan_reservations, copy_busies, shadow,
}
use dutctl.Locker.Laws.{
  IsOwn, IsOwn-pruned, reservation, live_reservation-value, live_reservation-lookup_self,
  live_reservation-busies, check_locked-state,
}

-- A reservation carries an expiry, a busy hold none, and one owner has both holds of a device.
abbrev pub IsSlot : Option Hold → Option Hold → Type 0
IsSlot none none = Unit {0}
IsSlot (some r) none = (r.kind ≡ reserved) × (0 < r.expires_at)
IsSlot none (some b) = (b.kind ≡ busy) × (b.expires_at ≡ 0)
IsSlot (some r) (some b) =
    (r.kind ≡ reserved)
    × (0 < r.expires_at)
    × (b.kind ≡ busy)
    × (b.expires_at ≡ 0)
    × (r.owner ≡ b.owner)

abbrev pub Inv : Locker → Type 0
Inv l = (device : String) → IsSlot (lookup device l.reservations) (lookup device l.busies)

pub new-Inv : Inv new
unfolding new
new-Inv device = rw lookup-nil tt

erase_reservation-Inv :
    (l : Locker) (device : String)
    → Inv l
    → Inv (record l { reservations = erase device l.reservations })
erase_reservation-Inv l device inv other =
    ground (arith, lookup-erase other device l.reservations, inv other)

erase_busy-Inv :
    (l : Locker) (device : String) → Inv l → Inv (record l { busies = erase device l.busies })
erase_busy-Inv l device inv other = ground (arith, lookup-erase other device l.busies, inv other)

pub live_reservation-Inv :
    (l : Locker) (device : String) (now : ℕ) → Inv l → Inv (live_reservation l device now).0
unfolding live_reservation
live_reservation-Inv l device now inv = ground (arith, erase_reservation-Inv l device inv)

pub check_locked-Inv :
    (l : Locker) (device owner : String) (now : ℕ) → Inv l → Inv (check_locked l device owner now).0
check_locked-Inv l device owner now inv =
    rw (check_locked-state l device owner now) (live_reservation-Inv l device now inv)

insert_reservation-Inv :
    (l : Locker) (device : String) (hold : Hold)
    → Inv l
    → IsSlot (some hold) (lookup device l.busies)
    → Inv (record l { reservations = insert device hold l.reservations })
insert_reservation-Inv l device hold inv fits other =
    ground (arith, lookup-insert other device hold l.reservations, inv other)

insert_busy-Inv :
    (l : Locker) (device : String) (hold : Hold)
    → Inv l
    → IsSlot (lookup device l.reservations) (some hold)
    → Inv (record l { busies = insert device hold l.busies })
insert_busy-Inv l device hold inv fits other =
    ground (arith, lookup-insert other device hold l.busies, inv other)

granted-IsSlot :
    (existing held : Option Hold) (owner : String) (now expiry : ℕ)
    → IsSlot existing held
    → IsOwn owner existing
    → IsOwn owner held
    → 0 < expiry
    → IsSlot (some (granted existing owner now expiry)) held
unfolding granted
granted-IsSlot none none owner now expiry s own own' h = (refl, h)
granted-IsSlot none (some b) owner now expiry s own own' h = ground arith
granted-IsSlot (some r) none owner now expiry s own own' h = ground arith
granted-IsSlot (some r) (some b) owner now expiry s own own' h = ground arith

store_reservation-Inv :
    (l : Locker) (existing : Option Hold) (device owner : String) (now expiry : ℕ)
    → lookup device l.reservations ≡ existing
    → Inv l
    → IsOwn owner existing
    → IsOwn owner (lookup device l.busies)
    → 0 < expiry
    → Inv (store_reservation (l, existing) device owner now expiry).0
unfolding store_reservation
store_reservation-Inv l existing device owner now expiry e inv own own' h =
    insert_reservation-Inv l device _ inv (
      granted-IsSlot existing (lookup device l.busies) owner now expiry (rw (← e) (inv device)) own
        own' h)

unless_blocked-Inv :
    (r : Locker × Option Error) (rest : Locker → Locker × Result)
    → Inv r.0
    → (r.1 ≡ none → Inv (rest r.0).0)
    → Inv (unless_blocked r rest).0
unfolding unless_blocked
unless_blocked-Inv (l, some e) rest inv go = inv
unless_blocked-Inv (l, none) rest inv go = go refl

store_live-Inv :
    (l : Locker) (device owner : String) (now again expiry : ℕ)
    → Inv l
    → IsOwn owner (reservation l device again)
    → IsOwn owner (lookup device l.busies)
    → 0 < expiry
    → Inv (store_reservation (live_reservation l device again) device owner now expiry).0
store_live-Inv l device owner now again expiry inv own own' h =
    store_reservation-Inv (live_reservation l device again).0 (live_reservation l device again).1
      device owner now expiry (live_reservation-lookup_self l device again)
      (live_reservation-Inv l device again inv) (rw (live_reservation-value l device again) own)
      (rw (live_reservation-busies l device again) own') h

nonpositive-pos_part : (d : ℤ) → nonpositive d ≡ false → 0 < pos_part d
nonpositive-pos_part (pos n) h = ground arith
nonpositive-pos_part (negsuc n) h = cc

pub lock-Inv :
    (l : Locker) (device owner : String) (dur : ℤ) (checked now again : ℕ)
    → Inv l
    → Inv (lock l device owner dur checked now again).0
unfolding lock
lock-Inv l device owner dur checked now again inv = elim (Bool-cases (nonpositive dur)) [
  | inl bad ↦ rw (bad, lock) inv
  | inr good ↦
      rw (good, lock)
        (unless_blocked-Inv (check_locked l device owner checked) _
          (check_locked-Inv l device owner checked inv)
          λ free.
            let (own, _, own') = IsOwn-pruned l device owner checked again free in
            store_live-Inv _ device owner now again (now + pos_part dur)
              (check_locked-Inv l device owner checked inv) own own'
              (omega (arith, nonpositive-pos_part dur good)))
]

pub clear_lock-Inv :
    (l : Locker) (device owner : String) (now : ℕ) → Inv l → Inv (clear_lock l device owner now).0
unfolding clear_lock
clear_lock-Inv l device owner now inv = ground (
  arith,
  live_reservation-Inv l device now inv,
  erase_reservation-Inv (live_reservation l device now).0 device,
)

pub force_clear_lock-Inv :
    (l : Locker) (device : String) (now : ℕ) → Inv l → Inv (force_clear_lock l device now).0
unfolding force_clear_lock
force_clear_lock-Inv l device now inv other = ground (
  arith,
  live_reservation-Inv l device now inv other,
  lookup-erase other device (live_reservation l device now).0.reservations,
  lookup-erase other device (live_reservation l device now).0.busies,
)

take_busy-Inv :
    (l : Locker) (device owner : String) (now : ℕ)
    → Inv l
    → IsOwn owner (lookup device l.reservations)
    → Inv (take_busy l device owner now).0
unfolding take_busy
take_busy-Inv l device owner now inv own = ground (
  arith,
  insert_busy-Inv l device (record { owner = owner; locked_at = now; expires_at = 0; kind = busy })
      inv,
  inv device,
)

pub auto_lock-Inv :
    (l : Locker) (device owner : String) (checked now : ℕ)
    → Inv l
    → Inv (auto_lock l device owner checked now).0
unfolding auto_lock
auto_lock-Inv l device owner checked now inv =
    unless_blocked-Inv (check_locked l device owner checked) _
      (check_locked-Inv l device owner checked inv)
      λ free.
        take_busy-Inv _ device owner now (check_locked-Inv l device owner checked inv)
          (IsOwn-pruned l device owner checked now free).1

pub clear_auto_lock-Inv :
    (l : Locker) (device owner : String) → Inv l → Inv (clear_auto_lock l device owner).0
unfolding clear_auto_lock
clear_auto_lock-Inv l device owner inv = ground (arith, erase_busy-Inv l device inv)

pub check_access-Inv :
    (l : Locker) (device owner : String) (now : ℕ) → Inv l → Inv (check_access l device owner now).0
unfolding check_access
check_access-Inv l device owner now inv = check_locked-Inv l device owner now inv

scan_reservations-Inv :
    (ds : List String) (clock : String → ℕ) (l : Locker) (out : Dict String Hold)
    → Inv l
    → Inv (scan_reservations ds clock l out).0
unfolding scan_reservations shadow
scan_reservations-Inv [] clock l out inv = inv
scan_reservations-Inv (d ∷ ds) clock l out inv =
    scan_reservations-Inv ds clock _ _ (ground (arith, live_reservation-Inv l d (clock d) inv))

pub status_all-Inv : (l : Locker) (clock : String → ℕ) → Inv l → Inv (status_all l clock).0
unfolding status_all
status_all-Inv l clock inv =
    scan_reservations-Inv (keys l.reservations) clock l (copy_busies l.busies []) inv
