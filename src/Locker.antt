-- ===== src/Locker.antt =====
-- The device locker, internal/dutagent/locker/locker.go.
--
-- A `time.Time` is a number of nanoseconds since Go's zero time, so that 0 is the zero value that
-- `IsZero` tests for. Each call of `time.Now` in the source is an argument of its own. The mutex
-- makes every operation atomic, so an operation is a function on the state; logging is left out.
pub mod Laws
pub mod Invariant
pub mod Status
pub mod History
pub mod Slots
pub mod Shown
pub mod Simulation
pub mod Acquisition
pub mod Refinement
pub mod Holds
pub mod Releases
pub mod Busies
pub mod Shared
use dutctl.Base.{
  ℕ, ◌+◌, String, Bool, true, false, not, ◌&&◌, ◌||◌, Option, none, some, List, [], ◌∷◌, ◌==◌,
  string_eq, nat_eq, if◌then◌else◌, ltb,
}
use dutctl.Base.Dict.{Dict, keys, lookup, insert, erase}
use dutctl.Base.Int.{ℤ, nonpositive, pos_part}

pub data Kind : Type 0 where
  reserved busy : Kind

pub record Hold : Type 0 where
  pub owner : String
  pub locked_at : ℕ
  pub expires_at : ℕ
  pub kind : Kind

-- `Hold.isExpired`
unfoldable pub is_expired : Hold → ℕ → Bool
is_expired h now = not (h.expires_at == 0) && not (ltb now h.expires_at)

-- The sentinel errors, and `*Error`, which unwraps to `ErrWrongOwner` and carries the holder.
pub data Error : Type 0 where
  not_locked invalid_duration : Error
  wrong_owner : String → Hold → Error

pub data Result : Type 0 where
  ok : Hold → Result
  err : Error → Result

pub record Locker : Type 0 where
  pub reservations : Dict String Hold
  pub busies : Dict String Hold

unfoldable pub new : Locker
new = record { reservations = []; busies = [] }

-- `liveReservation`: an expired reservation is pruned and not returned.
unfoldable pub live_reservation : Locker → String → ℕ → Locker × Option Hold
unfolding is_expired
live_reservation l device now = elim (lookup device l.reservations) [
  | none ↦ (l, none)
  | some hold ↦
      if is_expired hold now
      then (record l { reservations = erase device l.reservations }, none)
      else (l, some hold)
]

-- The test `held && hold.Owner != owner` of `checkLocked`, with the hold that it blocks on.
pub blocks : String → String → Option Hold → Option Error
blocks device owner none = none
blocks device owner (some hold) =
    if hold.owner == owner then none else some (wrong_owner device hold)

-- `checkLocked`
unfoldable pub check_locked : Locker → String → String → ℕ → Locker × Option Error
unfolding blocks
check_locked l device owner now =
    let (l', held) = live_reservation l device now in
    elim (blocks device owner held) [
      | some e ↦ (l', some e)
      | none ↦ (l', blocks device owner (lookup device l'.busies))
    ]

-- The reservation that `Lock` stores: an extension that never shrinks the expiry, or a new hold.
granted : Option Hold → String → ℕ → ℕ → Hold
granted (some existing) owner now expiry =
    if ltb existing.expires_at expiry then record existing { expires_at = expiry } else existing
granted none owner now expiry = record {
  owner = owner;
  locked_at = now;
  expires_at = expiry;
  kind = reserved;
}

store_reservation : Locker × Option Hold → String → String → ℕ → ℕ → Locker × Result
unfolding granted
store_reservation (l, existing) device owner now expiry =
    let hold = granted existing owner now expiry in
    (record l { reservations = insert device hold l.reservations }, ok hold)

-- The early return on a blocker, with the rest of the operation.
unless_blocked : Locker × Option Error → (Locker → Locker × Result) → Locker × Result
unless_blocked (l, some e) rest = (l, err e)
unless_blocked (l, none) rest = rest l

-- `Lock`; `checked`, `now` and `again` are its three readings of the clock, in order.
unfoldable pub lock : Locker → String → String → ℤ → ℕ → ℕ → ℕ → Locker × Result
unfolding unless_blocked store_reservation
lock l device owner dur checked now again =
    if nonpositive dur
    then (l, err invalid_duration)
    else unless_blocked (check_locked l device owner checked) λ l'.
      store_reservation (live_reservation l' device again) device owner now (now + pos_part dur)

-- `ClearLock`
unfoldable pub clear_lock : Locker → String → String → ℕ → Locker × Option Error
clear_lock l device owner now =
    let (l', held) = live_reservation l device now in
    elim held [
      | none ↦ (l', some not_locked)
      | some hold ↦
          if hold.owner == owner
          then (record l' { reservations = erase device l'.reservations }, none)
          else (l', some (wrong_owner device hold))
    ]

abbrev is_some {ℓ} : {A : Type ℓ} → Option A → Bool
is_some none = false
is_some (some _) = true

-- `ForceClearLock`
unfoldable pub force_clear_lock : Locker → String → ℕ → Locker × Option Error
force_clear_lock l device now =
    let (l', reservation) = live_reservation l device now in
    let busy_hold = lookup device l'.busies in
    if not (is_some reservation) && not (is_some busy_hold) then (l', some not_locked) else (
      record {
        reservations =
            if is_some reservation then erase device l'.reservations else l'.reservations;
        busies = if is_some busy_hold then erase device l'.busies else l'.busies;
      },
      none,
    )

-- The part of `AutoLock` behind the check.
take_busy : Locker → String → String → ℕ → Locker × Result
take_busy l device owner now = elim (lookup device l.busies) [
  | some existing ↦ (l, ok existing)
  | none ↦
      let hold : Hold = record { owner = owner; locked_at = now; expires_at = 0; kind = busy } in
      (record l { busies = insert device hold l.busies }, ok hold)
]

-- `AutoLock`; `checked` and `now` are its two readings of the clock.
unfoldable pub auto_lock : Locker → String → String → ℕ → ℕ → Locker × Result
unfolding unless_blocked take_busy
auto_lock l device owner checked now =
    unless_blocked (check_locked l device owner checked) λ l'. take_busy l' device owner now

-- `ClearAutoLock`
unfoldable pub clear_auto_lock : Locker → String → String → Locker × Option Error
clear_auto_lock l device owner = elim (lookup device l.busies) [
  | none ↦ (l, some not_locked)
  | some hold ↦
      if hold.owner == owner
      then (record l { busies = erase device l.busies }, none)
      else (l, some (wrong_owner device hold))
]

-- `CheckAccess`
unfoldable pub check_access : Locker → String → String → ℕ → Locker × Option Error
check_access l device owner now = check_locked l device owner now

-- The first loop of `StatusAll`. Go's order is unspecified; here the last entry goes first.
copy_busies : Dict String Hold → Dict String Hold → Dict String Hold
copy_busies [] out = out
copy_busies ((device, hold) ∷ d) out = insert device hold (copy_busies d out)

shadow : Locker × Option Hold → String → Dict String Hold → Locker × Dict String Hold
shadow (l, none) device out = (l, out)
shadow (l, some hold) device out = (l, insert device hold out)

-- The second loop of `StatusAll`; `clock` is the reading made when a device is visited.
scan_reservations :
    List String → (String → ℕ) → Locker → Dict String Hold → Locker × Dict String Hold
unfolding shadow
scan_reservations [] clock l out = (l, out)
scan_reservations (device ∷ ds) clock l out =
    let next = shadow (live_reservation l device (clock device)) device out in
    scan_reservations ds clock next.0 next.1

-- `StatusAll`
unfoldable pub status_all : Locker → (String → ℕ) → Locker × Dict String Hold
unfolding copy_busies scan_reservations
status_all l clock = scan_reservations (keys l.reservations) clock l (copy_busies l.busies [])
