-- ===== src/Locker/Holds.antt =====
-- What `Lock`, `AutoLock` and the releases of locker.go promise their callers.
use dutctl.Base.{
  ℕ, ◌+◌, ◌≡◌, ◌≢◌, ◌<◌, ◌≤◌, refl, sym, ◌∙◌, String, false, Option, none, some, arith, string_eq,
  nat_eq, Bool-cases, inl, inr,
}
use dutctl.Base.Dict.{lookup, lookup-insert, lookup-erase}
use dutctl.Base.Int.{ℤ, nonpositive, pos_part}
use dutctl.Locker.{
  Hold, Locker, Error, wrong_owner, Result, ok, err, is_expired, live_reservation, check_locked,
  granted, store_reservation, unless_blocked, take_busy, lock, auto_lock, check_access, blocks,
}
use dutctl.Locker.Laws.{
  IsOwn, reservation, live_reservation-value, check_locked-state, check_locked-value, IsOwn-pruned,
}

unless_blocked-ok :
    (r : Locker × Option Error) (rest : Locker → Locker × Result) {hold : Hold}
    → (unless_blocked r rest).1 ≡ ok hold
    → (r.1 ≡ none) × (unless_blocked r rest ≡ rest r.0)
unfolding unless_blocked
unless_blocked-ok (l, some e) rest h = cc
unless_blocked-ok (l, none) rest h = (refl, refl)

-- A successful `Lock` has passed the check, and stores what `granted` gives.
lock-ok :
    (l : Locker) (device owner : String) (dur : ℤ) (checked now again : ℕ) {hold : Hold}
    → (lock l device owner dur checked now again).1 ≡ ok hold
    → ((check_locked l device owner checked).1 ≡ none)
      × (lock l device owner dur checked now again
          ≡ store_reservation
              (live_reservation (check_locked l device owner checked).0 device again)
              device
              owner
              now
              (now + pos_part dur))
unfolding lock
lock-ok l device owner dur checked now again {hold} h = elim (Bool-cases (nonpositive dur)) [
  | inl bad ↦ absurd (ground arith)
  | inr good ↦
      let (free, e) =
        unless_blocked-ok (check_locked l device owner checked)
          (λ l'.
            store_reservation (live_reservation l' device again) device owner now
              (now + pos_part dur))
          {hold = hold} (ground arith) in
      (free, rw (good, lock) e)
]

-- The reservation found when looking a second time, later, is the one of the first look's state.
reservation_later :
    (l : Locker) (device : String) (now again : ℕ)
    → now ≤ again
    → reservation (live_reservation l device now).0 device again ≡ reservation l device again
unfolding reservation live_reservation is_expired
reservation_later l device now again h = ground (arith, lookup-erase device device l.reservations)

granted_lem :
    (existing : Option Hold) (owner : String) (now expiry : ℕ)
    → IsOwn owner existing
    → let hold = granted existing owner now expiry in
      (hold.owner ≡ owner)
      × (expiry ≤ hold.expires_at)
      × ((old : Hold)
          → existing ≡ some old
          → (hold.locked_at ≡ old.locked_at) × (old.expires_at ≤ hold.expires_at))
unfolding granted
granted_lem none owner now expiry own = (refl, omega arith, λ old e. cc)
granted_lem (some x) owner now expiry own = (ground arith, ground arith, λ old e. ground arith)

store_reservation_lem :
    (r : Locker × Option Hold) (device owner : String) (now expiry : ℕ)
    → let hold = granted r.1 owner now expiry in
      ((store_reservation r device owner now expiry).1 ≡ ok hold)
      × (lookup device (store_reservation r device owner now expiry).0.reservations ≡ some hold)
unfolding store_reservation
store_reservation_lem (l, existing) device owner now expiry = (
  refl,
  ground (arith, lookup-insert device device (granted existing owner now expiry) l.reservations),
)

-- What a successful `Lock` returns and stores, from the reservation that was live before it.
lock-granted :
    (l : Locker) (device owner : String) (dur : ℤ) (checked now again : ℕ) (hold : Hold)
    → checked ≤ again
    → (lock l device owner dur checked now again).1 ≡ ok hold
    → (hold ≡ granted (reservation l device again) owner now (now + pos_part dur))
      × IsOwn owner (reservation l device again)
      × (lookup device (lock l device owner dur checked now again).0.reservations ≡ some hold)
lock-granted l device owner dur checked now again hold later h =
    let (free, e) = lock-ok l device owner dur checked now again {hold = hold} h in
    let (own, _, _) = IsOwn-pruned l device owner checked again free in
    let start : reservation (check_locked l device owner checked).0 device again
        ≡ reservation l device again =
      rw (check_locked-state l device owner checked)
        (reservation_later l device checked again later) in
    let found = live_reservation-value (check_locked l device owner checked).0 device again in
    let stored =
      store_reservation_lem (live_reservation (check_locked l device owner checked).0 device again)
        device owner now (now + pos_part dur) in
    (
      ground (arith, stored, e, found, start),
      rw start at own,
      ground (arith, stored, e, found, start),
    )

-- A successful `Lock` gives the caller a reservation that lasts at least the duration, and stores
-- exactly that one for the device. If the device had a live reservation, this one keeps its start
-- and its expiry is not earlier. The clock does not run backwards between the two looks.
pub lock_grants :
    (l : Locker) (device owner : String) (dur : ℤ) (checked now again : ℕ) (hold : Hold)
    → checked ≤ again
    → (lock l device owner dur checked now again).1 ≡ ok hold
    → (lookup device (lock l device owner dur checked now again).0.reservations ≡ some hold)
      × (hold.owner ≡ owner)
      × (now + pos_part dur ≤ hold.expires_at)
      × ((old : Hold)
          → reservation l device again ≡ some old
          → (hold.locked_at ≡ old.locked_at) × (old.expires_at ≤ hold.expires_at))
lock_grants l device owner dur checked now again hold later h =
    let (is, own, stored) = lock-granted l device owner dur checked now again hold later h in
    let (a, b, c) = granted_lem (reservation l device again) owner now (now + pos_part dur) own in
    (stored, rw is a, rw is b, rw is c)

unless_blocked-err :
    (r : Locker × Option Error) (rest : Locker → Locker × Result) {e : Error}
    → r.1 ≡ some e
    → (unless_blocked r rest).1 ≡ err e
unfolding unless_blocked
unless_blocked-err (l, some e) rest h = ground arith
unless_blocked-err (l, none) rest h = cc

-- A stored reservation that is not over stands in the way of everybody but its owner.
held_excludes :
    (l : Locker) (device rival : String) (hold : Hold) (now : ℕ)
    → lookup device l.reservations ≡ some hold
    → now < hold.expires_at
    → hold.owner ≢ rival
    → (check_locked l device rival now).1 ≡ some (wrong_owner device hold)
unfolding reservation is_expired blocks
held_excludes l device rival hold now stored early other =
    ground (arith, check_locked-value l device rival now)

-- While the reservation that a successful `Lock` gave is not over, everybody else is refused with
-- it, whatever they try next: the access check, `Lock` for a positive duration and `AutoLock`.
-- The clock does not run backwards between the two looks of the first `Lock`.
pub lock_excludes :
    (l : Locker) (device owner : String) (dur : ℤ) (checked now again : ℕ) (hold : Hold)
    → checked ≤ again
    → (lock l device owner dur checked now again).1 ≡ ok hold
    → (rival : String) → rival ≢ owner
    → (t : ℕ) → t < hold.expires_at
    → let l' = (lock l device owner dur checked now again).0 in
      ((check_access l' device rival t).1 ≡ some (wrong_owner device hold))
      × ((d : ℤ) (u v : ℕ)
          → nonpositive d ≡ false
          → (lock l' device rival d t u v).1 ≡ err (wrong_owner device hold))
      × ((u : ℕ) → (auto_lock l' device rival t u).1 ≡ err (wrong_owner device hold))
unfolding check_access lock auto_lock
lock_excludes l device owner dur checked now again hold later h rival other t early = (
  blocked,
  λ d u v good. rw good (
      unless_blocked-err (check_locked l' device rival t)
        (λ m. store_reservation (live_reservation m device v) device rival u (u + pos_part d))
        blocked),
  λ u.
      unless_blocked-err (check_locked l' device rival t) (λ m. take_busy m device rival u) blocked,
)
  where
    l' : Locker
    l' = (lock l device owner dur checked now again).0

    blocked : (check_locked l' device rival t).1 ≡ some (wrong_owner device hold)
    blocked =
        let (stored, owned, _, _) = lock_grants l device owner dur checked now again hold later h in
        held_excludes l' device rival hold t stored early (λ p. other (sym p ∙ owned))
