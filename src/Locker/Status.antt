-- ===== src/Locker/Status.antt =====
-- `StatusAll` against the access check of locker.go.
use dutctl.Base.{
  ℕ, ◌≡◌, refl, ◌↔◌, String, false, Option, none, some, List, [], ◌∷◌, arith, ◌==◌, string_eq,
  if◌then◌else◌, contains, Option-cases, inl, inr,
}
use dutctl.Base.Dict.{Dict, keys, lookup, lookup-insert, lookup-erase, lookup-nil, contains-keys}
use dutctl.Locker.{
  Hold, Locker, live_reservation, check_access, status_all, scan_reservations, copy_busies, shadow,
}
use dutctl.Locker.Laws.{
  IsOwn, reservation, effective, live_reservation-value, check_locked-none_iff,
}
use dutctl.Locker.Invariant.{Inv}

shown : Option Hold → Option Hold → Option Hold
shown (some hold) below = some hold
shown none below = below

lookup-copy_busies :
    (device : String) (d out : Dict String Hold)
    → lookup device (copy_busies d out) ≡ shown (lookup device d) (lookup device out)
unfolding copy_busies lookup shown
lookup-copy_busies device [] out = refl
lookup-copy_busies device ((other, hold) ∷ d) out =
    ground
      (arith, lookup-copy_busies device d out, lookup-insert device other hold (copy_busies d out))

-- One visit neither makes up nor loses a live reservation.
reservation-live_reservation :
    (l : Locker) (device other : String) (clock : String → ℕ)
    → reservation (live_reservation l device (clock device)).0 other (clock other)
      ≡ reservation l other (clock other)
unfolding reservation live_reservation
reservation-live_reservation l device other clock =
    ground (arith, lookup-erase other device l.reservations)

shadow-state :
    (r : Locker × Option Hold) (d : String) (out : Dict String Hold) → (shadow r d out).0 ≡ r.0
unfolding shadow
shadow-state (l, none) d out = refl
shadow-state (l, some hold) d out = refl

shadow-lookup :
    (r : Locker × Option Hold) (d : String) (out : Dict String Hold) (device : String)
    → lookup device (shadow r d out).1
      ≡ (if device == d then shown r.1 (lookup device out) else lookup device out)
unfolding shadow shown
shadow-lookup (l, none) d out device = ground arith
shadow-lookup (l, some hold) d out device = ground (arith, lookup-insert device d hold out)

scan-lookup :
    (ds : List String) (clock : String → ℕ) (l : Locker) (out : Dict String Hold) (device : String)
    → lookup device (scan_reservations ds clock l out).1 ≡ (
        if contains ds device
        then shown (reservation l device (clock device)) (lookup device out)
        else lookup device out)
unfolding scan_reservations shown
scan-lookup [] clock l out device = refl
scan-lookup (d ∷ ds) clock l out device = ground (
  arith,
  scan-lookup ds clock (shadow (live_reservation l d (clock d)) d out).0
      (shadow (live_reservation l d (clock d)) d out).1 device,
  shadow-state (live_reservation l d (clock d)) d out,
  shadow-lookup (live_reservation l d (clock d)) d out device,
  reservation-live_reservation l d device clock,
  live_reservation-value l d (clock d),
)

reservation_absent :
    (l : Locker) (device : String) (now : ℕ)
    → contains (keys l.reservations) device ≡ false
    → reservation l device now ≡ none
unfolding reservation
reservation_absent l device now h = elim (Option-cases (lookup device l.reservations)) [
  | inl e ↦ rw (e, reservation)
  | inr (hold, e) ↦ cc (contains-keys l.reservations device e)
]

-- `StatusAll` reports for every device its effective hold at the time of the visit.
pub status_all-lookup :
    (l : Locker) (clock : String → ℕ) (device : String)
    → lookup device (status_all l clock).1 ≡ effective l device (clock device)
unfolding status_all effective shown
status_all-lookup l clock device = ground (
  arith,
  scan-lookup (keys l.reservations) clock l (copy_busies l.busies []) device,
  lookup-copy_busies device l.busies [],
  lookup-nil {K = String} {V = Hold} device,
  reservation_absent l device (clock device),
)

-- In a well-formed locker an owner may operate on a device, at the time when `StatusAll` looks at
-- it, exactly when `StatusAll` lists no hold of the device, or one of that owner.
pub check_access-status_all :
    (l : Locker) (device owner : String) (clock : String → ℕ)
    → Inv l
    → ((check_access l device owner (clock device)).1 ≡ none)
      ↔ IsOwn owner (lookup device (status_all l clock).1)
unfolding check_access effective reservation
check_access-status_all l device owner clock inv = ground (
  arith,
  status_all-lookup l clock device,
  check_locked-none_iff l device owner (clock device),
  inv device,
)
