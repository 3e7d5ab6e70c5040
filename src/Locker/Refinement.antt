-- ===== src/Locker/Refinement.antt =====
-- Every history of calls on the locker of locker.go is one on the slots of the devices.
use dutctl.Base.{
  ℕ, ◌≡◌, refl, String, false, Option, none, some, List, [], ◌∷◌, arith, string_eq, ◌∙◌, ap,
  fun_ext, if◌then◌else◌, Option-cases, inl, inr, contains,
}
use dutctl.Base.Dict.{Dict, lookup, keys, lookup-nil, contains-keys}
use dutctl.Locker.{
  Hold, Locker, new, status_all, scan_reservations, live_reservation, shadow, copy_busies,
}
use dutctl.Locker.Invariant.{Inv, new-Inv, live_reservation-Inv}
use dutctl.Locker.History.{
  Call, locks, clears, forces, auto_locks, clear_autos, checks, lists, step, run, run-Inv, step-Inv,
}
use dutctl.Locker.Laws.{effective}
use dutctl.Locker.Status.{status_all-lookup}
use dutctl.Locker.Slots.{Slot, free, kept, used, both, expire, front, listed, serve, serve_all}
use dutctl.Locker.Shown.{shown, slots, live_reservation-slots, reservation-shown, listing, answer}
use dutctl.Locker.Simulation.{
  Simulates, clear_lock-Simulates, force_clear_lock-Simulates, clear_auto_lock-Simulates,
  check_access-Simulates,
}
use dutctl.Locker.Acquisition.{lock-Simulates, auto_lock-Simulates}

expire_twice : (now : ℕ) (s : Slot) → expire now (expire now s) ≡ expire now s
unfolding expire
expire_twice now free = refl
expire_twice now (kept o s u) = ground arith
expire_twice now (used o s) = refl
expire_twice now (both o s u v) = ground arith

shadowed :
    (r : Locker × Option Hold) (d : String) (out : Dict String Hold) → (shadow r d out).0 ≡ r.0
unfolding shadow
shadowed (l, none) d out = refl
shadowed (l, some hold) d out = refl

scan-slots :
    (ds : List String) (clock : String → ℕ) (l : Locker) (out : Dict String Hold) (device : String)
    → Inv l
    → slots (scan_reservations ds clock l out).0 device
      ≡ (if contains ds device then expire (clock device) (slots l device) else slots l device)
unfolding scan_reservations
scan-slots [] clock l out device inv = refl
scan-slots (d ∷ ds) clock l out device inv =
    let live = live_reservation l d (clock d) in
    ground (
      arith,
      scan-slots ds clock (shadow live d out).0 (shadow live d out).1 device
          (rw (shadowed live d out) (live_reservation-Inv l d (clock d) inv)),
      shadowed live d out,
      live_reservation-slots l d device (clock d) inv,
      expire_twice (clock device) (slots l device),
    )

unreserved-slots :
    (l : Locker) (device : String) (now : ℕ)
    → contains (keys l.reservations) device ≡ false
    → expire now (slots l device) ≡ slots l device
unfolding slots shown expire
unreserved-slots l device now h = elim (Option-cases (lookup device l.reservations)) [
  | inl e ↦ ground (arith, e)
  | inr (hold, e) ↦ cc (contains-keys l.reservations device e)
]

status_all-slots :
    (l : Locker) (clock : String → ℕ) (device : String)
    → Inv l
    → slots (status_all l clock).0 device ≡ expire (clock device) (slots l device)
unfolding status_all
status_all-slots l clock device inv = ground (
  arith,
  scan-slots (keys l.reservations) clock l (copy_busies l.busies []) device inv,
  unreserved-slots l device (clock device),
)

-- What it lists for a device is the hold that stands for its slot.
status_all-listing :
    (l : Locker) (clock : String → ℕ) (device : String)
    → Inv l
    → listing (lookup device (status_all l clock).1)
      ≡ front (expire (clock device) (slots l device))
unfolding listing front effective shown
status_all-listing l clock device inv =
    let (e, slot) = reservation-shown l device (clock device) inv in
    ground (arith, status_all-lookup l clock device, e, slot)

-- One call against the slots that are shown.
step-Simulates :
    (l : Locker) (c : Call) → Inv l → Simulates (step l c, answer l c) (serve (slots l) c)
unfolding step answer Simulates serve
step-Simulates l (locks device owner dur checked now again) inv =
    lock-Simulates l device owner dur checked now again inv
step-Simulates l (clears device owner now) inv = clear_lock-Simulates l device owner now inv
step-Simulates l (forces device now) inv = force_clear_lock-Simulates l device now inv
step-Simulates l (auto_locks device owner checked now) inv =
    auto_lock-Simulates l device owner checked now inv
step-Simulates l (clear_autos device owner) inv = clear_auto_lock-Simulates l device owner inv
step-Simulates l (checks device owner now) inv = check_access-Simulates l device owner now inv
step-Simulates l (lists clock) inv = (
  λ device. status_all-slots l clock device inv,
  ap listed (fun_ext λ device. status_all-listing l clock device inv),
)

-- One call, as an equation of the functions that the slots are.
serve-step : (l : Locker) (c : Call) → Inv l → slots (step l c) ≡ (serve (slots l) c).0
unfolding Simulates
serve-step l c inv = fun_ext (step-Simulates l c inv).0

serve_all-run : (l : Locker) (cs : List Call) → Inv l → slots (run l cs) ≡ serve_all (slots l) cs
unfolding run serve_all
serve_all-run l [] inv = refl
serve_all-run l (c ∷ cs) inv =
    serve_all-run (step l c) cs (step-Inv l c inv) ∙ ap (λ s. serve_all s cs) (serve-step l c inv)

new-slots : slots new ≡ (λ _. free)
unfolding slots new shown
new-slots = fun_ext λ device. rw (lookup-nil {K = String} {V = Hold} device) refl

-- The locker implements the slots: after any history of calls on a new locker, the holds of all
-- devices are those of the slots after the same calls, where every slot was free at first, and the
-- reply to the next call, whichever it is, is the reply of the slots: the error, with the hold in
-- the way, the hold that is granted, or the hold that is listed for each device.
pub run-refines :
    (cs : List Call) (next : Call)
    → (slots (run new cs) ≡ serve_all (λ _. free) cs)
      × (answer (run new cs) next ≡ (serve (serve_all (λ _. free) cs) next).1)
unfolding Simulates
run-refines cs next =
    let same : slots (run new cs) ≡ serve_all (λ _. free) cs =
      serve_all-run new cs new-Inv ∙ ap (λ s. serve_all s cs) new-slots in
    (
      same,
      (step-Simulates (run new cs) next (run-Inv new cs new-Inv)).1
          ∙ ap (λ s. (serve s next).1) same,
    )
