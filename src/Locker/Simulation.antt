-- ===== src/Locker/Simulation.antt =====
-- The operations of locker.go against what the slots promise.
use dutctl.Base.{ℕ, ◌≡◌, String, arith, string_eq, nat_eq}
use dutctl.Base.Dict.{lookup-erase}
use dutctl.Locker.{
  Locker, clear_lock, force_clear_lock, clear_auto_lock, check_access, live_reservation,
}
use dutctl.Locker.Laws.{live_reservation-lookup_self}
use dutctl.Locker.Invariant.{Inv, live_reservation-Inv}
use dutctl.Locker.History.{clears, forces, clear_autos, checks}
use dutctl.Locker.Slots.{Reply, Slots, serve}
use dutctl.Locker.Shown.{
  shown, slots, live_reservation-slots, outcome, blocked, taken, live_reservation-shown,
  erased-slots, freed-slots, check_locked-blocked, checked-slots,
}

-- The simulation: after an operation the holds show the slots that the operation on slots gives.
unfoldable pub Simulates : Locker × Reply → Slots × Reply → Type 0
Simulates (l, reply) (spec, reply') =
    ((other : String) → slots l other ≡ spec other) × (reply ≡ reply')

pub clear_auto_lock-Simulates :
    (l : Locker) (device user : String)
    → Inv l
    → Simulates
        ((clear_auto_lock l device user).0, outcome (clear_auto_lock l device user).1)
        (serve (slots l) (clear_autos device user))
unfolding Simulates clear_auto_lock outcome serve slots shown
clear_auto_lock-Simulates l device user inv = (
  λ other. ground (arith, lookup-erase other device l.busies, inv device),
  ground (arith, inv device),
)

pub force_clear_lock-Simulates :
    (l : Locker) (device : String) (now : ℕ)
    → Inv l
    → Simulates
        ((force_clear_lock l device now).0, outcome (force_clear_lock l device now).1)
        (serve (slots l) (forces device now))
unfolding Simulates force_clear_lock outcome serve shown
force_clear_lock-Simulates l device now inv = (
  λ other. ground (
    arith,
    live_reservation-slots l device other now inv,
    live_reservation-shown l device now inv,
    live_reservation-lookup_self l device now,
    freed-slots (live_reservation l device now).0 device other,
  ),
  ground (arith, live_reservation-shown l device now inv),
)

pub clear_lock-Simulates :
    (l : Locker) (device user : String) (now : ℕ)
    → Inv l
    → Simulates
        ((clear_lock l device user now).0, outcome (clear_lock l device user now).1)
        (serve (slots l) (clears device user now))
unfolding Simulates clear_lock outcome serve shown
clear_lock-Simulates l device user now inv = (
  λ other. ground (
    arith,
    live_reservation-slots l device other now inv,
    live_reservation-shown l device now inv,
    erased-slots (live_reservation l device now).0 device other,
    live_reservation-Inv l device now inv device,
    live_reservation-lookup_self l device now,
  ),
  ground (
    arith,
    live_reservation-shown l device now inv,
    live_reservation-Inv l device now inv device,
    live_reservation-lookup_self l device now,
  ),
)

pub check_access-Simulates :
    (l : Locker) (device user : String) (now : ℕ)
    → Inv l
    → Simulates
        ((check_access l device user now).0, outcome (check_access l device user now).1)
        (serve (slots l) (checks device user now))
unfolding Simulates check_access outcome serve blocked taken
check_access-Simulates l device user now inv = (
  λ other. ground (arith, checked-slots l device user other now inv),
  ground (arith, check_locked-blocked l device user now inv),
)
