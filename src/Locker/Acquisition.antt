-- ===== src/Locker/Acquisition.antt =====
-- `Lock` and `AutoLock` of locker.go against what the slots promise.
use dutctl.Base.{
  ℕ, ◌+◌, ◌≡◌, refl, String, Option, none, some, arith, ◌==◌, string_eq, if◌then◌else◌, Bool-cases,
  Option-cases, inl, inr, nat_eq,
}
use dutctl.Base.Dict.{lookup, lookup-insert}
use dutctl.Base.Int.{ℤ, nonpositive, pos_part}
use dutctl.Locker.{
  busy, Locker, Error, Result, err, lock, auto_lock, live_reservation, check_locked, unless_blocked,
  take_busy, store_reservation, granted,
}
use dutctl.Locker.Laws.{
  IsOwn, IsOwn-pruned, reservation, live_reservation-value, live_reservation-busies,
  live_reservation-lookup_self,
}
use dutctl.Locker.Invariant.{Inv, check_locked-Inv, live_reservation-Inv}
use dutctl.Locker.History.{locks, auto_locks}
use dutctl.Locker.Slots.{grants, keeper, worker, expire, reserve, enter, serve}
use dutctl.Locker.Shown.{
  shown, slots, live_reservation-slots, refusal, result, blocked, taken, live_reservation-shown,
  stored-slots, check_locked-blocked, checked-slots,
}
use dutctl.Locker.Simulation.{Simulates}

take_busy-slots :
    (l : Locker) (device user other : String) (now : ℕ)
    → Inv l
    → IsOwn user (lookup device l.reservations)
    → IsOwn user (lookup device l.busies)
    → (slots (take_busy l device user now).0 other
        ≡ (if other == device then enter user now (slots l device) else slots l other))
      × (result (take_busy l device user now).1 ≡ grants (worker (enter user now (slots l device))))
unfolding take_busy enter worker grants shown result slots
take_busy-slots l device user other now inv own own' = (
  ground (
    arith,
    lookup-insert other device
        (record { owner = user; locked_at = now; expires_at = 0; kind = busy }) l.busies,
  ),
  ground (arith, inv device),
)

unless_blocked-none :
    (r : Locker × Option Error) (rest : Locker → Locker × Result)
    → r.1 ≡ none
    → unless_blocked r rest ≡ rest r.0
unfolding unless_blocked
unless_blocked-none (l, none) rest h = refl
unless_blocked-none (l, some e) rest h = absurd ground arith

unless_blocked-some :
    (r : Locker × Option Error) (rest : Locker → Locker × Result) {e : Error}
    → r.1 ≡ some e
    → unless_blocked r rest ≡ (r.0, err e)
unfolding unless_blocked
unless_blocked-some (l, none) rest h = absurd ground arith
unless_blocked-some (l, some x) rest h = ground arith

pub auto_lock-Simulates :
    (l : Locker) (device user : String) (checked now : ℕ)
    → Inv l
    → Simulates
        ((auto_lock l device user checked now).0, result (auto_lock l device user checked now).1)
        (serve (slots l) (auto_locks device user checked now))
unfolding Simulates auto_lock result serve blocked taken
auto_lock-Simulates l device user checked now inv =
    let check = check_locked l device user checked in
    let rest : Locker → Locker × Result = λ l'. take_busy l' device user now in
    let found = check_locked-blocked l device user checked inv in
    elim (Option-cases check.1) [
      | inl e ↦
          let (_, own, own') = IsOwn-pruned l device user checked checked e in
          (
            λ other. ground (
              arith,
              e,
              unless_blocked-none check rest e,
              found,
              checked-slots l device user other checked inv,
              checked-slots l device user device checked inv,
              take_busy-slots check.0 device user other now
                  (check_locked-Inv l device user checked inv) own own',
            ),
            ground (
              arith,
              e,
              unless_blocked-none check rest e,
              found,
              take_busy-slots check.0 device user device now
                  (check_locked-Inv l device user checked inv) own own',
              checked-slots l device user device checked inv,
            ),
          )
      | inr (x, e) ↦ (
        λ other. ground (
          arith,
          e,
          unless_blocked-some check rest e,
          found,
          checked-slots l device user other checked inv,
        ),
        ground (arith, e, unless_blocked-some check rest e, found),
      )
    ]

store-slots :
    (l : Locker) (device user other : String) (now again expiry : ℕ)
    → Inv l
    → IsOwn user (reservation l device again)
    → IsOwn user (lookup device l.busies)
    → let stored = store_reservation (live_reservation l device again) device user now expiry in
      (slots stored.0 other ≡ (
        if other == device
        then reserve user now expiry (expire again (slots l device))
        else slots l other))
      × (result stored.1
          ≡ grants (keeper (reserve user now expiry (expire again (slots l device)))))
unfolding store_reservation granted reserve keeper grants shown result
store-slots l device user other now again expiry inv own own' =
    let live = live_reservation l device again in
    (
      ground (
        arith,
        stored-slots live.0 device other (granted live.1 user now expiry),
        live_reservation-slots l device other again inv,
        live_reservation-shown l device again inv,
        live_reservation-lookup_self l device again,
        live_reservation-value l device again,
        live_reservation-busies l device again,
      ),
      ground (
        arith,
        live_reservation-shown l device again inv,
        live_reservation-value l device again,
        live_reservation-busies l device again,
        live_reservation-Inv l device again inv device,
        live_reservation-lookup_self l device again,
      ),
    )

pub lock-Simulates :
    (l : Locker) (device user : String) (dur : ℤ) (checked now again : ℕ)
    → Inv l
    → Simulates
        (
          (lock l device user dur checked now again).0,
          result (lock l device user dur checked now again).1,
        )
        (serve (slots l) (locks device user dur checked now again))
unfolding Simulates lock result refusal serve blocked taken
lock-Simulates l device user dur checked now again inv =
    let check = check_locked l device user checked in
    let rest : Locker → Locker × Result = λ l'.
      store_reservation (live_reservation l' device again) device user now (now + pos_part dur) in
    let found = check_locked-blocked l device user checked inv in
    elim (Bool-cases (nonpositive dur)) [
      | inl bad ↦ (λ other. ground (arith, bad), ground (arith, bad))
      | inr good ↦ elim (Option-cases check.1) [
        | inl e ↦
            let (own, _, own') = IsOwn-pruned l device user checked again e in
            (
              λ other. ground (
                arith,
                good,
                e,
                unless_blocked-none check rest e,
                found,
                checked-slots l device user other checked inv,
                checked-slots l device user device checked inv,
                store-slots check.0 device user other now again (now + pos_part dur)
                    (check_locked-Inv l device user checked inv) own own',
              ),
              ground (
                arith,
                good,
                e,
                unless_blocked-none check rest e,
                found,
                store-slots check.0 device user device now again (now + pos_part dur)
                    (check_locked-Inv l device user checked inv) own own',
                checked-slots l device user device checked inv,
              ),
            )
        | inr (x, e) ↦ (
          λ other. ground (
            arith,
            good,
            e,
            unless_blocked-some check rest e,
            found,
            checked-slots l device user other checked inv,
          ),
          ground (arith, good, e, unless_blocked-some check rest e, found),
        )
      ]
    ]
