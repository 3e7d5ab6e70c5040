-- ===== src/Tests/Locker.antt =====
-- Two users and a board (internal/dutagent/locker/locker.go).
use text.Mathlib.TextEquality.{eq_iff}
use dutctl.Base.{
  ℕ, ◌≡◌, ◌≢◌, ◌↔◌, refl, String, false, none, some, List, [], ◌∷◌, arith, string_eq, ℕ_discrete,
}
use dutctl.Base.Dict.{lookup, insert}
use dutctl.Base.Int.{ℤ, pos, nonpositive}
use dutctl.Locker.{
  reserved, busy, Hold, Locker, wrong_owner, ok, err, new, lock, auto_lock, clear_auto_lock,
  check_access, check_locked, status_all, live_reservation,
}
use dutctl.Locker.Laws.{IsOwn}
use dutctl.Locker.Invariant.{new-Inv, lock-Inv}
use dutctl.Locker.Status.{check_access-status_all}
use dutctl.Locker.History.{Call, locks, auto_locks, run, run-one_owner}
use dutctl.Locker.Slots.{free, serve, serve_all}
use dutctl.Locker.Shown.{slots, answer}
use dutctl.Locker.Refinement.{run-refines}
use dutctl.Locker.Shared.{run_hold, clear_auto_lock-shared}
use dutctl.Locker.Holds.{lock_excludes}

abbrev rpi : String
rpi = "rpi"

abbrev held : Locker
held = (lock new rpi "ann" (pos 60) 10 10 10).0

abbrev hold : Hold
hold = record { owner = "ann"; locked_at = 10; expires_at = 70; kind = reserved }

abbrev history : List Call
history = locks rpi "ann" (pos 60) 10 10 10 ∷ auto_locks rpi "ann" 20 20 ∷ []

abbrev running : Hold
running = record { owner = "ann"; locked_at = 20; expires_at = 0; kind = busy }

held_by_ann : (lock new rpi "ann" (pos 60) 10 10 10).1 ≡ ok hold
unfolding lock new check_locked live_reservation lookup
held_by_ann = refl

second_lock : (lock held rpi "ann" (pos 20) 30 30 30).1 ≡ ok hold
unfolding lock new check_locked live_reservation lookup insert string_eq ℕ_discrete
second_lock = refl

run-one_owner_example :
    (hold.owner ≡ running.owner)
    × (hold.kind ≡ reserved)
    × (hold.expires_at ≢ 0)
    × (running.kind ≡ busy)
    × (running.expires_at ≡ 0)
unfolding run lock auto_lock new check_locked live_reservation lookup insert string_eq ℕ_discrete
run-one_owner_example = run-one_owner history rpi hold running refl refl

run-refines_example :
    (slots (run new history) ≡ serve_all (λ _. free) history)
    × (answer (run new history) (locks rpi "bob" (pos 5) 30 30 30)
        ≡ (serve (serve_all (λ _. free) history) (locks rpi "bob" (pos 5) 30 30 30)).1)
run-refines_example = run-refines history (locks rpi "bob" (pos 5) 30 30 30)

check_access-status_all_example :
    ((check_access held rpi "bob" 20).1 ≡ none)
    ↔ IsOwn "bob" (lookup rpi (status_all held (λ _. 20)).1)
check_access-status_all_example =
    check_access-status_all held rpi "bob" (λ _. 20)
      (lock-Inv new rpi "ann" (pos 60) 10 10 10 new-Inv)

bob_is_not_ann : ◌≢◌ {A = String} "bob" "ann"
bob_is_not_ann = ground (arith, eq_iff "bob" "ann")

lock_excludes_example :
    ((check_access held rpi "bob" 69).1 ≡ some (wrong_owner rpi hold))
    × ((d : ℤ) (u v : ℕ)
        → nonpositive d ≡ false
        → (lock held rpi "bob" d 69 u v).1 ≡ err (wrong_owner rpi hold))
    × ((u : ℕ) → (auto_lock held rpi "bob" 69 u).1 ≡ err (wrong_owner rpi hold))
lock_excludes_example =
    lock_excludes new rpi "ann" (pos 60) 10 10 10 hold (omega arith) held_by_ann "bob"
      bob_is_not_ann 69 (omega arith)

clear_auto_lock-shared_example :
    let first = auto_lock new rpi "ann" 10 10 in
    let second = auto_lock first.0 rpi "ann" 11 11 in
    let ended = clear_auto_lock second.0 rpi "ann" in
    (first.1 ≡ ok (run_hold "ann" 10))
    × (second.1 ≡ ok (run_hold "ann" 10))
    × (ended.1 ≡ none)
    × ((auto_lock ended.0 rpi "bob" 12 12).1 ≡ ok (run_hold "bob" 12))
unfolding new lookup
clear_auto_lock-shared_example =
    clear_auto_lock-shared new rpi "ann" "bob" 10 10 11 11 12 12 refl refl
