-- ===== src/Client/Durations.antt =====
-- The duration of a lock from the command line (cmds/dutctl/rpc.go) to the locker
-- (cmds/dutagent/rpc.go).
use dutctl.Base.{
  ℕ, ◌*◌, ◌≡◌, ◌≢◌, ◌≤◌, ◌<◌, refl, sym, ◌∙◌, ap, String, some, [], ◌∷◌, arith, string_eq, nat_eq,
  ℕ_discrete,
}
use dutctl.Base.Int.{pos}
use dutctl.Agent.Handlers.{requested_duration, default_lock_duration}
use dutctl.Agent.Handlers.Locking.{requested_duration-counted, counted}
use dutctl.Client.{Time, parse_lock_duration, lock_seconds}

-- What the time library promises: a duration under a second has no whole seconds, and a duration
-- of whole seconds that fits into a `time.Duration` has as many.
unfoldable pub IsTime : Time → Type 0
IsTime time =
    ((d : ℕ) → d < 1000000000 → time.whole_seconds (pos d) ≡ pos 0)
    × ((n : ℕ) → n ≤ 9223372036 → time.whole_seconds (pos (n * 1000000000)) ≡ pos n)

lock_seconds-given :
    (time : Time) (a : String) (d : ℕ)
    → a ≢ ""
    → time.parse_duration a ≡ some (pos d)
    → 0 < d
    → lock_seconds time (a ∷ []) ≡ some (time.whole_seconds (pos d))
unfolding lock_seconds parse_lock_duration
lock_seconds-given time a d h e k = ground (arith, h, e, k)

lock_seconds-nil : (time : Time) → lock_seconds time [] ≡ some (time.whole_seconds (pos 0))
unfolding lock_seconds parse_lock_duration
lock_seconds-nil time = refl

counted_positive : (n : ℕ) → 0 < n → counted n ≡ n
counted_positive n h = ground arith

-- A duration of whole seconds that the user writes, from one second to the longest that a
-- `time.Duration` holds, is the duration for which the agent asks its locker.
pub lock_seconds-asked :
    (time : Time)
    → IsTime time
    → (a : String) (n : ℕ) → a ≢ ""
    → time.parse_duration a ≡ some (pos (n * 1000000000))
    → 0 < n
    → n ≤ 9223372036
    → (lock_seconds time (a ∷ []) ≡ some (pos n))
      × (requested_duration (pos n) ≡ pos (n * 1000000000))
unfolding IsTime
lock_seconds-asked time (_, whole) a n h e k m = (
  lock_seconds-given time a (n * 1000000000) h e (omega (arith, k)) ∙ ap some (whole n m),
  requested_duration-counted n m ∙ ap (λ c. pos (c * 1000000000)) (counted_positive n k),
)

-- A positive duration of less than a second is sent as zero seconds, which the agent takes for a
-- request that gives no duration: it asks its locker for half an hour.
pub lock_seconds-subsecond :
    (time : Time)
    → IsTime time
    → (a : String) (d : ℕ) → a ≢ ""
    → time.parse_duration a ≡ some (pos d)
    → 0 < d
    → d < 1000000000
    → (lock_seconds time (a ∷ []) ≡ lock_seconds time [])
      × (requested_duration (pos 0) ≡ default_lock_duration)
unfolding IsTime ℕ_discrete
lock_seconds-subsecond time (short, _) a d h e k m = (
  lock_seconds-given time a d h e k
      ∙ ap some (short d m ∙ sym (short 0 (omega arith)))
      ∙ sym (lock_seconds-nil time),
  requested_duration-counted 0 (omega arith),
)
