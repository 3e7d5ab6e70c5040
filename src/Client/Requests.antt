-- ===== src/Client/Requests.antt =====
-- Which command lines of cmds/dutctl make which request, after the check of cmds/dutctl/rpc.go.
use dutctl.Base.{
  ℕ, zero, suc, ◌≡◌, ◌↔◌, ◌⊎◌, inl, inr, refl, ap, subst, String, Bool, Bool-cases, true, false,
  Option, none, some, List, [], ◌∷◌, ◌==◌, arith, string_eq, if◌then◌else◌,
}
use dutctl.Base.Int.{ℤ, pos, negsuc, nonpositive}
use dutctl.Client.{
  Call, list_rpc, commands_rpc, details_rpc, lock_rpc, unlock_rpc, run_rpc, call, start, Time,
  Action, print_version, invalid_cmdline, sends_request, sent_call, request, parse_lock_duration,
}
use dutctl.Client.Routing.{Asked, start-call_iff}

-- What may stand for the duration of a lock: nothing, or a positive duration.
unfoldable pub IsDuration : Time → String → Type 0
IsDuration time a = (a ≡ "") ⊎ ((d : ℕ) × (time.parse_duration a ≡ some (pos (suc d))))

unfoldable pub IsTimed : Time → Call → Type 0
IsTimed time (lock_rpc device (a ∷ args)) = IsDuration time a
IsTimed time _ = Unit

-- The test of a text that is not empty.
abbrev is_given : Option ℤ → Bool
is_given none = false
is_given (some d) = if nonpositive d then false else true

is_given-pos : (o : Option ℤ) → is_given o ≡ true → (d : ℕ) × (o ≡ some (pos (suc d)))
is_given-pos none h = absurd (ground arith)
is_given-pos (some (pos zero)) h = absurd (ground arith)
is_given-pos (some (pos (suc d))) h = (d, refl)
is_given-pos (some (negsuc d)) h = absurd (ground arith)

is_given-suc : (d : ℕ) → is_given (some (pos (suc d))) ≡ true
is_given-suc d = ground arith

sends_request-lock :
    (time : Time) (device a : String) (args : List String)
    → sends_request time (lock_rpc device (a ∷ args))
      ≡ (if a == "" then true else is_given (time.parse_duration a))
unfolding sends_request parse_lock_duration
sends_request-lock time device a args = ground arith

sends_request-IsTimed : (time : Time) (c : Call) → sends_request time c ≡ true → IsTimed time c
unfolding IsTimed IsDuration
sends_request-IsTimed time (lock_rpc device (a ∷ args)) h = elim (string_eq.dec a "") [
  | yes p ↦ inl p
  | no n ↦ inr (
      is_given-pos (time.parse_duration a)
        (ground (arith, n, h, sends_request-lock time device a args)))
]
sends_request-IsTimed time (lock_rpc device []) h = tt
sends_request-IsTimed time list_rpc h = tt
sends_request-IsTimed time (commands_rpc device) h = tt
sends_request-IsTimed time (details_rpc device command keyword) h = tt
sends_request-IsTimed time (unlock_rpc device force) h = tt
sends_request-IsTimed time (run_rpc device command args) h = tt

IsTimed-sends_request : (time : Time) (c : Call) → IsTimed time c → sends_request time c ≡ true
unfolding IsTimed IsDuration sends_request parse_lock_duration
IsTimed-sends_request time (lock_rpc device (a ∷ args)) (inl p) =
    ground (arith, p, sends_request-lock time device a args)
IsTimed-sends_request time (lock_rpc device (a ∷ args)) (inr (d, e)) =
    ground (arith, e, is_given-suc d, sends_request-lock time device a args)
IsTimed-sends_request time (lock_rpc device []) h = refl
IsTimed-sends_request time list_rpc h = refl
IsTimed-sends_request time (commands_rpc device) h = refl
IsTimed-sends_request time (details_rpc device command keyword) h = refl
IsTimed-sends_request time (unlock_rpc device force) h = refl
IsTimed-sends_request time (run_rpc device command args) h = refl

sent_call-some :
    (time : Time) (action : Action) (c : Call)
    → sent_call time action ≡ some c
    → (action ≡ call c) × (sends_request time c ≡ true)
unfolding sent_call
sent_call-some time print_version c h = absurd (ground arith)
sent_call-some time invalid_cmdline c h = absurd (ground arith)
sent_call-some time (call k) c h = elim (Bool-cases (sends_request time k)) [
  | inl e ↦
      let same : k ≡ c = ground (arith, e, h) in
      (ap call same, subst (λ x. sends_request time x ≡ true) same e)
  | inr e ↦ absurd (ground (arith, e, h))
]

-- A command line makes a request exactly when it is the request's spelling in the usage text, with
-- a device that is not `list` or `version`, a command that is not `lock` or `unlock`, arguments of
-- a run that do not begin with `help`, and nothing or a positive duration behind `lock`; no
-- arguments at all mean `list`. Every other command line makes none.
pub request_iff :
    (time : Time) (args : List String) (c : Call)
    → (request time args ≡ some c) ↔ (Asked args c × IsTimed time c)
unfolding request sent_call
request_iff time args c = (
  λ h.
      let (dispatched, sends) = sent_call-some time (start args) c h in
      ((start-call_iff args c).0 dispatched, sends_request-IsTimed time c sends),
  λ (asked, timed).
      rw ((start-call_iff args c).1 asked, sent_call, IsTimed-sends_request time c timed) refl,
)
