-- ===== src/Server/Relay/Verdict.antt =====
-- What a relay of cmds/exp/dutserver/rpc.go returns, and which version the client is shown.
use dutctl.Base.{
  ◌≡◌, refl, inl, inr, Bool, true, false, Option, none, some, List, [], ◌∷◌, ◌++◌, Text, Holds,
  Holds-some, Bool-cases,
}
use dutctl.Agent.Errors.{Err}
use dutctl.Versions.{Semver}
use dutctl.Server.Relay.{
  Arrived, arrives, closed, broken, Place, polling, receiving, leaving, left, sending, Handler,
  starting, parked, returned, Relay, Event, down_polls, down_leaves, up_polls, up_leaves, ctx_ends,
  agent_sends, client_takes, agent_takes, client_sends, selects_done, selects_error, parks,
  handler_leaves, start, step, run, poll, leave, wake, cancel, report, select_done, select_error,
  park, handler_leave, on_agent_takes, on_client_takes, on_client_sends, on_agent_sends,
  relay_version,
}
use dutctl.Server.Relay.Forwarding.{run-Holds}

-- What the handler may be, by the errors that were sent and the context.
unfoldable pub Sound : Handler → List Err → Bool → Type 0
Sound starting errs cancelled = Unit
Sound parked errs cancelled = (errs ≡ []) × (cancelled ≡ false)
Sound (returned none) errs cancelled = cancelled ≡ true
Sound (returned (some e)) errs cancelled = (rest : List Err) × (errs ≡ e ∷ rest)

wake-Sound :
    (h : Handler) (errs : List Err) (c : Bool) (e : Err)
    → Sound h errs c
    → Sound (wake h (some e)) (errs ++ (e ∷ [])) c
unfolding wake Sound
wake-Sound starting errs c e s = tt
wake-Sound parked errs c e (none_yet, _) = ([], rw none_yet refl)
wake-Sound (returned none) errs c e s = s
wake-Sound (returned (some x)) errs c e (rest, h) = (rest ++ (e ∷ []), rw h refl)

wake_cancelled-Sound :
    (h : Handler) (errs : List Err) (c : Bool) → Sound h errs c → Sound (wake h none) errs true
unfolding wake Sound
wake_cancelled-Sound starting errs c s = tt
wake_cancelled-Sound parked errs c s = refl
wake_cancelled-Sound (returned none) errs c s = refl
wake_cancelled-Sound (returned (some e)) errs c s = s

module _ {Req Res : Type 0} where
  IsSound : Relay Req Res → Type 0
  IsSound s = Sound s.handler s.errs s.cancelled

  moved :
      {A : Type 0} (o : Option A) (f : A → Relay Req Res)
      → ((a : A) → IsSound (f a))
      → Holds IsSound (elim o [ none ↦ none | some a ↦ some (f a) ])
  moved none f h = tt
  moved (some a) f h = h a

  agent_takes-IsSound :
      (place : Place Req) (e : Option Err) (s : Relay Req Res)
      → IsSound s
      → Holds IsSound (on_agent_takes place e s)
  unfolding on_agent_takes IsSound report
  agent_takes-IsSound (sending req) none s h = h
  agent_takes-IsSound (sending req) (some e) s h = wake-Sound s.handler s.errs s.cancelled e h
  agent_takes-IsSound polling e s h = tt
  agent_takes-IsSound receiving e s h = tt
  agent_takes-IsSound leaving e s h = tt
  agent_takes-IsSound left e s h = tt

  client_takes-IsSound :
      (place : Place Res) (e : Option Err) (s : Relay Req Res)
      → IsSound s
      → Holds IsSound (on_client_takes place e s)
  unfolding on_client_takes IsSound report
  client_takes-IsSound (sending req) none s h = h
  client_takes-IsSound (sending req) (some e) s h = wake-Sound s.handler s.errs s.cancelled e h
  client_takes-IsSound polling e s h = tt
  client_takes-IsSound receiving e s h = tt
  client_takes-IsSound leaving e s h = tt
  client_takes-IsSound left e s h = tt

  client_sends-IsSound :
      (place : Place Req) (a : Arrived Req) (s : Relay Req Res)
      → IsSound s
      → Holds IsSound (on_client_sends place a s)
  unfolding on_client_sends IsSound report cancel
  client_sends-IsSound receiving (arrives req) s h = h
  client_sends-IsSound receiving closed s h = wake_cancelled-Sound s.handler s.errs s.cancelled h
  client_sends-IsSound receiving (broken e) s h = wake-Sound s.handler s.errs s.cancelled e h
  client_sends-IsSound polling a s h = tt
  client_sends-IsSound (sending req) a s h = tt
  client_sends-IsSound leaving a s h = tt
  client_sends-IsSound left a s h = tt

  handler_leave-IsSound :
      (h : Handler) (s : Relay Req Res)
      → Sound h s.errs s.cancelled
      → s.handler ≡ h
      → Holds IsSound (handler_leave h s)
  unfolding handler_leave IsSound Sound
  handler_leave-IsSound starting s k e = tt
  handler_leave-IsSound parked s k e = tt
  handler_leave-IsSound (returned none) s k e = rw e refl
  handler_leave-IsSound (returned (some x)) s k e = rw e k

  select_error-IsSound :
      (h : Handler) (es : List Err) (s : Relay Req Res)
      → s.errs ≡ es
      → Holds IsSound (select_error h es s)
  unfolding select_error IsSound Sound
  select_error-IsSound starting [] s e = tt
  select_error-IsSound starting (x ∷ es) s e = (es, e)
  select_error-IsSound parked es s e = tt
  select_error-IsSound (returned r) es s e = tt

  select_done-IsSound : (h : Handler) (s : Relay Req Res) → Holds IsSound (select_done h s)
  unfolding select_done IsSound Sound
  select_done-IsSound starting s = elim (Bool-cases s.cancelled) [
    | inl e ↦ rw e refl
    | inr e ↦ rw e tt
  ]
  select_done-IsSound parked s = tt
  select_done-IsSound (returned r) s = tt

  park-IsSound :
      (h : Handler) (es : List Err) (s : Relay Req Res) → s.errs ≡ es → Holds IsSound (park h es s)
  unfolding park IsSound Sound
  park-IsSound starting [] s e = elim (Bool-cases s.cancelled) [
    | inl c ↦ rw c tt
    | inr c ↦ rw c (e, refl)
  ]
  park-IsSound starting (x ∷ es) s e = tt
  park-IsSound parked es s e = tt
  park-IsSound (returned r) es s e = tt

  module _ (semver : Semver) (version agent_version : Text) where
    relay_version-IsSound :
        (relayed : Bool) (mismatch : Option Err) (res : Res) (s : Relay Req Res)
        → IsSound s
        → IsSound (relay_version semver version agent_version relayed mismatch res s)
    unfolding relay_version IsSound report
    relay_version-IsSound true mismatch res s h = h
    relay_version-IsSound false none res s h = h
    relay_version-IsSound false (some e) res s h = wake-Sound s.handler s.errs s.cancelled e h

    agent_sends-IsSound :
        (place : Place Res) (a : Arrived Res) (s : Relay Req Res)
        → IsSound s
        → Holds IsSound (on_agent_sends semver version agent_version place a s)
    unfolding on_agent_sends IsSound report cancel
    agent_sends-IsSound receiving (arrives res) s h =
        relay_version-IsSound s.relayed _ res (record s { from_agent = s.from_agent ++ (res ∷ []) })
          h
    agent_sends-IsSound receiving closed s h = wake_cancelled-Sound s.handler s.errs s.cancelled h
    agent_sends-IsSound receiving (broken e) s h = wake-Sound s.handler s.errs s.cancelled e h
    agent_sends-IsSound polling a s h = tt
    agent_sends-IsSound (sending req) a s h = tt
    agent_sends-IsSound leaving a s h = tt
    agent_sends-IsSound left a s h = tt

    step-IsSound :
        (s : Relay Req Res) (e : Event Req Res)
        → IsSound s
        → Holds IsSound (step semver version agent_version s e)
    unfolding step IsSound cancel
    step-IsSound s down_polls h =
        moved (poll s.cancelled s.down) (λ p. record s { down = p }) (λ p. h)
    step-IsSound s up_polls h = moved (poll s.cancelled s.up) (λ p. record s { up = p }) (λ p. h)
    step-IsSound s down_leaves h =
        moved (leave s.down) (λ p. cancel (record s { down = p }))
          (λ p. wake_cancelled-Sound s.handler s.errs s.cancelled h)
    step-IsSound s up_leaves h =
        moved (leave s.up) (λ p. cancel (record s { up = p }))
          (λ p. wake_cancelled-Sound s.handler s.errs s.cancelled h)
    step-IsSound s ctx_ends h = wake_cancelled-Sound s.handler s.errs s.cancelled h
    step-IsSound s (agent_sends a) h = agent_sends-IsSound s.down a s h
    step-IsSound s (client_takes e) h = client_takes-IsSound s.down e s h
    step-IsSound s (client_sends a) h = client_sends-IsSound s.up a s h
    step-IsSound s (agent_takes e) h = agent_takes-IsSound s.up e s h
    step-IsSound s selects_done h = select_done-IsSound s.handler s
    step-IsSound s selects_error h = select_error-IsSound s.handler s.errs s refl
    step-IsSound s parks h = park-IsSound s.handler s.errs s refl
    step-IsSound s handler_leaves h = handler_leave-IsSound s.handler s h refl

    -- However the steps interleave, an error that Run returns is the first that a forwarding
    -- goroutine has reported; it returns none only once the context is cancelled; and while it
    -- waits in its `select` no error has been reported.
    pub run-Sound :
        (es : List (Event Req Res)) {s : Relay Req Res}
        → run semver version agent_version start es ≡ some s
        → Sound s.handler s.errs s.cancelled
    unfolding IsSound Sound start
    run-Sound es e =
        Holds-some IsSound (run-Holds semver version agent_version IsSound step-IsSound start es tt)
          e

    -- A failure of the agent's stream can be lost: where the forwarding goroutine reports it and
    -- leaves before the handler has got to its `select`, the handler may return no error.
    pub error-lost :
        (e : Err)
        → (s : Relay Req Res) × (run semver version agent_version start
              (down_polls ∷ agent_sends (broken e) ∷ down_leaves ∷ selects_done ∷ [])
            ≡ some s)
          × (s.handler ≡ returned none)
          × (s.errs ≡ e ∷ [])
    unfolding run start step poll on_agent_sends report leave cancel select_done wake
    error-lost e = (_, refl, refl, refl)
