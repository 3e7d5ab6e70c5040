-- ===== src/Server/Relay/Forwarding.antt =====
-- What a relay of cmds/exp/dutserver/rpc.go forwards: every message, in order.
use dutctl.Base.{
  ◌≡◌, refl, ap, ◌⊎◌, inl, inr, Bool, true, false, Option, none, some, List, [], ◌∷◌, ◌++◌, Text,
  Holds, Holds-some, Holds-if, Holds-then,
}
use dutctl.Agent.Errors.{Err}
use dutctl.Versions.{Semver}
use dutctl.Server.Relay.{
  Arrived, arrives, closed, broken, Place, polling, receiving, leaving, left, sending, Handler,
  starting, parked, returned, Relay, Event, down_polls, down_leaves, up_polls, up_leaves, ctx_ends,
  agent_sends, client_takes, agent_takes, client_sends, selects_done, selects_error, parks,
  handler_leaves, start, step, run, poll, leave, cancel, report, select_done, select_error, park,
  handler_leave, on_agent_takes, on_client_takes, on_client_sends, on_agent_sends, relay_version,
}

-- What has been received is what has been sent, with at most one message more: the one in hand, or
-- one that a failure has lost.
unfoldable pub Lag : {A : Type 0} → Place A → List A → List A → Type 0
Lag polling sent got = got ≡ sent
Lag receiving sent got = got ≡ sent
Lag {A} leaving sent got = (got ≡ sent) ⊎ ((a : A) × (got ≡ sent ++ (a ∷ [])))
Lag {A} left sent got = (got ≡ sent) ⊎ ((a : A) × (got ≡ sent ++ (a ∷ [])))
Lag (sending a) sent got = got ≡ sent ++ (a ∷ [])

poll-Lag :
    {A : Type 0} (cancelled : Bool) (place : Place A) (sent got : List A)
    → Lag place sent got
    → Holds (λ (p : Place A). Lag p sent got) (poll cancelled place)
unfolding poll Lag
poll-Lag true polling sent got lag = inl lag
poll-Lag false polling sent got lag = lag
poll-Lag c receiving sent got lag = tt
poll-Lag c leaving sent got lag = tt
poll-Lag c left sent got lag = tt
poll-Lag c (sending a) sent got lag = tt

leave-Lag :
    {A : Type 0} (place : Place A) (sent got : List A)
    → Lag place sent got
    → Holds (λ (p : Place A). Lag p sent got) (leave place)
unfolding leave Lag
leave-Lag polling sent got lag = tt
leave-Lag receiving sent got lag = tt
leave-Lag leaving sent got lag = lag
leave-Lag left sent got lag = tt
leave-Lag (sending a) sent got lag = tt

module _ {Req Res : Type 0} where
  Inv : Relay Req Res → Type 0
  Inv s = Lag s.down s.to_client s.from_agent × Lag s.up s.to_agent s.from_client

  moved :
      (o : Option (Place Res)) (f : Place Res → Relay Req Res) {P : Place Res → Type 0}
      → ((p : Place Res) → P p → Inv (f p))
      → Holds P o
      → Holds Inv (elim o [ none ↦ none | some p ↦ some (f p) ])
  moved none f h k = tt
  moved (some p) f h k = h p k

  moved_up :
      (o : Option (Place Req)) (f : Place Req → Relay Req Res) {P : Place Req → Type 0}
      → ((p : Place Req) → P p → Inv (f p))
      → Holds P o
      → Holds Inv (elim o [ none ↦ none | some p ↦ some (f p) ])
  moved_up none f h k = tt
  moved_up (some p) f h k = h p k

  agent_takes-Inv :
      (place : Place Req) (e : Option Err) (s : Relay Req Res)
      → Lag s.down s.to_client s.from_agent
      → Lag place s.to_agent s.from_client
      → Holds Inv (on_agent_takes place e s)
  unfolding on_agent_takes Inv Lag report
  agent_takes-Inv (sending req) none s down up = (down, up)
  agent_takes-Inv (sending req) (some e) s down up = (down, inr (req, up))
  agent_takes-Inv polling e s down up = tt
  agent_takes-Inv receiving e s down up = tt
  agent_takes-Inv leaving e s down up = tt
  agent_takes-Inv left e s down up = tt

  client_takes-Inv :
      (place : Place Res) (e : Option Err) (s : Relay Req Res)
      → Lag place s.to_client s.from_agent
      → Lag s.up s.to_agent s.from_client
      → Holds Inv (on_client_takes place e s)
  unfolding on_client_takes Inv Lag report
  client_takes-Inv (sending res) none s down up = (down, up)
  client_takes-Inv (sending res) (some e) s down up = (inr (res, down), up)
  client_takes-Inv polling e s down up = tt
  client_takes-Inv receiving e s down up = tt
  client_takes-Inv leaving e s down up = tt
  client_takes-Inv left e s down up = tt

  client_sends-Inv :
      (place : Place Req) (a : Arrived Req) (s : Relay Req Res)
      → Lag s.down s.to_client s.from_agent
      → Lag place s.to_agent s.from_client
      → Holds Inv (on_client_sends place a s)
  unfolding on_client_sends Inv Lag report cancel
  client_sends-Inv receiving (arrives req) s down up = (down, ap (λ l. l ++ (req ∷ [])) up)
  client_sends-Inv receiving closed s down up = (down, inl up)
  client_sends-Inv receiving (broken e) s down up = (down, inl up)
  client_sends-Inv polling a s down up = tt
  client_sends-Inv (sending req) a s down up = tt
  client_sends-Inv leaving a s down up = tt
  client_sends-Inv left a s down up = tt

  select_done-Inv : (h : Handler) (s : Relay Req Res) → Inv s → Holds Inv (select_done h s)
  unfolding select_done Inv
  select_done-Inv starting s inv =
      Holds-if Inv s.cancelled (some (record s { handler = returned none })) none inv tt
  select_done-Inv parked s inv = tt
  select_done-Inv (returned r) s inv = tt

  select_error-Inv :
      (h : Handler) (es : List Err) (s : Relay Req Res) → Inv s → Holds Inv (select_error h es s)
  unfolding select_error Inv
  select_error-Inv starting [] s inv = tt
  select_error-Inv starting (e ∷ es) s inv = inv
  select_error-Inv parked es s inv = tt
  select_error-Inv (returned r) es s inv = tt

  park-Inv : (h : Handler) (es : List Err) (s : Relay Req Res) → Inv s → Holds Inv (park h es s)
  unfolding park Inv
  park-Inv starting [] s inv =
      Holds-if Inv s.cancelled none (some (record s { handler = parked })) tt inv
  park-Inv starting (e ∷ es) s inv = tt
  park-Inv parked es s inv = tt
  park-Inv (returned r) es s inv = tt

  handler_leave-Inv : (h : Handler) (s : Relay Req Res) → Inv s → Holds Inv (handler_leave h s)
  unfolding handler_leave Inv
  handler_leave-Inv starting s inv = tt
  handler_leave-Inv parked s inv = tt
  handler_leave-Inv (returned r) s inv = inv

  module _ (semver : Semver) (version agent_version : Text) where
    relay_version-Inv :
        (relayed : Bool) (mismatch : Option Err) (res : Res) (s : Relay Req Res)
        → s.from_agent ≡ s.to_client ++ (res ∷ [])
        → Lag s.up s.to_agent s.from_client
        → Inv (relay_version semver version agent_version relayed mismatch res s)
    unfolding relay_version Inv Lag report
    relay_version-Inv true mismatch res s down up = (down, up)
    relay_version-Inv false none res s down up = (down, up)
    relay_version-Inv false (some e) res s down up = (inr (res, down), up)

    agent_sends-Inv :
        (place : Place Res) (a : Arrived Res) (s : Relay Req Res)
        → Lag place s.to_client s.from_agent
        → Lag s.up s.to_agent s.from_client
        → Holds Inv (on_agent_sends semver version agent_version place a s)
    unfolding on_agent_sends Inv Lag report cancel
    agent_sends-Inv receiving (arrives res) s down up =
        relay_version-Inv s.relayed _ res _ (ap (λ l. l ++ (res ∷ [])) down) up
    agent_sends-Inv receiving closed s down up = (inl down, up)
    agent_sends-Inv receiving (broken e) s down up = (inl down, up)
    agent_sends-Inv polling a s down up = tt
    agent_sends-Inv (sending req) a s down up = tt
    agent_sends-Inv leaving a s down up = tt
    agent_sends-Inv left a s down up = tt

    step-Inv :
        (s : Relay Req Res) (e : Event Req Res)
        → Inv s
        → Holds Inv (step semver version agent_version s e)
    unfolding step Inv cancel
    step-Inv s down_polls (down, up) =
        moved (poll s.cancelled s.down) (λ p. record s { down = p }) (λ p lag. (lag, up))
          (poll-Lag s.cancelled s.down s.to_client s.from_agent down)
    step-Inv s up_polls (down, up) =
        moved_up (poll s.cancelled s.up) (λ p. record s { up = p }) (λ p lag. (down, lag))
          (poll-Lag s.cancelled s.up s.to_agent s.from_client up)
    step-Inv s down_leaves (down, up) =
        moved (leave s.down) (λ p. cancel (record s { down = p })) (λ p lag. (lag, up))
          (leave-Lag s.down s.to_client s.from_agent down)
    step-Inv s up_leaves (down, up) =
        moved_up (leave s.up) (λ p. cancel (record s { up = p })) (λ p lag. (down, lag))
          (leave-Lag s.up s.to_agent s.from_client up)
    step-Inv s ctx_ends (down, up) = (down, up)
    step-Inv s (agent_sends a) (down, up) = agent_sends-Inv s.down a s down up
    step-Inv s (client_takes e) (down, up) = client_takes-Inv s.down e s down up
    step-Inv s (client_sends a) (down, up) = client_sends-Inv s.up a s down up
    step-Inv s (agent_takes e) (down, up) = agent_takes-Inv s.up e s down up
    step-Inv s selects_done inv = select_done-Inv s.handler s inv
    step-Inv s selects_error inv = select_error-Inv s.handler s.errs s inv
    step-Inv s parks inv = park-Inv s.handler s.errs s inv
    step-Inv s handler_leaves inv = handler_leave-Inv s.handler s inv

    pub run-Holds :
        (P : Relay Req Res → Type 0)
        → ((s : Relay Req Res) (e : Event Req Res)
            → P s
            → Holds P (step semver version agent_version s e))
        → (s : Relay Req Res) (es : List (Event Req Res)) → P s
        → Holds P (run semver version agent_version s es)
    unfolding run
    run-Holds P keep s [] p = p
    run-Holds P keep s (e ∷ es) p =
        Holds-then P P (step semver version agent_version s e)
          (λ s'. run semver version agent_version s' es) (keep s e p)
          (λ s' p'. run-Holds P keep s' es p')

    -- However the steps interleave, what either side has been sent is what the other has sent, in
    -- order and without a loss or a repetition, but for at most one message: the one that a
    -- goroutine has in hand, or that it had when its stream failed.
    pub run-Forwarded :
        (es : List (Event Req Res)) {s : Relay Req Res}
        → run semver version agent_version start es ≡ some s
        → Lag s.down s.to_client s.from_agent × Lag s.up s.to_agent s.from_client
    unfolding Inv start Lag
    run-Forwarded es h = Holds-some Inv (run-Holds Inv step-Inv start es (refl, refl)) h
