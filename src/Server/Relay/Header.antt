-- ===== src/Server/Relay/Header.antt =====
-- The version check of the relay of cmds/exp/dutserver/rpc.go, before the first response.
use dutctl.Base.{
  ◌≡◌, ◌≢◌, refl, ◌⊎◌, inl, inr, Bool, true, false, Option, none, some, List, [], ◌∷◌, ◌++◌, Text,
  Holds, Holds-some, Holds-if, Holds-any,
}
use dutctl.Agent.Errors.{Err}
use dutctl.Versions.{Semver, check_major_mismatch}
use dutctl.Server.Relay.{
  Arrived, arrives, closed, broken, Place, polling, receiving, leaving, left, sending, Handler,
  starting, parked, returned, Relay, Event, down_polls, down_leaves, up_polls, up_leaves, ctx_ends,
  agent_sends, client_takes, agent_takes, client_sends, selects_done, selects_error, parks,
  handler_leaves, start, step, run, poll, leave, cancel, report, select_done, select_error, park,
  handler_leave, on_agent_takes, on_client_takes, on_client_sends, on_agent_sends, relay_version,
}
use dutctl.Server.Relay.Forwarding.{run-Holds}

IsIdle : {A : Type 0} → Place A → Type 0
IsIdle (sending a) = ⊥
IsIdle _ = Unit

IsGone : {A : Type 0} → Place A → Type 0
IsGone leaving = Unit
IsGone left = Unit
IsGone _ = ⊥

-- Before the check nothing has been sent; behind it the header is set, or the goroutine is gone.
Checked : {A : Type 0} → Option Err → Text → Bool → Option Text → Place A → List A → Type 0
unfolding IsIdle IsGone
Checked mismatch version false header place sent = (sent ≡ []) × IsIdle place
Checked mismatch version true header place sent =
    ((header ≡ some version) × (mismatch ≡ none)) ⊎ ((sent ≡ []) × IsGone place)

-- A goroutine that has nothing in hand may go anywhere but to `Send`.
poll-Checked :
    {A : Type 0} (m : Option Err) (v : Text) (r : Bool) (header : Option Text) (c : Bool)
    (place : Place A) (sent : List A)
    → Checked m v r header place sent
    → Holds (λ (p : Place A). Checked m v r header p sent) (poll c place)
unfolding poll Checked
poll-Checked m v false header true polling sent h = h
poll-Checked m v false header false polling sent h = h
poll-Checked m v true header true polling sent (inl h) = inl h
poll-Checked m v true header false polling sent (inl h) = inl h
poll-Checked m v true header c polling sent (inr (e, gone)) = absurd gone
poll-Checked m v r header c receiving sent h = tt
poll-Checked m v r header c leaving sent h = tt
poll-Checked m v r header c left sent h = tt
poll-Checked m v r header c (sending a) sent h = tt

leave-Checked :
    {A : Type 0} (m : Option Err) (v : Text) (r : Bool) (header : Option Text) (place : Place A)
    (sent : List A)
    → Checked m v r header place sent
    → Holds (λ (p : Place A). Checked m v r header p sent) (leave place)
unfolding leave Checked
leave-Checked m v false header leaving sent h = h
leave-Checked m v true header leaving sent h = h
leave-Checked m v r header polling sent h = tt
leave-Checked m v r header receiving sent h = tt
leave-Checked m v r header left sent h = tt
leave-Checked m v r header (sending a) sent h = tt

stopped-Checked :
    {A : Type 0} (m : Option Err) (v : Text) (r : Bool) (header : Option Text) (sent : List A)
    → Checked m v r header receiving sent
    → Checked m v r header leaving sent
unfolding Checked
stopped-Checked m v false header sent h = h
stopped-Checked m v true header sent (inl h) = inl h
stopped-Checked m v true header sent (inr (e, gone)) = absurd gone

taken-Checked :
    {A : Type 0} (m : Option Err) (v : Text) (r : Bool) (header : Option Text) (a : A)
    (sent : List A)
    → Checked m v r header (sending a) sent
    → Checked m v r header polling (sent ++ (a ∷ [])) × Checked m v r header leaving sent
unfolding Checked
taken-Checked m v false header a sent (e, h) = absurd h
taken-Checked m v true header a sent (inl h) = (inl h, inl h)
taken-Checked m v true header a sent (inr (e, gone)) = absurd gone

module _ {Req Res : Type 0} (semver : Semver) (version agent_version : Text) where
  Inv : Relay Req Res → Type 0
  Inv s =
      Checked (check_major_mismatch semver version agent_version) agent_version s.relayed s.header
        s.down s.to_client

  moved :
      {A : Type 0} (o : Option A) (f : A → Relay Req Res) {P : A → Type 0}
      → ((p : A) → P p → Inv (f p))
      → Holds P o
      → Holds Inv (elim o [ none ↦ none | some p ↦ some (f p) ])
  moved none f h k = tt
  moved (some p) f h k = h p k

  client_takes-Inv :
      (place : Place Res) (e : Option Err) (s : Relay Req Res)
      → Checked
          (check_major_mismatch semver version agent_version)
          agent_version
          s.relayed
          s.header
          place
          s.to_client
      → Holds Inv (on_client_takes place e s)
  unfolding on_client_takes Inv report
  client_takes-Inv (sending res) none s h =
      (taken-Checked _ _ s.relayed s.header res s.to_client h).0
  client_takes-Inv (sending res) (some e) s h =
      (taken-Checked _ _ s.relayed s.header res s.to_client h).1
  client_takes-Inv polling e s h = tt
  client_takes-Inv receiving e s h = tt
  client_takes-Inv leaving e s h = tt
  client_takes-Inv left e s h = tt

  agent_takes-Inv :
      (place : Place Req) (e : Option Err) (s : Relay Req Res)
      → Inv s
      → Holds Inv (on_agent_takes place e s)
  unfolding on_agent_takes Inv report
  agent_takes-Inv (sending req) none s h = h
  agent_takes-Inv (sending req) (some e) s h = h
  agent_takes-Inv polling e s h = tt
  agent_takes-Inv receiving e s h = tt
  agent_takes-Inv leaving e s h = tt
  agent_takes-Inv left e s h = tt

  client_sends-Inv :
      (place : Place Req) (a : Arrived Req) (s : Relay Req Res)
      → Inv s
      → Holds Inv (on_client_sends place a s)
  unfolding on_client_sends Inv report cancel
  client_sends-Inv receiving (arrives req) s h = h
  client_sends-Inv receiving closed s h = h
  client_sends-Inv receiving (broken e) s h = h
  client_sends-Inv polling a s h = tt
  client_sends-Inv (sending req) a s h = tt
  client_sends-Inv leaving a s h = tt
  client_sends-Inv left a s h = tt

  handler-Inv :
      (h : Handler) (es : List Err) (s : Relay Req Res)
      → Inv s
      → Holds Inv (select_done h s)
        × Holds Inv (select_error h es s)
        × Holds Inv (park h es s)
        × Holds Inv (handler_leave h s)
  unfolding select_done select_error park handler_leave Inv
  handler-Inv starting [] s h = (
    Holds-if Inv s.cancelled (some (record s { handler = returned none })) none h tt,
    tt,
    Holds-if Inv s.cancelled none (some (record s { handler = parked })) tt h,
    tt,
  )
  handler-Inv starting (e ∷ es) s h =
      (Holds-if Inv s.cancelled (some (record s { handler = returned none })) none h tt, h, tt, tt)
  handler-Inv parked es s h = (tt, tt, tt, tt)
  handler-Inv (returned r) es s h = (tt, tt, tt, h)

  relay_version-Inv :
      (r : Bool) (m : Option Err) (res : Res) (s : Relay Req Res)
      → s.relayed ≡ r
      → Checked m agent_version r s.header receiving s.to_client
      → let s' = relay_version semver version agent_version r m res s in
        Checked m agent_version s'.relayed s'.header s'.down s'.to_client
  unfolding relay_version report Checked
  relay_version-Inv true m res s e (inl h) = rw e (inl h)
  relay_version-Inv true m res s e (inr (_, gone)) = absurd gone
  relay_version-Inv false none res s e h = inl (refl, refl)
  relay_version-Inv false (some x) res s e (unsent, _) = inr (unsent, tt)

  agent_sends-Inv :
      (place : Place Res) (a : Arrived Res) (s : Relay Req Res)
      → Checked
          (check_major_mismatch semver version agent_version)
          agent_version
          s.relayed
          s.header
          place
          s.to_client
      → Holds Inv (on_agent_sends semver version agent_version place a s)
  unfolding on_agent_sends Inv report cancel
  agent_sends-Inv receiving (arrives res) s h =
      relay_version-Inv s.relayed _ res (record s { from_agent = s.from_agent ++ (res ∷ []) }) refl
        h
  agent_sends-Inv receiving closed s h = stopped-Checked _ _ s.relayed s.header s.to_client h
  agent_sends-Inv receiving (broken e) s h = stopped-Checked _ _ s.relayed s.header s.to_client h
  agent_sends-Inv polling a s h = tt
  agent_sends-Inv (sending req) a s h = tt
  agent_sends-Inv leaving a s h = tt
  agent_sends-Inv left a s h = tt

  step-Inv :
      (s : Relay Req Res) (e : Event Req Res)
      → Inv s
      → Holds Inv (step semver version agent_version s e)
  unfolding step Inv cancel
  step-Inv s down_polls h =
      moved (poll s.cancelled s.down) (λ p. record s { down = p }) (λ p k. k)
        (poll-Checked _ _ s.relayed s.header s.cancelled s.down s.to_client h)
  step-Inv s up_polls h =
      moved (poll s.cancelled s.up) (λ p. record s { up = p }) {P = λ _. Inv s} (λ p k. k)
        (Holds-any (λ _. Inv s) (poll s.cancelled s.up) (λ _. h))
  step-Inv s down_leaves h =
      moved (leave s.down) (λ p. cancel (record s { down = p })) (λ p k. k)
        (leave-Checked _ _ s.relayed s.header s.down s.to_client h)
  step-Inv s up_leaves h =
      moved (leave s.up) (λ p. cancel (record s { up = p })) {P = λ _. Inv s} (λ p k. k)
        (Holds-any (λ _. Inv s) (leave s.up) (λ _. h))
  step-Inv s ctx_ends h = h
  step-Inv s (agent_sends a) h = agent_sends-Inv s.down a s h
  step-Inv s (client_takes e) h = client_takes-Inv s.down e s h
  step-Inv s (client_sends a) h = client_sends-Inv s.up a s h
  step-Inv s (agent_takes e) h = agent_takes-Inv s.up e s h
  step-Inv s selects_done h = (handler-Inv s.handler s.errs s h).0
  step-Inv s selects_error h = (handler-Inv s.handler s.errs s h).1
  step-Inv s parks h = (handler-Inv s.handler s.errs s h).2
  step-Inv s handler_leaves h = (handler-Inv s.handler s.errs s h).3

  -- Where an agent of an incompatible version answers, no response reaches the client; and where
  -- one reaches it, the header that the client's own check reads is the agent's version.
  pub run-Versioned :
      (es : List (Event Req Res)) {s : Relay Req Res}
      → run semver version agent_version start es ≡ some s
      → s.to_client ≢ []
      → (s.header ≡ some agent_version) × (check_major_mismatch semver version agent_version ≡ none)
  unfolding Inv start Checked
  run-Versioned es {s} e some_sent =
      versioned s.relayed s.header s.down
        (Holds-some Inv (run-Holds semver version agent_version Inv step-Inv start es (refl, tt)) e)
    where
      versioned :
          (r : Bool) (header : Option Text) (p : Place Res)
          → Checked
              (check_major_mismatch semver version agent_version)
              agent_version
              r
              header
              p
              s.to_client
          → (header ≡ some agent_version)
            × (check_major_mismatch semver version agent_version ≡ none)
      versioned true header p (inl h) = h
      versioned true header p (inr (e, _)) = absurd (some_sent e)
      versioned false header p (e, _) = absurd (some_sent e)
