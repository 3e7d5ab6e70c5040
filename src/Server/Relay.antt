-- ===== src/Server/Relay.antt =====
-- The relay of a Run stream: Run of cmds/exp/dutserver/rpc.go, behind the first message.
--
-- Two goroutines forward the messages, one in each direction, while the handler waits in a `select`.
-- An event is one step of one of the three, or the end of the request's context; a schedule is a
-- list of events, and an event that is not possible in a state gives `none`. A send to a channel
-- on which the handler waits already is taken by it at once, as is a cancelled context.
pub mod Forwarding
pub mod Verdict
pub mod Header
pub mod Opening
use dutctl.Base.{Bool, true, false, Option, none, some, List, [], ◌∷◌, ◌++◌, if◌then◌else◌, Text}
use dutctl.Agent.Errors.{Err}
use dutctl.Versions.{Semver, check_major_mismatch}

-- What `Receive` returns: a message, `io.EOF` or another error.
pub data Arrived (A : Type 0) : Type 0 where
  arrives : A → Arrived A
  closed : Arrived A
  broken : Err → Arrived A

-- Where a forwarding goroutine is: before it looks at the context, in `Receive`, in `Send`, on its
-- way to the deferred `cancel`, or behind it.
pub data Place (A : Type 0) : Type 0 where
  polling receiving leaving left : Place A
  sending : A → Place A

-- Where the handler is: before its `select`, in it, or done.
pub data Handler : Type 0 where
  starting parked : Handler
  returned : Option Err → Handler

-- The state of the relay, with what each side has sent and been sent. `errs` lists every error that
-- was sent to `errChan`; `relayed` is the `sync.Once`, and `header` the client's response header.
pub record Relay (Req Res : Type 0) : Type 0 where
  pub down : Place Res
  pub up : Place Req
  pub handler : Handler
  pub errs : List Err
  pub cancelled : Bool
  pub relayed : Bool
  pub header : Option Text
  pub from_agent : List Res
  pub to_client : List Res
  pub from_client : List Req
  pub to_agent : List Req

pub data Event (Req Res : Type 0) : Type 0 where
  down_polls down_leaves up_polls up_leaves ctx_ends : Event Req Res
  agent_sends : Arrived Res → Event Req Res
  client_takes agent_takes : Option Err → Event Req Res
  client_sends : Arrived Req → Event Req Res
  selects_done selects_error parks handler_leaves : Event Req Res

-- The handler takes what it waits for.
wake : Handler → Option Err → Handler
wake parked result = returned result
wake h result = h

-- The look at the context at the head of a goroutine's loop, and the deferred `cancel`.
poll : {A : Type 0} → Bool → Place A → Option (Place A)
poll cancelled polling = some (if cancelled then leaving else receiving)
poll cancelled _ = none

leave : {A : Type 0} → Place A → Option (Place A)
leave leaving = some left
leave _ = none

module _ {Req Res : Type 0} where
  unfoldable pub start : Relay Req Res
  start = record {
    down = polling;
    up = polling;
    handler = starting;
    errs = [];
    cancelled = false;
    relayed = false;
    header = none;
    from_agent = [];
    to_client = [];
    from_client = [];
    to_agent = [];
  }

  -- `errChan <- err`
  report : Err → Relay Req Res → Relay Req Res
  unfolding wake
  report e s = record s { errs = s.errs ++ (e ∷ []); handler = wake s.handler (some e) }

  -- `cancel(cause)`
  cancel : Relay Req Res → Relay Req Res
  unfolding wake
  cancel s = record s { cancelled = true; handler = wake s.handler none }

  -- The `select` of the handler, when a case is ready.
  select_done : Handler → Relay Req Res → Option (Relay Req Res)
  select_done starting s = if s.cancelled then some (record s { handler = returned none }) else none
  select_done _ s = none

  select_error : Handler → List Err → Relay Req Res → Option (Relay Req Res)
  select_error starting (e ∷ es) s = some (record s { handler = returned (some e) })
  select_error _ _ s = none

  park : Handler → List Err → Relay Req Res → Option (Relay Req Res)
  park starting [] s = if s.cancelled then none else some (record s { handler = parked })
  park _ _ s = none

  -- The deferred `cancel` of the handler.
  handler_leave : Handler → Relay Req Res → Option (Relay Req Res)
  handler_leave (returned _) s = some (record s { cancelled = true })
  handler_leave _ s = none

  -- `upstream.Send` of a request in hand.
  on_agent_takes : Place Req → Option Err → Relay Req Res → Option (Relay Req Res)
  unfolding report
  on_agent_takes (sending req) none s =
      some (record s { up = polling; to_agent = s.to_agent ++ (req ∷ []) })
  on_agent_takes (sending req) (some e) s = some (report e (record s { up = leaving }))
  on_agent_takes _ _ s = none

  -- `downstream.Send` of a response in hand.
  on_client_takes : Place Res → Option Err → Relay Req Res → Option (Relay Req Res)
  unfolding report
  on_client_takes (sending res) none s =
      some (record s { down = polling; to_client = s.to_client ++ (res ∷ []) })
  on_client_takes (sending res) (some e) s = some (report e (record s { down = leaving }))
  on_client_takes _ _ s = none

  -- `downstream.Receive`
  on_client_sends : Place Req → Arrived Req → Relay Req Res → Option (Relay Req Res)
  unfolding report cancel
  on_client_sends receiving (arrives req) s =
      some (record s { up = sending req; from_client = s.from_client ++ (req ∷ []) })
  on_client_sends receiving closed s = some (cancel (record s { up = leaving }))
  on_client_sends receiving (broken e) s = some (report e (record s { up = leaving }))
  on_client_sends _ _ s = none

  module _ (semver : Semver) (version agent_version : Text) where
    -- The `sync.Once` behind the first response: the version check and the header.
    relay_version : Bool → Option Err → Res → Relay Req Res → Relay Req Res
    unfolding report
    relay_version true _ res s = record s { down = sending res }
    relay_version false none res s = record s {
      down = sending res;
      relayed = true;
      header = some agent_version;
    }
    relay_version false (some e) res s = report e (record s { down = leaving; relayed = true })

    -- `upstream.Receive`
    on_agent_sends : Place Res → Arrived Res → Relay Req Res → Option (Relay Req Res)
    unfolding report cancel relay_version
    on_agent_sends receiving (arrives res) s = some (
        relay_version s.relayed (check_major_mismatch semver version agent_version) res
          (record s { from_agent = s.from_agent ++ (res ∷ []) }))
    on_agent_sends receiving closed s = some (cancel (record s { down = leaving }))
    on_agent_sends receiving (broken e) s = some (report e (record s { down = leaving }))
    on_agent_sends _ _ s = none

    unfoldable pub step : Relay Req Res → Event Req Res → Option (Relay Req Res)
    unfolding cancel poll leave select_done select_error park handler_leave on_agent_takes
        on_client_takes on_client_sends on_agent_sends
    step s down_polls = elim (poll s.cancelled s.down) [
      | none ↦ none
      | some place ↦ some (record s { down = place })
    ]
    step s up_polls = elim (poll s.cancelled s.up) [
      | none ↦ none
      | some place ↦ some (record s { up = place })
    ]
    step s down_leaves = elim (leave s.down) [
      | none ↦ none
      | some place ↦ some (cancel (record s { down = place }))
    ]
    step s up_leaves = elim (leave s.up) [
      | none ↦ none
      | some place ↦ some (cancel (record s { up = place }))
    ]
    step s ctx_ends = some (cancel s)
    step s (agent_sends a) = on_agent_sends s.down a s
    step s (client_takes e) = on_client_takes s.down e s
    step s (client_sends a) = on_client_sends s.up a s
    step s (agent_takes e) = on_agent_takes s.up e s
    step s selects_done = select_done s.handler s
    step s selects_error = select_error s.handler s.errs s
    step s parks = park s.handler s.errs s
    step s handler_leaves = handler_leave s.handler s

    unfoldable pub run : Relay Req Res → List (Event Req Res) → Option (Relay Req Res)
    unfolding step
    run s [] = some s
    run s (e ∷ es) = elim (step s e) [ none ↦ none | some s' ↦ run s' es ]
