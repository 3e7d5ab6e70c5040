-- ===== src/Agent/Run/Laws.antt =====
-- What a Run request promises: states.go and `Run` of rpc.go in cmds/dutagent.
use dutctl.Base.{
  ℕ, ◌≡◌, ◌≢◌, ◌<◌, Bool, true, false, Option, none, some, List, [], ◌∷◌, arith, Option-cases, inl,
  inr, length,
}
use dutctl.Locker.{Locker}
use dutctl.Fsm.{Next, goto, finish, fail, hang, run-keeps, run-total}
use dutctl.Fsm
use dutctl.Agent.Errors.{Err, classified_codes}
use dutctl.Agent.Run.{
  Identity, Ready, ctx_done, broker_closed, broker_failed, module_ready, Report, closed, sent,
  silent, crashed, RunState, receive_command, find_dut_cmd, check_device_access, acquire_auto_lock,
  execute_modules, wait_modules, RunEnv, RunArgs, wait, dispatch, step, start, conclude, run,
}

rank : RunState → ℕ
rank receive_command = 5
rank find_dut_cmd = 4
rank check_device_access = 3
rank acquire_auto_lock = 2
rank execute_modules = 1
rank wait_modules = 0

pub wait-goto :
    (ctx : Err) (report : Report) (rs : List Ready) (b m : Bool) (s : RunState)
    → wait ctx report rs b m ≢ goto s
unfolding wait
wait-goto ctx report [] b m s = λ h. ground arith
wait-goto ctx report (ctx_done ∷ rs) b m s = λ h. ground arith
wait-goto ctx report (broker_closed ∷ rs) b m s =
    λ h. ground (arith, wait-goto ctx report rs true m s)
wait-goto ctx report (broker_failed e ∷ rs) b m s = λ h. ground arith
wait-goto ctx closed (module_ready ∷ rs) b m s =
    λ h. ground (arith, wait-goto ctx closed rs b true s)
wait-goto ctx (sent e) (module_ready ∷ rs) b m s = λ h. ground arith
wait-goto ctx silent (module_ready ∷ rs) b m s = λ h. ground (arith, wait-goto ctx silent rs b m s)
wait-goto ctx crashed (module_ready ∷ rs) b m s =
    λ h. ground (arith, wait-goto ctx crashed rs b m s)

dispatch-falls :
    (env : RunEnv) (s : RunState) (t : RunArgs) (next : RunState)
    → (dispatch env s t).1 ≡ goto next
    → rank next < rank s
unfolding dispatch rank
dispatch-falls env receive_command t next h = ground arith
dispatch-falls env find_dut_cmd t next h = ground arith
dispatch-falls env check_device_access t next h = ground arith
dispatch-falls env acquire_auto_lock t next h = ground arith
dispatch-falls env execute_modules t next h = ground arith
dispatch-falls env wait_modules t next h =
    absurd (wait-goto env.ctx_end t.report env.ready false false next h)

step-falls :
    (env : RunEnv) (s : RunState) (t : RunArgs) (next : RunState)
    → (step env s t).1 ≡ goto next
    → rank next < rank s
unfolding step
step-falls env s t next h =
    dispatch-falls env s (record t { locker = env.others s t.locker }) next h

-- While the modules and the broker are waited for, the context ends or the broker fails, unless
-- they are done before.
unfoldable pub Stops : List Ready → Type 0
Stops [] = ⊥
Stops (ctx_done ∷ rs) = Unit
Stops (broker_failed e ∷ rs) = Unit
Stops (broker_closed ∷ rs) = Stops rs
Stops (module_ready ∷ rs) = Stops rs

wait-returns :
    (ctx : Err) (report : Report) (rs : List Ready) (b m : Bool)
    → Stops rs
    → wait ctx report rs b m ≢ hang
unfolding wait Stops
wait-returns ctx report [] b m stops = absurd stops
wait-returns ctx report (ctx_done ∷ rs) b m stops = λ h. ground arith
wait-returns ctx report (broker_failed e ∷ rs) b m stops = λ h. ground arith
wait-returns ctx report (broker_closed ∷ rs) b m stops =
    λ h. ground (arith, wait-returns ctx report rs true m stops)
wait-returns ctx closed (module_ready ∷ rs) b m stops =
    λ h. ground (arith, wait-returns ctx closed rs b true stops)
wait-returns ctx (sent e) (module_ready ∷ rs) b m stops = λ h. ground arith
wait-returns ctx silent (module_ready ∷ rs) b m stops =
    λ h. ground (arith, wait-returns ctx silent rs b m stops)
wait-returns ctx crashed (module_ready ∷ rs) b m stops =
    λ h. ground (arith, wait-returns ctx crashed rs b m stops)

dispatch-returns :
    (env : RunEnv) (s : RunState) (t : RunArgs) → Stops env.ready → (dispatch env s t).1 ≢ hang
unfolding dispatch
dispatch-returns env receive_command t stops = λ h. ground arith
dispatch-returns env find_dut_cmd t stops = λ h. ground arith
dispatch-returns env check_device_access t stops = λ h. ground arith
dispatch-returns env acquire_auto_lock t stops = λ h. ground arith
dispatch-returns env execute_modules t stops = λ h. ground arith
dispatch-returns env wait_modules t stops =
    wait-returns env.ctx_end t.report env.ready false false stops

step-returns :
    (env : RunEnv) (s : RunState) (t : RunArgs) → Stops env.ready → (step env s t).1 ≢ hang
unfolding step
step-returns env s t stops =
    dispatch-returns env s (record t { locker = env.others s t.locker }) stops

-- A request ends, with success or an error, whatever its modules do and even if one never returns,
-- if the context ends or the broker fails while it waits for them and the context is polled at
-- least six times: there are six states, and none comes back to an earlier one.
pub run-ends :
    (env : RunEnv) (id : Option Identity) (l : Locker)
    → Stops env.ready
    → 5 < length env.polls
    → run env id l ≢ none
unfolding run rank
run-ends env none l stops h = λ e. cc
run-ends env (some id) l stops h = λ e.
    run-total (step env) rank (step-falls env) (λ s t. step-returns env s t stops) env.polls
      (start l id.user) receive_command h (ground arith)

-- What a request for an identified caller returns is the conclusion of what its machine returns.
pub run-machine :
    (env : RunEnv) (id : Identity) (l : Locker) {r : Locker × Option Err}
    → run env (some id) l ≡ some r
    → (out : RunArgs × Option Err) × (Fsm.run (step env) env.polls (start l id.user) receive_command
        ≡ some out)
      × (conclude env out ≡ r)
unfolding run
run-machine env id l {r} h =
    elim (Option-cases (Fsm.run (step env) env.polls (start l id.user) receive_command)) [
      | inl e ↦ absurd (ground arith)
      | inr (out, e) ↦ (out, e, ground arith)
    ]

conclude-coded :
    (env : RunEnv) (out : RunArgs × Option Err) (l : Locker) (e : Err)
    → conclude env out ≡ (l, some e)
    → e.code ≢ none
unfolding conclude
conclude-coded env (args, none) l e h = absurd (ground arith)
conclude-coded env (args, some x) l e h = ground (arith, (classified_codes x).3)

-- Every error that the request ends with has a code.
run-coded :
    (env : RunEnv) (id : Option Identity) (l l' : Locker) (e : Err)
    → run env id l ≡ some (l', some e)
    → e.code ≢ none
unfolding run
run-coded env none l l' e h = ground arith
run-coded env (some id) l l' e h =
    let (out, _, c) = run-machine env id l {r = (l', some e)} h in conclude-coded env out l' e c
