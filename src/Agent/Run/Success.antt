-- ===== src/Agent/Run/Success.antt =====
-- What a Run request that succeeds has done: states.go of cmds/dutagent.
use dutctl.Base.{
  ◌≡◌, refl, sym, subst, ◌∙◌, String, Bool, true, false, Option, none, some, List, [], ◌∷◌, ◌++◌,
  Text, arith, inr, ◌⊎◌,
}
use dutctl.Dut.{Device, Command, Module, find_cmd, found}
use dutctl.Dut.Args
use dutctl.Dut.Args.{module_args}
use dutctl.Locker.{Locker}
use dutctl.Fsm.{Next, goto, finish, fail, run-keeps}
use dutctl.Fsm
use dutctl.Agent.Errors.{Err}
use dutctl.Agent.Run.{
  Identity, CmdMsg, command_msg, Ready, ctx_done, broker_closed, broker_failed, module_ready,
  Report, closed, sent, silent, crashed, RunState, receive_command, find_dut_cmd,
  check_device_access, acquire_auto_lock, execute_modules, wait_modules, RunEnv, RunArgs, Outcome,
  Calls, run_module, run_modules, wait, dispatch, step, start, conclude, run,
}
use dutctl.Agent.Run.Laws.{run-machine, wait-goto}

-- Each module was called with its arguments, when exactly those before it had been called, in their
-- order, and returned without an error or a panic.
pub AllRan : RunEnv → Calls → List Module → List (List Text) → Type 0
AllRan env made [] args = Unit
AllRan env made (m ∷ ms) [] = ⊥
AllRan env made (m ∷ ms) (a ∷ vs) =
    ((outcome : Outcome) × (env.call_module made m a ≡ some outcome) × (run_module outcome ≡ none))
    × AllRan env (made ++ ((m, a) ∷ [])) ms vs

called :
    (env : RunEnv) (made : Calls) (m : Module) (a : List Text) (o : Option Outcome) (rest : Report)
    → (elim o [
      | none ↦ silent
      | some outcome ↦ elim (run_module outcome) [ some e ↦ sent e | none ↦ rest ]
    ])
      ≡ closed
    → ((outcome : Outcome) × (o ≡ some outcome) × (run_module outcome ≡ none)) × (rest ≡ closed)
called env made m a none rest h = absurd (ground arith)
called env made m a (some outcome) rest h = ((outcome, refl, ground arith), ground arith)

run_modules-AllRan :
    (env : RunEnv) (made : Calls) (ms : List Module) (vs : List (List Text))
    → run_modules env made ms vs ≡ closed
    → AllRan env made ms vs
unfolding run_modules AllRan
run_modules-AllRan env made [] vs h = tt
run_modules-AllRan env made (m ∷ ms) [] h = absurd (ground arith)
run_modules-AllRan env made (m ∷ ms) (a ∷ vs) h =
    let later = run_modules env (made ++ ((m, a) ∷ [])) ms vs in
    let (ran, rest) = called env made m a (env.call_module made m a) later (
      unpolled (env.ctx_before made)
        (elim (env.call_module made m a) [
          | none ↦ silent
          | some outcome ↦ elim (run_module outcome) [ some e ↦ sent e | none ↦ later ]
        ])
        h) in
    (ran, run_modules-AllRan env (made ++ ((m, a) ∷ [])) ms vs rest)
  where
    unpolled :
        (o : Option Err) (r : Report)
        → (elim o [ some e ↦ silent | none ↦ r ]) ≡ closed
        → r ≡ closed
    unpolled none r h = h
    unpolled (some e) r h = absurd (ground arith)

wait-closed :
    (ctx : Err) (report : Report) (rs : List Ready) (b m : Bool)
    → wait ctx report rs b m ≡ finish
    → (m ≡ true) ⊎ (report ≡ closed)
unfolding wait
wait-closed ctx report [] b m h = ground arith
wait-closed ctx report (ctx_done ∷ rs) b m h = ground arith
wait-closed ctx report (broker_closed ∷ rs) b m h = ground (arith, wait-closed ctx report rs true m)
wait-closed ctx report (broker_failed e ∷ rs) b m h = ground arith
wait-closed ctx closed (module_ready ∷ rs) b m h = inr refl
wait-closed ctx (sent e) (module_ready ∷ rs) b m h = ground arith
wait-closed ctx silent (module_ready ∷ rs) b m h = ground (arith, wait-closed ctx silent rs b m)
wait-closed ctx crashed (module_ready ∷ rs) b m h = ground (arith, wait-closed ctx crashed rs b m)

abbrev Located : RunEnv → RunArgs → Type 0
Located env t =
    (env.received ≡ command_msg t.cmd_msg)
    × (find_cmd env.devices t.cmd_msg.device t.cmd_msg.command ≡ found (t.dev, t.cmd))

abbrev Launched : RunEnv → RunArgs → Type 0
Launched env t =
    Located env t
    × ((vs : List (List Text)) × (module_args t.cmd t.cmd_msg.args ≡ Args.ok vs)
        × (t.report ≡ run_modules env [] t.cmd.modules vs))

-- What holds when the machine enters a state.
Reached : RunEnv → RunState → RunArgs → Type 0
Reached env receive_command t = Unit
Reached env find_dut_cmd t = env.received ≡ command_msg t.cmd_msg
Reached env check_device_access t = Located env t
Reached env acquire_auto_lock t = Located env t
Reached env execute_modules t = Located env t
Reached env wait_modules t = Launched env t

Ended : RunEnv → RunArgs → Option Err → Type 0
Ended env t none = Launched env t × (t.report ≡ closed)
Ended env t (some e) = Unit

-- The only state that can follow each of the first five.
follows :
    (env : RunEnv) (t : RunArgs) (next : RunState)
    → ((dispatch env receive_command t).1 ≡ goto next → find_dut_cmd ≡ next)
      × ((dispatch env find_dut_cmd t).1 ≡ goto next → check_device_access ≡ next)
      × ((dispatch env check_device_access t).1 ≡ goto next → acquire_auto_lock ≡ next)
      × ((dispatch env acquire_auto_lock t).1 ≡ goto next → execute_modules ≡ next)
      × ((dispatch env execute_modules t).1 ≡ goto next → wait_modules ≡ next)
unfolding dispatch
follows env t next =
    (λ h. ground arith, λ h. ground arith, λ h. ground arith, λ h. ground arith, λ h. ground arith)

launches :
    (env : RunEnv) (t : RunArgs) (o : Args.Args (List (List Text))) {next : RunState}
    → Located env t
    → module_args t.cmd t.cmd_msg.args ≡ o
    → (dispatch env execute_modules t).1 ≡ goto next
    → Launched env (dispatch env execute_modules t).0
unfolding dispatch
launches env t (Args.ok vs) p e h = rw (e, dispatch) (p, (vs, e, refl))
launches env t (Args.err x) p e h = absurd (ground arith)

dispatch-goto :
    (env : RunEnv) (s next : RunState) (t : RunArgs)
    → Reached env s t
    → (dispatch env s t).1 ≡ goto next
    → Reached env next (dispatch env s t).0
unfolding dispatch Reached
dispatch-goto env receive_command next t p h =
    subst (λ n. Reached env n (dispatch env receive_command t).0) ((follows env t next).0 h)
      (ground arith)
dispatch-goto env find_dut_cmd next t p h =
    subst (λ n. Reached env n (dispatch env find_dut_cmd t).0) ((follows env t next).1 h)
      (ground arith)
dispatch-goto env check_device_access next t p h =
    subst (λ n. Reached env n (dispatch env check_device_access t).0) ((follows env t next).2 h)
      (ground arith)
dispatch-goto env acquire_auto_lock next t p h =
    subst (λ n. Reached env n (dispatch env acquire_auto_lock t).0) ((follows env t next).3 h)
      (ground arith)
dispatch-goto env execute_modules next t p h =
    subst (λ n. Reached env n (dispatch env execute_modules t).0) ((follows env t next).4 h)
      (launches env t (module_args t.cmd t.cmd_msg.args) p refl h)
dispatch-goto env wait_modules next t p h =
    absurd (wait-goto env.ctx_end t.report env.ready false false next h)

dispatch-finish :
    (env : RunEnv) (s : RunState) (t : RunArgs)
    → Reached env s t
    → (dispatch env s t).1 ≡ finish
    → Ended env (dispatch env s t).0 none
unfolding dispatch Reached Ended
dispatch-finish env receive_command t p h = absurd (ground arith)
dispatch-finish env find_dut_cmd t p h = absurd (ground arith)
dispatch-finish env check_device_access t p h = absurd (ground arith)
dispatch-finish env acquire_auto_lock t p h = absurd (ground arith)
dispatch-finish env execute_modules t p h = absurd (ground arith)
dispatch-finish env wait_modules t p h =
    (p, ground (arith, wait-closed env.ctx_end t.report env.ready false false h))

Reached-moved :
    (env : RunEnv) (s : RunState) (t : RunArgs) (l : Locker)
    → Reached env s t
    → Reached env s (record t { locker = l })
unfolding Reached
Reached-moved env receive_command t l p = tt
Reached-moved env find_dut_cmd t l p = p
Reached-moved env check_device_access t l p = p
Reached-moved env acquire_auto_lock t l p = p
Reached-moved env execute_modules t l p = p
Reached-moved env wait_modules t l p = p

-- The outcome that the request asserts when it succeeds.
pub Succeeded : RunEnv → Type 0
Succeeded env =
    (m : CmdMsg) × (dev : Device) × (cmd : Command) × (vs : List (List Text)) × (env.received
      ≡ command_msg m)
    × (find_cmd env.devices m.device m.command ≡ found (dev, cmd))
    × (module_args cmd m.args ≡ Args.ok vs)
    × AllRan env [] cmd.modules vs

machine-Ended :
    (env : RunEnv) (l : Locker) (user : String) {out : RunArgs × Option Err}
    → Fsm.run (step env) env.polls (start l user) receive_command ≡ some out
    → Ended env out.0 out.1
unfolding step Reached Ended
machine-Ended env l user {out} h =
    run-keeps (step env) (Reached env) (Ended env)
      (λ s next t p e.
        dispatch-goto env s next (moved s t) (Reached-moved env s t (env.others s t.locker) p) e)
      (λ s t p e.
        dispatch-finish env s (moved s t) (Reached-moved env s t (env.others s t.locker) p) e)
      (λ s t x p e. tt) (λ s t x p. tt) env.polls (start l user) receive_command tt {out = out} h
  where
    moved : RunState → RunArgs → RunArgs
    moved s t = record t { locker = env.others s t.locker }

conclude-Succeeded :
    (env : RunEnv) (out : RunArgs × Option Err) (l : Locker)
    → Ended env out.0 out.1
    → conclude env out ≡ (l, none)
    → Succeeded env
unfolding conclude Ended Succeeded
conclude-Succeeded env (t, some x) l p h = absurd (ground arith)
conclude-Succeeded env (t, none) l (((received, located), (vs, resolved, ran)), done) h = (
  t.cmd_msg,
  t.dev,
  t.cmd,
  vs,
  received,
  located,
  resolved,
  run_modules-AllRan env [] t.cmd.modules vs (sym ran ∙ done),
)

-- A request that succeeds was a command message for a device and a command of the configuration,
-- its arguments were resolved, and the modules of the command were called with their resolved
-- arguments one after the other, each after exactly the calls of those before it in the command,
-- and returned without an error or a panic.
pub run-succeeds :
    (env : RunEnv) (id : Identity) (l l' : Locker)
    → run env (some id) l ≡ some (l', none)
    → Succeeded env
run-succeeds env id l l' h =
    let (out, ran, c) = run-machine env id l {r = (l', none)} h in
    conclude-Succeeded env out l' (machine-Ended env l id.user {out = out} ran) c
