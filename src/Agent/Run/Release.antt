-- ===== src/Agent/Run/Release.antt =====
-- The release of the busy hold at the end of a Run: rpc.go and states.go of cmds/dutagent.
use dutctl.Base.{
  ◌≡◌, ◌≢◌, refl, sym, ◌∙◌, ap, subst, String, Bool, true, false, Option, none, some, arith,
  string_eq,
}
use dutctl.Base.Dict.{lookup}
use dutctl.Locker
use dutctl.Locker.{Locker, Hold, check_access, auto_lock, clear_auto_lock}
use dutctl.Locker.Busies.{
  check_access-busies, auto_lock-other, auto_lock-err, clear_auto_lock-leaves,
}
use dutctl.Fsm.{Next, goto, finish, fail, run-keeps}
use dutctl.Fsm
use dutctl.Agent.Errors.{Err}
use dutctl.Agent.Run.{
  Identity, RunState, receive_command, find_dut_cmd, check_device_access, acquire_auto_lock,
  execute_modules, wait_modules, RunEnv, RunArgs, dispatch, step, start, conclude, release, run,
}
use dutctl.Agent.Run.Laws.{run-machine, wait-goto}

-- The user has no busy hold of the device.
unfoldable pub IsIdle : String → String → Locker → Type 0
IsIdle user device l = (h : Hold) → lookup device l.busies ≡ some h → h.owner ≢ user

IsIdle-same :
    (user device : String) (l m : Locker)
    → lookup device m.busies ≡ lookup device l.busies
    → IsIdle user device l
    → IsIdle user device m
unfolding IsIdle
IsIdle-same user device l m e idle h p = idle h (sym e ∙ p)

release-IsIdle :
    (l : Locker) (held : Option String) (user device : String)
    → (held ≢ some device → IsIdle user device l)
    → IsIdle user device (release l held user)
unfolding release IsIdle
release-IsIdle l none user device free = free (λ e. cc)
release-IsIdle l (some d) user device free = λ h p q.
    let (before, own) = clear_auto_lock-leaves l d device user h p in
    free (λ e. own (ground arith) q) h before q

-- While the request has not yet taken the device, it has no hold to release.
early : RunState → Bool
early execute_modules = false
early wait_modules = false
early _ = true

-- What holds of the arguments from state to state.
IsClean : String → String → RunState → RunArgs → Type 0
IsClean user device s t =
    (t.user ≡ user)
    × (early s ≡ true → t.auto_lock ≡ none)
    × (t.auto_lock ≢ some device → IsIdle user device t.locker)

-- The part of it that is left when the machine has stopped.
IsReleasable : String → String → RunArgs → Type 0
IsReleasable user device t =
    (t.user ≡ user) × (t.auto_lock ≢ some device → IsIdle user device t.locker)

no_some : {x : String} → none ≢ some x
no_some h = cc

IsReleasable-same :
    (user device : String) (t t' : RunArgs)
    → t'.user ≡ t.user
    → t'.auto_lock ≡ t.auto_lock
    → lookup device t'.locker.busies ≡ lookup device t.locker.busies
    → IsReleasable user device t
    → IsReleasable user device t'
unfolding IsReleasable
IsReleasable-same user device t t' u a b (p, idle) =
    (u ∙ p, λ apart. IsIdle-same user device t.locker t'.locker b (idle (λ q. apart (a ∙ q))))

locked_taken :
    (env : RunEnv) (user device : String) (t : RunArgs) (o : Locker × Locker.Result)
    → auto_lock t.locker t.cmd_msg.device t.user env.lock_checked_at env.lock_at ≡ o
    → IsClean user device acquire_auto_lock t
    → IsReleasable user device (dispatch env acquire_auto_lock t).0
unfolding dispatch IsClean IsReleasable early
locked_taken env user device t (l, Locker.ok hold) e (u, none_yet, idle) =
    rw (e, dispatch)
      (
        u,
        λ apart.
            IsIdle-same user device t.locker
              (auto_lock t.locker t.cmd_msg.device t.user env.lock_checked_at env.lock_at).0
              (auto_lock-other t.locker t.cmd_msg.device device t.user env.lock_checked_at
                env.lock_at (λ q. apart (ap some (sym q))))
              (idle (λ q. no_some (sym (none_yet refl) ∙ q))),
      )
locked_taken env user device t (l, Locker.err x) e (u, none_yet, idle) =
    rw (e, dispatch)
      (
        u,
        λ apart.
            IsIdle-same user device t.locker
              (auto_lock t.locker t.cmd_msg.device t.user env.lock_checked_at env.lock_at).0
              (ap (lookup device) (
                auto_lock-err t.locker t.cmd_msg.device t.user env.lock_checked_at env.lock_at
                  {e = x} (ap (λ r. r.1) e)))
              (idle apart),
      )

dispatch-IsReleasable :
    (env : RunEnv) (user device : String) (s : RunState) (t : RunArgs)
    → IsClean user device s t
    → IsReleasable user device (dispatch env s t).0
unfolding dispatch IsClean IsReleasable
dispatch-IsReleasable env user device receive_command t p =
    IsReleasable-same user device t (dispatch env receive_command t).0 (ground arith) (ground arith)
      (ground arith) (p.0, p.2)
dispatch-IsReleasable env user device find_dut_cmd t p =
    IsReleasable-same user device t (dispatch env find_dut_cmd t).0 (ground arith) (ground arith)
      (ground arith) (p.0, p.2)
dispatch-IsReleasable env user device check_device_access t p =
    IsReleasable-same user device t (dispatch env check_device_access t).0 refl refl
      (ap (lookup device) (check_access-busies t.locker t.cmd_msg.device t.user env.access_at))
      (p.0, p.2)
dispatch-IsReleasable env user device acquire_auto_lock t p =
    locked_taken env user device t _ refl p
dispatch-IsReleasable env user device execute_modules t p =
    IsReleasable-same user device t (dispatch env execute_modules t).0 (ground arith) (ground arith)
      (ground arith) (p.0, p.2)
dispatch-IsReleasable env user device wait_modules t p = (p.0, p.2)

dispatch-early :
    (env : RunEnv) (s next : RunState) (t : RunArgs)
    → (early s ≡ true → t.auto_lock ≡ none)
    → (dispatch env s t).1 ≡ goto next
    → early next ≡ true
    → (dispatch env s t).0.auto_lock ≡ none
unfolding dispatch early
dispatch-early env receive_command next t p h e = ground arith
dispatch-early env find_dut_cmd next t p h e = ground arith
dispatch-early env check_device_access next t p h e = ground arith
dispatch-early env acquire_auto_lock next t p h e = absurd (ground arith)
dispatch-early env execute_modules next t p h e = absurd (ground arith)
dispatch-early env wait_modules next t p h e =
    absurd (wait-goto env.ctx_end t.report env.ready false false next h)

moved-IsClean :
    (env : RunEnv) (user device : String) (s : RunState) (t : RunArgs)
    → ((m : Locker) → IsIdle user device m → IsIdle user device (env.others s m))
    → IsClean user device s t
    → IsClean user device s (record t { locker = env.others s t.locker })
unfolding IsClean
moved-IsClean env user device s t quiet (u, a, idle) = (u, a, λ apart. quiet t.locker (idle apart))

machine-IsReleasable :
    (env : RunEnv) (user device : String) (l : Locker) {out : RunArgs × Option Err}
    → ((s : RunState) (m : Locker) → IsIdle user device m → IsIdle user device (env.others s m))
    → IsIdle user device l
    → Fsm.run (step env) env.polls (start l user) receive_command ≡ some out
    → IsReleasable user device out.0
unfolding step IsClean IsReleasable start
machine-IsReleasable env user device l {out} quiet idle h =
    run-keeps (step env) (IsClean user device) (λ t e. IsReleasable user device t)
      (λ s next t p e.
        ((after s t p).0, dispatch-early env s next (moved s t) p.1 e, (after s t p).1))
      (λ s t p e. after s t p) (λ s t x p e. after s t p) (λ s t x p. (p.0, p.2)) env.polls
      (start l user) receive_command (refl, λ e. refl, λ e. idle) {out = out} h
  where
    moved : RunState → RunArgs → RunArgs
    moved s t = record t { locker = env.others s t.locker }

    after :
        (s : RunState) (t : RunArgs)
        → IsClean user device s t
        → IsReleasable user device (dispatch env s (moved s t)).0
    after s t p =
        dispatch-IsReleasable env user device s (moved s t)
          (moved-IsClean env user device s t (quiet s) p)

conclude-IsIdle :
    (env : RunEnv) (user device : String) (out : RunArgs × Option Err)
    → ((m : Locker) → IsIdle user device m → IsIdle user device (env.others_at_end m))
    → IsReleasable user device out.0
    → IsIdle user device (conclude env out).0
unfolding conclude IsReleasable
conclude-IsIdle env user device (t, e) quiet (u, idle) =
    subst (λ w. IsIdle user device (release (env.others_at_end t.locker) t.auto_lock w)) (sym u)
      (release-IsIdle (env.others_at_end t.locker) t.auto_lock user device
        (λ apart. quiet t.locker (idle apart)))

-- However a request ends, with success or an error, in whichever state, its caller has no busy
-- hold of a device afterwards, if he had none before and no other request takes one for him in
-- between.
pub run-releases :
    (env : RunEnv) (id : Identity) (device : String) (l l' : Locker) (e : Option Err)
    → ((s : RunState) (m : Locker)
        → IsIdle id.user device m
        → IsIdle id.user device (env.others s m))
    → ((m : Locker) → IsIdle id.user device m → IsIdle id.user device (env.others_at_end m))
    → IsIdle id.user device l
    → run env (some id) l ≡ some (l', e)
    → IsIdle id.user device l'
run-releases env id device l l' e quiet quiet_end idle h =
    let (out, ran, c) = run-machine env id l {r = (l', e)} h in
    subst (λ r. IsIdle id.user device r.0) c
      (conclude-IsIdle env id.user device out quiet_end
        (machine-IsReleasable env id.user device l {out = out} quiet idle ran))
