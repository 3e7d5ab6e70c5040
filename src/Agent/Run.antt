-- ===== src/Agent/Run.antt =====
-- The Run request: the states of cmds/dutagent/states.go, and `Run` and `clearAutoLock` of rpc.go.
--
-- What the code gets from outside is the record RunEnv: the message of the client, the readings of
-- the clock, the context's state when it is asked for, what the modules return, the order in which
-- the channels become ready, and what other requests do to the shared locker between two states.
pub mod Laws
pub mod Success
pub mod Release
use dutctl.Base.{
  ℕ, suc, ◌≡◌, refl, String, Bool, true, false, ◌&&◌, Option, none, some, List, [], ◌∷◌, ◌++◌, Text,
  if◌then◌else◌,
}
use dutctl.Dut.{
  LookupError, device_not_found, command_not_found, no_modules, multiple_passthrough_modules, found,
  missing, Devlist, Device, Module, Command, find_cmd,
}
use dutctl.Dut.Args
use dutctl.Dut.Args.{module_args}
use dutctl.Locker
use dutctl.Locker.{Locker, wrong_owner, not_locked, check_access, auto_lock, clear_auto_lock}
use dutctl.Fsm.{Next, goto, finish, fail, hang}
use dutctl.Fsm
use dutctl.Agent.Errors.{
  Code, Cause, Err, with_code, canceled, invalid_argument, not_found, aborted, internal,
  failed_precondition, unresolved_args, no_identity, not_a_command, lookup_error, lock_error,
  opaque_error, cancel_code, receive_error, module_error, broker_error, final_error,
}

-- `auth.Identity`
pub record Identity : Type 0 where
  pub user : String
  pub anonymous : Bool

-- `pb.Command`
pub record CmdMsg : Type 0 where
  pub device : String
  pub command : String
  pub args : List Text

-- The result of the first `Receive`.
pub data Received : Type 0 where
  command_msg : CmdMsg → Received
  other_msg : Received
  receive_failed : Err → Received

-- How the call of a module ends.
pub data Outcome : Type 0 where
  returned : Option Err → Outcome
  panicked : String → Outcome

-- A case of the `select` of `waitModules` that is ready and taken.
pub data Ready : Type 0 where
  ctx_done broker_closed module_ready : Ready
  broker_failed : Err → Ready

-- What the goroutine of `executeModules` does to its channel: it closes it, sends an error, or
-- leaves it as it is. The last case is an index out of range in `moduleArgs[idx]`.
pub data Report : Type 0 where
  closed silent crashed : Report
  sent : Err → Report

-- The functions of states.go.
pub data RunState : Type 0 where
  receive_command find_dut_cmd check_device_access acquire_auto_lock execute_modules : RunState
  wait_modules : RunState

-- The calls of modules that have been made, with their arguments, the first one first.
abbrev pub Calls : Type 0
Calls = List (Module × List Text)

pub record RunEnv : Type 0 where
  pub devices : Devlist
  pub received : Received
  pub access_at : ℕ
  pub lock_checked_at : ℕ
  pub lock_at : ℕ
  -- The context, before each state, before each module, and its error when it ends. What a module
  -- does may depend on the calls before it; `none` means that it never returns.
  pub polls : List (Option Err)
  pub ctx_before : Calls → Option Err
  pub ctx_end : Err
  pub call_module : Calls → Module → List Text → Option Outcome
  pub ready : List Ready
  pub others : RunState → Locker → Locker
  pub others_at_end : Locker → Locker

-- `runCmdArgs`; `auto_lock` is the device of the `autoLockHold` once it is held, and `report` what
-- the goroutine does to `moduleErrCh`.
pub record RunArgs : Type 0 where
  pub locker : Locker
  pub user : String
  pub auto_lock : Option String
  pub cmd_msg : CmdMsg
  pub dev : Device
  pub cmd : Command
  pub report : Report

-- `runModule`
unfoldable pub run_module : Outcome → Option Err
run_module (returned e) = e
run_module (panicked text) = some (record { cause = opaque_error text; code = none })

-- The goroutine of `executeModules`.
unfoldable pub run_modules : RunEnv → Calls → List Module → List (List Text) → Report
unfolding run_module
run_modules env made [] args = closed
run_modules env made (m ∷ ms) [] = crashed
run_modules env made (m ∷ ms) (a ∷ vs) = elim (env.ctx_before made) [
  | some e ↦ silent
  | none ↦ elim (env.call_module made m a) [
    | none ↦ silent
    | some outcome ↦ elim (run_module outcome) [
      | some e ↦ sent e
      | none ↦ run_modules env (made ++ ((m, a) ∷ [])) ms vs
    ]
  ]
]

abort : Err → Next RunState Err
unfolding cancel_code
abort e = fail (with_code (cancel_code e) (opaque_error "module execution aborted"))

-- The loop of `waitModules`. After the cases listed no other gets ready, so that a `select` blocks.
unfoldable pub wait : Err → Report → List Ready → Bool → Bool → Next RunState Err
unfolding abort
wait ctx report [] broker_done module_done = if broker_done && module_done then finish else hang
wait ctx report (r ∷ rs) broker_done module_done = elim (broker_done && module_done) [
  | true ↦ finish
  | false ↦ elim r [
    | ctx_done ↦ abort ctx
    | broker_closed ↦ wait ctx report rs true module_done
    | broker_failed e ↦ fail (broker_error e)
    | module_ready ↦ elim report [
      | closed ↦ wait ctx report rs broker_done true
      | sent e ↦ fail (module_error e)
      | silent ↦ wait ctx report rs broker_done module_done
      | crashed ↦ wait ctx report rs broker_done module_done
    ]
  ]
]

-- The codes of a failed `FindCmd`, and of a failed `CheckAccess` or `AutoLock`.
unfoldable pub lookup_code : LookupError → Code
lookup_code device_not_found = not_found
lookup_code command_not_found = not_found
lookup_code no_modules = internal
lookup_code multiple_passthrough_modules = internal

unfoldable pub acquire_code : Locker.Error → Code
acquire_code (wrong_owner _ _) = failed_precondition
acquire_code _ = internal

-- What the function of each state does.
dispatch : RunEnv → RunState → RunArgs → RunArgs × Next RunState Err
unfolding run_modules lookup_code acquire_code
dispatch env receive_command args = elim env.received [
  | receive_failed e ↦ (args, fail (receive_error e))
  | other_msg ↦ (args, fail (with_code invalid_argument not_a_command))
  | command_msg m ↦ (record args { cmd_msg = m }, goto find_dut_cmd)
]
dispatch env find_dut_cmd args =
    elim (find_cmd env.devices args.cmd_msg.device args.cmd_msg.command) [
      | missing e ↦ (args, fail (with_code (lookup_code e) (lookup_error e)))
      | found (dev, c) ↦ (record args { dev = dev; cmd = c }, goto check_device_access)
    ]
dispatch env check_device_access args =
    let (l, e) = check_access args.locker args.cmd_msg.device args.user env.access_at in
    (
      record args { locker = l },
      elim e [
        | none ↦ goto acquire_auto_lock
        | some e ↦ fail (with_code (acquire_code e) (lock_error e))
      ],
    )
dispatch env acquire_auto_lock args =
    let (l, r) =
      auto_lock args.locker args.cmd_msg.device args.user env.lock_checked_at env.lock_at in
    elim r [
      | Locker.ok _ ↦
          (record args { locker = l; auto_lock = some args.cmd_msg.device }, goto execute_modules)
      | Locker.err e ↦
          (record args { locker = l }, fail (with_code (acquire_code e) (lock_error e)))
    ]
dispatch env execute_modules args = elim (module_args args.cmd args.cmd_msg.args) [
  | Args.err _ ↦ (args, fail (with_code invalid_argument unresolved_args))
  | Args.ok vs ↦
      (record args { report = run_modules env [] args.cmd.modules vs }, goto wait_modules)
]
dispatch env wait_modules args = (args, wait env.ctx_end args.report env.ready false false)

-- A state's function, called on the locker as the other requests have left it.
unfoldable pub step : RunEnv → RunState → RunArgs → RunArgs × Next RunState Err
unfolding dispatch
step env s args = dispatch env s (record args { locker = env.others s args.locker })

-- `clearAutoLock`, whose error is only logged, under the test of the deferred function.
unfoldable pub release : Locker → Option String → String → Locker
release l none user = l
release l (some device) user = (clear_auto_lock l device user).0

unfoldable pub start : Locker → String → RunArgs
start l user = record {
  locker = l;
  user = user;
  auto_lock = none;
  cmd_msg = record { device = ""; command = ""; args = [] };
  dev = record { desc = ""; cmds = [] };
  cmd = record { desc = ""; args = []; modules = [] };
  report = silent;
}

-- The end of `Run`: the deferred release, and the code of the error.
unfoldable pub conclude : RunEnv → RunArgs × Option Err → Locker × Option Err
unfolding release
conclude env (args, e) = (
  release (env.others_at_end args.locker) args.auto_lock args.user,
  elim e [ none ↦ none | some e ↦ some (final_error e) ],
)

-- `Run`, for the identity found in the context. `none` means that the polls are used up, or that
-- the request waits for ever.
unfoldable pub run : RunEnv → Option Identity → Locker → Option (Locker × Option Err)
unfolding start conclude
run env none l = some (l, some (with_code internal no_identity))
run env (some id) l = elim (Fsm.run (step env) env.polls (start l id.user) receive_command) [
  | none ↦ none
  | some out ↦ some (conclude env out)
]
