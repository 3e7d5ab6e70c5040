-- ===== src/Agent/Lifecycle.antt =====
-- The start and the end of the modules: cmds/dutagent/lifecycle.go.
--
-- `Init` and `Deinit` of a module act on the world, and return, fail or panic. Go visits a map in
-- no fixed order; here it is the order of the entries. Contexts and logging are left out.
use dutctl.Base.{◌≡◌, ◌≢◌, Option, none, some, List, [], ◌∷◌, ◌++◌, nat_eq, string_eq}
use dutctl.Dut.{Devlist, ModuleRef, all_modules}
use dutctl.Agent.Errors.{Err}
use dutctl.Agent.Run.{Outcome, run_module}

pub data Phase : Type 0 where
  initialization deinitialization : Phase

-- `moduleInitError` and its details, with the phase for the text
pub record ModuleError : Type 0 where
  pub ref : ModuleRef
  pub error : Err

pub record InitError : Type 0 where
  pub errs : List ModuleError
  pub msg : Phase

module _ {W : Type 0} (call : ModuleRef → W → W × Outcome) where
  note : ModuleRef → Option Err → List ModuleError → List ModuleError
  note ref none errs = errs
  note ref (some e) errs = errs ++ (record { ref = ref; error = e } ∷ [])

  -- The loop of both functions; `catchPanic` is `run_module`.
  visit : List ModuleRef → W → List ModuleError → W × List ModuleError
  unfolding note
  visit [] w errs = (w, errs)
  visit (ref ∷ refs) w errs = visit refs (call ref w).0 (note ref (run_module (call ref w).1) errs)

  finish : Phase → W × List ModuleError → W × Option InitError
  finish phase (w, []) = (w, none)
  finish phase (w, e ∷ errs) = (w, some (record { errs = e ∷ errs; msg = phase }))

  -- `initModules`
  unfoldable pub init_modules : Devlist → W → W × Option InitError
  unfolding visit finish
  init_modules devices w = finish initialization (visit (all_modules devices) w [])

  -- `deinitModules`
  unfoldable pub deinit_modules : Devlist → W → W × Option InitError
  unfolding visit finish
  deinit_modules devices w = finish deinitialization (visit (all_modules devices) w [])

  -- The world after every module has been called once, and what the calls that fail return.
  unfoldable pub after_all : List ModuleRef → W → W
  after_all [] w = w
  after_all (ref ∷ refs) w = after_all refs (call ref w).0

  unfoldable pub failures : List ModuleRef → W → List ModuleError
  failures [] w = []
  failures (ref ∷ refs) w = elim (run_module (call ref w).1) [
    | none ↦ failures refs (call ref w).0
    | some e ↦ record { ref = ref; error = e } ∷ failures refs (call ref w).0
  ]

  unfoldable pub Complete : Phase → List ModuleRef → W → W × Option InitError → Type 0
  Complete phase refs w (w', none) = (w' ≡ after_all refs w) × (failures refs w ≡ [])
  Complete phase refs w (w', some e) =
      (w' ≡ after_all refs w) × (e.errs ≡ failures refs w) × (e.errs ≢ []) × (e.msg ≡ phase)
