-- ===== src/Serial/Module.antt =====
-- The serial module's Init and Run: pkg/module/serial/serial.go.
--
-- What the port, the context and the sleeps give to a step is an argument next to the step, as are
-- the texts of the status lines and the kind of an error. A pattern is the function that gives the
-- end of its leftmost match. Opening the port, flags and logging are left out.
pub mod Lines
pub mod Steps
use dutctl.Base.{
  ℕ, zero, suc, ◌+◌, String, Bool, true, false, not, ◌&&◌, Option, none, some, List, [], ◌∷◌, ◌++◌,
  ◌==◌, nat_eq, string_eq, if◌then◌else◌, ltb, length, drop, Text,
}
use dutctl.Base.Int.{ℤ, pos}
use dutctl.Serial.Script.{Step, expect, send, send_raw}
use dutctl.Serial.Engine.{
  Engine, Turn, WriteTurn, Ending, matched, waiting, stopped, failed, read_until, write, monitor,
  drain,
}

pub record Serial : Type 0 where
  pub port : String
  pub baud : ℕ
  pub delay_text : String
  pub delay : ℤ

abbrev pub default_baud_rate : ℕ
default_baud_rate = 115200

abbrev pub default_delay : ℤ
default_delay = pos 50000000

pub data Inited : Type 0 where
  inited : Serial → Inited
  no_port bad_delay : Inited

-- The delay of `Init`.
parsed_delay : (String → Option ℤ) → String → Option ℤ
parsed_delay parse delay = if delay == "" then some default_delay else parse delay

-- `Init`; `parse` is `time.ParseDuration`.
unfoldable pub init : (String → Option ℤ) → Serial → Inited
unfolding parsed_delay
init parse s = if s.port == "" then no_port else elim (parsed_delay parse s.delay_text) [
  | none ↦ bad_delay
  | some d ↦
      inited (record s { baud = if s.baud == 0 then default_baud_rate else s.baud; delay = d })
]

-- `clientWriter`, with all that has been printed.
pub record Writer : Type 0 where
  pub printed : Text
  pub at_line_start : Bool

-- `newClientWriter`
unfoldable pub new_client_writer : Writer
new_client_writer = record { printed = []; at_line_start = true }

-- Whether a text ends in a newline.
unfoldable pub ends_line : Text → Bool
ends_line [] = false
ends_line (c ∷ []) = c == 10
ends_line (c ∷ d ∷ t) = ends_line (d ∷ t)

-- `clientWriter.Write`
unfoldable pub write_out : Text → Writer → Writer
unfolding ends_line
write_out [] w = w
write_out (c ∷ t) w = record { printed = w.printed ++ (c ∷ t); at_line_start = ends_line (c ∷ t) }

-- `markerf`, for the text that `Sprintf` gives.
unfoldable pub marker : Text → Writer → Writer
unfolding ends_line
marker msg w =
    let start = if w.at_line_start then w.printed else w.printed ++ (10 ∷ []) in
    record { printed = start ++ msg; at_line_start = ends_line msg }

-- What the engine has forwarded in a loop.
forwarded : Engine → Engine → Writer → Writer
unfolding write_out
forwarded before after w = write_out (drop (length before.sink) after.sink) w

-- The status lines.
pub data Marker : Type 0 where
  connected closed completed : Marker
  matched_line sent_line : ℕ → ℕ → Text → Marker

-- What an error of the context is, for `stepError`.
pub data ErrKind : Type 0 where
  deadline canceled other : ErrKind

pub data Why : Type 0 where
  timeout_reached deadline_reached was_canceled : Why
  caused : String → Why

-- `stepError`, without its text
unfoldable pub step_error : (String → ErrKind) → Bool → String → Why
step_error kind has_timeout err = elim (kind err) [
  | deadline ↦ if has_timeout then timeout_reached else deadline_reached
  | canceled ↦ was_canceled
  | other ↦ caused err
]

-- What the world gives to a step.
pub record Given : Type 0 where
  pub turns : List Turn
  pub sleep_err : Option String
  pub writes : List WriteTurn

-- How `Run` ends; the number of a step counts from 1, and `unfinished` means that the turns are
-- used up.
pub data RunEnd : Type 0 where
  succeeded unfinished : RunEnd
  expect_failed : ℕ → Why → RunEnd
  send_failed : ℕ → String → RunEnd
  monitor_failed drain_failed : String → RunEnd

abbrev pub Script : Type 0
Script = List (Step (Text → Option ℕ) × Given)

pub record World : Type 0 where
  pub engine : Engine
  pub out : Writer

-- What is fixed for a run: the texts of markers, the kinds of errors, whether there is a timeout,
-- and the number of steps.
pub record Setup : Type 0 where
  pub text : Marker → Text
  pub kind : String → ErrKind
  pub has_timeout : Bool
  pub total : ℕ

print : Setup → Marker → World → World
unfolding marker
print su m w = record w { out = marker (su.text m) w.out }

-- The engine's loop, with what it shows.
moved : World → Engine → World
unfolding forwarded
moved w e = record { engine = e; out = forwarded w.engine e w.out }

-- A step of the loop of `Run`: the world, and the end of the run if the step fails.
run_expect : Setup → ℕ → Text → World → Engine × Ending → World × Option RunEnd
unfolding print moved step_error
run_expect su n label w (e, matched) = (print su (matched_line n su.total label) (moved w e), none)
run_expect su n label w (e, failed err) =
    (moved w e, some (expect_failed n (step_error su.kind su.has_timeout err)))
run_expect su n label w (e, stopped) = (moved w e, some unfinished)
run_expect su n label w (e, waiting) = (moved w e, some unfinished)

run_write : Setup → ℕ → Text → World → Engine × Ending → World × Option RunEnd
unfolding print
run_write su n label w (e, matched) =
    (print su (sent_line n su.total label) (record w { engine = e }), none)
run_write su n label w (e, failed err) = (record w { engine = e }, some (send_failed n err))
run_write su n label w (e, stopped) = (record w { engine = e }, some unfinished)
run_write su n label w (e, waiting) = (record w { engine = e }, some unfinished)

run_send : Setup → ℕ → Text → Text → Given → World → World × Option RunEnd
unfolding run_write
run_send su n label payload g w = elim g.sleep_err [
  | some err ↦ (w, some (send_failed n err))
  | none ↦ run_write su n label w (write w.engine payload g.writes)
]

unfoldable pub run_step : Setup → ℕ → Step (Text → Option ℕ) → Given → World → World × Option RunEnd
unfolding run_expect run_send
run_step su n (expect find_index label) g w =
    run_expect su n label w (read_until find_index w.engine g.turns)
run_step su n (send payload label) g w = run_send su n label payload g w
run_step su n (send_raw payload label) g w = run_send su n label payload g w

-- The loop over the steps; `n` of them are done.
unfoldable pub run_steps : Setup → ℕ → Script → World → World × Option RunEnd
unfolding run_step
run_steps su n [] w = (w, none)
run_steps su n ((st, g) ∷ script) w = elim (run_step su (suc n) st g w).1 [
  | some end ↦ ((run_step su (suc n) st g w).0, some end)
  | none ↦ run_steps su (suc n) script (run_step su (suc n) st g w).0
]

-- Whether the last step is an `expect`.
ends_in_expect : Script → Bool
ends_in_expect [] = false
ends_in_expect ((expect _ _, g) ∷ []) = true
ends_in_expect ((_, g) ∷ []) = false
ends_in_expect (_ ∷ s ∷ script) = ends_in_expect (s ∷ script)

-- The monitor mode, and the drain behind a last send.
run_monitor : Setup → World → Engine × Ending → World × RunEnd
unfolding print moved
run_monitor su w (e, failed err) = (moved w e, monitor_failed err)
run_monitor su w (e, waiting) = (moved w e, unfinished)
run_monitor su w (e, _) = (print su closed (moved w e), succeeded)

run_drain : Setup → World → Engine × Ending → World × RunEnd
unfolding print moved
run_drain su w (e, failed err) = (moved w e, drain_failed err)
run_drain su w (e, waiting) = (moved w e, unfinished)
run_drain su w (e, _) = (print su completed (moved w e), succeeded)

ended : Setup → Script → List Turn → World × Option RunEnd → World × RunEnd
unfolding print run_drain ends_in_expect
ended su script tail (w, some end) = (w, end)
ended su script tail (w, none) =
    if ends_in_expect script
    then (print su completed w, succeeded)
    else run_drain su w (drain w.engine tail)

-- `Run`, behind the opening of the port; `tail` is what the monitor or the drain meets.
unfoldable pub run : Setup → Script → List Turn → Engine → World × RunEnd
unfolding print run_monitor ended run_steps
run su [] tail e =
    let w = print su connected (record { engine = e; out = new_client_writer }) in
    run_monitor su w (monitor e tail)
run su (s ∷ script) tail e =
    let w = print su connected (record { engine = e; out = new_client_writer }) in
    ended su (s ∷ script) tail (run_steps su 0 (s ∷ script) w)
