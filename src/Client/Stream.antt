-- ===== src/Client/Stream.antt =====
-- A Run as the client sees it: the receive routine of runRPC in cmds/dutctl/rpc.go.
--
-- The routine is one goroutine, so its rounds are a list: whether the context is done when it looks,
-- and what `Receive` returns. The disk is a map from files to contents, which nobody else writes;
-- which file a path leads to, by links and `.` and `..`, and how writes and sends end, are arguments. The standard input is forwarded by the other routine, which is left out, as is the
-- formatter's text.
pub mod Display
pub mod Transfer
use dutctl.Base.{
  ℕ, ◌≡◌, ◌≢◌, refl, sym, ◌∙◌, ap, ◌⊎◌, inl, inr, String, Bool, true, false, Option, Option-cases,
  none, some, List, [], ◌∷◌, ◌++◌, ◌==◌, arith, string_eq, if◌then◌else◌, length, take, Text, All,
  map, Holds,
}
use dutctl.Base.Dict.{Dict, lookup, insert, lookup-insert}
use dutctl.Agent.Errors.{Err}
use dutctl.Session
use dutctl.Session.{Message, FileMsg, FromClient, handing, failed, no_content, on_message}

-- What `stream.Receive` returns.
pub data Incoming : Type 0 where
  print_msg stdout_msg stderr_msg stdin_msg : Text → Incoming
  file_request : String → Incoming
  file_msg : String → Text → Incoming
  other_msg eof context_canceled : Incoming
  receive_failed : Err → Incoming

-- `output.Content`: the text of the module, or a transfer with its direction and size.
pub data Output : Type 0 where
  module_output : Bool → Text → Output
  file_sent file_received : String → ℕ → Output

-- What is sent to `errChan`.
pub data Fault : Type 0 where
  receiving : Err → Fault
  reading sending saving : String → Fault

-- How a round ends: the loop goes on, the routine returns, or it reports an error first.
pub data Round : Type 0 where
  goes_on returns : Round
  reports : Fault → Round

pub record Client : Type 0 where
  pub disk : Dict String Text
  pub shown : List Output
  pub sent : List (String × Text)

-- How `os.WriteFile` ends: the file is written, it is not opened, or the write breaks off after some
-- bytes of the file, which has been truncated.
pub data Write : Type 0 where
  whole unopened : Write
  broken_after : ℕ → Write

pub record Env : Type 0 where
  pub file_at : String → String
  pub send_fails : String → Bool
  pub write : String → Write

show : Output → Client → Client
show o s = record s { shown = s.shown ++ (o ∷ []) }

-- The answer to a file request.
send_file : Env → String → Option Text → Client → Client × Round
unfolding show
send_file env path none s = (s, reports (reading path))
send_file env path (some content) s = if env.send_fails path then (s, reports (sending path)) else (
  show (file_sent path (length content)) (record s { sent = s.sent ++ ((path, content) ∷ []) }),
  goes_on,
)

-- The file of the agent is saved.
save_file : Env → String → Text → Write → Client → Client × Round
unfolding show
save_file env path content whole s = (
  show (file_received path (length content))
      (record s { disk = insert (env.file_at path) content s.disk }),
  goes_on,
)
save_file env path content unopened s = (s, reports (saving path))
save_file env path content (broken_after n) s =
    (record s { disk = insert (env.file_at path) (take n content) s.disk }, reports (saving path))

-- The body of the loop behind `Receive`.
unfoldable pub on_incoming : Env → Incoming → Client → Client × Round
unfolding show send_file save_file
on_incoming env eof s = (s, returns)
on_incoming env context_canceled s = (s, returns)
on_incoming env (receive_failed e) s = (s, reports (receiving e))
on_incoming env (print_msg t) s = (show (module_output false t) s, goes_on)
on_incoming env (stdout_msg t) s = (show (module_output false t) s, goes_on)
on_incoming env (stderr_msg t) s = (show (module_output true t) s, goes_on)
on_incoming env (stdin_msg t) s = (s, goes_on)
on_incoming env other_msg s = (s, goes_on)
on_incoming env (file_request path) s = send_file env path (lookup (env.file_at path) s.disk) s
on_incoming env (file_msg path content) s = save_file env path content (env.write path) s

-- The receive routine; `none` means that it is still waiting after all rounds.
unfoldable pub receive : Env → List (Bool × Incoming) → Client → Client × Option Round
unfolding on_incoming
receive env [] s = (s, none)
receive env ((true, msg) ∷ rounds) s = (s, some returns)
receive env ((false, msg) ∷ rounds) s =
    let next = on_incoming env msg s in
    let rest = receive env rounds next.0 in
    elim next.1 [
      | goes_on ↦ rest
      | returns ↦ (next.0, some returns)
      | reports f ↦ (next.0, some (reports f))
    ]
