-- ===== src/Session.antt =====
-- The file transfers and the input of a session: internal/dutagent/session (session.go, worker.go).
--
-- The module's goroutine and the two workers run concurrently. An event is one step of one of them,
-- or a rendezvous of two on an unbuffered channel; a schedule is a list of events, and an event that
-- is not possible in a state gives `none`. Printing, logging and the end of the context are left
-- out; a send on the stream succeeds.
pub mod Transfers
pub mod Files
use dutctl.Base.{
  ℕ, ◌≡◌, String, Bool, true, false, Option, none, some, List, [], ◌∷◌, ◌++◌, ◌==◌, string_eq,
  if◌then◌else◌, Text,
}

-- A message of the client. The empty file message and an empty content are nil in Go.
pub record FileMsg : Type 0 where
  pub path : String
  pub content : Option Text

pub data Message : Type 0 where
  stdin_msg : Option Text → Message
  file_msg : Option FileMsg → Message
  other_msg : Message

pub data Response : Type 0 where
  file_request : String → Response
  file_response : String → Text → Response

-- What `ErrBadFileTransfer` is wrapped for.
pub data BadTransfer : Type 0 where
  empty_message no_request no_content : BadTransfer
  wrong_path : String → String → BadTransfer

-- Where the module is: in `RequestFile` before and after its request is taken, or in `SendFile`
-- before it has read the file, and with the file that it offers.
pub data ModuleAt : Type 0 where
  working : ModuleAt
  asking awaiting reading : String → ModuleAt
  offering : Text → ModuleAt

-- Where `toClientWorker` is.
pub data ToClient : Type 0 where
  ready sent_file : ToClient
  taken noted : String → ToClient
  holding : Text → ToClient

-- Where `fromClientWorker` is.
pub data FromClient : Type 0 where
  listening handed : FromClient
  handing feeding : Text → FromClient
  failed : BadTransfer → FromClient

-- `backend`, with what the client and the module have got so far, and the files that `SendFile`
-- refused.
pub record Backend : Type 0 where
  pub current_file : String
  pub module_at : ModuleAt
  pub to_client : ToClient
  pub from_client : FromClient
  pub responses : List Response
  pub files : List Text
  pub stdin : List Text
  pub refusals : List String

unfoldable pub start : Backend
start = record {
  current_file = "";
  module_at = working;
  to_client = ready;
  from_client = listening;
  responses = [];
  files = [];
  stdin = [];
  refusals = [];
}

-- The `switch` of `fromClientWorker` on a message.
unfoldable pub on_message : String → Message → FromClient
on_message want (stdin_msg none) = listening
on_message want (stdin_msg (some bytes)) = feeding bytes
on_message want other_msg = listening
on_message want (file_msg none) = failed empty_message
on_message want (file_msg (some f)) = if want == "" then failed no_request else elim f.content [
  | none ↦ failed no_content
  | some content ↦ if f.path == want then handing content else failed (wrong_path f.path want)
]

pub data Event : Type 0 where
  request_file : String → Event
  send_file : String → Event
  read_source : Option Text → Event
  take_request note_request send_request : Event
  take_offer forward_file unset_file : Event
  receive : Message → Event
  feed_stdin hand_to_module hand_to_worker clear_request : Event

-- The module's calls; `SendFile` looks at the current file first.
call_request : ModuleAt → String → Backend → Option Backend
call_request working name s = some (record s { module_at = asking name })
call_request _ name s = none

call_send : ModuleAt → String → Backend → Option Backend
call_send working name s =
    if s.current_file == ""
    then some (record s { module_at = reading name })
    else some (record s { refusals = s.refusals ++ (name ∷ []) })
call_send _ name s = none

-- The source has been read, or its reading fails; only then is the current file set.
on_read : ModuleAt → Option Text → Backend → Option Backend
on_read (reading name) none s = some (record s { module_at = working })
on_read (reading name) (some content) s =
    some (record s { current_file = name; module_at = offering content })
on_read _ source s = none

-- The cases of the `select` of `toClientWorker`, and their continuations.
on_take : ToClient → ModuleAt → Backend → Option Backend
on_take ready (asking name) s =
    some (record s { to_client = taken name; module_at = awaiting name })
on_take _ _ s = none

on_note : ToClient → Backend → Option Backend
on_note (taken name) s = some (record s { current_file = name; to_client = noted name })
on_note _ s = none

on_send : ToClient → Backend → Option Backend
on_send (noted name) s =
    some (record s { responses = s.responses ++ (file_request name ∷ []); to_client = ready })
on_send _ s = none

on_offer : ToClient → ModuleAt → Backend → Option Backend
on_offer ready (offering content) s =
    some (record s { to_client = holding content; module_at = working })
on_offer _ _ s = none

on_forward : ToClient → Backend → Option Backend
on_forward (holding content) s = some (record s {
  responses = s.responses ++ (file_response s.current_file content ∷ []);
  to_client = sent_file;
})
on_forward _ s = none

on_unset : ToClient → Backend → Option Backend
on_unset sent_file s = some (record s { current_file = ""; to_client = ready })
on_unset _ s = none

-- The steps of `fromClientWorker`.
on_receive : FromClient → Message → Backend → Option Backend
unfolding on_message
on_receive listening msg s = some (record s { from_client = on_message s.current_file msg })
on_receive _ msg s = none

on_feed : FromClient → Backend → Option Backend
on_feed (feeding bytes) s =
    some (record s { stdin = s.stdin ++ (bytes ∷ []); from_client = listening })
on_feed _ s = none

on_hand : FromClient → ModuleAt → Backend → Option Backend
on_hand (handing content) (awaiting name) s =
    some (record s { files = s.files ++ (content ∷ []); from_client = handed; module_at = working })
on_hand _ _ s = none

-- The file channel is one for both directions, so the other worker may be the one that receives.
on_cross : FromClient → ToClient → Backend → Option Backend
on_cross (handing content) ready s =
    some (record s { from_client = handed; to_client = holding content })
on_cross _ _ s = none

on_clear : FromClient → Backend → Option Backend
on_clear handed s = some (record s { current_file = ""; from_client = listening })
on_clear _ s = none

unfoldable pub step : Backend → Event → Option Backend
unfolding call_request call_send on_read on_take on_note on_send on_offer on_forward on_unset
    on_receive on_feed on_hand on_cross on_clear
step s (request_file name) = call_request s.module_at name s
step s (send_file name) = call_send s.module_at name s
step s (read_source source) = on_read s.module_at source s
step s take_request = on_take s.to_client s.module_at s
step s note_request = on_note s.to_client s
step s send_request = on_send s.to_client s
step s take_offer = on_offer s.to_client s.module_at s
step s forward_file = on_forward s.to_client s
step s unset_file = on_unset s.to_client s
step s (receive msg) = on_receive s.from_client msg s
step s feed_stdin = on_feed s.from_client s
step s hand_to_module = on_hand s.from_client s.module_at s
step s hand_to_worker = on_cross s.from_client s.to_client s
step s clear_request = on_clear s.from_client s

unfoldable pub run : Backend → List Event → Option Backend
unfolding step
run s [] = some s
run s (e ∷ es) = elim (step s e) [ none ↦ none | some s' ↦ run s' es ]
