-- ===== src/Session/Transfers.antt =====
-- What the schedules of a session lead to: internal/dutagent/session.
use dutctl.Base.{
  ap, text_eq, ◌∙◌, ◌≡◌, ◌≢◌, ◌↔◌, String, none, some, List, [], ◌∷◌, ◌++◌, string_eq, Text, arith,
}
use mathlib.Core.Path.{ap₂}
use dutctl.Session.{
  Message, stdin_msg, file_msg, other_msg, file_request, file_response, no_request, awaiting,
  handing, failed, start, on_message, Event, request_file, take_request, note_request, send_request,
  forward_file, unset_file, receive, hand_to_module, hand_to_worker, clear_request, run,
}

abbrev pub answer : String → Text → Message
answer name content = file_msg (some (record { path = name; content = some content }))

-- A request from the call of the module to the answer of the client.
abbrev pub requested : String → Text → List Event
requested name content =
    request_file name
    ∷ take_request
    ∷ note_request
    ∷ send_request
    ∷ receive (answer name content)
    ∷ []

-- A module that asks for a file in a new session gets the content that the client answers with,
-- if the module is the one that receives it; the client has got the request and nothing else, and
-- the session is ready for the next transfer. The name is not empty.
pub request-delivered :
    (name : String) (content : Text)
    → name ≢ ""
    → run start (requested name content ++ (hand_to_module ∷ clear_request ∷ []))
      ≡ some (record start { responses = file_request name ∷ []; files = content ∷ [] })
unfolding run start
request-delivered name content named = ground arith

-- The file channel serves both directions, so that the worker that sends to the client can
-- receive the client's answer in place of the module: for every content and every name that is
-- not empty there is a schedule of a new session after which the client has got its own file
-- back, and the module still waits.
pub request-echoed :
    (name : String) (content : Text)
    → name ≢ ""
    → run start (
        requested name content ++ (hand_to_worker ∷ forward_file ∷ unset_file ∷ clear_request ∷ []))
      ≡ some (record start {
        module_at = awaiting name;
        responses = file_request name ∷ file_response name content ∷ [];
      })
unfolding run start
request-echoed name content named = ground arith

-- The worker that reads from the client clears the current file after the module has got its file
-- and may have asked for another: for any two files, the first with a name, there is a schedule
-- of a new session after which the client's correct answer to the second request is refused as
-- one without a request.
pub second_request-refused :
    (first second : String) (a b : Text)
    → first ≢ ""
    → run start (
        requested first a
        ++ (hand_to_module
            ∷ request_file second
            ∷ take_request
            ∷ note_request
            ∷ send_request
            ∷ clear_request
            ∷ receive (answer second b)
            ∷ []))
      ≡ some (record start {
        module_at = awaiting second;
        from_client = failed no_request;
        responses = file_request first ∷ file_request second ∷ [];
        files = a ∷ [];
      })
unfolding run start
second_request-refused first second a b named = ground arith

pub on_message-back :
    (want : String) (msg : Message) (content : Text)
    → on_message want msg ≡ handing content
    → (want ≢ "") × (msg ≡ answer want content)
unfolding on_message
on_message-back want (stdin_msg none) content h = absurd (ground arith)
on_message-back want (stdin_msg (some bytes)) content h = absurd (ground arith)
on_message-back want other_msg content h = absurd (ground arith)
on_message-back want (file_msg none) content h = absurd (ground arith)
on_message-back want (file_msg (some f)) content h =
    let path : f.path ≡ want = ground arith in
    let full : f.content ≡ some content = ground arith in
    (λ e. ground arith, ap₂ (λ p c. file_msg (some (record { path = p; content = c }))) path full)

on_message-answer :
    (want : String) (content : Text)
    → want ≢ ""
    → on_message want (answer want content) ≡ handing content
unfolding on_message
on_message-answer want content named = ground arith

-- A message of the client is taken for a file exactly if it carries a content and the path of the
-- current request, and there is a current request.
pub on_message-handing :
    (want : String) (msg : Message) (content : Text)
    → (on_message want msg ≡ handing content) ↔ ((want ≢ "") × (msg ≡ answer want content))
unfolding on_message
on_message-handing want msg content = (
  on_message-back want msg content,
  λ (named, e). ap (on_message want) e ∙ on_message-answer want content named,
)
