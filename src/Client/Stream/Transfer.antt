-- ===== src/Client/Stream/Transfer.antt =====
-- The files of a Run at the client (cmds/dutctl/rpc.go) and at the agent
-- (internal/dutagent/session/worker.go).
use dutctl.Base.{
  ◌≡◌, ◌≢◌, refl, sym, subst, String, Bool, true, false, Option, Bool-cases, none, some, List, [],
  ◌∷◌, ◌++◌, arith, string_eq, Text, All, Holds, Holds-all, Holds-test, Holds-some, inl, inr,
}
use dutctl.Base.Dict.{lookup, lookup-insert}
use dutctl.Session
use dutctl.Session.{FileMsg, FromClient, handing, failed, no_content, on_message}
use dutctl.Client.Stream.{
  Incoming, print_msg, stdout_msg, stderr_msg, stdin_msg, file_request, file_msg, other_msg, eof,
  context_canceled, receive_failed, Round, goes_on, returns, reports, Client, Env, Write, whole,
  unopened, broken_after, show, send_file, save_file, on_incoming, receive,
}

-- A property of every file on the disk, of every file that was sent, and of every file that the
-- agent sends, by the file that the path leads to.
unfoldable pub OnDisk : (String → Text → Type 0) → Client → Type 0
OnDisk P s = (file : String) (content : Text) → lookup file s.disk ≡ some content → P file content

unfoldable pub Sent : (String → Text → Type 0) → Env → Client → Type 0
Sent P env s = All (λ (f : String × Text). P (env.file_at f.0) f.1) s.sent

unfoldable pub Received : (String → Text → Type 0) → Env → List (Bool × Incoming) → Type 0
Received P env [] = Unit
Received P env ((_, file_msg path content) ∷ rounds) =
    P (env.file_at path) content × Received P env rounds
Received P env (_ ∷ rounds) = Received P env rounds

All-snoc :
    {A : Type 0} (P : A → Type 0) (xs : List A) (x : A) → All P xs → P x → All P (xs ++ (x ∷ []))
All-snoc P [] x h p = (p, tt)
All-snoc P (y ∷ ys) x (q, h) p = (q, All-snoc P ys x h p)

module _ (P : String → Text → Type 0) (env : Env) where
  -- After a round; a write that breaks off is the last.
  Kept : Client × Round → Type 0
  Kept (s, goes_on) = OnDisk P s × Sent P env s
  Kept (s, returns) = Sent P env s
  Kept (s, reports f) = Sent P env s

  Kept-Sent : (r : Client × Round) → Kept r → Sent P env r.0
  unfolding Kept
  Kept-Sent (s, goes_on) k = k.1
  Kept-Sent (s, returns) k = k
  Kept-Sent (s, reports f) k = k

  send_file-Kept :
      (path : String) (found : Option Text) (s : Client)
      → lookup (env.file_at path) s.disk ≡ found
      → OnDisk P s
      → Sent P env s
      → Kept (send_file env path found s)
  unfolding send_file Kept OnDisk Sent show
  send_file-Kept path none s e disk sent = sent
  send_file-Kept path (some content) s e disk sent = elim (Bool-cases (env.send_fails path)) [
    | inl f ↦ rw (f, send_file) sent
    | inr f ↦
        rw (f, send_file)
          (
            disk,
            All-snoc (λ (f : String × Text). P (env.file_at f.0) f.1) s.sent (path, content) sent
                (disk (env.file_at path) content e),
          )
  ]

  save_file-Kept :
      (path : String) (content : Text) (w : Write) (s : Client)
      → P (env.file_at path) content
      → OnDisk P s
      → Sent P env s
      → Kept (save_file env path content w s)
  unfolding save_file Kept OnDisk Sent show
  save_file-Kept path content unopened s p disk sent = sent
  save_file-Kept path content (broken_after n) s p disk sent = sent
  save_file-Kept path content whole s p disk sent = (
    λ other c e.
        Holds-some (P other)
          (subst (Holds (P other)) (sym (lookup-insert other (env.file_at path) content s.disk)) (
            Holds-test (P other) other (env.file_at path) (some content) (lookup other s.disk)
              (λ same. rw same p) (λ _. Holds-all (P other) (lookup other s.disk) (disk other))))
          e,
    sent,
  )

  on_incoming-Kept :
      (b : Bool) (msg : Incoming) (rounds : List (Bool × Incoming)) (s : Client)
      → Received P env ((b, msg) ∷ rounds)
      → OnDisk P s
      → Sent P env s
      → Kept (on_incoming env msg s) × Received P env rounds
  unfolding Received Kept OnDisk Sent on_incoming show
  on_incoming-Kept b (file_msg path content) rounds s (p, r) disk sent =
      (save_file-Kept path content (env.write path) s p disk sent, r)
  on_incoming-Kept b (file_request path) rounds s r disk sent =
      (send_file-Kept path (lookup (env.file_at path) s.disk) s refl disk sent, r)
  on_incoming-Kept b (print_msg t) rounds s r disk sent = ((disk, sent), r)
  on_incoming-Kept b (stdout_msg t) rounds s r disk sent = ((disk, sent), r)
  on_incoming-Kept b (stderr_msg t) rounds s r disk sent = ((disk, sent), r)
  on_incoming-Kept b (stdin_msg t) rounds s r disk sent = ((disk, sent), r)
  on_incoming-Kept b other_msg rounds s r disk sent = ((disk, sent), r)
  on_incoming-Kept b eof rounds s r disk sent = (sent, r)
  on_incoming-Kept b context_canceled rounds s r disk sent = (sent, r)
  on_incoming-Kept b (receive_failed e) rounds s r disk sent = (sent, r)

  ended-Sent :
      (next : Client × Round) (rest : Client × Option Round)
      → Kept next
      → (OnDisk P next.0 → Sent P env rest.0)
      → let out : Client × Option Round = elim next.1 [
        | goes_on ↦ rest
        | returns ↦ (next.0, some returns)
        | reports f ↦ (next.0, some (reports f))
      ] in
        Sent P env out.0
  unfolding Kept
  ended-Sent (s, goes_on) rest k h = h k.0
  ended-Sent (s, returns) rest k h = k
  ended-Sent (s, reports f) rest k h = k

  receive_all-Sent :
      (rounds : List (Bool × Incoming)) (s : Client)
      → Received P env rounds
      → OnDisk P s
      → Sent P env s
      → Sent P env (receive env rounds s).0
  unfolding receive
  receive_all-Sent [] s r disk sent = sent
  receive_all-Sent ((true, msg) ∷ rounds) s r disk sent = sent
  receive_all-Sent ((false, msg) ∷ rounds) s r disk sent =
      let next = on_incoming env msg s in
      let (k, r') = on_incoming-Kept false msg rounds s r disk sent in
      ended-Sent next (receive env rounds next.0) k
        (λ disk'. receive_all-Sent rounds next.0 r' disk' (Kept-Sent next k))

-- Whatever holds of every file on the disk and of every file that the agent sends holds of every
-- file that the client sends: for a path it sends nothing but a content that the file which the path
-- leads to had at first, or that the agent had sent for that file, under the same or another path.
pub receive-Sent :
    (P : String → Text → Type 0) (env : Env) (rounds : List (Bool × Incoming)) (s : Client)
    → Received P env rounds
    → OnDisk P s
    → s.sent ≡ []
    → Sent P env (receive env rounds s).0
unfolding Sent
receive-Sent P env rounds s r disk e = receive_all-Sent P env rounds s r disk (rw e tt)

-- The file message of the agent, behind the wire, on which `bytes` that are empty are absent.
unfoldable pub IsWire : (Text → Option Text) → Type 0
IsWire wire = (wire [] ≡ none) × ((content : Text) → content ≢ [] → wire content ≡ some content)

unfoldable pub answer : (Text → Option Text) → String × Text → Session.Message
answer wire (path, content) =
    Session.file_msg (some (record { path = path; content = wire content }))

-- What the worker makes of it.
unfoldable pub accepted : Text → FromClient
accepted [] = failed no_content
accepted (x ∷ content) = handing (x ∷ content)

answer-accepted :
    (wire : Text → Option Text)
    → IsWire wire
    → (name : String) (content : Text) → name ≢ ""
    → on_message name (answer wire (name, content)) ≡ accepted content
unfolding answer IsWire on_message accepted
answer-accepted wire (empty, full) name [] named = ground (arith, empty, named)
answer-accepted wire (empty, full) name (x ∷ c) named =
    ground (arith, full (x ∷ c) (λ h. ground arith), named)

-- A request of the agent for a file that the client can read is answered by one message, if the send
-- works, and the client goes on. The answer is the file that the agent waits for, and the agent's
-- worker hands its content on; unless the file is empty, in which case the worker ends the session
-- with an error.
pub answer-on_message :
    (wire : Text → Option Text)
    → IsWire wire
    → (env : Env) (s : Client) (name : String) (content : Text) → name ≢ ""
    → lookup (env.file_at name) s.disk ≡ some content
    → env.send_fails name ≡ false
    → (f : String × Text) × ((on_incoming env (file_request name) s).0.sent ≡ s.sent ++ (f ∷ []))
      × ((on_incoming env (file_request name) s).1 ≡ goes_on)
      × (on_message name (answer wire f) ≡ accepted content)
unfolding on_incoming send_file show
answer-on_message wire law env s name content named found works = (
  (name, content),
  rw (found, works, on_incoming, send_file) refl,
  rw (found, works, on_incoming, send_file) refl,
  answer-accepted wire law name content named,
)
