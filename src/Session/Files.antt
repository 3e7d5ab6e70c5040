-- ===== src/Session/Files.antt =====
-- Where the files that a module gets come from: worker.go and session.go of internal/dutagent/session.
use dutctl.Base.{
  subst, sym, All, Option-cases, inl, inr, text_eq, ◌∙◌, ◌≡◌, ◌≢◌, refl, String, none, some, List,
  [], ◌∷◌, ◌++◌, string_eq, Text, arith,
}
use dutctl.Session.{
  on_hand, asking, offering, feed_stdin, Message, file_msg, ModuleAt, working, awaiting, FromClient,
  listening, handing, handed, failed, feeding, Backend, start, on_message, Event, request_file,
  send_file, read_source, reading, take_request, note_request, send_request, take_offer,
  forward_file, unset_file, receive, hand_to_module, hand_to_worker, clear_request, step, run,
}
use dutctl.Session.Transfers.{on_message-back}

-- The contents of the file messages that the client has sent in a schedule.
message_contents : Message → List Text
message_contents (file_msg (some f)) = elim f.content [ none ↦ [] | some content ↦ content ∷ [] ]
message_contents _ = []

abbrev event_contents : Event → List Text
event_contents (receive msg) = message_contents msg
event_contents _ = []

unfoldable pub received : List Event → List Text
unfolding message_contents
received [] = []
received (e ∷ es) = event_contents e ++ received es

handed_over :
    (f : FromClient) (m : ModuleAt) (s t : Backend)
    → on_hand f m s ≡ some t
    → (c : Text) × (f ≡ handing c) × (t.files ≡ s.files ++ (c ∷ [])) × (t.from_client ≡ handed)
unfolding on_hand
handed_over (handing c) (awaiting name) s t h = (c, refl, ground arith, ground arith)
handed_over (handing c) working s t h = absurd (ground arith)
handed_over (handing c) (asking name) s t h = absurd (ground arith)
handed_over (handing c) (reading x) s t h = absurd (ground arith)
handed_over (handing c) (offering x) s t h = absurd (ground arith)
handed_over listening m s t h = absurd (ground arith)
handed_over handed m s t h = absurd (ground arith)
handed_over (feeding x) m s t h = absurd (ground arith)
handed_over (failed x) m s t h = absurd (ground arith)

All-split : (P : Text → Type 0) (xs ys : List Text) → All P (xs ++ ys) → All P xs × All P ys
All-split P [] ys all = (tt, all)
All-split P (x ∷ xs) ys all = let (a, b) = All-split P xs ys all.1 in ((all.0, a), b)

some_injective : {s t : Backend} → some s ≡ some t → s ≡ t
some_injective h = cc

handing-handed : (c : Text) → handing c ≢ handed
handing-handed c h = cc

All-snoc : (P : Text → Type 0) (xs : List Text) (c : Text) → All P xs → P c → All P (xs ++ (c ∷ []))
All-snoc P [] c all p = (p, tt)
All-snoc P (x ∷ xs) c all p = (all.0, All-snoc P xs c all.1 p)

module _ (P : Text → Type 0) where
  -- Each file that the module has got, or is about to get, has the property.
  IsFrom : Backend → Type 0
  IsFrom s = All P s.files × ((c : Text) → s.from_client ≡ handing c → P c)

  IsFrom-same :
      (s t : Backend) → t.files ≡ s.files → t.from_client ≡ s.from_client → IsFrom s → IsFrom t
  unfolding IsFrom
  IsFrom-same s t a b (got, next) = (subst (All P) (sym a) got, λ c e. next c (sym b ∙ e))

  -- The worker that reads from the client is not in the middle of handing a file over.
  IsFrom-moved :
      (s t : Backend)
      → t.files ≡ s.files
      → ((c : Text) → t.from_client ≢ handing c)
      → IsFrom s
      → IsFrom t
  unfolding IsFrom
  IsFrom-moved s t a b (got, next) = (subst (All P) (sym a) got, λ c e. absurd (b c e))

  message-IsFrom :
      (want : String) (msg : Message) (c : Text)
      → All P (message_contents msg)
      → on_message want msg ≡ handing c
      → P c
  unfolding message_contents
  message-IsFrom want msg c all h =
      (subst (λ m. All P (message_contents m)) (on_message-back want msg c h).1 all).0

  received-IsFrom :
      (s t : Backend) (msg : Message)
      → t.files ≡ s.files
      → t.from_client ≡ on_message s.current_file msg
      → All P (message_contents msg)
      → IsFrom s
      → IsFrom t
  unfolding IsFrom
  received-IsFrom s t msg files now all (got, next) =
      (subst (All P) (sym files) got, λ c e. message-IsFrom s.current_file msg c all (sym now ∙ e))

  handed-IsFrom :
      (s t : Backend)
      → (c : Text) × (s.from_client ≡ handing c)
        × (t.files ≡ s.files ++ (c ∷ []))
        × (t.from_client ≡ handed)
      → IsFrom s
      → IsFrom t
  unfolding IsFrom
  handed-IsFrom s t (c, was, files, now) (got, next) = (
    subst (All P) (sym files) (All-snoc P s.files c got (next c was)),
    λ d e. absurd (handing-handed d (sym e ∙ now)),
  )

  step-IsFrom :
      (s t : Backend) (e : Event)
      → All P (event_contents e)
      → IsFrom s
      → step s e ≡ some t
      → IsFrom t
  unfolding step
  step-IsFrom s t (request_file name) all p h = IsFrom-same s t (ground arith) (ground arith) p
  step-IsFrom s t (send_file name) all p h = IsFrom-same s t (ground arith) (ground arith) p
  step-IsFrom s t (read_source none) all p h = IsFrom-same s t (ground arith) (ground arith) p
  step-IsFrom s t (read_source (some content)) all p h =
      IsFrom-same s t (ground arith) (ground arith) p
  step-IsFrom s t take_request all p h = IsFrom-same s t (ground arith) (ground arith) p
  step-IsFrom s t note_request all p h = IsFrom-same s t (ground arith) (ground arith) p
  step-IsFrom s t send_request all p h = IsFrom-same s t (ground arith) (ground arith) p
  step-IsFrom s t take_offer all p h = IsFrom-same s t (ground arith) (ground arith) p
  step-IsFrom s t forward_file all p h = IsFrom-same s t (ground arith) (ground arith) p
  step-IsFrom s t unset_file all p h = IsFrom-same s t (ground arith) (ground arith) p
  step-IsFrom s t (receive msg) all p h =
      let files : t.files ≡ s.files = ground arith in
      let now : t.from_client ≡ on_message s.current_file msg = ground arith in
      received-IsFrom s t msg files now all p
  step-IsFrom s t feed_stdin all p h = IsFrom-moved s t (ground arith) (λ c e. ground arith) p
  step-IsFrom s t hand_to_module all p h =
      handed-IsFrom s t (handed_over s.from_client s.module_at s t h) p
  step-IsFrom s t hand_to_worker all p h = IsFrom-moved s t (ground arith) (λ c e. ground arith) p
  step-IsFrom s t clear_request all p h = IsFrom-moved s t (ground arith) (λ c e. ground arith) p

  run-IsFrom :
      (s t : Backend) (es : List Event)
      → All P (received es)
      → IsFrom s
      → run s es ≡ some t
      → IsFrom t
  unfolding run received
  run-IsFrom s t [] all p h = subst IsFrom (some_injective h) p
  run-IsFrom s t (e ∷ es) all p h = elim (Option-cases (step s e)) [
    | inl stuck ↦ absurd (ground arith)
    | inr (s', next) ↦
        let (now, later) = All-split P (event_contents e) (received es) all in
        run-IsFrom s' t es later (step-IsFrom s s' e now p next) (ground arith)
  ]

start-IsFrom : (P : Text → Type 0) → IsFrom P start
unfolding IsFrom start
start-IsFrom P = (tt, λ c e. absurd (ground arith))

-- The module gets no file that the client has not sent: from a new session on, what holds of the
-- contents of all file messages of a schedule holds of every file that the module has got at its
-- end, in whatever order the workers and the module take their steps.
pub run-files :
    (P : Text → Type 0) (es : List Event) (s : Backend)
    → All P (received es)
    → run start es ≡ some s
    → All P s.files
unfolding IsFrom
run-files P es s all h = (run-IsFrom P start s es all (start-IsFrom P) h).0
