-- ===== src/Client/Stream/Display.antt =====
-- What a client shows and sends in a Run: the receive routine of cmds/dutctl/rpc.go.
use mathlib.Core.List.{append-nil, append_assoc}
use dutctl.Base.{
  ℕ, suc, ◌≡◌, refl, sym, ◌∙◌, ap, String, Bool, true, false, Option, Bool-cases, none, some, List,
  [], ◌∷◌, ◌++◌, arith, string_eq, length, take, Text, inl, inr,
}
use dutctl.Base.Dict.{lookup, insert}
use dutctl.Client.Stream.{
  Incoming, print_msg, stdout_msg, stderr_msg, stdin_msg, file_request, file_msg, other_msg, eof,
  context_canceled, receive_failed, Output, module_output, file_sent, file_received, Round, goes_on,
  returns, reports, Client, Env, Write, whole, unopened, broken_after, show, send_file, save_file,
  on_incoming, receive,
}

-- The module output among what is shown.
unfoldable pub texts : List Output → List (Bool × Text)
texts [] = []
texts (module_output error t ∷ os) = (error, t) ∷ texts os
texts (_ ∷ os) = texts os

-- The module output of the messages that the routine gets to.
unfoldable pub written : List (Bool × Incoming) → List (Bool × Text)
written [] = []
written ((_, print_msg t) ∷ rounds) = (false, t) ∷ written rounds
written ((_, stdout_msg t) ∷ rounds) = (false, t) ∷ written rounds
written ((_, stderr_msg t) ∷ rounds) = (true, t) ∷ written rounds
written (_ ∷ rounds) = written rounds

texts-append : (a b : List Output) → texts (a ++ b) ≡ texts a ++ texts b
unfolding texts
texts-append [] b = refl
texts-append (module_output e t ∷ os) b = ap (λ r. (e, t) ∷ r) (texts-append os b)
texts-append (file_sent p n ∷ os) b = texts-append os b
texts-append (file_received p n ∷ os) b = texts-append os b

texts-shown : (s : Client) (o : Output) → texts (show o s).shown ≡ texts s.shown ++ texts (o ∷ [])
unfolding show
texts-shown s o = texts-append s.shown (o ∷ [])

send_file-texts :
    (env : Env) (path : String) (found : Option Text) (s : Client)
    → texts (send_file env path found s).0.shown ≡ texts s.shown
unfolding send_file texts
send_file-texts env path none s = refl
send_file-texts env path (some content) s = elim (Bool-cases (env.send_fails path)) [
  | inl e ↦ rw (e, send_file) refl
  | inr e ↦
      rw (e, send_file)
        (texts-shown (record s { sent = s.sent ++ ((path, content) ∷ []) })
            (file_sent path (length content))
          ∙ append-nil _)
]

save_file-texts :
    (env : Env) (path : String) (content : Text) (w : Write) (s : Client)
    → texts (save_file env path content w s).0.shown ≡ texts s.shown
unfolding save_file texts
save_file-texts env path content whole s =
    texts-shown (record s { disk = insert (env.file_at path) content s.disk })
      (file_received path (length content))
    ∙ append-nil _
save_file-texts env path content unopened s = refl
save_file-texts env path content (broken_after n) s = refl

-- What a round shows, where the loop goes on; where it does not, it shows nothing.
on_incoming-texts :
    (env : Env) (msg : Incoming) (s : Client)
    → texts (on_incoming env msg s).0.shown ≡ texts s.shown ++ written ((false, msg) ∷ [])
unfolding on_incoming written texts send_file show
on_incoming-texts env (print_msg t) s = texts-append s.shown _
on_incoming-texts env (stdout_msg t) s = texts-append s.shown _
on_incoming-texts env (stderr_msg t) s = texts-append s.shown _
on_incoming-texts env (stdin_msg t) s = sym (append-nil _)
on_incoming-texts env other_msg s = sym (append-nil _)
on_incoming-texts env eof s = sym (append-nil _)
on_incoming-texts env context_canceled s = sym (append-nil _)
on_incoming-texts env (receive_failed e) s = sym (append-nil _)
on_incoming-texts env (file_request path) s =
    send_file-texts env path (lookup (env.file_at path) s.disk) s ∙ sym (append-nil _)
on_incoming-texts env (file_msg path content) s =
    save_file-texts env path content (env.write path) s ∙ sym (append-nil _)

written-cons :
    (b : Bool) (msg : Incoming) (rounds : List (Bool × Incoming))
    → written ((b, msg) ∷ rounds) ≡ written ((false, msg) ∷ []) ++ written rounds
unfolding written
written-cons b (print_msg t) rounds = refl
written-cons b (stdout_msg t) rounds = refl
written-cons b (stderr_msg t) rounds = refl
written-cons b (stdin_msg t) rounds = refl
written-cons b other_msg rounds = refl
written-cons b eof rounds = refl
written-cons b context_canceled rounds = refl
written-cons b (receive_failed e) rounds = refl
written-cons b (file_request path) rounds = refl
written-cons b (file_msg path content) rounds = refl

-- What has been shown after some of the rounds, and whether all of them have been.
Showed : List (Bool × Incoming) → Client → Client × Option Round → Type 0
Showed rounds s (s', end) =
    (k : ℕ) × (texts s'.shown ≡ texts s.shown ++ written (take k rounds))
    × (end ≡ none → k ≡ length rounds)

round-Showed :
    (msg : Incoming) (rounds : List (Bool × Incoming)) (s s' : Client) (r : Round)
    (rest : Client × Option Round)
    → texts s'.shown ≡ texts s.shown ++ written ((false, msg) ∷ [])
    → Showed rounds s' rest
    → Showed ((false, msg) ∷ rounds) s (elim r [
      | goes_on ↦ rest
      | returns ↦ (s', some returns)
      | reports f ↦ (s', some (reports f))
    ])
unfolding Showed
round-Showed msg rounds s s' goes_on rest e (k, shown, all) = (
  suc k,
  shown
      ∙ ap (λ t. t ++ written (take k rounds)) e
      ∙ append_assoc (texts s.shown) _ _
      ∙ ap (λ t. texts s.shown ++ t) (sym (written-cons false msg (take k rounds))),
  λ h. ap suc (all h),
)
round-Showed msg rounds s s' returns rest e h = (1, e, λ k. ground arith)
round-Showed msg rounds s s' (reports f) rest e h = (1, e, λ k. ground arith)

-- The client shows the module's output as it is sent, in order and with the stream that it was
-- written to, up to the round in which the routine ends; while it goes on, none is left out.
pub receive-texts :
    (env : Env) (rounds : List (Bool × Incoming)) (s : Client)
    → (k : ℕ) × (texts (receive env rounds s).0.shown ≡ texts s.shown ++ written (take k rounds))
      × ((receive env rounds s).1 ≡ none → k ≡ length rounds)
unfolding receive written Showed
receive-texts env [] s = (0, sym (append-nil _), λ _. refl)
receive-texts env ((true, msg) ∷ rounds) s = (0, sym (append-nil _), λ h. ground arith)
receive-texts env ((false, msg) ∷ rounds) s =
    let next = on_incoming env msg s in
    round-Showed msg rounds s next.0 next.1 (receive env rounds next.0)
      (on_incoming-texts env msg s) (receive-texts env rounds next.0)
