-- ===== src/Fsm.antt =====
-- The finite state machine of internal/fsm/fsm.go.
--
-- A Go state is a function that returns the next state as a value. Here the states of a machine are
-- the values of a type, and `step` says what the function of each does. `Run` looks at the context
-- before each state: what it sees is the list `polls`, one entry for each round, so that the list
-- bounds the rounds. `none` means that it was used up, or that a state never returns.
use dutctl.Base.{
  sym, subst, ◌∙◌, ◌⊎◌, ℕ, ◌≡◌, ◌≢◌, refl, Option, none, some, List, [], ◌∷◌, arith, inl, inr,
  length, ◌<◌,
}

-- What a state's function does: it returns the next state, the nil state or an error, or it never
-- returns.
pub data Next {ℓ} (S E : Type ℓ) : Type ℓ where
  goto : S → Next S E
  finish hang : Next S E
  fail : E → Next S E

-- The cases of what a state returns.
Next-cases :
    {S E : Type 0} (n : Next S E)
    → ((s : S) × (n ≡ goto s)) ⊎ ((n ≡ finish) ⊎ (((e : E) × (n ≡ fail e)) ⊎ (n ≡ hang)))
Next-cases (goto s) = inl (s, refl)
Next-cases finish = inr (inl refl)
Next-cases (fail e) = inr (inr (inl (e, refl)))
Next-cases hang = inr (inr (inr refl))

some_injective : {A : Type 0} {x y : A} → some x ≡ some y → x ≡ y
some_injective h = cc

no_some : {A : Type 0} {x : A} → some x ≢ none
no_some h = cc

module _ {S T E : Type 0} (step : S → T → T × Next S E) where
  -- `Run`
  unfoldable pub run : List (Option E) → T → S → Option (T × Option E)
  run [] args current = none
  run (some err ∷ polls) args current = some (args, some err)
  run (none ∷ polls) args current = elim (step current args).1 [
    | fail err ↦ some ((step current args).0, some err)
    | finish ↦ some ((step current args).0, none)
    | hang ↦ none
    | goto next ↦ run polls (step current args).0 next
  ]

  -- What one round gives, by what its state returns.
  run-step :
      (polls : List (Option E)) (args : T) (current : S)
      → ((s : S)
          → (step current args).1 ≡ goto s
          → run (none ∷ polls) args current ≡ run polls (step current args).0 s)
        × ((step current args).1 ≡ finish
            → run (none ∷ polls) args current ≡ some ((step current args).0, none))
        × ((e : E)
            → (step current args).1 ≡ fail e
            → run (none ∷ polls) args current ≡ some ((step current args).0, some e))
        × ((step current args).1 ≡ hang → run (none ∷ polls) args current ≡ none)
  unfolding run
  run-step polls args current = (
    λ s h. rw (h, run) refl,
    λ h. rw (h, run) refl,
    λ e h. rw (h, run) refl,
    λ h. rw (h, run) refl,
  )

  run-nil : (args : T) (current : S) → run [] args current ≡ none
  unfolding run
  run-nil args current = refl

  run-polled :
      (err : E) (polls : List (Option E)) (args : T) (current : S)
      → run (some err ∷ polls) args current ≡ some (args, some err)
  unfolding run
  run-polled err polls args current = refl

  -- A relation between the arguments and the error that holds wherever the machine can stop holds
  -- of what `Run` returns, if the states keep the property of the arguments it depends on.
  pub run-keeps :
      (P : S → T → Type 0) (Q : T → Option E → Type 0)
      → ((s next : S) (t : T) → P s t → (step s t).1 ≡ goto next → P next (step s t).0)
      → ((s : S) (t : T) → P s t → (step s t).1 ≡ finish → Q (step s t).0 none)
      → ((s : S) (t : T) (e : E) → P s t → (step s t).1 ≡ fail e → Q (step s t).0 (some e))
      → ((s : S) (t : T) (e : E) → P s t → Q t (some e))
      → (polls : List (Option E)) (args : T) (current : S) → P current args
      → {out : T × Option E} → run polls args current ≡ some out
      → Q out.0 out.1
  run-keeps P Q keep done failed stopped [] args current p {out} h =
      absurd (no_some (sym h ∙ run-nil args current))
  run-keeps P Q keep done failed stopped (some err ∷ polls) args current p {out} h =
      subst (λ o. Q o.0 o.1) (some_injective (sym (run-polled err polls args current) ∙ h))
        (stopped current args err p)
  run-keeps P Q keep done failed stopped (none ∷ polls) args current p {out} h =
      let (on_goto, on_finish, on_fail, on_hang) = run-step polls args current in
      elim (Next-cases (step current args).1) [
        | inl (s, e) ↦
            run-keeps P Q keep done failed stopped polls (step current args).0 s
              (keep current s args p e) {out = out} (sym (on_goto s e) ∙ h)
        | inr (inl e) ↦
            subst (λ o. Q o.0 o.1) (some_injective (sym (on_finish e) ∙ h)) (done current args p e)
        | inr (inr (inl (x, e))) ↦
            subst (λ o. Q o.0 o.1) (some_injective (sym (on_fail x e) ∙ h))
              (failed current args x p e)
        | inr (inr (inr e)) ↦ absurd (no_some (sym h ∙ on_hang e))
      ]

  -- With a number that falls from state to state the machine ends within that many rounds, if
  -- every state that it reaches returns.
  pub run-total :
      (rank : S → ℕ)
      → ((s : S) (t : T) (next : S) → (step s t).1 ≡ goto next → rank next < rank s)
      → ((s : S) (t : T) → (step s t).1 ≢ hang)
      → (polls : List (Option E)) (args : T) (current : S) → rank current < length polls
      → run polls args current ≢ none
  run-total rank falls returns [] args current h = absurd (not_less (rank current) h)
    where
      not_less : (n : ℕ) → n < length {A = Option E} [] → ⊥
      not_less n h = omega arith
  run-total rank falls returns (some err ∷ polls) args current h =
      λ o. no_some (sym (run-polled err polls args current) ∙ o)
  run-total rank falls returns (none ∷ polls) args current h =
      let (on_goto, on_finish, on_fail, on_hang) = run-step polls args current in
      elim (Next-cases (step current args).1) [
        | inl (s, e) ↦ λ o.
            run-total rank falls returns polls (step current args).0 s
              (less (falls current args s e) h) (sym (on_goto s e) ∙ o)
        | inr (inl e) ↦ λ o. no_some (sym (on_finish e) ∙ o)
        | inr (inr (inl (x, e))) ↦ λ o. no_some (sym (on_fail x e) ∙ o)
        | inr (inr (inr e)) ↦ absurd (returns current args e)
      ]
    where
      less : {a b : ℕ} → a < b → b < length (none ∷ polls) → a < length polls
      less h k = omega arith
