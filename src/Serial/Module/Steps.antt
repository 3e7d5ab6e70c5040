-- ===== src/Serial/Module/Steps.antt =====
-- The order of the steps of a serial run (pkg/module/serial/serial.go).
use dutctl.Base.{
  ℕ, suc, ◌+◌, ◌≡◌, refl, sym, ◌∙◌, ap, Option, Option-cases, none, some, inl, inr, [], ◌∷◌, ◌++◌,
  arith, length, Text, Holds, Holds-some,
}
use dutctl.Serial.Script.{Step, expect, send, send_raw}
use dutctl.Serial.Engine.{Engine, Ending, matched, waiting, stopped, failed}
use dutctl.Serial.Module.{
  Given, RunEnd, unfinished, expect_failed, send_failed, Script, World, Setup, run_expect,
  run_write, run_send, run_step, run_steps,
}

-- An end that a step with a number can have: an error of its own kind, with that number.
unfoldable pub Numbered : ℕ → Step (Text → Option ℕ) → RunEnd → Type 0
Numbered n st unfinished = Unit
Numbered n (expect _ _) (expect_failed m why) = m ≡ n
Numbered n (send _ _) (send_failed m err) = m ≡ n
Numbered n (send_raw _ _) (send_failed m err) = m ≡ n
Numbered n st end = ⊥

run_expect-Numbered :
    (su : Setup) (n : ℕ) (f : Text → Option ℕ) (label : Text) (w : World) (r : Engine × Ending)
    → Holds (Numbered n (expect f label)) (run_expect su n label w r).1
unfolding run_expect Numbered
run_expect-Numbered su n f label w (e, matched) = tt
run_expect-Numbered su n f label w (e, waiting) = tt
run_expect-Numbered su n f label w (e, stopped) = tt
run_expect-Numbered su n f label w (e, failed err) = refl

run_write-Holds :
    (su : Setup) (n : ℕ) (label : Text) (w : World) (r : Engine × Ending) (P : RunEnd → Type 0)
    → P unfinished
    → ((err : _) → P (send_failed n err))
    → Holds P (run_write su n label w r).1
unfolding run_write
run_write-Holds su n label w (e, matched) P h k = tt
run_write-Holds su n label w (e, waiting) P h k = h
run_write-Holds su n label w (e, stopped) P h k = h
run_write-Holds su n label w (e, failed err) P h k = k err

run_send-Holds :
    (su : Setup) (n : ℕ) (label payload : Text) (g : Given) (w : World) (P : RunEnd → Type 0)
    → P unfinished
    → ((err : _) → P (send_failed n err))
    → Holds P (run_send su n label payload g w).1
unfolding run_send
run_send-Holds su n label payload g w P h k = elim (Option-cases g.sleep_err) [
  | inl e ↦ rw (e, run_send) (run_write-Holds su n label w _ P h k)
  | inr (err, e) ↦ rw (e, run_send) (k err)
]

run_step-Numbered :
    (su : Setup) (n : ℕ) (st : Step (Text → Option ℕ)) (g : Given) (w : World)
    → Holds (Numbered n st) (run_step su n st g w).1
unfolding run_step Numbered
run_step-Numbered su n (expect f label) g w = run_expect-Numbered su n f label w _
run_step-Numbered su n (send p label) g w =
    run_send-Holds su n label p g w (Numbered n (send p label)) tt (λ err. refl)
run_step-Numbered su n (send_raw p label) g w =
    run_send-Holds su n label p g w (Numbered n (send_raw p label)) tt (λ err. refl)

-- The step that ends a run, between the steps that are done and those that are not begun.
pub record Stop (su : Setup) (n : ℕ) (script : Script) (w w' : World) (end : RunEnd) : Type 0 where
  pub before : Script
  pub after : Script
  pub st : Step (Text → Option ℕ)
  pub given : Given
  pub at : World
  pub parts : script ≡ before ++ ((st, given) ∷ after)
  pub done : run_steps su n before w ≡ (at, none)
  pub step : run_step su (suc (n + length before)) st given at ≡ (w', some end)
  pub number : Numbered (suc (n + length before)) st end

pair : {A B : Type 0} (r : A × B) {b : B} → r.1 ≡ b → r ≡ (r.0, b)
pair (a, x) h = ap (λ y. (a, y)) h

run_steps-ended :
    (su : Setup) (n : ℕ) (st : Step (Text → Option ℕ)) (g : Given) (script : Script) (w : World)
    {end : RunEnd}
    → (run_step su (suc n) st g w).1 ≡ some end
    → run_steps su n ((st, g) ∷ script) w ≡ ((run_step su (suc n) st g w).0, some end)
unfolding run_steps
run_steps-ended su n st g script w h = rw (h, run_steps) refl

run_steps-next :
    (su : Setup) (n : ℕ) (st : Step (Text → Option ℕ)) (g : Given) (script : Script) (w : World)
    → (run_step su (suc n) st g w).1 ≡ none
    → run_steps su n ((st, g) ∷ script) w
      ≡ run_steps su (suc n) script (run_step su (suc n) st g w).0
unfolding run_steps
run_steps-next su n st g script w h = rw (h, run_steps) refl

run_steps-nil : (su : Setup) (n : ℕ) (w : World) → run_steps su n [] w ≡ (w, none)
unfolding run_steps
run_steps-nil su n w = refl

-- The first step ends the run.
Stop-here :
    (su : Setup) (n : ℕ) (st : Step (Text → Option ℕ)) (g : Given) (script : Script) (w w' : World)
    (end : RunEnd)
    → run_step su (suc n) st g w ≡ (w', some end)
    → Stop su n ((st, g) ∷ script) w w' end
Stop-here su n st g script w w' end h =
    let here : n + 0 ≡ n = omega arith in
    record {
      before = [];
      after = script;
      st = st;
      given = g;
      at = w;
      parts = refl;
      done = run_steps-nil su n w;
      step = rw here h;
      number = rw here (
          Holds-some (Numbered (suc n) st) (run_step-Numbered su (suc n) st g w) (ap (λ r. r.1) h));
    }

-- A later step does.
Stop-later :
    (su : Setup) (n : ℕ) (st : Step (Text → Option ℕ)) (g : Given) (script : Script) (w w' : World)
    (end : RunEnd)
    → (run_step su (suc n) st g w).1 ≡ none
    → Stop su (suc n) script (run_step su (suc n) st g w).0 w' end
    → Stop su n ((st, g) ∷ script) w w' end
Stop-later su n st g script w w' end h s =
    let there : n + suc (length s.before) ≡ suc n + length s.before = omega arith in
    record {
      before = (st, g) ∷ s.before;
      after = s.after;
      st = s.st;
      given = s.given;
      at = s.at;
      parts = ap (λ t. (st, g) ∷ t) s.parts;
      done = run_steps-next su n st g s.before w h ∙ s.done;
      step = rw there s.step;
      number = rw there s.number;
    }

-- A run of steps that ends early ends at one step: those before it are done, those after it are not
-- begun, and the error names its number and its kind.
pub run_steps-Stop :
    (su : Setup) (n : ℕ) (script : Script) (w : World) {w' : World} {end : RunEnd}
    → run_steps su n script w ≡ (w', some end)
    → Stop su n script w w' end
run_steps-Stop su n [] w h = absurd (no_end (ap (λ r. r.1) (sym (run_steps-nil su n w) ∙ h)))
  where
    no_end : {end : RunEnd} → none ≡ some end → ⊥
    no_end h = cc
run_steps-Stop su n ((st, g) ∷ script) w {w'} {end} h =
    elim (Option-cases (run_step su (suc n) st g w).1) [
      | inr (end', e) ↦
          Stop-here su n st g script w w' end
            (pair (run_step su (suc n) st g w) e ∙ sym (run_steps-ended su n st g script w e) ∙ h)
      | inl e ↦
          Stop-later su n st g script w w' end e
            (run_steps-Stop su (suc n) script _ (sym (run_steps-next su n st g script w e) ∙ h))
    ]
