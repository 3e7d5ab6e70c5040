-- ===== src/Gpio/Levels.antt =====
-- The level of the pin of a button and of a switch (pkg/module/gpio/gpio.go).
use dutctl.Base.{
  ◌≡◌, ◌≢◌, refl, ◌∙◌, ap, subst, String, Bool, true, false, not, Option, Bool-cases, inl, inr,
  none, some, List, [], ◌∷◌, ◌==◌, string_eq, if◌then◌else◌,
}
use dutctl.Base.Int.{ℤ}
use dutctl.Gpio.{
  Rpio, Pin, drive, low, high, toggle, Outcome, done, Printed, bad_argument, pin_failed, worked,
  Button, button_deinit, button_run, press_duration, press, release, sleep_ctx, Switch, Ran,
  set_state, turn_on, turn_off, switch_init, switch_deinit, switch_run,
}

not-not : (b : Bool) → not (not b) ≡ b
not-not true = refl
not-not false = refl

-- The level at which a button is pressed, or a switch is on.
abbrev pub active : Bool → Bool
active active_low = not active_low

-- The level that a switch's state stands for.
unfoldable pub Shows : Switch → Pin → Type 0
Shows s p = p.level ≡ (if s.is_on then active s.active_low else not (active s.active_low))

-- An access that sets the level to `new`, if it works.
Drives : Bool → Pin → Pin × Bool → Type 0
Drives new p r = (r.1 ≡ false → r.0.level ≡ p.level) × (r.1 ≡ true → r.0.level ≡ new)

drive-Drives :
    (f : Bool → Bool) (faults : List Bool) (p : Pin) → Drives (f p.level) p (drive f faults p)
unfolding drive Drives
drive-Drives f [] p = (λ h. absurd cc, λ h. refl)
drive-Drives f (true ∷ faults) p = (λ h. refl, λ h. absurd cc)
drive-Drives f (false ∷ faults) p = (λ h. absurd cc, λ h. refl)

RanShows : Ran → Type 0
RanShows ran = Shows ran.switch ran.pin

if-RanShows : (b : Bool) (x y : Ran) → RanShows x → RanShows y → RanShows (if b then x else y)
if-RanShows true x y h k = h
if-RanShows false x y h k = k

set_state-RanShows :
    (r : Pin × Bool) (s : Switch) (p : Pin) (new : Bool) (printed : Printed)
    → Shows s p
    → Drives (if new then active s.active_low else not (active s.active_low)) p r
    → RanShows (set_state r s new printed)
unfolding set_state Shows Drives RanShows
set_state-RanShows (q, true) s p new printed h (same, changed) = changed refl
set_state-RanShows (q, false) s p new printed h (same, changed) = same refl ∙ h

toggled-level :
    (is_on active_level : Bool)
    → not (if is_on then active_level else not active_level)
      ≡ (if not is_on then active_level else not active_level)
toggled-level true l = refl
toggled-level false l = not-not l

worked-done : (r : Pin × Bool) → (worked r).1 ≡ done → (r.1 ≡ true) × ((worked r).0 ≡ r.0)
unfolding worked
worked-done (p, true) h = (refl, refl)
worked-done (p, false) h = absurd cc

released :
    (r : Pin × Bool) (q : Pin) (waited : Outcome) (new : Bool)
    → Drives new q r
    → (release r waited).1 ≢ pin_failed
    → (release r waited).0.level ≡ new
unfolding release Drives
released (p, false) q waited new d h = absurd (h refl)
released (p, true) q waited new d h = d.1 refl

-- What the library promises of the three operations.
unfoldable pub IsRpio : Rpio → Type 0
IsRpio rpio =
    ((l : Bool) → rpio.low_level l ≡ false)
    × ((l : Bool) → rpio.high_level l ≡ true)
    × ((l : Bool) → rpio.toggle_level l ≡ not l)

module _ (rpio : Rpio) where
  -- The calls of a switch over its life.
  unfoldable pub switch_runs : List (List String) → Switch × Pin → Switch × Pin
  switch_runs [] r = r
  switch_runs (args ∷ calls) (s, p) =
      switch_runs calls ((switch_run rpio args s p).switch, (switch_run rpio args s p).pin)

module _ (rpio : Rpio) (law : IsRpio rpio) where
  low-Drives : (p : Pin) → Drives false p (low rpio p)
  unfolding low IsRpio
  low-Drives p =
      subst (λ l. Drives l p (low rpio p)) (law.0 p.level) (drive-Drives rpio.low_level p.faults p)

  high-Drives : (p : Pin) → Drives true p (high rpio p)
  unfolding high IsRpio
  high-Drives p =
      subst (λ l. Drives l p (high rpio p)) (law.1 p.level)
        (drive-Drives rpio.high_level p.faults p)

  toggle-Drives : (p : Pin) → Drives (not p.level) p (toggle rpio p)
  unfolding toggle IsRpio
  toggle-Drives p =
      subst (λ l. Drives l p (toggle rpio p)) (law.2 p.level)
        (drive-Drives rpio.toggle_level p.faults p)

  turn_on-Drives : (s : Switch) (p : Pin) → Drives (active s.active_low) p (turn_on rpio s p)
  unfolding turn_on
  turn_on-Drives s p = elim (Bool-cases s.active_low) [
    | inl e ↦ rw (e, turn_on) (low-Drives p)
    | inr e ↦ rw (e, turn_on) (high-Drives p)
  ]

  turn_off-Drives :
      (s : Switch) (p : Pin) → Drives (not (active s.active_low)) p (turn_off rpio s p)
  unfolding turn_off
  turn_off-Drives s p = elim (Bool-cases s.active_low) [
    | inl e ↦ rw (e, turn_off) (high-Drives p)
    | inr e ↦ rw (e, turn_off) (low-Drives p)
  ]

  -- A call of the switch, whatever its arguments and whether or not the pin can be driven, keeps the
  -- level of the pin at what the state of the switch stands for.
  pub switch_run-Shows :
      (args : List String) (s : Switch) (p : Pin)
      → Shows s p
      → let ran = switch_run rpio args s p in Shows ran.switch ran.pin
  unfolding switch_run RanShows Shows
  switch_run-Shows [] s p h = h
  switch_run-Shows (a ∷ args) s p h =
      if-RanShows (a == "on") _ _
        (set_state-RanShows (turn_on rpio s p) s p true _ h (turn_on-Drives s p))
        (if-RanShows (a == "off") _ _
          (set_state-RanShows (turn_off rpio s p) s p false _ h (turn_off-Drives s p))
          (if-RanShows (a == "toggle") _ _
            (set_state-RanShows (toggle rpio p) s p (not s.is_on) _ h (
              subst (λ l. Drives l p (toggle rpio p))
                (ap not h ∙ toggled-level s.is_on (active s.active_low)) (toggle-Drives p)))
            h))

  switch_runs-Shows :
      (calls : List (List String)) (s : Switch) (p : Pin)
      → Shows s p
      → let r = switch_runs rpio calls (s, p) in Shows r.0 r.1
  unfolding switch_runs
  switch_runs-Shows [] s p h = h
  switch_runs-Shows (args ∷ calls) s p h = switch_runs-Shows calls _ _ (switch_run-Shows args s p h)

  switch_init-Shows :
      (lower : String → String) (initial : String) (s : Switch) (p : Pin)
      → let r = switch_init rpio lower initial s p in r.1 ≡ done → Shows r.0.0 r.0.1
  unfolding switch_init Shows Drives
  switch_init-Shows lower initial s p h = elim (Bool-cases (lower initial == "on")) [
    | inl e ↦
        let (ok, same) = worked-done (turn_on rpio s p) (
          subst
            (λ (b : Bool). (worked (if b then turn_on rpio s p else turn_off rpio s p)).1 ≡ done) e
            h) in
        rw (e, same) ((turn_on-Drives s p).1 ok)
    | inr e ↦
        let (ok, same) = worked-done (turn_off rpio s p) (
          subst
            (λ (b : Bool). (worked (if b then turn_on rpio s p else turn_off rpio s p)).1 ≡ done) e
            h) in
        rw (e, same) ((turn_off-Drives s p).1 ok)
  ]

  -- Once its `Init` has worked, the switch's state is what its pin shows, after any calls with any
  -- arguments, the failing ones included.
  pub switch_runs-init :
      (lower : String → String) (initial : String) (s : Switch) (p : Pin)
      (calls : List (List String))
      → let r = switch_init rpio lower initial s p in
        r.1 ≡ done → let t = switch_runs rpio calls r.0 in Shows t.0 t.1
  switch_runs-init lower initial s p calls h =
      switch_runs-Shows calls _ _ (switch_init-Shows lower initial s p h)

  pressed :
      (r : Pin × Bool) (q : Pin) (waited : Outcome)
      → Drives (not q.level) q r
      → (press rpio r waited).1 ≢ pin_failed
      → (press rpio r waited).0.level ≡ q.level
  unfolding press Drives
  pressed (p, false) q waited d h = absurd (h refl)
  pressed (p, true) q waited d h =
      released (toggle rpio p) p waited (not p.level) (toggle-Drives p) h
      ∙ ap not (d.1 refl)
      ∙ not-not q.level

  ran_for :
      (ends_first : Bool) (p : Pin) (d : Option ℤ)
      → let r : Pin × Outcome = elim d [
        | none ↦ (p, bad_argument)
        | some d ↦ press rpio (toggle rpio p) (sleep_ctx d ends_first)
      ] in
        r.1 ≢ pin_failed → r.0.level ≡ p.level
  ran_for ends_first p none h = refl
  ran_for ends_first p (some d) h =
      pressed (toggle rpio p) p (sleep_ctx d ends_first) (toggle-Drives p) h

  -- A press of the button leaves the pin at the level that it had, whether it lasts its time, is
  -- interrupted or is refused for its argument; unless the pin cannot be driven, which is an error.
  pub button_run-released :
      (parse : String → Option ℤ) (args : List String) (ends_first : Bool) (p : Pin)
      → let (p', outcome) = button_run rpio parse args ends_first p in
        outcome ≢ pin_failed → p'.level ≡ p.level
  unfolding button_run
  button_run-released parse args ends_first p h = ran_for ends_first p (press_duration parse args) h

  low_done : (p : Pin) → (worked (low rpio p)).1 ≡ done → (worked (low rpio p)).0.level ≡ false
  unfolding Drives
  low_done p h =
      let (ok, same) = worked-done (low rpio p) h in
      ap (λ (q : Pin). q.level) same ∙ (low-Drives p).1 ok

  button_low :
      (b : Button) (p : Pin)
      → b.active_low ≡ true
      → b.has_gpio ≡ true
      → (button_deinit rpio b p).1 ≡ done
      → (button_deinit rpio b p).0.level ≡ active b.active_low
  unfolding button_deinit
  button_low b p e g = rw (g, e, button_deinit) (low_done p)

  switch_low :
      (s : Switch) (p : Pin)
      → s.active_low ≡ true
      → s.has_gpio ≡ true
      → (switch_deinit rpio s p).1 ≡ done
      → (switch_deinit rpio s p).0.level ≡ active s.active_low
  unfolding switch_deinit
  switch_low s p e g = rw (g, e, switch_deinit) (low_done p)

  -- The end of the agent drives the pin low, which presses a button that is active low, and turns on
  -- a switch that is.
  pub deinit-active :
      (b : Button) (s : Switch) (p : Pin)
      → b.active_low ≡ true
      → b.has_gpio ≡ true
      → s.active_low ≡ true
      → s.has_gpio ≡ true
      → (button_deinit rpio b p).1 ≡ done
      → (switch_deinit rpio s p).1 ≡ done
      → ((button_deinit rpio b p).0.level ≡ active b.active_low)
        × ((switch_deinit rpio s p).0.level ≡ active s.active_low)
  deinit-active b s p e g e' g' h h' = (button_low b p e g h, switch_low s p e' g' h')
