-- ===== src/Gpio.antt =====
-- The button and the switch on a GPIO pin: pkg/module/gpio/gpio.go.
--
-- A module drives one pin through its backend, devmem.go. The pin has a level, the levels that it
-- has had, and the faults that its next accesses meet: opening the memory fails, and the level stays
-- as it is. What the library for the pins does to a level is a parameter. Help texts and logging
-- are left out.
pub mod Levels
use dutctl.Base.{
  ℕ, ◌≡◌, String, Bool, true, false, not, Option, none, some, List, [], ◌∷◌, ◌++◌, ◌==◌, string_eq,
  if◌then◌else◌,
}
use dutctl.Base.Int.{ℤ, pos, nonpositive}

pub record Pin : Type 0 where
  pub level : Bool
  pub past : List Bool
  pub faults : List Bool

-- `memmapDo`; the flag tells whether it has worked.
drive : (Bool → Bool) → List Bool → Pin → Pin × Bool
drive f [] p = (record p { level = f p.level; past = p.past ++ (f p.level ∷ []) }, true)
drive f (true ∷ faults) p = (record p { faults = faults }, false)
drive f (false ∷ faults) p =
    (record { level = f p.level; past = p.past ++ (f p.level ∷ []); faults = faults }, true)

-- What the library does to the level of a pin.
pub record Rpio : Type 0 where
  pub low_level : Bool → Bool
  pub high_level : Bool → Bool
  pub toggle_level : Bool → Bool

-- How a call ends.
pub data Outcome : Type 0 where
  done bad_argument pin_failed interrupted : Outcome

worked : Pin × Bool → Pin × Outcome
worked (p, true) = (p, done)
worked (p, false) = (p, pin_failed)

pub record Button : Type 0 where
  pub active_low : Bool
  pub has_gpio : Bool

-- `sleepCtx`; `ends_first` is whether the context is done before the timer.
unfoldable pub sleep_ctx : ℤ → Bool → Outcome
sleep_ctx d ends_first = if nonpositive d then done else if ends_first then interrupted else done

-- `DefaultButtonPressDuration`
abbrev pub default_press : ℤ
default_press = pos 500000000

press_duration : (String → Option ℤ) → List String → Option ℤ
press_duration parse [] = some default_press
press_duration parse (a ∷ args) = parse a

release : Pin × Bool → Outcome → Pin × Outcome
release (p, false) waited = (p, pin_failed)
release (p, true) waited = (p, waited)

-- `Switch`, with the switch state as whether it is on.
pub record Switch : Type 0 where
  pub active_low : Bool
  pub has_gpio : Bool
  pub is_on : Bool

-- What is printed.
pub data Printed : Type 0 where
  nothing already_on turned_on already_off turned_off : Printed
  current : Bool → Printed

pub record Ran : Type 0 where
  pub switch : Switch
  pub pin : Pin
  pub outcome : Outcome
  pub printed : Printed

-- The end of a case of `Switch.Run`: an error returns before the state is set.
set_state : Pin × Bool → Switch → Bool → Printed → Ran
set_state (p, false) s new printed = record {
  switch = s;
  pin = p;
  outcome = pin_failed;
  printed = nothing;
}
set_state (p, true) s new printed = record {
  switch = record s { is_on = new };
  pin = p;
  outcome = done;
  printed = printed;
}

module _ (rpio : Rpio) where
  -- `devmem.Low`, `devmem.High` and `devmem.Toggle`
  unfoldable pub low : Pin → Pin × Bool
  unfolding drive
  low p = drive rpio.low_level p.faults p

  unfoldable pub high : Pin → Pin × Bool
  unfolding drive
  high p = drive rpio.high_level p.faults p

  unfoldable pub toggle : Pin → Pin × Bool
  unfolding drive
  toggle p = drive rpio.toggle_level p.faults p

  -- `Button.Init`
  unfoldable pub button_init : Button → Pin → (Button × Pin) × Outcome
  unfolding worked
  button_init b p =
      let (p', outcome) = worked (if b.active_low then high p else low p) in
      ((record b { has_gpio = true }, p'), outcome)

  -- `Button.Deinit`
  unfoldable pub button_deinit : Button → Pin → Pin × Outcome
  unfolding worked
  button_deinit b p = if b.has_gpio then worked (low p) else (p, done)

  press : Pin × Bool → Outcome → Pin × Outcome
  unfolding release
  press (p, false) waited = (p, pin_failed)
  press (p, true) waited = release (toggle p) waited

  -- `Button.Run`; `parse` is `time.ParseDuration`.
  unfoldable pub button_run : (String → Option ℤ) → List String → Bool → Pin → Pin × Outcome
  unfolding press_duration press sleep_ctx
  button_run parse args ends_first p = elim (press_duration parse args) [
    | none ↦ (p, bad_argument)
    | some d ↦ press (toggle p) (sleep_ctx d ends_first)
  ]

  -- `on` and `off`
  turn_on : Switch → Pin → Pin × Bool
  turn_on s p = if s.active_low then low p else high p

  turn_off : Switch → Pin → Pin × Bool
  turn_off s p = if s.active_low then high p else low p

  -- `Switch.Init`; `lower` is `strings.ToLower`.
  unfoldable pub switch_init : (String → String) → String → Switch → Pin → (Switch × Pin) × Outcome
  unfolding turn_on turn_off worked
  switch_init lower initial s p =
      let start_on = lower initial == "on" in
      let (p', outcome) = worked (if start_on then turn_on s p else turn_off s p) in
      ((record s { has_gpio = true; is_on = start_on }, p'), outcome)

  -- `Switch.Deinit`
  unfoldable pub switch_deinit : Switch → Pin → Pin × Outcome
  unfolding worked
  switch_deinit s p = if s.has_gpio then worked (low p) else (p, done)

  -- `Switch.Run`
  unfoldable pub switch_run : List String → Switch → Pin → Ran
  unfolding turn_on turn_off set_state
  switch_run [] s p = record { switch = s; pin = p; outcome = done; printed = current s.is_on }
  switch_run (a ∷ args) s p =
      if a == "on"
      then set_state (turn_on s p) s true (if s.is_on then already_on else turned_on)
      else if a == "off"
      then set_state (turn_off s p) s false (if s.is_on then turned_off else already_off)
      else if a == "toggle"
      then set_state (toggle p) s (not s.is_on) (if s.is_on then turned_off else turned_on)
      else record { switch = s; pin = p; outcome = bad_argument; printed = nothing }
