-- ===== src/Tests/Gpio.antt =====
-- A switch and a button (pkg/module/gpio/gpio.go).
use dutctl.Base.{◌≡◌, refl, true, false, not, [], ◌∷◌, string_eq}
use dutctl.Gpio.{
  Rpio, Pin, done, Button, Switch, button_deinit, switch_init, switch_deinit, low, high,
}
use dutctl.Gpio.Levels.{IsRpio, Shows, switch_runs, switch_runs-init, deinit-active}

abbrev rpio : Rpio
rpio = record { low_level = λ l. false; high_level = λ l. true; toggle_level = not }

rpio-IsRpio : IsRpio rpio
unfolding IsRpio
rpio-IsRpio = (λ l. refl, λ l. refl, λ l. refl)

abbrev pin : Pin
pin = record { level = false; past = []; faults = false ∷ true ∷ [] }

abbrev switch : Switch
switch = record { active_low = true; has_gpio = true; is_on = false }

abbrev button : Button
button = record { active_low = true; has_gpio = true }

init_works : (switch_init rpio (λ t. t) "on" switch pin).1 ≡ done
unfolding switch_init low high string_eq
init_works = refl

switch_runs-init_example :
    let t =
      switch_runs rpio
        (("toggle" ∷ []) ∷ ("off" ∷ []) ∷ [])
        (switch_init rpio (λ t. t) "on" switch pin).0 in
    Shows t.0 t.1
switch_runs-init_example =
    switch_runs-init rpio rpio-IsRpio (λ t. t) "on" switch pin (("toggle" ∷ []) ∷ ("off" ∷ []) ∷ [])
      init_works

deinits_work :
    ((button_deinit rpio button pin).1 ≡ done) × ((switch_deinit rpio switch pin).1 ≡ done)
unfolding button_deinit switch_deinit low
deinits_work = (refl, refl)

deinit-active_example :
    ((button_deinit rpio button pin).0.level ≡ false)
    × ((switch_deinit rpio switch pin).0.level ≡ false)
deinit-active_example =
    deinit-active rpio rpio-IsRpio button switch pin refl refl refl refl deinits_work.0
      deinits_work.1
