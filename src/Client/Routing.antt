-- ===== src/Client/Routing.antt =====
-- Which command lines of cmds/dutctl/dutctl.go make which request.
use text.Mathlib.TextEquality.{eq_iff}
use dutctl.Base.{
  ◌≡◌, ◌≢◌, ◌↔◌, ◌⊎◌, inl, inr, refl, sym, ◌∙◌, String, true, false, Option, none, some, List, [],
  ◌∷◌, ◌==◌, arith, string_eq, if◌then◌else◌, Holds, Holds-test, Holds-then, Holds-map, Holds-some,
  ap,
}
use dutctl.Dut.{
  version_keyword, list_keyword, lock_keyword, unlock_keyword, help_keyword, force_keyword,
}
use dutctl.Client.{
  Call, list_rpc, commands_rpc, details_rpc, lock_rpc, unlock_rpc, run_rpc, call, routed, start,
  route, dispatch_command, parse_unlock_args, help_or_run, lock_call,
}

-- The command line of a request, as the usage text gives it.
unfoldable pub spell : Call → List String
spell list_rpc = list_keyword ∷ []
spell (commands_rpc device) = device ∷ []
spell (details_rpc device command keyword) = device ∷ command ∷ keyword ∷ []
spell (lock_rpc device args) = device ∷ lock_keyword ∷ args
spell (unlock_rpc device true) = device ∷ unlock_keyword ∷ force_keyword ∷ []
spell (unlock_rpc device false) = device ∷ unlock_keyword ∷ []
spell (run_rpc device command args) = device ∷ command ∷ args

-- A name in the place of a device, or of a command, that is not taken for a keyword.
abbrev pub IsDeviceWord : String → Type 0
IsDeviceWord name = (name ≢ version_keyword) × (name ≢ list_keyword)

abbrev pub IsCommandWord : String → Type 0
IsCommandWord name = (name ≢ lock_keyword) × (name ≢ unlock_keyword)

abbrev pub NoHelp : List String → Type 0
NoHelp [] = Unit {0}
NoHelp (a ∷ args) = a ≢ help_keyword

-- The requests that can be asked for.
unfoldable pub IsCallable : Call → Type 0
IsCallable list_rpc = Unit
IsCallable (commands_rpc device) = IsDeviceWord device
IsCallable (details_rpc device command keyword) =
    IsDeviceWord device × IsCommandWord command × (keyword ≡ help_keyword)
IsCallable (lock_rpc device []) = IsDeviceWord device
IsCallable (lock_rpc device (a ∷ [])) = IsDeviceWord device
IsCallable (lock_rpc device (a ∷ b ∷ more)) = ⊥
IsCallable (unlock_rpc device force) = IsDeviceWord device
IsCallable (run_rpc device command args) = IsDeviceWord device × IsCommandWord command × NoHelp args

start-spell : (c : Call) → IsCallable c → start (spell c) ≡ call c
unfolding IsCallable spell start route routed dispatch_command parse_unlock_args help_or_run
    lock_call
start-spell list_rpc h = ground (arith, eq_iff "list" "version")
start-spell (commands_rpc device) h = ground arith
start-spell (details_rpc device command keyword) h = ground arith
start-spell (lock_rpc device []) h = ground arith
start-spell (lock_rpc device (a ∷ [])) h = ground arith
start-spell (lock_rpc device (a ∷ b ∷ more)) h = absurd h
start-spell (unlock_rpc device true) h = ground (arith, eq_iff "unlock" "lock")
start-spell (unlock_rpc device false) h = ground (arith, eq_iff "unlock" "lock")
start-spell (run_rpc device command []) h = ground arith
start-spell (run_rpc device command (a ∷ [])) h = ground arith
start-spell (run_rpc device command (a ∷ b ∷ more)) h = ground arith

-- A call that is made for a command line.
unfoldable pub Asked : List String → Call → Type 0
Asked args c = IsCallable c × ((args ≡ spell c) ⊎ ((args ≡ []) × (c ≡ list_rpc)))

-- A call that is made for a device and a command.
Spells : String → String → List String → Call → Type 0
Spells d c args k = IsCallable k × (d ∷ c ∷ args ≡ spell k)

lock_call-Spells :
    (d c : String) (args : List String)
    → IsDeviceWord d
    → c ≡ lock_keyword
    → Holds (Spells d c args) (lock_call d args)
unfolding lock_call Spells IsCallable spell
lock_call-Spells d c [] word e = (word, ap (λ x. d ∷ x ∷ []) e)
lock_call-Spells d c (a ∷ []) word e = (word, ap (λ x. d ∷ x ∷ a ∷ []) e)
lock_call-Spells d c (a ∷ b ∷ more) word e = tt

unlock_call-Spells :
    (d c : String) (args : List String)
    → IsDeviceWord d
    → c ≡ unlock_keyword
    → Holds
        (Spells d c args)
        (elim (parse_unlock_args args) [ none ↦ none | some force ↦ some (unlock_rpc d force) ])
unfolding parse_unlock_args Spells IsCallable spell
unlock_call-Spells d c [] word e = (word, ap (λ x. d ∷ x ∷ []) e)
unlock_call-Spells d c (a ∷ []) word e =
    Holds-then (λ force. (force ≡ true) × (a ≡ force_keyword)) (Spells d c (a ∷ []))
      (if a == force_keyword then some true else none) (λ force. some (unlock_rpc d force))
      (Holds-test _ a force_keyword (some true) none (λ f. (refl, f)) (λ _. tt))
      (λ force (t, f). rw (t, e, f, Spells, IsCallable, spell) (word, refl))
unlock_call-Spells d c (a ∷ b ∷ more) word e = tt

help_or_run-Spells :
    (d c : String) (args : List String)
    → IsDeviceWord d
    → IsCommandWord c
    → Holds (Spells d c args) (help_or_run d c args)
unfolding help_or_run Spells IsCallable spell
help_or_run-Spells d c [] word w = ((word, w, tt), refl)
help_or_run-Spells d c (a ∷ []) word w =
    Holds-test (Spells d c (a ∷ [])) a help_keyword _ _
      (λ e. ((word, w, refl), ap (λ x. d ∷ c ∷ x ∷ []) e)) (λ n. ((word, w, n), refl))
help_or_run-Spells d c (a ∷ b ∷ more) word w =
    Holds-test (Spells d c (a ∷ b ∷ more)) a help_keyword none _ (λ e. tt)
      (λ n. ((word, w, n), refl))

dispatch_command-Spells :
    (d c : String) (args : List String)
    → IsDeviceWord d
    → Holds (Spells d c args) (dispatch_command d c args)
unfolding dispatch_command
dispatch_command-Spells d c args word =
    Holds-test (Spells d c args) c lock_keyword _ _ (λ e. lock_call-Spells d c args word e)
      (λ not_lock.
        Holds-test (Spells d c args) c unlock_keyword _ _ (λ e. unlock_call-Spells d c args word e)
          (λ not_unlock. help_or_run-Spells d c args word (not_lock, not_unlock)))

route-Asked :
    (a : String) (args : List String)
    → a ≢ version_keyword
    → Holds (Asked (a ∷ args)) (route (a ∷ args))
unfolding route Asked IsCallable spell Spells
route-Asked a [] v =
    Holds-test (Asked (a ∷ [])) a list_keyword _ _ (λ e. (tt, inl (ap (λ x. x ∷ []) e)))
      (λ l. ((v, l), inl refl))
route-Asked a (b ∷ args) v =
    Holds-test (Asked (a ∷ b ∷ args)) a list_keyword none _ (λ e. tt)
      (λ l.
        Holds-map (Spells a b args) (Asked (a ∷ b ∷ args)) (dispatch_command a b args)
          (dispatch_command-Spells a b args (v, l)) (λ k h. (h.0, inl h.1)))

routed-some : (o : Option Call) {c : Call} → routed o ≡ call c → o ≡ some c
unfolding routed
routed-some none h = ground arith
routed-some (some k) h = ground arith

start-routed :
    (a : String) (args : List String) {c : Call}
    → start (a ∷ args) ≡ call c
    → (a ≢ version_keyword) × (route (a ∷ args) ≡ some c)
unfolding start
start-routed a args h = (λ e. ground arith, ground (arith, routed-some (route (a ∷ args))))

start-nil : start [] ≡ call list_rpc
unfolding start route routed
start-nil = refl

call-injective : {c k : Call} → call c ≡ call k → k ≡ c
call-injective h = cc

start-Asked : (args : List String) (c : Call) → start args ≡ call c → Asked args c
unfolding Asked IsCallable
start-Asked [] c h = rw (call-injective (sym start-nil ∙ h)) (tt, inr (refl, refl))
start-Asked (a ∷ args) c h =
    let (v, e) = start-routed a args h in Holds-some (Asked (a ∷ args)) (route-Asked a args v) e

-- A command line is dispatched to a call exactly when it is the call's spelling.
pub start-call_iff : (args : List String) (c : Call) → (start args ≡ call c) ↔ Asked args c
unfolding Asked
start-call_iff args c = (start-Asked args c, λ (callable, spelt). back callable spelt)
  where
    back : IsCallable c → (args ≡ spell c) ⊎ ((args ≡ []) × (c ≡ list_rpc)) → start args ≡ call c
    back callable (inl e) = rw e (start-spell c callable)
    back callable (inr (e, k)) = rw (e, k) start-nil
