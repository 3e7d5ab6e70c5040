-- ===== src/Dut/Modules.antt =====
-- The modules that a sweep over the configuration meets (pkg/dut/dut.go).
use mathlib.Core.List.{flatten, append_assoc}
use dutctl.Base.{
  ◌++◌, map, refl, sym, ◌∙◌, ◌≡◌, ap, String, some, List, [], ◌∷◌, ◌⊎◌, inl, inr, string_eq, Holds,
  Holds-test, Holds-some, Holds-map,
}
use dutctl.Base.Dict.{Dict, lookup}
use dutctl.Dut.{Devlist, Device, Command, Module, ModuleRef, module_refs, command_refs, all_modules}

abbrev pub Among : {A : Type 0} → A → List A → Type 0
Among {A} x [] = ⊥
Among {A} x (y ∷ ys) = (x ≡ y) ⊎ Among x ys

abbrev pub ref_of : String → String → Module → ModuleRef
ref_of device command m = record { device = device; command = command; target = m }

-- The modules of a configuration by device and by command.
unfoldable pub configured_modules : Devlist → List ModuleRef
configured_modules devices = flatten (
    map
      (λ (d : String × Device).
        flatten (map (λ (c : String × Command). map (ref_of d.0 c.0) c.1.modules) d.1.cmds))
      devices)

module_refs-append :
    (d c : String) (ms : List Module) (rest : List ModuleRef)
    → module_refs d c ms rest ≡ map (ref_of d c) ms ++ rest
unfolding module_refs
module_refs-append d c [] rest = refl
module_refs-append d c (m ∷ ms) rest = ap (λ r. ref_of d c m ∷ r) (module_refs-append d c ms rest)

command_refs-append :
    (d : String) (cmds : Dict String Command) (rest : List ModuleRef)
    → command_refs d cmds rest
      ≡ flatten (map (λ (c : String × Command). map (ref_of d c.0) c.1.modules) cmds) ++ rest
unfolding command_refs flatten
command_refs-append d [] rest = refl
command_refs-append d ((name, cmd) ∷ cmds) rest =
    module_refs-append d name cmd.modules (command_refs d cmds rest)
    ∙ ap (λ r. map (ref_of d name) cmd.modules ++ r) (command_refs-append d cmds rest)
    ∙ sym (append_assoc (map (ref_of d name) cmd.modules) _ rest)

pub all_modules-configured : (devices : Devlist) → all_modules devices ≡ configured_modules devices
unfolding all_modules configured_modules flatten
all_modules-configured [] = refl
all_modules-configured ((name, dev) ∷ devices) =
    command_refs-append name dev.cmds (all_modules devices)
    ∙ ap
        (λ r.
          flatten (map (λ (c : String × Command). map (ref_of name c.0) c.1.modules) dev.cmds) ++ r)
        (all_modules-configured devices)

module_refs-rest :
    (x : ModuleRef) (d c : String) (ms : List Module) (rest : List ModuleRef)
    → Among x rest
    → Among x (module_refs d c ms rest)
unfolding module_refs
module_refs-rest x d c [] rest h = h
module_refs-rest x d c (m ∷ ms) rest h = inr (module_refs-rest x d c ms rest h)

module_refs-Among :
    (d c : String) (m : Module) (ms : List Module) (rest : List ModuleRef)
    → Among m ms
    → Among (ref_of d c m) (module_refs d c ms rest)
unfolding module_refs
module_refs-Among d c m [] rest h = absurd h
module_refs-Among d c m (x ∷ ms) rest (inl e) = inl (ap (λ y. ref_of d c y) e)
module_refs-Among d c m (x ∷ ms) rest (inr h) = inr (module_refs-Among d c m ms rest h)

command_refs-rest :
    (x : ModuleRef) (d : String) (cmds : Dict String Command) (rest : List ModuleRef)
    → Among x rest
    → Among x (command_refs d cmds rest)
unfolding command_refs
command_refs-rest x d [] rest h = h
command_refs-rest x d ((name, cmd) ∷ cmds) rest h =
    module_refs-rest x d name cmd.modules _ (command_refs-rest x d cmds rest h)

-- A module of a command, as one of the list.
Reaches : String → String → List ModuleRef → Command → Type 0
Reaches d c refs cmd = (m : Module) → Among m cmd.modules → Among (ref_of d c m) refs

command_refs-Reaches :
    (d c : String) (cmds : Dict String Command) (rest : List ModuleRef)
    → Holds (Reaches d c (command_refs d cmds rest)) (lookup c cmds)
unfolding command_refs lookup Reaches
command_refs-Reaches d c [] rest = tt
command_refs-Reaches d c ((name, cmd) ∷ cmds) rest =
    Holds-test _ c name (some cmd) (lookup c cmds)
      (λ e m h. rw e (module_refs-Among d name m cmd.modules (command_refs d cmds rest) h))
      (λ _.
        Holds-map (Reaches d c (command_refs d cmds rest)) _ (lookup c cmds)
          (command_refs-Reaches d c cmds rest)
          (λ x h m k. module_refs-rest _ d name cmd.modules _ (h m k)))

-- The commands of a device, likewise.
ReachesAll : String → String → List ModuleRef → Device → Type 0
ReachesAll d c refs dev = Holds (Reaches d c refs) (lookup c dev.cmds)

all_modules-Reaches :
    (d c : String) (devices : Devlist)
    → Holds (ReachesAll d c (all_modules devices)) (lookup d devices)
unfolding all_modules lookup Reaches ReachesAll
all_modules-Reaches d c [] = tt
all_modules-Reaches d c ((name, dev) ∷ devices) =
    Holds-test _ d name (some dev) (lookup d devices)
      (λ e.
        Holds-map (Reaches name c (command_refs name dev.cmds (all_modules devices))) _
          (lookup c dev.cmds) (command_refs-Reaches name c dev.cmds (all_modules devices))
          (λ x h m k. rw e (h m k)))
      (λ _.
        Holds-map (ReachesAll d c (all_modules devices)) _ (lookup d devices)
          (all_modules-Reaches d c devices)
          (λ dv h.
            Holds-map (Reaches d c (all_modules devices)) _ (lookup c dv.cmds) h
              (λ x h' m k. command_refs-rest _ name dev.cmds _ (h' m k))))

-- Every module of every command that a lookup finds is among those that the sweeps over all modules
-- meet.
pub all_modules_complete :
    (devices : Devlist) (d c : String) {dev : Device} {cmd : Command} (m : Module)
    → lookup d devices ≡ some dev
    → lookup c dev.cmds ≡ some cmd
    → Among m cmd.modules
    → Among (ref_of d c m) (all_modules devices)
unfolding Reaches ReachesAll
all_modules_complete devices d c {dev} {cmd} m e f h =
    Holds-some (Reaches d c (all_modules devices))
      (Holds-some (ReachesAll d c (all_modules devices)) (all_modules-Reaches d c devices) e) f m h
