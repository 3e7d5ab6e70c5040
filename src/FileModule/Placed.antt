-- ===== src/FileModule/Placed.antt =====
-- Which paths the file module takes (pkg/module/file/paths.go).
use dutctl.Base.{
  ◌≡◌, ◌≢◌, ◌⊎◌, inl, inr, refl, subst, Bool, true, false, not, ◌&&◌, Option, none, some, List, [],
  ◌∷◌, ◌==◌, text_eq, nat_eq, contains, if◌then◌else◌, Text,
}
use dutctl.FileModule.{
  PathErr, Parsed, ok, fail, File, sanitize_path, eval_args, set_dest, parse_single_path, set_both,
  parse_parts, parse_colon_path, parse_arg, start_paths, parse_paths, configured,
}
use dutctl.FileModule.Path.{split, base}
use dutctl.FileModule.Within.{IsWithin, Bool-test, test, Gives, sanitize_path-IsWithin}

-- How the paths of a request that is accepted come about.
pub data Placed (f g : File) : Type 0 where
  both :
      f.source ≢ []
      → f.destination ≢ []
      → g.source_path ≡ f.source
      → g.dest_path ≡ f.destination
      → Placed f g
  to_arg :
      f.source ≢ []
      → f.destination ≡ []
      → g.source_path ≡ f.source
      → IsWithin g.dest_path
      → Placed f g
  from_arg :
      f.source ≡ []
      → f.destination ≢ []
      → g.source_path ≢ []
      → g.dest_path ≡ f.destination
      → Placed f g
  pair_arg :
      f.source ≡ []
      → f.destination ≡ []
      → IsWithin g.source_path
      → IsWithin g.dest_path
      → Placed f g
  one_arg :
      f.source ≡ []
      → f.destination ≡ []
      → g.source_path ≢ []
      → g.dest_path ≡ base g.source_path
      → Placed f g

Ends : File → File × Option PathErr → Type 0
Ends f (g, none) = Placed f g
Ends f (g, some e) = Unit

set_dest-Ends :
    (f : File) (dest : Parsed Text)
    → f.source ≢ []
    → f.destination ≡ []
    → Gives IsWithin dest
    → Ends f (set_dest (configured f) dest)
unfolding set_dest Gives Ends
set_dest-Ends f (fail e) n p h = tt
set_dest-Ends f (ok path) n p h = to_arg n p refl h

set_both-Ends :
    (f : File) (source dest : Parsed Text)
    → f.source ≡ []
    → f.destination ≡ []
    → Gives IsWithin source
    → Gives IsWithin dest
    → Ends f (set_both (configured f) source dest)
unfolding set_both Gives Ends
set_both-Ends f (fail e) dest p q h k = tt
set_both-Ends f (ok source) (fail e) p q h k = tt
set_both-Ends f (ok source) (ok dest) p q h k = pair_arg p q h k

parse_parts-Ends :
    (f : File) (parts : List Text)
    → f.source ≡ []
    → f.destination ≡ []
    → Ends f (parse_parts (configured f) parts)
unfolding parse_parts Ends
parse_parts-Ends f [] p q = tt
parse_parts-Ends f (source ∷ []) p q = tt
parse_parts-Ends f (source ∷ dest ∷ []) p q =
    test (Ends f) source [] _ _ (λ e. tt)
      (λ n.
        test (Ends f) dest [] _ _ (λ e. tt)
          (λ m.
            set_both-Ends f (sanitize_path source) (sanitize_path dest) p q
              (sanitize_path-IsWithin source n) (sanitize_path-IsWithin dest m)))
parse_parts-Ends f (source ∷ dest ∷ part ∷ parts) p q = tt

parse_colon_path-Ends : (f : File) (arg : Text) → Ends f (parse_colon_path (configured f) arg)
unfolding parse_colon_path Ends
parse_colon_path-Ends f arg =
    Bool-test
      (λ s. Ends f (
        if not s
        then (configured f, some PathErr.source_configured)
        else if not (f.destination == [])
        then (configured f, some PathErr.destination_configured)
        else parse_parts (configured f) (split b':' arg)))
      f.source []
      (λ p.
        Bool-test
          (λ d. Ends f (
            if not d
            then (configured f, some PathErr.destination_configured)
            else parse_parts (configured f) (split b':' arg)))
          f.destination [] (λ q. parse_parts-Ends f (split b':' arg) p q) (λ m. tt))
      (λ n. tt)

parse_single_path-Ends :
    (f : File) (arg : Text)
    → arg ≢ []
    → (f.source ≡ []) ⊎ (f.destination ≡ [])
    → Ends f (parse_single_path (configured f) arg)
unfolding parse_single_path Ends
parse_single_path-Ends f arg n h =
    Bool-test
      (λ s. Ends f (
        if not s
        then set_dest (configured f) (sanitize_path arg)
        else if not (f.destination == [])
        then (record (configured f) { source_path = arg }, none)
        else (record (configured f) { source_path = arg; dest_path = base arg }, none)))
      f.source []
      (λ p.
        Bool-test
          (λ d. Ends f (
            if not d
            then (record (configured f) { source_path = arg }, none)
            else (record (configured f) { source_path = arg; dest_path = base arg }, none)))
          f.destination [] (λ q. one_arg p q n refl) (λ m. from_arg p m n refl))
      (λ m. set_dest-Ends f (sanitize_path arg) m (other m h) (sanitize_path-IsWithin arg n))
  where
    other : f.source ≢ [] → (f.source ≡ []) ⊎ (f.destination ≡ []) → f.destination ≡ []
    other m (inl p) = absurd (m p)
    other m (inr q) = q

colon-Ends :
    (b : Bool) (f : File) (arg : Text)
    → arg ≢ []
    → (f.source ≡ []) ⊎ (f.destination ≡ [])
    → Ends f
        (if b then parse_colon_path (configured f) arg else parse_single_path (configured f) arg)
colon-Ends true f arg n h = parse_colon_path-Ends f arg
colon-Ends false f arg n h = parse_single_path-Ends f arg n h

given-Ends :
    (f : File) (arg : Text)
    → (f.source ≡ []) ⊎ (f.destination ≡ [])
    → Ends f (
        if arg == []
        then (
          configured f,
          some (if f.source == [] then PathErr.empty_source else PathErr.empty_destination),
        )
        else if contains arg b':'
        then parse_colon_path (configured f) arg
        else parse_single_path (configured f) arg)
unfolding Ends
given-Ends f arg h =
    test (Ends f) arg [] _ _ (λ p. tt) (λ n. colon-Ends (contains arg b':') f arg n h)

fixed-Ends :
    (f : File) (arg : Text)
    → f.source ≢ []
    → f.destination ≢ []
    → Ends f (configured f, if arg == [] then none else some PathErr.path_not_expected)
unfolding Ends
fixed-Ends f arg n m =
    Bool-test (λ t. Ends f (configured f, if t then none else some PathErr.path_not_expected)) arg
      [] (λ p. both n m refl refl) (λ k. tt)

parse_arg-Ends : (f : File) (arg : Text) → Ends f (parse_arg (configured f) arg)
unfolding parse_arg
parse_arg-Ends f arg =
    Bool-test (λ s. Ends f (if not s && not (f.destination == []) then fixed else given)) f.source
      [] (λ p. given-Ends f arg (inl p))
      (λ n.
        Bool-test (λ d. Ends f (if not d then fixed else given)) f.destination []
          (λ q. given-Ends f arg (inr q)) (λ m. fixed-Ends f arg n m))
  where
    fixed : File × Option PathErr
    fixed = (configured f, if arg == [] then none else some PathErr.path_not_expected)

    given : File × Option PathErr
    given =
        if arg == []
        then (
          configured f,
          some (if f.source == [] then PathErr.empty_source else PathErr.empty_destination),
        )
        else if contains arg b':'
        then parse_colon_path (configured f) arg
        else parse_single_path (configured f) arg

start_paths-Ends : (f : File) (arg : Parsed Text) → Ends f (start_paths f arg)
unfolding start_paths Ends
start_paths-Ends f (fail e) = tt
start_paths-Ends f (ok arg) = parse_arg-Ends f arg

-- The paths of a request that is accepted are the configured ones where the configuration has them.
-- A destination that the request gives leads into the directory that it is relative to, or is the
-- last element of the source, where the request gives the source alone; a source leads there too
-- where it is given with a destination, and is never empty where it is given alone.
pub parse_paths-Placed :
    (flags : List Text → Option (List Text)) (f g : File) (args : List Text)
    → parse_paths flags f args ≡ (g, none)
    → Placed f g
unfolding parse_paths Ends
parse_paths-Placed flags f g args h = subst (Ends f) h (start_paths-Ends f (eval_args flags f args))
