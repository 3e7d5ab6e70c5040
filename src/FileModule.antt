-- ===== src/FileModule.antt =====
-- The paths of the file module: parsePaths and its helpers in pkg/module/file/paths.go.
--
-- The standard library's flag set is a parameter: what it leaves of the arguments as positional
-- ones, or nothing where it fails. Paths are Unix paths (FileModule/Path).
pub mod Path
pub mod Within
pub mod Placed
pub mod Transfer
use dutctl.Base.{
  ℕ, ◌≡◌, String, Bool, true, false, not, ◌&&◌, Option, none, some, List, [], ◌∷◌, ◌==◌, text_eq,
  nat_eq, contains, if◌then◌else◌, length, Text,
}
use dutctl.FileModule.Path.{has_prefix, split, slash, dots, clean_path, base}

pub data PathErr : Type 0 where
  bad_flags path_not_expected missing_argument : PathErr
  argument_count : ℕ → PathErr
  empty_source empty_destination source_configured destination_configured : PathErr
  not_one_colon absolute_path leading_dots : PathErr

pub data Parsed {ℓ} (A : Type ℓ) : Type ℓ where
  ok : A → Parsed A
  fail : PathErr → Parsed A

-- `File`, with what its paths depend on.
pub record File : Type 0 where
  pub source : Text
  pub destination : Text
  pub source_path : Text
  pub dest_path : Text

unfoldable pub sanitize_path : Text → Parsed Text
sanitize_path path =
    if path == []
    then ok []
    else let cleaned = clean_path path in
      if has_prefix (slash ∷ []) cleaned
      then fail absolute_path
      else if has_prefix dots cleaned
      then fail leading_dots
      else ok cleaned

eval_positional : File → List Text → Parsed Text
eval_positional f [] =
    if not (f.source == []) && not (f.destination == []) then ok [] else fail missing_argument
eval_positional f (arg ∷ []) =
    if not (f.source == []) && not (f.destination == []) then fail path_not_expected else ok arg
eval_positional f (arg ∷ other ∷ args) =
    if not (f.source == []) && not (f.destination == [])
    then fail path_not_expected
    else fail (argument_count (length (arg ∷ other ∷ args)))

unfoldable pub eval_args : (List Text → Option (List Text)) → File → List Text → Parsed Text
unfolding eval_positional
eval_args flags f args = elim (flags args) [
  | none ↦ fail bad_flags
  | some rest ↦ eval_positional f rest
]

-- The end of a helper: an error leaves the paths as they are.
unfoldable pub set_dest : File → Parsed Text → File × Option PathErr
set_dest f (fail e) = (f, some e)
set_dest f (ok path) = (record f { dest_path = path }, none)

unfoldable pub parse_single_path : File → Text → File × Option PathErr
parse_single_path f arg =
    if not (f.source_path == [])
    then set_dest f (sanitize_path arg)
    else if not (f.dest_path == [])
    then (record f { source_path = arg }, none)
    else (record f { source_path = arg; dest_path = base arg }, none)

unfoldable pub set_both : File → Parsed Text → Parsed Text → File × Option PathErr
set_both f (fail e) dest = (f, some e)
set_both f (ok source) (fail e) = (f, some e)
set_both f (ok source) (ok dest) = (record f { source_path = source; dest_path = dest }, none)

unfoldable pub parse_parts : File → List Text → File × Option PathErr
parse_parts f (source ∷ dest ∷ []) =
    if source == []
    then (f, some empty_source)
    else if dest == []
    then (f, some empty_destination)
    else set_both f (sanitize_path source) (sanitize_path dest)
parse_parts f _ = (f, some not_one_colon)

unfoldable pub parse_colon_path : File → Text → File × Option PathErr
parse_colon_path f arg =
    if not (f.source == [])
    then (f, some source_configured)
    else if not (f.destination == [])
    then (f, some destination_configured)
    else parse_parts f (split b':' arg)

unfoldable pub parse_arg : File → Text → File × Option PathErr
parse_arg f arg =
    if not (f.source == []) && not (f.destination == [])
    then (f, if arg == [] then none else some path_not_expected)
    else if arg == []
    then (f, some (if f.source_path == [] then empty_source else empty_destination))
    else if contains arg b':'
    then parse_colon_path f arg
    else parse_single_path f arg

-- The paths at the start are the configured ones.
abbrev pub configured : File → File
configured f = record f { source_path = f.source; dest_path = f.destination }

unfoldable pub start_paths : File → Parsed Text → File × Option PathErr
start_paths f (fail e) = (f, some e)
start_paths f (ok arg) = parse_arg (configured f) arg

unfoldable pub parse_paths :
    (List Text → Option (List Text)) → File → List Text → File × Option PathErr
parse_paths flags f args = start_paths f (eval_args flags f args)
