-- ===== src/Tests/Files.antt =====
-- The paths of an upload (pkg/module/file/paths.go).
use dutctl.Base.{
  ℕ, true, string_eq, ◌≡◌, refl, Option, none, some, List, [], ◌∷◌, Text, text_eq, nat_eq,
  ℕ_discrete,
}
use dutctl.FileModule.{
  File, parse_paths, eval_args, start_paths, parse_arg, parse_colon_path, parse_parts, set_both,
  sanitize_path,
}
use dutctl.FileModule.Path.{
  has_prefix, on_first, split, climb, visit, walk, spell_names, spell, clean_path,
}
use dutctl.FileModule.Transfer.{Config, World, broken_after, init, run, default_permission}
use dutctl.FileModule.Transfer.Safe.{Safe, run-Safe}
use dutctl.FileModule.Placed.{Placed, parse_paths-Placed}

abbrev flags : List Text → Option (List Text)
flags args = some args

abbrev file : File
file = record { source = []; destination = []; source_path = []; dest_path = [] }

-- `./a:b/../c`
abbrev arg : Text
arg = b'.' ∷ b'/' ∷ b'a' ∷ b':' ∷ b'b' ∷ b'/' ∷ b'.' ∷ b'.' ∷ b'/' ∷ b'c' ∷ []

abbrev parsed : File
parsed = record file { source_path = b'a' ∷ []; dest_path = b'c' ∷ [] }

pair_parses : parse_paths flags file (arg ∷ []) ≡ (parsed, none)
unfolding parse_paths eval_args start_paths parse_arg parse_colon_path parse_parts set_both
    sanitize_path has_prefix on_first split climb visit walk spell_names spell clean_path text_eq
    ℕ_discrete
pair_parses = refl

parse_paths-Placed_example : Placed file parsed
parse_paths-Placed_example = parse_paths-Placed flags file parsed (arg ∷ []) pair_parses

-- The copy breaks off after one byte, over a file that exists.
abbrev breaking : World
breaking = record {
  file_at = λ path. path;
  requested = some (1 ∷ 2 ∷ []);
  makes_directory = true;
  creates = true;
  copy = broken_after 1;
  removes = true;
  opens = true;
  sends = true;
}

abbrev upload : Config
upload = record { permission = []; operation = "upload"; file = file }

abbrev checked_upload : Config
checked_upload = record upload { permission = default_permission }

parse_octal : Text → Option ℕ
parse_octal text = some 420

parses : parse_octal default_permission ≡ some 420
unfolding parse_octal
parses = refl

upload_inits : init parse_octal upload ≡ (checked_upload, none)
unfolding init string_eq text_eq
upload_inits = refl

run-Safe_example :
    Safe
      ((b'c' ∷ [], 7 ∷ []) ∷ [])
      breaking
      (parse_paths flags file (arg ∷ [])).0
      (run parse_octal flags breaking ((b'c' ∷ [], 7 ∷ []) ∷ []) checked_upload (arg ∷ []))
run-Safe_example =
    run-Safe parse_octal 420 parses flags breaking ((b'c' ∷ [], 7 ∷ []) ∷ []) upload checked_upload
      (arg ∷ []) upload_inits
