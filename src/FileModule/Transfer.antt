-- ===== src/FileModule/Transfer.antt =====
-- The configuration and the transfers of the file module: pkg/module/file/file.go.
--
-- The disk maps files to contents. Which file a path leads to, and what the system calls and the
-- session answer, is in a record; the parser of a permission is a parameter. Directories, file modes, printing and logging are left out.
pub mod Ready
pub mod Safe
use dutctl.Base.{
  take, ◌⊎◌, ℕ, ◌≡◌, ◌≢◌, refl, String, Bool, true, false, Option, none, some, List, [], ◌∷◌, ◌==◌,
  string_eq, text_eq, nat_eq, if◌then◌else◌, Text, Option-cases, inl, inr, sym, ◌∙◌, ap,
}
use dutctl.Base.Dict.{Dict, lookup, insert, erase, lookup-insert, lookup-erase}
use dutctl.FileModule.{File, PathErr, parse_paths}

-- `File` with the configuration that its paths do not depend on.
pub record Config : Type 0 where
  pub permission : Text
  pub operation : String
  pub file : File

pub data Fault : Type 0 where
  bad_permission no_operation invalid_operation : Fault
  bad_path : PathErr → Fault
  not_received no_directory not_created not_copied not_found not_opened not_sent : Fault

-- How `io.Copy` to the new file and `Close` end: all is written, `Copy` fails after some bytes, or
-- `Close` fails and only some bytes have been written.
pub data Copy : Type 0 where
  whole : Copy
  broken_after lost_after : ℕ → Copy

-- What the calls of a transfer answer, and the file that a path leads to. `removes` is whether
-- `os.Remove` removes that file: it does not where it fails, or where the path is a link.
pub record World : Type 0 where
  pub file_at : Text → Text
  pub requested : Option Text
  pub makes_directory : Bool
  pub creates : Bool
  pub copy : Copy
  pub removes : Bool
  pub opens : Bool
  pub sends : Bool

-- How a run ends: the disk, what is sent to the client, and the error.
pub record Result : Type 0 where
  pub disk : Dict Text Text
  pub sent : Option Text
  pub fault : Option Fault

uploaded : Dict Text Text × Option Fault → Result
uploaded (disk, fault) = record { disk = disk; sent = none; fault = fault }

downloaded : Dict Text Text → Option Text × Option Fault → Result
downloaded disk (sent, fault) = record { disk = disk; sent = sent; fault = fault }

-- `0644`
abbrev pub default_permission : Text
default_permission = b'0' ∷ b'6' ∷ b'4' ∷ b'4' ∷ []

starts_octal : Text → Bool
starts_octal [] = false
starts_octal (c ∷ text) = c == b'0'

module _ (parse_octal : Text → Option ℕ) where
  check_operation : Config → Config × Option Fault
  check_operation c =
      if c.operation == ""
      then (c, some no_operation)
      else if c.operation == "upload"
      then (c, none)
      else if c.operation == "download"
      then (c, none)
      else (c, some invalid_operation)

  unfoldable pub init : Config → Config × Option Fault
  unfolding starts_octal check_operation
  init c =
      if c.permission == []
      then check_operation (record c { permission = default_permission })
      else if starts_octal c.permission
      then elim (parse_octal c.permission) [
        | none ↦ (c, some bad_permission)
        | some mode ↦ check_operation c
      ]
      else (c, some bad_permission)

  -- The end of an upload: a copy that fails removes the file. The errors of `Close` and `os.Remove`
  -- are ignored.
  write_copy : Dict Text Text → Text → Text → Copy → Bool → Dict Text Text × Option Fault
  write_copy disk path content whole removes = (insert path content disk, none)
  write_copy disk path content (lost_after n) removes = (insert path (take n content) disk, none)
  write_copy disk path content (broken_after n) true =
      (erase path (insert path (take n content) disk), some not_copied)
  write_copy disk path content (broken_after n) false =
      (insert path (take n content) disk, some not_copied)

  create : World → Text → Config → Dict Text Text → Dict Text Text × Option Fault
  unfolding write_copy
  create w content c disk = elim (parse_octal c.permission) [
    | none ↦ (disk, some bad_permission)
    | some mode ↦
        if w.creates
        then write_copy disk (w.file_at c.file.dest_path) content w.copy w.removes
        else (disk, some not_created)
  ]

  unfoldable pub upload_file : World → Config → Dict Text Text → Dict Text Text × Option Fault
  unfolding create
  upload_file w c disk = elim w.requested [
    | none ↦ (disk, some not_received)
    | some content ↦
        if w.makes_directory then create w content c disk else (disk, some no_directory)
  ]

  -- The content that is sent to the client is that of the source.
  unfoldable pub download_file : World → Config → Dict Text Text → Option Text × Option Fault
  download_file w c disk = elim (lookup (w.file_at c.file.source_path) disk) [
    | none ↦ (none, some not_found)
    | some content ↦
        if w.opens
        then if w.sends then (some content, none) else (none, some not_sent)
        else (none, some not_opened)
  ]

  -- `Run`, with what is sent to the client.
  transfer : World → Dict Text Text → Config → Result
  transfer w disk c =
      if c.operation == "upload"
      then uploaded (upload_file w c disk)
      else if c.operation == "download"
      then downloaded disk (download_file w c disk)
      else record { disk = disk; sent = none; fault = some invalid_operation }

  parsed : World → Dict Text Text → Config → File × Option PathErr → Result
  parsed w disk c (f, some e) = record { disk = disk; sent = none; fault = some (bad_path e) }
  parsed w disk c (f, none) = transfer w disk (record c { file = f })

  unfoldable pub run :
      (List Text → Option (List Text)) → World → Dict Text Text → Config → List Text → Result
  unfolding transfer parsed uploaded downloaded
  run flags w disk c args = parsed w disk c (parse_paths flags c.file args)
