-- ===== src/FileModule/Transfer/Safe.antt =====
-- What a transfer does to the disk (pkg/module/file/file.go).
use dutctl.Base.{
  inl, inr, ℕ, ◌≡◌, ◌≢◌, refl, Bool, true, false, Option, none, some, List, ◌==◌, string_eq,
  text_eq, nat_eq, if◌then◌else◌, Text, sym, ◌∙◌, take, subst,
}
use dutctl.Base.Dict.{Dict, lookup, insert, erase, lookup-insert, lookup-erase}
use dutctl.FileModule.{File, PathErr, parse_paths}
use dutctl.FileModule.Within.{Bool-test, test}
use dutctl.FileModule.Transfer.{
  Config, Fault, World, Result, init, write_copy, create, upload_file, download_file, transfer,
  parsed, uploaded, downloaded, run, default_permission, not_copied, bad_permission, Copy, whole,
  broken_after, lost_after,
}
use dutctl.FileModule.Transfer.Ready.{IsReady, Checked, init-Checked}

-- An error that a module may meet once its configuration is checked.
pub data Late : Fault → Type 0 where
  at_paths : (e : PathErr) → Late (Fault.bad_path e)
  at_request : Late Fault.not_received
  at_directory : Late Fault.no_directory
  at_creation : Late Fault.not_created
  at_source : Late Fault.not_found
  at_opening : Late Fault.not_opened
  at_sending : Late Fault.not_sent

-- How a run may end that starts with a disk and has found the paths of a file.
pub data Safe (disk : Dict Text Text) (w : World) (f : File) : Result → Type 0 where
  stored :
      (content : Text)
      → w.copy ≡ whole
      → w.requested ≡ some content
      → Safe disk w f
          (record { disk = insert (w.file_at f.dest_path) content disk; sent = none; fault = none })
  sent :
      (content : Text)
      → lookup (w.file_at f.source_path) disk ≡ some content
      → Safe disk w f (record { disk = disk; sent = some content; fault = none })
  lost :
      (content : Text) (n : ℕ)
      → w.requested ≡ some content
      → w.copy ≡ lost_after n
      → Safe disk w f (record {
        disk = insert (w.file_at f.dest_path) (take n content) disk;
        sent = none;
        fault = none;
      })
  left :
      (content : Text) (n : ℕ)
      → w.requested ≡ some content
      → w.copy ≡ broken_after n
      → w.removes ≡ false
      → Safe disk w f (record {
        disk = insert (w.file_at f.dest_path) (take n content) disk;
        sent = none;
        fault = some not_copied;
      })
  removed :
      (after : Dict Text Text)
      → ((p : Text)
          → lookup p after ≡ (if p == (w.file_at f.dest_path) then none else lookup p disk))
      → Safe disk w f (record { disk = after; sent = none; fault = some not_copied })
  unchanged :
      (e : Fault) → Late e → Safe disk w f (record { disk = disk; sent = none; fault = some e })

module _ (parse_octal : Text → Option ℕ) where
  removed-Safe :
      (disk : Dict Text Text) (w : World) (f : File) (content : Text) (n : ℕ)
      → Safe disk w f (
          uploaded (
            erase (w.file_at f.dest_path) (insert (w.file_at f.dest_path) (take n content) disk),
            some not_copied,
          ))
  unfolding uploaded
  removed-Safe disk w f content n = removed _ (λ p.
      lookup-erase p (w.file_at f.dest_path) (insert (w.file_at f.dest_path) (take n content) disk)
      ∙ Bool-test
          (λ t.
            (if t then none else lookup p (insert (w.file_at f.dest_path) (take n content) disk))
            ≡ (if t then none else lookup p disk))
          p (w.file_at f.dest_path) (λ e. refl) (λ e. kept p e))
    where
      kept :
          (p : Text)
          → p ≢ (w.file_at f.dest_path)
          → lookup p (insert (w.file_at f.dest_path) (take n content) disk) ≡ lookup p disk
      kept p e =
          lookup-insert p (w.file_at f.dest_path) (take n content) disk
          ∙ test (λ o. o ≡ lookup p disk) p (w.file_at f.dest_path) _ _ (λ q. absurd (e q))
              (λ q. refl)

  write_copy-Safe :
      (disk : Dict Text Text) (w : World) (f : File) (content : Text) (c : Copy) (removes : Bool)
      → w.requested ≡ some content
      → w.copy ≡ c
      → w.removes ≡ removes
      → Safe disk w f
          (uploaded (write_copy parse_octal disk (w.file_at f.dest_path) content c removes))
  unfolding write_copy uploaded
  write_copy-Safe disk w f content whole removes h e r = stored content e h
  write_copy-Safe disk w f content (lost_after n) removes h e r = lost content n h e
  write_copy-Safe disk w f content (broken_after n) true h e r = removed-Safe disk w f content n
  write_copy-Safe disk w f content (broken_after n) false h e r = left content n h e r

  create-Safe :
      (disk : Dict Text Text) (w : World) (c : Config) (content : Text) (n : ℕ)
      → parse_octal c.permission ≡ some n
      → w.requested ≡ some content
      → Safe disk w c.file (uploaded (create parse_octal w content c disk))
  unfolding create uploaded
  create-Safe disk w c content n m h =
      subst
        (λ o. Safe disk w c.file (
          uploaded (elim o [
            | none ↦ (disk, some bad_permission)
            | some mode ↦
                if w.creates
                then write_copy parse_octal disk (w.file_at c.file.dest_path) content w.copy
                    w.removes
                else (disk, some Fault.not_created)
          ])))
        (sym m) (created w.creates)
    where
      created :
          (b : Bool)
          → Safe disk w c.file (
              uploaded (
                if b
                then write_copy parse_octal disk
                    (w.file_at c.file.dest_path)
                    content
                    w.copy
                    w.removes
                else (disk, some Fault.not_created)))
      created true = write_copy-Safe disk w c.file content w.copy w.removes h refl refl
      created false = unchanged Fault.not_created at_creation

  upload_file-Safe :
      (disk : Dict Text Text) (w : World) (c : Config) (n : ℕ)
      → parse_octal c.permission ≡ some n
      → Safe disk w c.file (uploaded (upload_file parse_octal w c disk))
  unfolding upload_file uploaded
  upload_file-Safe disk w c n m = received w.requested refl
    where
      made :
          (b : Bool) (content : Text)
          → w.requested ≡ some content
          → Safe disk w c.file (
              uploaded (
                if b then create parse_octal w content c disk else (disk, some Fault.no_directory)))
      made true content h = create-Safe disk w c content n m h
      made false content h = unchanged Fault.no_directory at_directory

      received :
          (o : Option Text)
          → w.requested ≡ o
          → Safe disk w c.file (
              uploaded (elim o [
                | none ↦ (disk, some Fault.not_received)
                | some content ↦
                    if w.makes_directory
                    then create parse_octal w content c disk
                    else (disk, some Fault.no_directory)
              ]))
      received none h = unchanged Fault.not_received at_request
      received (some content) h = made w.makes_directory content h

  download_file-Safe :
      (disk : Dict Text Text) (w : World) (c : Config)
      → Safe disk w c.file (downloaded disk (download_file parse_octal w c disk))
  unfolding download_file downloaded
  download_file-Safe disk w c =
      found (lookup (w.file_at c.file.source_path) disk) refl w.opens w.sends
    where
      found :
          (o : Option Text)
          → lookup (w.file_at c.file.source_path) disk ≡ o
          → (opens sends : Bool)
          → Safe disk w c.file (
              downloaded disk (elim o [
                | none ↦ (none, some Fault.not_found)
                | some content ↦
                    if opens
                    then if sends then (some content, none) else (none, some Fault.not_sent)
                    else (none, some Fault.not_opened)
              ]))
      found none h opens sends = unchanged Fault.not_found at_source
      found (some content) h false sends = unchanged Fault.not_opened at_opening
      found (some content) h true true = sent content h
      found (some content) h true false = unchanged Fault.not_sent at_sending

  transfer-Safe :
      (disk : Dict Text Text) (w : World) (c : Config)
      → IsReady parse_octal c
      → Safe disk w c.file (transfer parse_octal w disk c)
  unfolding transfer IsReady
  transfer-Safe disk w c ((n, m), ready) =
      test (Safe disk w c.file) c.operation "upload" _ _ (λ p. upload_file-Safe disk w c n m)
        (λ k.
          test (Safe disk w c.file) c.operation "download" _ _ (λ p. download_file-Safe disk w c)
            (λ l. absurd (elim ready [ inl p ↦ k p | inr p ↦ l p ])))

  parsed-Safe :
      (disk : Dict Text Text) (w : World) (c : Config) (r : File × Option PathErr)
      → IsReady parse_octal c
      → Safe disk w r.0 (parsed parse_octal w disk c r)
  unfolding parsed IsReady
  parsed-Safe disk w c (f, none) h = transfer-Safe disk w (record c { file = f }) h
  parsed-Safe disk w c (f, some e) h = unchanged (Fault.bad_path e) (at_paths e)

-- How a run ends whose configuration has been accepted: it stores the whole file that it was sent at
-- its destination, it sends the whole source, or it ends with an error and every file is as it was.
-- A copy that breaks off is an error, and removes the destination; the copied part stays there only
-- if that fails, or the path is a link. Without an error less than the whole file is stored only
-- where `Close` fails. The permission and the operation are never the error, if the default
-- permission parses.
pub run-Safe :
    (parse_octal : Text → Option ℕ) (n : ℕ)
    → parse_octal default_permission ≡ some n
    → (flags : List Text → Option (List Text)) (w : World) (disk : Dict Text Text)
    → (given c : Config) (args : List Text) → init parse_octal given ≡ (c, none)
    → Safe disk w (parse_paths flags c.file args).0 (run parse_octal flags w disk c args)
unfolding run Checked
run-Safe parse_octal n h flags w disk given c args accepted =
    parsed-Safe parse_octal disk w c (parse_paths flags c.file args)
      (subst (Checked parse_octal) accepted (init-Checked parse_octal given n h))
