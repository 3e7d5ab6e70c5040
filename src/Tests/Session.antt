-- ===== src/Tests/Session.antt =====
-- A transfer of two files (internal/dutagent/session).
use dutctl.Base.{
  ◌≡◌, ◌≢◌, refl, String, some, List, [], ◌∷◌, ◌++◌, arith, All, length, ◌≤◌, Text, string_eq,
}
use text.Mathlib.TextEquality.{eq_iff}
use dutctl.Session.{
  file_request, file_response, no_request, awaiting, failed, Backend, start, Event, request_file,
  take_request, note_request, send_request, forward_file, unset_file, receive, hand_to_module,
  hand_to_worker, clear_request, run,
}
use dutctl.Session.Transfers.{answer, requested, request-echoed, second_request-refused}
use dutctl.Session.Files.{received, run-files}

abbrev bios : String
bios = "bios.rom"

abbrev image : Text
image = 1 ∷ 2 ∷ []

bios_is_named : bios ≢ ""
bios_is_named = ground (arith, eq_iff "bios.rom" "")

abbrev schedule : List Event
schedule = requested bios image ++ (hand_to_module ∷ clear_request ∷ [])

abbrev delivered : Backend
delivered = record start { responses = file_request bios ∷ []; files = image ∷ [] }

request-echoed_example :
    run start
      (requested bios image ++ (hand_to_worker ∷ forward_file ∷ unset_file ∷ clear_request ∷ []))
    ≡ some (record start {
      module_at = awaiting bios;
      responses = file_request bios ∷ file_response bios image ∷ [];
    })
request-echoed_example = request-echoed bios image bios_is_named

second_request-refused_example :
    run start (
      requested bios image
      ++ (hand_to_module
          ∷ request_file "key"
          ∷ take_request
          ∷ note_request
          ∷ send_request
          ∷ clear_request
          ∷ receive (answer "key" image)
          ∷ []))
    ≡ some (record start {
      module_at = awaiting "key";
      from_client = failed no_request;
      responses = file_request bios ∷ file_request "key" ∷ [];
      files = image ∷ [];
    })
second_request-refused_example = second_request-refused bios "key" image image bios_is_named

ran : run start schedule ≡ some delivered
unfolding run start string_eq
ran = refl

run-files_example : All (λ (c : Text). length c ≤ 2) delivered.files
unfolding received
run-files_example = run-files (λ c. length c ≤ 2) schedule delivered (omega arith, tt) ran
