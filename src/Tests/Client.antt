-- ===== src/Tests/Client.antt =====
-- Command lines and a run at the client (cmds/dutctl).
use text.Mathlib.TextEquality.{eq_iff}
use dutctl.Base.{
  ◌≡◌, ◌≢◌, ◌↔◌, ◌/◌, ◌≤◌, refl, String, Bool, false, Option, none, some, List, [], ◌∷◌, arith,
  Text, length, string_eq, ◌==◌, ◌++◌, if◌then◌else◌,
}
use dutctl.Base.Int.{ℤ, pos, negsuc}
use dutctl.Base.Dict.{lookup}
use dutctl.Agent.Handlers.{requested_duration, default_lock_duration}
use dutctl.Session.{on_message}
use dutctl.Client.{lock_rpc, request, Time, lock_seconds}
use dutctl.Client.Routing.{Asked}
use dutctl.Client.Requests.{IsTimed, request_iff}
use dutctl.Client.Durations.{IsTime, lock_seconds-subsecond}
use dutctl.Client.Stream.{
  Incoming, file_request, file_msg, Client, Env, whole, goes_on, on_incoming, receive,
}
use dutctl.Client.Stream.Transfer.{
  Sent, OnDisk, Received, receive-Sent, IsWire, answer, accepted, answer-on_message,
}

-- A clock that reads every text as half a second.
seconds_of : ℤ → ℤ
seconds_of (pos n) = pos (n / 1000000000)
seconds_of (negsuc n) = pos 0

abbrev half_second : Time
half_second = record { parse_duration = λ _. some (pos 500000000); whole_seconds = seconds_of }

request_iff_example :
    (request half_second ("rpi" ∷ "lock" ∷ "500ms" ∷ []) ≡ some (lock_rpc "rpi" ("500ms" ∷ []))) ↔ (
      Asked ("rpi" ∷ "lock" ∷ "500ms" ∷ []) (lock_rpc "rpi" ("500ms" ∷ []))
      × IsTimed half_second (lock_rpc "rpi" ("500ms" ∷ [])))
request_iff_example =
    request_iff half_second ("rpi" ∷ "lock" ∷ "500ms" ∷ []) (lock_rpc "rpi" ("500ms" ∷ []))

half_second-IsTime : IsTime half_second
unfolding IsTime seconds_of
half_second-IsTime = (λ d h. ground arith, λ n h. ground arith)

not_empty : ◌≢◌ {A = String} "500ms" ""
not_empty = ground (arith, eq_iff "500ms" "")

lock_seconds-subsecond_example :
    (lock_seconds half_second ("500ms" ∷ []) ≡ lock_seconds half_second [])
    × (requested_duration (pos 0) ≡ default_lock_duration)
lock_seconds-subsecond_example =
    lock_seconds-subsecond half_second half_second-IsTime "500ms" 500000000 not_empty refl
      (omega arith) (omega arith)

abbrev env : Env
env = record {
  file_at = λ path. if path == "./log" then "log" else path;
  send_fails = λ _. false;
  write = λ _. whole;
}

abbrev client : Client
client = record { disk = ("bios.rom", 1 ∷ 2 ∷ []) ∷ []; shown = []; sent = [] }

abbrev rounds : List (Bool × Incoming)
rounds =
    (false, file_request "bios.rom")
    ∷ (false, file_msg "./log" (3 ∷ []))
    ∷ (false, file_request "log")
    ∷ []

abbrev IsShort : String → Text → Type 0
IsShort path content = length content ≤ 2

rounds-Received : Received IsShort env rounds
unfolding Received
rounds-Received = (omega arith, tt)

client-OnDisk : OnDisk IsShort client
unfolding OnDisk lookup
client-OnDisk path content h = ground arith

receive-Sent_example : Sent IsShort env (receive env rounds client).0
receive-Sent_example = receive-Sent IsShort env rounds client rounds-Received client-OnDisk refl

-- The wire of proto3.
wire : Text → Option Text
wire [] = none
wire (x ∷ t) = some (x ∷ t)

wire-IsWire : IsWire wire
unfolding IsWire wire
wire-IsWire = (refl, λ content h. nonempty content h)
  where
    nonempty : (content : Text) → content ≢ [] → wire content ≡ some content
    nonempty [] h = absurd (h refl)
    nonempty (x ∷ t) h = refl

bios_is_named : ◌≢◌ {A = String} "bios.rom" ""
bios_is_named = ground (arith, eq_iff "bios.rom" "")

bios_is_read : lookup (env.file_at "bios.rom") client.disk ≡ some (1 ∷ 2 ∷ [])
unfolding lookup string_eq
bios_is_read = refl

answer-on_message_example :
    (f : String × Text) × ((on_incoming env (file_request "bios.rom") client).0.sent
      ≡ [] ++ (f ∷ []))
    × ((on_incoming env (file_request "bios.rom") client).1 ≡ goes_on)
    × (on_message "bios.rom" (answer wire f) ≡ accepted (1 ∷ 2 ∷ []))
answer-on_message_example =
    answer-on_message wire wire-IsWire env client "bios.rom" (1 ∷ 2 ∷ []) bios_is_named bios_is_read
      refl
