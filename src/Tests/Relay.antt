-- ===== src/Tests/Relay.antt =====
-- A relayed run (cmds/exp/dutserver/rpc.go), with a library that finds no version valid.
use dutctl.Base.{ℕ, ◌≡◌, ◌≢◌, refl, true, false, none, some, List, [], ◌∷◌, arith, Text, string_eq}
use dutctl.Base.Dict.{insert}
use dutctl.Agent.Errors.{Err, with_code, aborted, ctx_canceled}
use dutctl.Agent.Run.{command_msg, CmdMsg}
use dutctl.Versions.{Semver, same, compare, check_major_mismatch}
use dutctl.Server.Relay.{
  Place, Relay, Event, arrives, broken, down_polls, agent_sends, client_takes, down_leaves,
  selects_done, up_polls, client_sends, parks, returned, start, run,
}
use dutctl.Server.Relay.Forwarding.{Lag, run-Forwarded}
use dutctl.Server.Relay.Verdict.{Sound, run-Sound, error-lost}
use dutctl.Server.Relay.Header.{run-Versioned}
use dutctl.Server.Relay.Opening.{IsOpening, open_stream, open_stream-IsOpening}

abbrev lenient : Semver
lenient = record {
  is_valid = λ v. false;
  compare = λ a b. same;
  major = λ v. v;
  major_minor = λ v. v;
  canonical = λ v. v;
  build = λ v. [];
  prerelease = λ v. [];
}

abbrev version : Text
version = b'1' ∷ []

abbrev failure : Err
failure = with_code aborted ctx_canceled

abbrev schedule : List (Event ℕ ℕ)
schedule =
    parks
    ∷ down_polls
    ∷ agent_sends (arrives 7)
    ∷ up_polls
    ∷ client_takes none
    ∷ client_sends (arrives 3)
    ∷ down_polls
    ∷ agent_sends (broken failure)
    ∷ []

abbrev reached : Relay ℕ ℕ
reached = record {
  down = Place.leaving;
  up = Place.sending 3;
  handler = returned (some failure);
  errs = failure ∷ [];
  cancelled = false;
  relayed = true;
  header = some version;
  from_agent = 7 ∷ [];
  to_client = 7 ∷ [];
  from_client = 3 ∷ [];
  to_agent = [];
}

ran : run lenient version version start schedule ≡ some reached
unfolding run start check_major_mismatch compare
ran = refl

run-Forwarded_example : Lag reached.down (7 ∷ []) (7 ∷ []) × Lag reached.up [] (3 ∷ [])
run-Forwarded_example = run-Forwarded lenient version version schedule ran

run-Sound_example : Sound reached.handler (failure ∷ []) false
run-Sound_example = run-Sound lenient version version schedule ran

sent_something : reached.to_client ≢ []
sent_something h = ground arith

run-Versioned_example :
    (reached.header ≡ some version) × (check_major_mismatch lenient version version ≡ none)
run-Versioned_example = run-Versioned lenient version version schedule ran sent_something

error-lost_example :
    (s : Relay ℕ ℕ) × (run lenient version version start
        (down_polls ∷ agent_sends (broken failure) ∷ down_leaves ∷ selects_done ∷ [])
      ≡ some s)
    × (s.handler ≡ returned none)
    × (s.errs ≡ failure ∷ [])
error-lost_example = error-lost lenient version version failure

abbrev command : CmdMsg
command = record { device = "rpi"; command = "reset"; args = [] }

open_stream-IsOpening_example :
    IsOpening lenient version
      (insert "rpi" "host:1" [])
      "ann"
      version
      (λ _. none)
      (command_msg command)
      (open_stream lenient version
        (insert "rpi" "host:1" [])
        "ann"
        version
        (λ _. none)
        (command_msg command))
open_stream-IsOpening_example =
    open_stream-IsOpening lenient version (insert "rpi" "host:1" []) "ann" version (λ _. none)
      (command_msg command)
