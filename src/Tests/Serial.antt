-- ===== src/Tests/Serial.antt =====
-- A console session (pkg/module/serial).
use dutctl.Base.{
  ℕ, ◌≡◌, refl, true, false, Option, none, some, List, [], ◌∷◌, ◌++◌, map, arith, Text, nat_eq,
  text_eq, ℕ_discrete,
}
use mathlib.Core.List.{flatten}
use dutctl.Serial.Escape.{seq_end, is_string_seq_introducer, csi_end, strip_escapes, clean}
use dutctl.Serial.Escape.Chunks.{clean_all, clean_all-flatten}
use dutctl.Serial.Script.{ok, decode_escapes, parse_steps}
use dutctl.Serial.Script.RoundTrip.{
  Item, plain, cr, hex, spell_all, meaning, decode_escapes-spell_all, Line, expects, sends, tokens,
  meant, parse_steps-tokens,
}
use dutctl.Serial.Engine.{new_engine, Turn, read_until, read_turn, cap_buffer}
use dutctl.Serial.Script.{expect, send_raw}
use dutctl.Serial.Engine.{took, write}
use dutctl.Serial.Module
use dutctl.Serial.Module.{
  Given, Setup, World, deadline, expect_failed, timeout_reached, new_client_writer, run_steps,
  step_error, marker, write_out,
}
use dutctl.Serial.Module.Steps.{Stop, run_steps-Stop}
use dutctl.Serial.Module.Lines.{LineStart, output, prints, marker-own_line}
use dutctl.Serial.Engine.Bounds.{IsBounded, read_until-IsBounded, reads, read_until-output}

-- A colour sequence that two reads split.
abbrev chunks : List Text
chunks = (b'o' ∷ 27 ∷ b'[' ∷ []) ∷ (b'0' ∷ b'm' ∷ b'k' ∷ []) ∷ []

clean_all-flatten_example :
    strip_escapes (flatten chunks) ≡ ((clean_all true [] chunks).1, (clean_all true [] chunks).0)
unfolding strip_escapes ℕ_discrete seq_end is_string_seq_introducer csi_end
clean_all-flatten_example = clean_all-flatten chunks (omega arith, (omega arith, tt))

abbrev items : List Item
items = plain b'l' ∷ hex 200 ∷ cr ∷ []

decode_escapes-spell_all_example : decode_escapes (spell_all items) ≡ ok (map meaning items)
decode_escapes-spell_all_example =
    decode_escapes-spell_all items ((λ e. omega arith), (omega arith, (tt, tt)))

abbrev script : List (Line Text)
script = expects (b'>' ∷ []) (b'>' ∷ []) ∷ sends items ∷ []

parse_steps-tokens_example :
    parse_steps Text some (13 ∷ []) (tokens Text script) ≡ ok (map (meant Text (13 ∷ [])) script)
parse_steps-tokens_example =
    parse_steps-tokens Text some (13 ∷ []) script
      (refl, (((λ e. omega arith), (omega arith, (tt, tt))), tt))

abbrev turn : Text → Turn
turn text = record { done = none; got = text; read_err = none; sink_err = none }

abbrev turns : List Turn
turns = turn (b'o' ∷ 27 ∷ b'[' ∷ []) ∷ turn (b'm' ∷ b'k' ∷ []) ∷ []

-- A pattern that never matches.
abbrev never : Text → Option ℕ
never text = none

new_engine-IsBounded : IsBounded (new_engine true)
unfolding new_engine
new_engine-IsBounded = record { buffer = omega arith; carried = omega arith }

read_until-IsBounded_example : IsBounded (read_until never (new_engine true) turns).0
read_until-IsBounded_example =
    read_until-IsBounded never (new_engine true) turns (omega arith, (omega arith, tt))
      new_engine-IsBounded

read_until-output_example :
    (read_until never (new_engine true) turns).0.sink
    ≡ (new_engine true).sink
      ++ (clean_all (new_engine true).filter (new_engine true).remainder (reads turns)).1
unfolding read_until read_turn cap_buffer new_engine clean strip_escapes seq_end
    is_string_seq_introducer csi_end ℕ_discrete
read_until-output_example = read_until-output never (new_engine true) turns refl

-- A script of two steps, whose second one meets the end of its time.
abbrev world : World
world = record { engine = new_engine true; out = new_client_writer }

abbrev setup : Setup
setup = record { text = λ m. []; kind = λ e. deadline; has_timeout = true; total = 2 }

abbrev late : Turn
late = record { done = some "deadline"; got = []; read_err = none; sink_err = none }

abbrev given : Given
given = record { turns = late ∷ []; sleep_err = none; writes = took 1 ∷ [] }

abbrev steps : Module.Script
steps = (send_raw (b'a' ∷ []) (b'a' ∷ []), given) ∷ (expect never (b'>' ∷ []), given) ∷ []

abbrev after_steps : World
after_steps = record {
  engine = new_engine true;
  out = record { printed = []; at_line_start = false };
}

steps_end : run_steps setup 0 steps world ≡ (after_steps, some (expect_failed 2 timeout_reached))
unfolding run_steps step_error new_engine new_client_writer write marker write_out read_until
    read_turn cap_buffer
steps_end = refl

run_steps-Stop_example : Stop setup 0 steps world after_steps (expect_failed 2 timeout_reached)
run_steps-Stop_example = run_steps-Stop setup 0 steps world steps_end

marker-own_line_example :
    (before : Text) × ((marker
        (b'-' ∷ [])
        (prints (output (b'>' ∷ []) ∷ []) new_client_writer)).printed
      ≡ before ++ (b'-' ∷ []))
    × LineStart before
marker-own_line_example = marker-own_line (output (b'>' ∷ []) ∷ []) (b'-' ∷ [])
