-- ===== src/Serial/Engine.antt =====
-- The read loop of pkg/module/serial/engine.go.
--
-- The port, the context and the sink are outside: a `Turn` is what one round of a loop meets,
-- namely whether the context is done, what `Read` returns, and whether the sink takes the output.
-- A compiled pattern is the function `find_index` that gives the end of its leftmost match.
pub mod Bounds
use dutctl.Base.{
  ℕ, zero, suc, ◌+◌, ◌-◌, ◌*◌, String, Bool, true, false, not, ◌&&◌, Option, none, some, List, [],
  ◌∷◌, ◌++◌, ◌==◌, nat_eq, if◌then◌else◌, ltb, length, drop, Text,
}
use dutctl.Serial.Escape.{clean}

abbrev pub match_window : ℕ
match_window = 64 * 1024

pub record Engine : Type 0 where
  pub buf : Text
  pub filter : Bool
  pub remainder : Text
  -- All that the sink has taken.
  pub sink : Text

unfoldable pub new_engine : Bool → Engine
new_engine filter = record { buf = []; filter = filter; remainder = []; sink = [] }

pub record Turn : Type 0 where
  pub done : Option String
  pub got : Text
  pub read_err : Option String
  pub sink_err : Option String

-- How a loop ends; `waiting` means that the turns given are used up.
pub data Ending : Type 0 where
  matched waiting stopped : Ending
  failed : String → Ending

-- `capBuffer`
unfoldable pub cap_buffer : Engine → Engine
cap_buffer e =
    if ltb match_window (length e.buf)
    then record e { buf = drop (length e.buf - match_window) e.buf }
    else e

-- Cleaning a read and forwarding it, as both loops do; the sink's error ends the loop.
forward : Engine → Text → Option String → (Engine × Text) × Option String
forward e got sink_err =
    let (rem, out) = clean e.filter e.remainder got in
    let cleaned = record e { remainder = rem } in
    if length out == 0 then ((cleaned, []), none) else elim sink_err [
      | some err ↦ ((cleaned, []), some err)
      | none ↦ ((record cleaned { sink = e.sink ++ out }, out), none)
    ]

-- The part of `readUntil` behind the failed match: the engine, and the ending if there is one.
unfoldable pub read_turn : Engine → Turn → Engine × Option Ending
unfolding forward
read_turn e t = elim t.done [
  | some err ↦ (e, some (failed err))
  | none ↦
      if length t.got == 0
      then elim t.read_err [ some err ↦ (e, some (failed err)) | none ↦ (e, none) ]
      else (let ((e', out), err) = forward e t.got t.sink_err in
          elim err [
            | some w ↦ (e', some (failed w))
            | none ↦ (record e' { buf = e'.buf ++ out }, none)
          ])
]

-- `readUntil`
unfoldable pub read_until : (Text → Option ℕ) → Engine → List Turn → Engine × Ending
read_until find_index e [] = elim (find_index e.buf) [
  | some end ↦ (record e { buf = drop end e.buf }, matched)
  | none ↦ (cap_buffer e, waiting)
]
read_until find_index e (t ∷ ts) = elim (find_index e.buf) [
  | some end ↦ (record e { buf = drop end e.buf }, matched)
  | none ↦ elim (read_turn (cap_buffer e) t).1 [
    | some ending ↦ ((read_turn (cap_buffer e) t).0, ending)
    | none ↦ read_until find_index (read_turn (cap_buffer e) t).0 ts
  ]
]

-- `pump`: the end of the context is a normal end, and a read error may be swallowed.
unfoldable pub pump_turn : Bool → Engine → Turn → Engine × Option Ending
unfolding forward
pump_turn swallow e t = elim t.done [
  | some err ↦ (e, some stopped)
  | none ↦
      let ((e', out), err) =
        if length t.got == 0 then ((e, []), none) else forward e t.got t.sink_err in
      elim err [
        | some w ↦ (e', some (failed w))
        | none ↦ elim t.read_err [
          | some r ↦ (e', some (if swallow then stopped else failed r))
          | none ↦ (e', none)
        ]
      ]
]

unfoldable pub pump : Bool → Engine → List Turn → Engine × Ending
pump swallow e [] = (e, waiting)
pump swallow e (t ∷ ts) = elim (pump_turn swallow e t).1 [
  | some ending ↦ ((pump_turn swallow e t).0, ending)
  | none ↦ pump swallow (pump_turn swallow e t).0 ts
]

-- `monitor`
unfoldable pub monitor : Engine → List Turn → Engine × Ending
unfolding pump
monitor e ts = pump false e ts

-- `drain`; the deadline of the drain is part of the turns.
unfoldable pub drain : Engine → List Turn → Engine × Ending
unfolding pump
drain e ts = pump true e ts

-- `write`: the port takes some of the payload in each turn, or fails. What it took is the result.
pub data WriteTurn : Type 0 where
  took : ℕ → WriteTurn
  write_failed : String → WriteTurn

unfoldable pub write : Engine → Text → List WriteTurn → Engine × Ending
write e [] ts = (record e { buf = [] }, matched)
write e (c ∷ payload) [] = (e, waiting)
write e (c ∷ payload) (write_failed err ∷ ts) = (e, failed err)
write e (c ∷ payload) (took n ∷ ts) = write e (drop n (c ∷ payload)) ts
