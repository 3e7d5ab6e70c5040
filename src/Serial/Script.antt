-- ===== src/Serial/Script.antt =====
-- The parsing of a send/expect script: pkg/module/serial/step.go.
--
-- Arguments are lists of bytes. `regexp.Compile` is a parameter, `compile`, that gives a pattern
-- or fails. The flag set of `parseArgs` is left to Go's flag package: its result is an argument.
pub mod RoundTrip
use Prim.Native.Char.{code}
use dutctl.Base.{
  ℕ, zero, suc, ◌+◌, ◌-◌, ◌*◌, String, Bool, true, false, ◌&&◌, ◌||◌, not, Option, none, some, List,
  [], ◌∷◌, ◌++◌, map, ◌==◌, nat_eq, text_eq, if◌then◌else◌, leb, ltb, length, take, Text,
}

-- The bytes of an ASCII literal.
abbrev pub codes : String → Text
codes String.[] = []
codes (String.◌∷◌ c s) = code c ∷ codes s

pub data ScriptError : Type 0 where
  trailing_backslash short_hex bad_hex unknown_escape : ScriptError
  bad_eol bad_pattern requires_pattern requires_data unknown_verb : ScriptError

pub data Script {ℓ} (A : Type ℓ) : Type ℓ where
  ok : A → Script A
  err : ScriptError → Script A

-- A hexadecimal digit, as `strconv.ParseUint` with base 16 reads it.
unfoldable pub hex_digit : ℕ → Option ℕ
hex_digit c =
    if leb b'0' c && leb c b'9'
    then some (c - b'0')
    else if leb b'a' c && leb c b'f'
    then some (c - b'a' + 10)
    else if leb b'A' c && leb c b'F'
    then some (c - b'A' + 10)
    else none

-- Two digits make a byte.
hex_byte : ℕ → ℕ → Option ℕ
unfolding hex_digit
hex_byte h l = elim (hex_digit h) [
  | none ↦ none
  | some a ↦ elim (hex_digit l) [ none ↦ none | some b ↦ some (a * 16 + b) ]
]

abbrev emit : ℕ → Script Text → Script Text
emit b (ok out) = ok (b ∷ out)
emit b (err e) = err e

-- The escapes of one character.
simple_escape : ℕ → Option ℕ
simple_escape c =
    if c == b'r'
    then some 13
    else if c == b'n'
    then some 10
    else if c == b't'
    then some 9
    else if c == b'\\'
    then some b'\\'
    else none

-- One step of `decodeEscapes` behind a backslash: the byte, and how many characters it took.
pub data Escaped : Type 0 where
  byte : ℕ → ℕ → Escaped
  bad : ScriptError → Escaped

hex_escape : Text → Escaped
unfolding hex_byte
hex_escape (h ∷ l ∷ s) = elim (hex_byte h l) [ none ↦ bad bad_hex | some b ↦ byte b 3 ]
hex_escape _ = bad short_hex

unfoldable pub escape : Text → Escaped
unfolding simple_escape hex_escape
escape [] = bad trailing_backslash
escape (d ∷ s) = elim (simple_escape d) [
  | some b ↦ byte b 1
  | none ↦ if d == b'x' then hex_escape s else bad unknown_escape
]

-- The loop of `decodeEscapes`, which returns at the first error; the number counts the characters
-- of an escape that are still to be passed over.
decode_from : ℕ → Text → Script Text
decode_from k [] = ok []
decode_from (suc k) (c ∷ s) = decode_from k s
decode_from zero (c ∷ s) =
    let plain = emit c (decode_from zero s) in
    if not (c == b'\\')
    then plain
    else elim (escape s) [ bad e ↦ err e | byte b n ↦ emit b (decode_from n s) ]

-- `decodeEscapes`
unfoldable pub decode_escapes : Text → Script Text
unfolding decode_from escape
decode_escapes s = decode_from zero s

-- `strings.ToLower` on ASCII.
to_lower : ℕ → ℕ
to_lower c = if leb b'A' c && leb c b'Z' then c + 32 else c

-- `resolveEOL`
unfoldable pub resolve_eol : Text → Script Text
unfolding to_lower
resolve_eol name =
    let lower = map to_lower name in
    if lower == codes "cr"
    then ok (13 ∷ [])
    else if lower == codes "lf"
    then ok (10 ∷ [])
    else if lower == codes "crlf"
    then ok (13 ∷ 10 ∷ [])
    else if lower == codes "none"
    then ok []
    else err bad_eol

-- `step`: the kinds with their fields, and the source argument.
module _ (Pattern : Type 0) where
  pub data Step : Type 0 where
    expect : Pattern → Text → Step
    send : Text → Text → Step
    send_raw : Text → Text → Step

  abbrev cons_step : Step → Script (List Step) → Script (List Step)
  cons_step st (ok steps) = ok (st ∷ steps)
  cons_step st (err e) = err e

  module _ (compile : Text → Option Pattern) (eol : Text) where
    expect_step : Text → Script Step
    expect_step pat = elim (compile pat) [ none ↦ err bad_pattern | some re ↦ ok (expect re pat) ]

    send_step : Bool → Text → Script Step
    send_step with_eol raw = elim (decode_escapes raw) [
      | err e ↦ err e
      | ok payload ↦ ok (if with_eol then send (payload ++ eol) raw else send_raw payload raw)
    ]

    -- A verb with its argument.
    unfoldable pub one_step : Text → Text → Script Step
    unfolding expect_step send_step
    one_step verb arg =
        if verb == codes "expect"
        then expect_step arg
        else if verb == codes "send"
        then send_step true arg
        else if verb == codes "send-raw"
        then send_step false arg
        else err unknown_verb

    lone_verb : Text → Script (List Step)
    lone_verb verb =
        if verb == codes "expect"
        then err requires_pattern
        else if verb == codes "send" || verb == codes "send-raw"
        then err requires_data
        else err unknown_verb

    -- `parseSteps`
    unfoldable pub parse_steps : List Text → Script (List Step)
    unfolding one_step lone_verb
    parse_steps [] = ok []
    parse_steps (verb ∷ []) = lone_verb verb
    parse_steps (verb ∷ arg ∷ rest) =
        let steps = parse_steps rest in
        elim (one_step verb arg) [ err e ↦ err e | ok st ↦ cons_step st steps ]

-- The part of `parseArgs` behind the flag package: `eolName` and the tokens that are left.
unfoldable pub parse_script :
    (Pattern : Type 0) → (Text → Option Pattern) → Text → List Text → Script (List (Step Pattern))
unfolding resolve_eol
parse_script Pattern compile eol_name tokens = elim (resolve_eol eol_name) [
  | err e ↦ err e
  | ok eol ↦ parse_steps Pattern compile eol tokens
]
