-- ===== src/Serial/Script/RoundTrip.antt =====
-- Payloads and scripts written out and read back (pkg/module/serial/step.go).
use dutctl.Base.{
  ℕ, zero, ◌+◌, ◌-◌, ◌/◌, ◌%◌, ◌<◌, ◌≡◌, ◌≢◌, refl, Option, some, List, [], ◌∷◌, ◌++◌, map, arith,
  nat_eq, text_eq, ℕ_discrete, if◌then◌else◌, ltb, All, Text,
}
use dutctl.Serial.Script.{
  ok, codes, Step, expect, send, send_raw, parse_steps, hex_digit, hex_byte, escape, decode_from,
  decode_escapes,
}

-- What a payload is written with: a plain byte, one of the four short escapes, or `\xNN`.
pub data Item : Type 0 where
  plain : ℕ → Item
  cr lf tab backslash : Item
  hex : ℕ → Item

pub digit : ℕ → ℕ
digit n = if ltb n 10 then b'0' + n else b'a' + n - 10

-- How an item is spelled, and the byte that it stands for.
unfoldable pub spelled : Item → Text
unfolding digit
spelled (plain c) = c ∷ []
spelled cr = b'\\' ∷ b'r' ∷ []
spelled lf = b'\\' ∷ b'n' ∷ []
spelled tab = b'\\' ∷ b't' ∷ []
spelled backslash = b'\\' ∷ b'\\' ∷ []
spelled (hex b) = b'\\' ∷ b'x' ∷ digit (b / 16) ∷ digit (b % 16) ∷ []

unfoldable pub meaning : Item → ℕ
meaning (plain c) = c
meaning cr = 13
meaning lf = 10
meaning tab = 9
meaning backslash = b'\\'
meaning (hex b) = b

abbrev pub IsItem : Item → Type 0
IsItem (plain c) = c ≢ b'\\'
IsItem (hex b) = b < 256
IsItem _ = Unit {0}

unfoldable pub spell_all : List Item → Text
spell_all [] = []
spell_all (i ∷ is) = spelled i ++ spell_all is

hex_digit-digit : (n : ℕ) → n < 16 → hex_digit (digit n) ≡ some n
unfolding hex_digit digit
hex_digit-digit n h = ground arith

hex_byte-digit : (b : ℕ) → b < 256 → hex_byte (digit (b / 16)) (digit (b % 16)) ≡ some b
unfolding hex_byte
hex_byte-digit b h = ground (arith, hex_digit-digit (b / 16), hex_digit-digit (b % 16))

decode_from-spelled :
    (i : Item) (s : Text) (out : Text)
    → IsItem i
    → decode_from zero s ≡ ok out
    → decode_from zero (spelled i ++ s) ≡ ok (meaning i ∷ out)
unfolding decode_from spelled meaning escape
decode_from-spelled (plain c) s out h e = ground arith
decode_from-spelled cr s out h e = ground arith
decode_from-spelled lf s out h e = ground arith
decode_from-spelled tab s out h e = ground arith
decode_from-spelled backslash s out h e = ground arith
decode_from-spelled (hex b) s out h e = ground (arith, hex_byte-digit b h)

-- A payload spelled with plain bytes other than the backslash, the short escapes and two-digit
-- hexadecimal escapes, in any order, is decoded to exactly the bytes that the items stand for.
pub decode_escapes-spell_all :
    (is : List Item) → All IsItem is → decode_escapes (spell_all is) ≡ ok (map meaning is)
unfolding decode_escapes spell_all
decode_escapes-spell_all [] h = refl
decode_escapes-spell_all (i ∷ is) h =
    decode_from-spelled i (spell_all is) (map meaning is) h.0 (decode_escapes-spell_all is h.1)

-- A script as its author means it.
module _ (Pattern : Type 0) where
  pub data Line : Type 0 where
    expects : Pattern → Text → Line
    sends : List Item → Line
    sends_raw : List Item → Line

  -- The two tokens of a line on the command line.
  unfoldable pub tokens : List Line → List Text
  tokens [] = []
  tokens (expects re pat ∷ ls) = codes "expect" ∷ pat ∷ tokens ls
  tokens (sends is ∷ ls) = codes "send" ∷ spell_all is ∷ tokens ls
  tokens (sends_raw is ∷ ls) = codes "send-raw" ∷ spell_all is ∷ tokens ls

  unfoldable pub meant : Text → Line → Step Pattern
  meant eol (expects re pat) = expect re pat
  meant eol (sends is) = send (map meaning is ++ eol) (spell_all is)
  meant eol (sends_raw is) = send_raw (map meaning is) (spell_all is)

  abbrev pub IsLine : (Text → Option Pattern) → Line → Type 0
  IsLine compile (expects re pat) = compile pat ≡ some re
  IsLine compile (sends is) = All IsItem is
  IsLine compile (sends_raw is) = All IsItem is

  -- A script whose patterns compile and whose payloads are well spelled is parsed to its steps, in
  -- order: each `send` with the line ending behind its bytes, each `send-raw` without.
  pub parse_steps-tokens :
      (compile : Text → Option Pattern) (eol : Text) (ls : List Line)
      → All (IsLine compile) ls
      → parse_steps Pattern compile eol (tokens ls) ≡ ok (map (meant eol) ls)
  unfolding parse_steps tokens meant text_eq ℕ_discrete
  parse_steps-tokens compile eol [] h = refl
  parse_steps-tokens compile eol (expects re pat ∷ ls) h =
      ground (arith, parse_steps-tokens compile eol ls h.1)
  parse_steps-tokens compile eol (sends is ∷ ls) h =
      ground (arith, decode_escapes-spell_all is h.0, parse_steps-tokens compile eol ls h.1)
  parse_steps-tokens compile eol (sends_raw is ∷ ls) h =
      ground (arith, decode_escapes-spell_all is h.0, parse_steps-tokens compile eol ls h.1)
