-- ===== src/Serial/Escape.antt =====
-- The filter for terminal escape sequences of pkg/module/serial/engine.go.
--
-- The source walks `data` by indices. Here a function gets the bytes behind the place where it
-- starts, and an index that it would return is the number of bytes up to it, `none` for -1.
pub mod Resume
pub mod Plain
pub mod Chunks
use dutctl.Base.{
  ℕ, zero, suc, ◌+◌, ◌*◌, Bool, true, false, ◌&&◌, ◌||◌, not, Option, none, some, List, [], ◌∷◌,
  ◌++◌, ◌==◌, nat_eq, if◌then◌else◌, leb, ltb, length, drop, Text,
}

abbrev pub esc_byte : ℕ
esc_byte = 0x1b

abbrev pub read_chunk : ℕ
read_chunk = 4096

abbrev pub max_remainder : ℕ
max_remainder = 4 * read_chunk

abbrev plus : ℕ → Option ℕ → Option ℕ
plus k none = none
plus k (some n) = some (k + n)

-- The introducers of DCS, OSC, SOS, PM and APC.
unfoldable pub is_string_seq_introducer : ℕ → Bool
is_string_seq_introducer b = b == b'P' || (b == b']' || (b == b'X' || (b == b'^' || b == b'_')))

-- How many bytes at the front lie in a range.
in_range : ℕ → ℕ → Text → ℕ
in_range lo hi [] = 0
in_range lo hi (c ∷ s) = let rest = in_range lo hi s in if leb lo c && leb c hi then suc rest else 0

-- The final byte of a CSI sequence; any other byte aborts it and is scanned again.
csi_final : Text → Option ℕ
csi_final [] = none
csi_final (c ∷ s) = if ltb c 0x40 || ltb 0x7e c then some 0 else some 1

-- `csiEnd`, on the bytes behind `ESC [`.
unfoldable pub csi_end : Text → Option ℕ
unfolding in_range csi_final
csi_end s =
    let params = in_range 0x30 0x3f s in
    let inters = in_range 0x20 0x2f (drop params s) in
    plus params (plus inters (csi_final (drop inters (drop params s))))

-- `stringSeqEnd`, on the bytes behind the introducer.
unfoldable pub string_seq_end : Bool → Text → Option ℕ
string_seq_end osc [] = none
string_seq_end osc (c ∷ []) = if c == 0x9c || (osc && c == 0x07) then some 1 else none
string_seq_end osc (c ∷ d ∷ s) =
    let rest = plus 1 (string_seq_end osc (d ∷ s)) in
    if c == 0x9c || (osc && c == 0x07)
    then some 1
    else if c == esc_byte && d == b'\\'
    then some 2
    else rest

-- `seqEnd`, on the bytes behind the ESC.
unfoldable pub seq_end : Text → Option ℕ
seq_end [] = none
seq_end (b ∷ s) =
    if is_string_seq_introducer b
    then plus 1 (string_seq_end (b == b']') s)
    else if b == b'['
    then plus 1 (csi_end s)
    else some 1

-- The loop of `stripEscapes`: the visible bytes and the incomplete sequence at the end. The number
-- counts the bytes of a sequence that are still to be passed over.
unfoldable pub strip_from : ℕ → Text → Text × Text
strip_from k [] = ([], [])
strip_from (suc k) (c ∷ s) = strip_from k s
strip_from zero (c ∷ s) =
    let (out, rem) = strip_from zero s in
    if not (c == esc_byte)
    then (c ∷ out, rem)
    else elim (seq_end s) [ none ↦ ([], c ∷ s) | some n ↦ strip_from n s ]

-- `stripEscapes`
unfoldable pub strip_escapes : Text → Text × Text
unfolding strip_from
strip_escapes s = strip_from zero s

-- `engine.clean`: the new remainder, and what goes to the sink.
unfoldable pub clean : Bool → Text → Text → Text × Text
unfolding strip_escapes
clean filter remainder chunk =
    if not filter
    then (remainder, chunk)
    else (let (out, rem) = strip_escapes (remainder ++ chunk) in
        (if ltb max_remainder (length rem) then [] else rem, out))
