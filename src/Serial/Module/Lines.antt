-- ===== src/Serial/Module/Lines.antt =====
-- The status lines of the serial module (pkg/module/serial/serial.go).
use dutctl.Base.{
  ℕ, ◌≡◌, refl, ◌∙◌, ◌⊎◌, inl, inr, true, Bool-cases, List, [], ◌∷◌, ◌++◌, nat_eq, arith,
  if◌then◌else◌, Text,
}
use dutctl.Serial.Module.{Writer, new_client_writer, ends_line, write_out, marker}

-- The place before a text that stands at the start of a line.
abbrev pub LineStart : Text → Type 0
LineStart before = (before ≡ []) ⊎ (ends_line before ≡ true)

Inv : Writer → Type 0
Inv w = w.at_line_start ≡ true → LineStart w.printed

ends_line-append : (xs : Text) (c : ℕ) (t : Text) → ends_line (xs ++ (c ∷ t)) ≡ ends_line (c ∷ t)
unfolding ends_line
ends_line-append [] c t = refl
ends_line-append (x ∷ []) c t = refl
ends_line-append (x ∷ y ∷ xs) c t = ends_line-append (y ∷ xs) c t

ends_line-msg : (xs msg : Text) → ends_line msg ≡ true → ends_line (xs ++ msg) ≡ true
unfolding ends_line
ends_line-msg xs [] h = absurd cc
ends_line-msg xs (c ∷ t) h = ends_line-append xs c t ∙ h

write_out-Inv : (t : Text) (w : Writer) → Inv w → Inv (write_out t w)
unfolding write_out Inv
write_out-Inv [] w inv h = inv h
write_out-Inv (c ∷ t) w inv h = inr (ends_line-msg w.printed (c ∷ t) h)

marker-Inv : (msg : Text) (w : Writer) → Inv (marker msg w)
unfolding marker Inv
marker-Inv msg w h =
    inr (ends_line-msg (if w.at_line_start then w.printed else w.printed ++ (10 ∷ [])) msg h)

ten-ends_line : ends_line (10 ∷ []) ≡ true
unfolding ends_line
ten-ends_line = ground arith

newline-LineStart : (t : Text) → LineStart (t ++ (10 ∷ []))
newline-LineStart t = inr (ends_line-append t 10 [] ∙ ten-ends_line)

marker-LineStart :
    (msg : Text) (w : Writer)
    → Inv w
    → (before : Text) × ((marker msg w).printed ≡ before ++ msg) × LineStart before
unfolding marker Inv
marker-LineStart msg w inv = elim (Bool-cases w.at_line_start) [
  | inl e ↦ (w.printed, rw e refl, inv e)
  | inr e ↦ (w.printed ++ (10 ∷ []), rw e refl, newline-LineStart w.printed)
]

-- The calls of a client writer: output of the device, and status lines.
pub data Print : Type 0 where
  output status : Text → Print

unfoldable pub prints : List Print → Writer → Writer
prints [] w = w
prints (output t ∷ ps) w = prints ps (write_out t w)
prints (status msg ∷ ps) w = prints ps (marker msg w)

prints-Inv : (ps : List Print) (w : Writer) → Inv w → Inv (prints ps w)
unfolding prints
prints-Inv [] w inv = inv
prints-Inv (output t ∷ ps) w inv = prints-Inv ps _ (write_out-Inv t w inv)
prints-Inv (status msg ∷ ps) w inv = prints-Inv ps _ (marker-Inv msg w)

new-Inv : Inv new_client_writer
unfolding Inv new_client_writer
new-Inv h = inl refl

-- Whatever has been printed on a new writer, output of the device in any pieces and status lines in
-- any order, the next status line begins a line.
pub marker-own_line :
    (ps : List Print) (msg : Text)
    → (before : Text) × ((marker msg (prints ps new_client_writer)).printed ≡ before ++ msg)
      × LineStart before
marker-own_line ps msg = marker-LineStart msg _ (prints-Inv ps new_client_writer new-Inv)
