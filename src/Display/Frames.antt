-- ===== src/Display/Frames.antt =====
-- The pictures of applications/morse_display/morse_display.h: 25 LEDs, row by row.
use micro_morse_chat.Prelude.{ℕ, List, [], ◌∷◌, ◌++◌}

pub data Glyph : Type 0 where
  clear : Glyph
  letter_a letter_b letter_c letter_d letter_e letter_f letter_g letter_h letter_i : Glyph
  letter_j letter_k letter_l letter_m letter_n letter_o letter_p letter_q letter_r : Glyph
  letter_s letter_t letter_u letter_v letter_w letter_x letter_y letter_z : Glyph
  letter_unknown recording_mode : Glyph

abbrev row : ℕ → ℕ → ℕ → ℕ → ℕ → List ℕ
row a b c d e = a ∷ b ∷ c ∷ d ∷ e ∷ []

abbrev grid : List ℕ → List ℕ → List ℕ → List ℕ → List ℕ → List ℕ
grid p q r s t = p ++ (q ++ (r ++ (s ++ t)))

-- The array of each name.
abbrev pub frame : Glyph → List ℕ
frame clear = grid (row 0 0 0 0 0) (row 0 0 0 0 0) (row 0 0 0 0 0) (row 0 0 0 0 0) (row 0 0 0 0 0)
frame letter_a =
    grid (row 0 0 1 0 0) (row 0 1 0 1 0) (row 1 1 1 1 1) (row 1 0 0 0 1) (row 1 0 0 0 1)
frame letter_b =
    grid (row 0 1 1 1 1) (row 0 1 0 1 0) (row 0 1 1 0 0) (row 0 1 0 1 0) (row 0 1 1 1 1)
frame letter_c =
    grid (row 1 1 1 1 1) (row 1 0 0 0 0) (row 1 0 0 0 0) (row 1 0 0 0 0) (row 1 1 1 1 1)
frame letter_d =
    grid (row 1 1 1 0 0) (row 1 0 0 1 0) (row 1 0 0 1 0) (row 1 0 0 1 0) (row 1 1 1 0 0)
frame letter_e =
    grid (row 1 1 1 1 0) (row 1 0 0 0 0) (row 1 1 1 1 0) (row 1 0 0 0 0) (row 1 1 1 1 0)
frame letter_f =
    grid (row 1 1 1 1 0) (row 1 0 0 0 0) (row 1 1 1 0 0) (row 1 0 0 0 0) (row 1 0 0 0 0)
frame letter_g =
    grid (row 1 1 1 1 1) (row 1 0 0 0 0) (row 1 0 1 1 1) (row 1 0 0 0 1) (row 1 1 1 1 1)
frame letter_h =
    grid (row 1 0 0 0 1) (row 1 0 0 0 1) (row 1 1 1 1 1) (row 1 0 0 0 1) (row 1 0 0 0 1)
frame letter_i =
    grid (row 0 0 1 0 0) (row 0 0 0 0 0) (row 0 0 1 0 0) (row 0 0 1 0 0) (row 0 0 1 0 0)
frame letter_j =
    grid (row 0 0 0 1 0) (row 0 0 0 1 0) (row 0 0 0 1 0) (row 0 1 0 1 0) (row 0 1 1 1 0)
frame letter_k =
    grid (row 0 1 0 0 1) (row 0 1 0 1 0) (row 0 1 1 0 0) (row 0 1 0 1 0) (row 0 1 0 0 1)
frame letter_l =
    grid (row 0 1 0 0 0) (row 0 1 0 0 0) (row 0 1 0 0 0) (row 0 1 0 0 0) (row 0 1 1 1 1)
frame letter_m =
    grid (row 1 1 0 1 1) (row 1 0 0 0 1) (row 1 0 1 0 1) (row 1 0 0 0 1) (row 1 0 0 0 1)
frame letter_n =
    grid (row 0 1 0 0 1) (row 0 1 1 0 1) (row 0 1 0 1 1) (row 0 1 0 0 1) (row 0 1 0 0 1)
frame letter_o =
    grid (row 0 0 1 0 0) (row 0 1 0 1 0) (row 1 1 0 1 1) (row 0 1 0 1 0) (row 0 0 1 0 0)
frame letter_p =
    grid (row 0 1 1 1 0) (row 0 1 0 1 0) (row 0 1 1 1 0) (row 0 1 0 0 0) (row 0 1 0 0 0)
frame letter_q =
    grid (row 0 0 1 0 0) (row 0 1 0 1 0) (row 0 1 0 1 0) (row 0 1 0 1 0) (row 0 0 1 1 1)
frame letter_r =
    grid (row 0 1 1 1 0) (row 0 1 0 1 0) (row 0 1 1 1 0) (row 0 1 0 0 0) (row 0 1 0 1 0)
frame letter_s =
    grid (row 0 1 1 1 0) (row 0 1 0 0 0) (row 0 1 1 1 0) (row 0 0 0 1 0) (row 0 1 1 1 0)
frame letter_t =
    grid (row 1 1 1 1 1) (row 0 0 1 0 0) (row 0 0 1 0 0) (row 0 0 1 0 0) (row 0 0 1 0 0)
frame letter_u =
    grid (row 0 1 0 1 0) (row 0 1 0 1 0) (row 0 1 0 1 0) (row 0 1 0 1 0) (row 0 1 1 1 0)
frame letter_v =
    grid (row 1 0 0 0 1) (row 1 0 0 0 1) (row 0 1 0 1 0) (row 0 0 1 0 0) (row 0 0 1 0 0)
frame letter_w =
    grid (row 1 0 0 0 1) (row 1 0 0 0 1) (row 1 0 1 0 1) (row 0 0 1 0 1) (row 0 1 0 1 0)
frame letter_x =
    grid (row 1 0 0 0 1) (row 0 1 0 1 0) (row 0 0 1 0 0) (row 0 1 0 1 0) (row 1 0 0 0 1)
frame letter_y =
    grid (row 1 0 0 0 1) (row 0 1 0 1 0) (row 0 0 1 0 0) (row 0 0 1 0 0) (row 0 0 1 0 0)
frame letter_z =
    grid (row 1 1 1 1 1) (row 0 0 0 1 0) (row 0 0 1 0 0) (row 0 1 0 0 0) (row 1 1 1 1 1)
frame letter_unknown =
    grid (row 0 0 1 0 0) (row 0 1 0 1 0) (row 0 0 0 1 0) (row 0 0 1 0 0) (row 0 0 1 0 0)
frame recording_mode =
    grid (row 1 1 1 1 1) (row 1 0 0 0 1) (row 1 0 1 0 1) (row 1 0 0 0 1) (row 1 1 1 1 1)
