-- ===== src/Display.antt =====
-- The display application, applications/morse_display/morse_display.c: which picture a message has,
-- and the calls that `use_leds` makes on the LEDs.
pub mod Frames
pub mod Service
pub mod Unambiguous
pub mod Screen
pub mod Interrupted
pub mod Timing
mod Tests
use micro_morse_chat.Prelude.{
  ℕ, suc, zero, ◌+◌, Bool, true, false, ◌&&◌, List, [], ◌∷◌, Option, none, some, ◌==◌,
  if◌then◌else◌,
}
use micro_morse_chat.Display.Frames.{
  Glyph, clear, letter_a, letter_b, letter_c, letter_d, letter_e, letter_f, letter_g, letter_h,
  letter_i, letter_j, letter_k, letter_l, letter_m, letter_n, letter_o, letter_p, letter_q,
  letter_r, letter_s, letter_t, letter_u, letter_v, letter_w, letter_x, letter_y, letter_z,
  letter_unknown, recording_mode, frame,
}

-- `strcmp` on the bytes before the closing 0: are they the same?
abbrev pub same : List ℕ → List ℕ → Bool
same [] [] = true
same (a ∷ xs) (b ∷ ys) = (a == b) && same xs ys
same _ _ = false

-- The first entry with these bytes.
abbrev pub first {ℓ} : {A : Type ℓ} → List (List ℕ × A) → List ℕ → Option A
first [] morse = none
first ((c, g) ∷ rest) morse = let later = first rest morse in if same morse c then some g else later

-- The tests of `decode_morse`, in order.
abbrev pub letters : List (List ℕ × Glyph)
letters =
    (b'.' ∷ b'-' ∷ [], letter_a)
    ∷ (b'-' ∷ b'.' ∷ b'.' ∷ b'.' ∷ [], letter_b)
    ∷ (b'-' ∷ b'.' ∷ b'-' ∷ b'.' ∷ [], letter_c)
    ∷ (b'-' ∷ b'.' ∷ b'.' ∷ [], letter_d)
    ∷ (b'.' ∷ [], letter_e)
    ∷ (b'.' ∷ b'.' ∷ b'-' ∷ b'.' ∷ [], letter_f)
    ∷ (b'-' ∷ b'-' ∷ b'.' ∷ [], letter_g)
    ∷ (b'.' ∷ b'.' ∷ b'.' ∷ b'.' ∷ [], letter_h)
    ∷ (b'.' ∷ b'.' ∷ [], letter_i)
    ∷ (b'.' ∷ b'-' ∷ b'-' ∷ b'-' ∷ [], letter_j)
    ∷ (b'-' ∷ b'.' ∷ b'-' ∷ [], letter_k)
    ∷ (b'.' ∷ b'-' ∷ b'.' ∷ b'.' ∷ [], letter_l)
    ∷ (b'-' ∷ b'-' ∷ [], letter_m)
    ∷ (b'-' ∷ b'.' ∷ [], letter_n)
    ∷ (b'-' ∷ b'-' ∷ b'-' ∷ [], letter_o)
    ∷ (b'.' ∷ b'-' ∷ b'-' ∷ b'.' ∷ [], letter_p)
    ∷ (b'-' ∷ b'-' ∷ b'.' ∷ b'-' ∷ [], letter_q)
    ∷ (b'.' ∷ b'-' ∷ b'.' ∷ [], letter_r)
    ∷ (b'.' ∷ b'.' ∷ b'.' ∷ [], letter_s)
    ∷ (b'-' ∷ [], letter_t)
    ∷ (b'.' ∷ b'.' ∷ b'-' ∷ [], letter_u)
    ∷ (b'.' ∷ b'.' ∷ b'.' ∷ b'-' ∷ [], letter_v)
    ∷ (b'.' ∷ b'-' ∷ b'-' ∷ [], letter_w)
    ∷ (b'-' ∷ b'.' ∷ b'.' ∷ b'-' ∷ [], letter_x)
    ∷ (b'-' ∷ b'.' ∷ b'-' ∷ b'-' ∷ [], letter_y)
    ∷ (b'-' ∷ b'-' ∷ b'.' ∷ b'.' ∷ [], letter_z)
    ∷ []

abbrev or_unknown : Option Glyph → Glyph
or_unknown none = letter_unknown
or_unknown (some g) = g

-- A null pointer is `none`.
unfoldable pub decode_morse : Option (List ℕ) → Glyph
decode_morse none = clear
decode_morse (some morse) = or_unknown (first letters morse)

pub data LedCall : Type 0 where
  led_on led_off : ℕ → LedCall

abbrev prepend : LedCall → Option (List LedCall) → Option (List LedCall)
prepend c none = none
prepend c (some cs) = some (c ∷ cs)

-- The loop from the LED `i` on, over the rest of the array, for `n` LEDs; `none` is a read behind the
-- array.
abbrev pub show : ℕ → List ℕ → ℕ → Option (List LedCall)
show i fs zero = some []
show i [] (suc n) = none
show i (f ∷ fs) (suc n) = prepend (if f == 0 then led_off i else led_on i) (show (i + 1) fs n)

-- `use_leds` on a board that counts `num_leds` LEDs.
unfoldable pub use_leds : Option (List ℕ) → ℕ → ℕ → Option (List LedCall)
use_leds morse recording num_leds =
    show 0 (frame (if recording == 1 then recording_mode else decode_morse morse)) num_leds
