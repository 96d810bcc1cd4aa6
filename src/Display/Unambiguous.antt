-- ===== src/Display/Unambiguous.antt =====
-- What applications/morse_display/morse_display.c shows: different letters are different pictures.
use micro_morse_chat.Prelude.{
  ℕ, suc, zero, ◌+◌, ◌≡◌, ◌≤◌, length, refl, List, [], ◌∷◌, Option, none, some, ◌==◌, if◌then◌else◌,
  arith,
}
use micro_morse_chat.Display.Frames.{
  Glyph, clear, letter_a, letter_b, letter_c, letter_d, letter_e, letter_f, letter_g, letter_h,
  letter_i, letter_j, letter_k, letter_l, letter_m, letter_n, letter_o, letter_p, letter_q,
  letter_r, letter_s, letter_t, letter_u, letter_v, letter_w, letter_x, letter_y, letter_z,
  letter_unknown, recording_mode, frame,
}
use micro_morse_chat.Display.{first, decode_morse, LedCall, led_on, led_off, show, use_leds}

-- The bytes that the tests compare with.
abbrev pub code : Glyph → List ℕ
code letter_a = b'.' ∷ b'-' ∷ []
code letter_b = b'-' ∷ b'.' ∷ b'.' ∷ b'.' ∷ []
code letter_c = b'-' ∷ b'.' ∷ b'-' ∷ b'.' ∷ []
code letter_d = b'-' ∷ b'.' ∷ b'.' ∷ []
code letter_e = b'.' ∷ []
code letter_f = b'.' ∷ b'.' ∷ b'-' ∷ b'.' ∷ []
code letter_g = b'-' ∷ b'-' ∷ b'.' ∷ []
code letter_h = b'.' ∷ b'.' ∷ b'.' ∷ b'.' ∷ []
code letter_i = b'.' ∷ b'.' ∷ []
code letter_j = b'.' ∷ b'-' ∷ b'-' ∷ b'-' ∷ []
code letter_k = b'-' ∷ b'.' ∷ b'-' ∷ []
code letter_l = b'.' ∷ b'-' ∷ b'.' ∷ b'.' ∷ []
code letter_m = b'-' ∷ b'-' ∷ []
code letter_n = b'-' ∷ b'.' ∷ []
code letter_o = b'-' ∷ b'-' ∷ b'-' ∷ []
code letter_p = b'.' ∷ b'-' ∷ b'-' ∷ b'.' ∷ []
code letter_q = b'-' ∷ b'-' ∷ b'.' ∷ b'-' ∷ []
code letter_r = b'.' ∷ b'-' ∷ b'.' ∷ []
code letter_s = b'.' ∷ b'.' ∷ b'.' ∷ []
code letter_t = b'-' ∷ []
code letter_u = b'.' ∷ b'.' ∷ b'-' ∷ []
code letter_v = b'.' ∷ b'.' ∷ b'.' ∷ b'-' ∷ []
code letter_w = b'.' ∷ b'-' ∷ b'-' ∷ []
code letter_x = b'-' ∷ b'.' ∷ b'.' ∷ b'-' ∷ []
code letter_y = b'-' ∷ b'.' ∷ b'-' ∷ b'-' ∷ []
code letter_z = b'-' ∷ b'-' ∷ b'.' ∷ b'.' ∷ []
code _ = []

abbrev Coded : List (List ℕ × Glyph) → Type 0
Coded [] = Unit
Coded ((c, g) ∷ rest) = (c ≡ code g) × Coded rest

abbrev picture : List LedCall → List ℕ
picture [] = []
picture (led_on i ∷ cs) = 1 ∷ picture cs
picture (led_off i ∷ cs) = 0 ∷ picture cs

abbrev pictures : List (List ℕ × Glyph)
pictures =
    (frame clear, clear)
    ∷ (frame letter_a, letter_a)
    ∷ (frame letter_b, letter_b)
    ∷ (frame letter_c, letter_c)
    ∷ (frame letter_d, letter_d)
    ∷ (frame letter_e, letter_e)
    ∷ (frame letter_f, letter_f)
    ∷ (frame letter_g, letter_g)
    ∷ (frame letter_h, letter_h)
    ∷ (frame letter_i, letter_i)
    ∷ (frame letter_j, letter_j)
    ∷ (frame letter_k, letter_k)
    ∷ (frame letter_l, letter_l)
    ∷ (frame letter_m, letter_m)
    ∷ (frame letter_n, letter_n)
    ∷ (frame letter_o, letter_o)
    ∷ (frame letter_p, letter_p)
    ∷ (frame letter_q, letter_q)
    ∷ (frame letter_r, letter_r)
    ∷ (frame letter_s, letter_s)
    ∷ (frame letter_t, letter_t)
    ∷ (frame letter_u, letter_u)
    ∷ (frame letter_v, letter_v)
    ∷ (frame letter_w, letter_w)
    ∷ (frame letter_x, letter_x)
    ∷ (frame letter_y, letter_y)
    ∷ (frame letter_z, letter_z)
    ∷ (frame letter_unknown, letter_unknown)
    ∷ (frame recording_mode, recording_mode)
    ∷ []

abbrev read_back : Option (List LedCall) → Option Glyph
read_back none = none
read_back (some cs) = first pictures (picture cs)

length-frame : (g : Glyph) → length (frame g) ≡ 25
length-frame clear = refl
length-frame _ = refl

show_total :
    (i : ℕ) (fs : List ℕ) (n : ℕ)
    → n ≤ length fs
    → (calls : List LedCall) × (show i fs n ≡ some calls) × (length calls ≡ n)
show_total i fs zero h = ([], refl, refl)
show_total i [] (suc n) h = absurd (omega arith)
show_total i (f ∷ fs) (suc n) h =
    let (calls, e, l) = show_total (i + 1) fs n (omega arith) in
    ((if f == 0 then led_off i else led_on i) ∷ calls, rw e, omega (arith, l))

-- On at most 25 LEDs, whatever the message and the mode, `use_leds` stays inside the array of its
-- picture and sets as many LEDs as the board has.
pub use_leds-length :
    (morse : Option (List ℕ)) (recording n : ℕ)
    → n ≤ 25
    → (calls : List LedCall) × (use_leds morse recording n ≡ some calls) × (length calls ≡ n)
unfolding use_leds
use_leds-length morse recording n h =
    let g = if recording == 1 then recording_mode else decode_morse morse in
    show_total 0 (frame g) n (omega (arith, length-frame g))
