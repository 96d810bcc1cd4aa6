-- ===== src/Stdio/Words.antt =====
-- Words and strings, read behind other text.
use mathlib.Core.List.{append_assoc}
use micro_morse_chat.Prelude.{
  ℕ, ◌+◌, ◌-◌, ◌≤◌, ◌<◌, ◌≡◌, ◌≢◌, refl, true, false, List, [], ◌∷◌, ◌++◌, some, length, take, drop,
  le→leb, length-append, drop-append, take-all, arith,
}
use micro_morse_chat.Stdio.{
  is_space, skip_space, until_space, scan_word, c_string, advance, snprintf,
}
use micro_morse_chat.Stdio.Decimal.{IsDigits}

abbrev pub All {ℓ} : (ℕ → Type ℓ) → List ℕ → Type ℓ
All P [] = Unit
All P (x ∷ xs) = P x × All P xs

pub All-append {ℓ} : (P : ℕ → Type ℓ) (xs ys : List ℕ) → All P xs → All P ys → All P (xs ++ ys)
All-append P [] ys h k = k
All-append P (x ∷ xs) ys (p, h) k = (p, All-append P xs ys h k)

-- A byte of a word.
abbrev pub IsInk : ℕ → Type 0
IsInk c = (is_space c ≡ false) × (c ≢ 0)

abbrev pub NonZero : ℕ → Type 0
NonZero c = c ≢ 0

pub All-NonZero_ink : (s : List ℕ) → All IsInk s → All NonZero s
All-NonZero_ink [] h = tt
All-NonZero_ink (c ∷ s) h = (h.0.1, All-NonZero_ink s h.1)

pub All-NonZero_digits : (s : List ℕ) → IsDigits s → All NonZero s
All-NonZero_digits [] h = tt
All-NonZero_digits (c ∷ s) h = ((λ e. omega (arith, h.0)), All-NonZero_digits s h.1)

until_space-append :
    (s : List ℕ) (w : ℕ) (rest : List ℕ)
    → All IsInk s
    → is_space w ≡ true
    → until_space (s ++ w ∷ rest) ≡ s
unfolding until_space
until_space-append [] w rest h e = rw e
until_space-append (c ∷ s) w rest h e = rw (h.0.0, until_space-append s w rest h.1 e)

until_space-All : (s : List ℕ) → All IsInk s → until_space s ≡ s
unfolding until_space
until_space-All [] h = refl
until_space-All (c ∷ s) h = rw (h.0.0, until_space-All s h.1)

-- `%s` reads a word that ends at white space.
pub scan_word-append :
    (s : List ℕ) (w : ℕ) (rest : List ℕ)
    → s ≢ []
    → All IsInk s
    → is_space w ≡ true
    → scan_word (s ++ w ∷ rest) ≡ s
unfolding scan_word
scan_word-append [] w rest ne h e = absurd (ne refl)
scan_word-append (c ∷ s) w rest ne h e =
    let kept : skip_space (c ∷ (s ++ w ∷ rest)) ≡ c ∷ (s ++ w ∷ rest) = rw h.0.0 in
    rw kept (until_space-append (c ∷ s) w rest h e)

-- `%s` reads a word that ends with the string.
pub scan_word-All : (s : List ℕ) → All IsInk s → scan_word s ≡ s
unfolding scan_word
scan_word-All [] h = refl
scan_word-All (c ∷ s) h =
    let kept : skip_space (c ∷ s) ≡ c ∷ s = rw h.0.0 in rw kept (until_space-All (c ∷ s) h)

-- One blank in front changes nothing.
pub scan_word_space : (w : ℕ) (s : List ℕ) → is_space w ≡ true → scan_word (w ∷ s) ≡ scan_word s
unfolding scan_word
scan_word_space w s e = rw e

pub c_string-append : (s rest : List ℕ) → All NonZero s → c_string (s ++ 0 ∷ rest) ≡ some s
unfolding c_string
c_string-append [] rest h = refl
c_string-append (c ∷ s) rest h = ground (arith, c_string-append s rest h.1)

pub advance-append : (k : ℕ) (s rest : List ℕ) → length s ≡ k → advance k (s ++ rest) ≡ some rest
unfolding advance
advance-append k s rest e =
    let inside : k ≤ length (s ++ rest) = omega (arith, length-append s rest) in
    rw (le→leb _ _ inside, ← e, drop-append s rest)

-- A text that fits is written whole, with its closing 0.
pub snprintf_fits :
    (buffer : List ℕ) (size : ℕ) (text : List ℕ)
    → length text < size
    → snprintf buffer size text ≡ text ++ 0 ∷ drop (length text + 1) buffer
unfolding snprintf
snprintf_fits buffer size text h =
    let whole : take (size - 1) text ≡ text = take-all (size - 1) text (omega arith) in
    let count : length (text ++ 0 ∷ []) ≡ length text + 1 = length-append text (0 ∷ []) in
    rw (whole, count) (append_assoc text (0 ∷ []) (drop (length text + 1) buffer))
