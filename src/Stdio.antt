-- ===== src/Stdio.antt =====
-- The functions of the C standard library that the applications call on text: `itoa`, `sscanf` with
-- `%d` and `%s`, `snprintf`, and the end of a string. Bytes are numbers. A pointer into an array is the
-- list of the bytes from there to the end of the array; `none` is a read or a write past the end,
-- which has no defined result in C. An `int` is an integer of any size.
pub mod Decimal
pub mod Words
pub mod Shrinking
use micro_morse_chat.Prelude.{
  ℕ, zero, suc, ◌+◌, ◌-◌, ◌*◌, ◌/◌, ◌%◌, Bool, true, false, ◌&&◌, ◌||◌, List, [], ◌∷◌, ◌++◌, Option,
  none, some, ltb, leb, ◌==◌, if◌then◌else◌, length, take, drop,
}

-- `negsuc n` is -(n + 1).
pub data ℤ : Type 0 where
  pos : ℕ → ℤ
  negsuc : ℕ → ℤ

infixl 5 ◌>>=◌
abbrev pub ◌>>=◌ {ℓ κ} : {A : Type ℓ} {B : Type κ} → Option A → (A → Option B) → Option B
none >>= f = none
some a >>= f = f a

-- The digits of `n` in front of `out`; each round takes the last digit, and `n` rounds are enough.
pub emit : ℕ → ℕ → List ℕ → List ℕ
emit zero n out = out
emit (suc fuel) n out =
    let rest = emit fuel (n / 10) ((b'0' + n % 10) ∷ out) in if n == 0 then out else rest

pub decimal : ℕ → List ℕ
decimal n = if n == 0 then b'0' ∷ [] else emit n n []

-- `itoa(value, str, 10)`, and what `%d` prints.
unfoldable pub itoa : ℤ → List ℕ
unfolding decimal emit
itoa (pos n) = decimal n
itoa (negsuc n) = b'-' ∷ decimal (n + 1)

abbrev pub is_digit : ℕ → Bool
is_digit c = leb b'0' c && leb c b'9'

-- `isspace`: the blank, and the codes from tab to carriage return.
abbrev pub is_space : ℕ → Bool
is_space c = (c == b' ') || (leb 9 c && leb c 13)

pub skip_space : List ℕ → List ℕ
skip_space [] = []
skip_space (c ∷ s) = let rest = skip_space s in if is_space c then rest else c ∷ s

-- All digits in front, with the value before them.
pub scan_digits : List ℕ → ℕ → ℕ × List ℕ
scan_digits [] n = (n, [])
scan_digits (c ∷ s) n =
    let rest = scan_digits s (n * 10 + (c - b'0')) in if is_digit c then rest else (n, c ∷ s)

abbrev pub negated : ℕ → ℤ
negated zero = pos 0
negated (suc n) = negsuc n

-- One digit at least.
pub scan_unsigned : List ℕ → (ℕ → ℤ) → Option (ℤ × List ℕ)
unfolding scan_digits
scan_unsigned [] sign = none
scan_unsigned (c ∷ s) sign =
    if is_digit c then (let (n, rest) = scan_digits (c ∷ s) 0 in some (sign n, rest)) else none

pub scan_signed : List ℕ → Option (ℤ × List ℕ)
unfolding scan_unsigned
scan_signed [] = none
scan_signed (c ∷ s) =
    if c == b'-'
    then scan_unsigned s negated
    else if c == b'+'
    then scan_unsigned s pos
    else scan_unsigned (c ∷ s) pos

-- `%d`: the number and the text behind it.
unfoldable pub scan_int : List ℕ → Option (ℤ × List ℕ)
unfolding skip_space scan_signed
scan_int s = scan_signed (skip_space s)

pub until_space : List ℕ → List ℕ
until_space [] = []
until_space (c ∷ s) = let rest = until_space s in if is_space c then [] else c ∷ rest

-- `%s`: the next word; empty where there is none.
unfoldable pub scan_word : List ℕ → List ℕ
unfolding skip_space until_space
scan_word s = until_space (skip_space s)

-- The bytes of the string at a pointer.
unfoldable pub c_string : List ℕ → Option (List ℕ)
c_string [] = none
c_string (c ∷ s) =
    let rest = c_string s in if c == 0 then some [] else (do cs ← rest; some (c ∷ cs))

-- `pointer + k`, at most one past the end.
unfoldable pub advance : ℕ → List ℕ → Option (List ℕ)
advance k pointer = if leb k (length pointer) then some (drop k pointer) else none

-- `snprintf(buffer, size, …)` for the text that the format gives: what fits, and a closing 0.
unfoldable pub snprintf : List ℕ → ℕ → List ℕ → List ℕ
snprintf buffer size text =
    let written = take (size - 1) text ++ 0 ∷ [] in written ++ drop (length written) buffer
