-- ===== src/Stdio/Shrinking.antt =====
-- What the scanning functions leave is no longer than what they were given.
use micro_morse_chat.Prelude.{
  ℕ, ◌+◌, ◌*◌, ◌-◌, ◌≤◌, ◌<◌, ◌≡◌, inl, inr, List, [], ◌∷◌, some, Option-cases, Bool-cases, ◌==◌,
  length, arith,
}
use micro_morse_chat.Stdio.{
  ℤ, pos, negated, is_digit, skip_space, scan_digits, scan_unsigned, scan_signed, scan_int,
  until_space, scan_word, c_string,
}

length-skip_space : (s : List ℕ) → length (skip_space s) ≤ length s
unfolding skip_space
length-skip_space [] = omega arith
length-skip_space (c ∷ s) = ground (arith, length-skip_space s)

length-until_space : (s : List ℕ) → length (until_space s) ≤ length s
unfolding until_space
length-until_space [] = omega arith
length-until_space (c ∷ s) = ground (arith, length-until_space s)

pub length-scan_word : (s : List ℕ) → length (scan_word s) ≤ length s
unfolding scan_word
length-scan_word s = omega (arith, length-until_space (skip_space s), length-skip_space s)

length-scan_digits : (s : List ℕ) (n : ℕ) → length (scan_digits s n).1 ≤ length s
unfolding scan_digits
length-scan_digits [] n = omega arith
length-scan_digits (c ∷ s) n = ground (arith, length-scan_digits s (n * 10 + (c - b'0')))

pub length-c_string : (s t : List ℕ) → c_string s ≡ some t → length t < length s
unfolding c_string
length-c_string [] t e = ground arith
length-c_string (c ∷ s) t e = elim (Option-cases (c_string s)) [
  | inl open_end ↦ ground arith
  | inr (r, closed) ↦ ground (arith, length-c_string s r closed)
]

length-scan_unsigned :
    (s rest : List ℕ) (sign : ℕ → ℤ) (n : ℤ)
    → scan_unsigned s sign ≡ some (n, rest)
    → length rest < length s
unfolding scan_unsigned scan_digits
length-scan_unsigned [] rest sign n e = ground arith
length-scan_unsigned (c ∷ s) rest sign n e = elim (Bool-cases (is_digit c)) [
  | inl digit ↦ ground (arith, length-scan_digits s (0 * 10 + (c - b'0')))
  | inr other ↦ absurd (ground arith)
]

length-scan_signed :
    (s rest : List ℕ) (n : ℤ) → scan_signed s ≡ some (n, rest) → length rest < length s
unfolding scan_signed
length-scan_signed [] rest n e = ground arith
length-scan_signed (c ∷ s) rest n e = elim (Bool-cases (c == b'-')) [
  | inl minus ↦ ground (arith, length-scan_unsigned s rest negated n)
  | inr other ↦ elim (Bool-cases (c == b'+')) [
    | inl plus ↦ ground (arith, length-scan_unsigned s rest pos n)
    | inr neither ↦ ground (arith, length-scan_unsigned (c ∷ s) rest pos n)
  ]
]

pub length-scan_int :
    (s rest : List ℕ) (n : ℤ) → scan_int s ≡ some (n, rest) → length rest < length s
unfolding scan_int
length-scan_int s rest n e =
    omega (arith, length-scan_signed (skip_space s) rest n e, length-skip_space s)
