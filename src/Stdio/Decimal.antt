-- ===== src/Stdio/Decimal.antt =====
-- A printed number is read back.
use mathlib.Core.List.{cons-ne-nil}
use native.Mathlib.Nat.{pow-suc, one-le-pow}
use micro_morse_chat.Prelude.{
  ℕ, zero, suc, ◌+◌, ◌*◌, ◌/◌, ◌%◌, ◌^◌, ◌≤◌, ◌<◌, ◌≡◌, ◌≢◌, refl, ◌∙◌, inl, inr, true, false, List,
  [], ◌∷◌, ◌++◌, Bool-cases, some, ◌==◌, length, arith,
}
use micro_morse_chat.Stdio.{
  pos, emit, decimal, is_digit, is_space, scan_digits, scan_unsigned, scan_int,
}

-- Nothing in front of `rest` belongs to a number before it.
abbrev pub Ends : List ℕ → Type 0
Ends [] = Unit
Ends (c ∷ s) = is_digit c ≡ false

abbrev pub IsDigits : List ℕ → Type 0
IsDigits [] = Unit
IsDigits (c ∷ s) = ((b'0' ≤ c) × (c ≤ b'9')) × IsDigits s

emit-append : (fuel n : ℕ) (out rest : List ℕ) → emit fuel n out ++ rest ≡ emit fuel n (out ++ rest)
unfolding emit
emit-append zero n out rest = refl
emit-append (suc fuel) n out rest =
    ground (arith, emit-append fuel (n / 10) ((b'0' + n % 10) ∷ out) rest)

scan_digits-Ends : (rest : List ℕ) (n : ℕ) → Ends rest → scan_digits rest n ≡ (n, rest)
unfolding scan_digits
scan_digits-Ends [] n h = refl
scan_digits-Ends (c ∷ s) n h = rw h

scan_last :
    (n : ℕ) (out : List ℕ) → scan_digits ((b'0' + n % 10) ∷ out) (n / 10) ≡ scan_digits out n
unfolding scan_digits
scan_last n out = ground arith

scan_digits-emit :
    (fuel n : ℕ) (out : List ℕ) → n ≤ fuel → scan_digits (emit fuel n out) 0 ≡ scan_digits out n
unfolding emit
scan_digits-emit zero n out h = let e : n ≡ 0 = omega arith in rw e
scan_digits-emit (suc fuel) n out h = elim (Bool-cases (n == 0)) [
  | inl empty ↦ let e : n ≡ 0 = ground arith in rw e
  | inr more ↦
      rw more
        (scan_digits-emit fuel (n / 10) ((b'0' + n % 10) ∷ out) (ground arith) ∙ scan_last n out)
]

emit-IsDigits : (fuel n : ℕ) (out : List ℕ) → IsDigits out → IsDigits (emit fuel n out)
unfolding emit
emit-IsDigits zero n out h = h
emit-IsDigits (suc fuel) n out h =
    let digit : (b'0' ≤ b'0' + n % 10) × (b'0' + n % 10 ≤ b'9') = omega arith in
    let rest = emit-IsDigits fuel (n / 10) ((b'0' + n % 10) ∷ out) (digit, h) in
    elim (Bool-cases (n == 0)) [ inl empty ↦ rw empty h | inr more ↦ rw more rest ]

pub decimal-IsDigits : (n : ℕ) → IsDigits (decimal n)
unfolding decimal
decimal-IsDigits n = elim (Bool-cases (n == 0)) [
  | inl empty ↦ rw empty (omega arith)
  | inr more ↦ rw more (emit-IsDigits n n [] tt)
]

length-emit : (k fuel n : ℕ) (out : List ℕ) → n < 10 ^ k → length (emit fuel n out) ≤ k + length out
unfolding emit
length-emit k zero n out h = omega arith
length-emit zero (suc fuel) n out h = let e : n ≡ 0 = omega arith in rw e (omega arith)
length-emit (suc k) (suc fuel) n out h =
    let small : n < 10 * 10 ^ k = grind (arith, pow-suc 10 k) in
    let shorter : n / 10 < 10 ^ k = omega arith in
    let shown = length-emit k fuel (n / 10) ((b'0' + n % 10) ∷ out) shorter in ground arith

-- A number below 10 ^ k is printed with at most k digits, and 0 with one.
pub length-decimal : (k n : ℕ) → n < 10 ^ suc k → length (decimal n) ≤ suc k
unfolding decimal
length-decimal k n h = elim (Bool-cases (n == 0)) [
  | inl empty ↦ rw empty (omega arith)
  | inr more ↦ rw more (omega (arith, length-emit (suc k) n n [] h))
]

length-emit_out : (fuel n : ℕ) (out : List ℕ) → length out ≤ length (emit fuel n out)
unfolding emit
length-emit_out zero n out = omega arith
length-emit_out (suc fuel) n out =
    ground (arith, length-emit_out fuel (n / 10) ((b'0' + n % 10) ∷ out))

length-emit_min :
    (k fuel n : ℕ) (out : List ℕ)
    → n ≤ fuel
    → 10 ^ k ≤ n
    → suc k + length out ≤ length (emit fuel n out)
unfolding emit
length-emit_min k zero n out enough h =
    let positive : 1 ≤ 10 ^ k = one-le-pow k 10 (omega arith) in absurd (omega arith)
length-emit_min zero (suc fuel) n out enough h =
    ground (arith, length-emit_out fuel (n / 10) ((b'0' + n % 10) ∷ out))
length-emit_min (suc k) (suc fuel) n out enough h =
    let positive : 1 ≤ 10 ^ k = one-le-pow k 10 (omega arith) in
    let large : 10 * 10 ^ k ≤ n = grind (arith, pow-suc 10 k) in
    let shown =
      length-emit_min k fuel (n / 10) ((b'0' + n % 10) ∷ out) (omega arith) (omega arith) in
    ground arith

-- A number from 10 ^ k on is printed with more than k digits.
pub length-decimal_min : (k n : ℕ) → 10 ^ k ≤ n → k < length (decimal n)
unfolding decimal
length-decimal_min k n h = elim (Bool-cases (n == 0)) [
  | inl empty ↦ let positive : 1 ≤ 10 ^ k = one-le-pow k 10 (omega arith) in absurd (ground arith)
  | inr more ↦ rw more (omega (arith, length-emit_min k n n [] (omega arith) h))
]

scan_digits-decimal :
    (n : ℕ) (rest : List ℕ) → Ends rest → scan_digits (decimal n ++ rest) 0 ≡ (n, rest)
unfolding decimal
scan_digits-decimal n rest h = elim (Bool-cases (n == 0)) [
  | inl empty ↦
      let e : n ≡ 0 = ground arith in
      let one : scan_digits (b'0' ∷ rest) 0 ≡ (0, rest) =
        unfold scan_digits in scan_digits-Ends rest 0 h in
      rw e one
  | inr more ↦
      rw (more, emit-append n n [] rest)
        (scan_digits-emit n n rest (omega arith) ∙ scan_digits-Ends rest n h)
]

emit-ne-nil : (fuel n : ℕ) (out : List ℕ) → out ≢ [] → emit fuel n out ≢ []
unfolding emit
emit-ne-nil zero n out h = h
emit-ne-nil (suc fuel) n out h =
    ground (arith, emit-ne-nil fuel (n / 10) ((b'0' + n % 10) ∷ out) (cons-ne-nil _ _))

pub decimal-ne-nil : (n : ℕ) → decimal n ≢ []
unfolding decimal emit
decimal-ne-nil zero = ground arith
decimal-ne-nil (suc n) =
    ground (arith, emit-ne-nil n (suc n / 10) ((b'0' + suc n % 10) ∷ []) (cons-ne-nil _ _))

scan_int-digits :
    (d rest : List ℕ) (n : ℕ) (r : List ℕ)
    → IsDigits d
    → d ≢ []
    → scan_digits (d ++ rest) 0 ≡ (n, r)
    → scan_int (d ++ rest) ≡ some (pos n, r)
unfolding scan_int scan_unsigned
scan_int-digits [] rest n r h ne e = absurd (ne refl)
scan_int-digits (c ∷ d) rest n r ((low, high), h) ne e =
    let no_space : is_space c ≡ false = ground arith in
    let digit : is_digit c ≡ true = ground arith in
    let minus : (c == b'-') ≡ false = ground arith in
    let plus : (c == b'+') ≡ false = ground arith in ground arith

-- `sscanf` with `%d` reads back what `itoa` prints, whatever stands behind it but a digit.
pub scan_int-decimal :
    (n : ℕ) (rest : List ℕ) → Ends rest → scan_int (decimal n ++ rest) ≡ some (pos n, rest)
scan_int-decimal n rest h =
    scan_int-digits (decimal n) rest n rest (decimal-IsDigits n) (decimal-ne-nil n)
      (scan_digits-decimal n rest h)
