-- ===== src/Chat/Addresses.antt =====
-- The addresses of applications/morse_chat/morse_chat.c, and the one that `get_messages` prints.
use micro_morse_chat.Prelude.{
  ℕ, ◌+◌, ◌^◌, ◌<◌, ◌≡◌, List, [], ◌∷◌, ◌++◌, some, length, drop, replicate, length-append, arith,
}
use micro_morse_chat.Stdio.{ℤ, pos, decimal, itoa, c_string, snprintf}
use micro_morse_chat.Stdio.Decimal.{decimal-IsDigits, length-decimal}
use micro_morse_chat.Stdio.Words.{
  All, All-append, NonZero, All-NonZero_digits, c_string-append, snprintf_fits,
}

-- `http://3.69.223.241:8000`, where both begin.
abbrev pub server : List ℕ
server =
    b'h' ∷ b't' ∷ b't' ∷ b'p' ∷ b':' ∷ b'/' ∷ b'/' ∷ b'3' ∷ b'.' ∷ b'6' ∷ b'9' ∷ b'.' ∷ b'2' ∷ b'2'
    ∷ b'3' ∷ b'.' ∷ b'2' ∷ b'4' ∷ b'1' ∷ b':' ∷ b'8' ∷ b'0' ∷ b'0' ∷ b'0' ∷ []

abbrev pub users_url : List ℕ
users_url = server ++ b'/' ∷ b'u' ∷ b's' ∷ b'e' ∷ b'r' ∷ b's' ∷ []

abbrev pub messages_url : List ℕ
messages_url = server ++ b'/' ∷ b'm' ∷ b'e' ∷ b's' ∷ b's' ∷ b'a' ∷ b'g' ∷ b'e' ∷ b's' ∷ []

-- The text of the format `%s/%d`.
abbrev pub endpoint_text : ℤ → List ℕ
endpoint_text uid = messages_url ++ b'/' ∷ itoa uid

-- `endpoint`, 128 bytes from `calloc`, behind its `snprintf`.
pub endpoint : ℤ → List ℕ
endpoint uid = snprintf (replicate 128 0) 128 (endpoint_text uid)

-- The string in the array is the whole text, for a user number of at most ten digits.
pub endpoint_string :
    (u : ℕ) → u < 10 ^ 10 → c_string (endpoint (pos u)) ≡ some (endpoint_text (pos u))
unfolding endpoint itoa
endpoint_string u small =
    let text = endpoint_text (pos u) in
    let fits : length text < 128 =
      omega (arith, length-append messages_url (b'/' ∷ decimal u), length-decimal 9 u small) in
    let shown : All NonZero text =
      All-append NonZero messages_url (b'/' ∷ decimal u) (omega arith)
        ((omega arith), All-NonZero_digits (decimal u) (decimal-IsDigits u)) in
    rw (snprintf_fits (replicate 128 0) 128 text fits)
      (c_string-append text (drop (length text + 1) (replicate 128 0)) shown)
