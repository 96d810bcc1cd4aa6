-- ===== src/Chat/Overflow.antt =====
-- The five bytes that `parse_data` of applications/morse_chat/morse_chat.c has for the text of a number.
use mathlib.Core.List.{append_assoc}
use native.Mathlib.Decide.{dec_lt}
use micro_morse_chat.Prelude.{
  ℕ, ◌+◌, ◌≤◌, ◌<◌, ◌≡◌, ◌≢◌, ◌↔◌, ◌⊎◌, inl, inr, true, List, [], ◌∷◌, ◌++◌, none, some, length,
  arith,
}
use micro_morse_chat.Stdio.{ℤ, pos, decimal, itoa, is_space, advance}
use micro_morse_chat.Stdio.Decimal.{decimal-IsDigits, scan_int-decimal, length-decimal_min}
use micro_morse_chat.Stdio.Words.{
  All, All-append, NonZero, All-NonZero_digits, c_string-append, advance-append,
}
use micro_morse_chat.Chat.{Message, number_text, read_messages, scan_count, parse_data}
use micro_morse_chat.Chat.Parse.{
  AllSendable, AllReadable, line, lines, reply, number_text-decimal, lines-NonZero,
  scan_message-line, length-line, parse_data-count, parse_data-reply,
}

-- One of the messages is from a user whose number has five digits or more.
abbrev pub HasLong : List Message → Type 0
HasLong [] = ⊥
HasLong (m ∷ ms) = ((u : ℕ) × (m.uid ≡ pos u) × (10000 ≤ u)) ⊎ HasLong ms

number_text-long : (n : ℕ) → 10000 ≤ n → number_text (pos n) ≡ none
unfolding number_text itoa
number_text-long n h =
    let digits : 4 < length (decimal n) = length-decimal_min 4 n h in ground arith

sendable_or_long : (ms : List Message) → AllReadable ms → AllSendable ms ⊎ HasLong ms
sendable_or_long [] h = inl tt
sendable_or_long (m ∷ ms) (first, later) = elim (dec_lt first.sender 10000) [
  | no large ↦ inr (inl (first.sender, first.sender_eq, omega arith))
  | yes small ↦ elim (sendable_or_long ms later) [
    | inr long ↦ inr (inr long)
    | inl sendable ↦ inl (
      record {
        user = first.sender;
        user_eq = first.sender_eq;
        user_lt = small;
        morse_ne = first.word_ne;
        morse_ink = first.word_ink;
        morse_lt = first.word_lt;
      },
      sendable,
    )
  ]
]

read_messages-long :
    (w : ℕ) (ms : List Message) (rest : List ℕ)
    → is_space w ≡ true
    → AllReadable ms
    → HasLong ms
    → read_messages (length ms) (lines w ms ++ 0 ∷ rest) ≡ none
unfolding read_messages itoa
read_messages-long w [] rest e h long = absurd long
read_messages-long w (m ∷ ms) rest e h (inl (u, same, large)) =
    let string = c_string-append (lines w (m ∷ ms)) rest (lines-NonZero w (m ∷ ms) e h) in
    let first = scan_message-line w m (lines w ms) e h.0 in
    let text : number_text m.uid ≡ none = rw same (number_text-long u large) in
    rw (string, first, text)
read_messages-long w (m ∷ ms) rest e h (inr long) =
    let string = c_string-append (lines w (m ∷ ms)) rest (lines-NonZero w (m ∷ ms) e h) in
    let first = scan_message-line w m (lines w ms) e h.0 in
    let later = read_messages-long w ms rest e h.1 long in
    elim (dec_lt h.0.sender 10000) [
      | no large ↦
          let text : number_text m.uid ≡ none =
            rw h.0.sender_eq (number_text-long h.0.sender (omega arith)) in
          rw (string, first, text)
      | yes small ↦
          let text : number_text m.uid ≡ some (itoa m.uid) =
            rw h.0.sender_eq (number_text-decimal h.0.sender small) in
          let next : advance (length m.morse + length (itoa m.uid) + 2)
                (lines w (m ∷ ms) ++ 0 ∷ rest)
              ≡ some (lines w ms ++ 0 ∷ rest) =
            rw (append_assoc (line w m) (lines w ms) (0 ∷ rest))
              (advance-append _ (line w m) (lines w ms ++ 0 ∷ rest) (length-line w m)) in
          rw (string, first, text, next, later)
    ]

parse_data-long_count :
    (w n : ℕ) (body rest : List ℕ) (before : ℤ)
    → is_space w ≡ true
    → 10000 ≤ n
    → All NonZero body
    → parse_data (decimal n ++ w ∷ body ++ 0 ∷ rest) before ≡ none
unfolding parse_data
parse_data-long_count w n body rest before e large inked =
    let visible : w ≢ 0 = ground arith in
    let string = c_string-append (decimal n ++ w ∷ body) rest (
      All-append NonZero (decimal n) (w ∷ body)
        (All-NonZero_digits (decimal n) (decimal-IsDigits n)) (visible, inked)) in
    let count = scan_int-decimal n (w ∷ body) (ground arith) in
    let counted : scan_count (decimal n ++ w ∷ body) before ≡ pos n = rw (count, scan_count) in
    rw string (rw (counted, number_text-long n large))

parse_data-long :
    (w : ℕ) (ms : List Message) (rest : List ℕ) (before : ℤ)
    → is_space w ≡ true
    → AllReadable ms
    → (10000 ≤ length ms) ⊎ HasLong ms
    → parse_data (reply w ms ++ 0 ∷ rest) before ≡ none
parse_data-long w ms rest before e h (inl many) =
    parse_data-long_count w (length ms) (lines w ms) rest before e many (lines-NonZero w ms e h)
parse_data-long w ms rest before e h (inr long) = elim (dec_lt (length ms) 10000) [
  | no many ↦
      parse_data-long_count w (length ms) (lines w ms) rest before e (omega arith)
        (lines-NonZero w ms e h)
  | yes few ↦ rw (
    parse_data-count w (length ms) (lines w ms) rest before e few (lines-NonZero w ms e h),
    read_messages-long w ms rest e h long,
  )
]

-- A reply in whose buffer a 0 and anything else follows, of messages each with a word of 1 to 127 bytes,
-- none of them 0 or white space, and separated by one byte of white space: `parse_data` makes an access
-- outside its arrays exactly when there are 10000 messages or more, or one of them is from a user whose
-- number is 10000 or more.
pub parse_data-overflows_iff :
    (w : ℕ) (ms : List Message) (rest : List ℕ) (before : ℤ)
    → is_space w ≡ true
    → AllReadable ms
    → (parse_data (reply w ms ++ 0 ∷ rest) before ≡ none) ↔ ((10000 ≤ length ms) ⊎ HasLong ms)
parse_data-overflows_iff w ms rest before e h = (forth, parse_data-long w ms rest before e h)
  where
    forth : parse_data (reply w ms ++ 0 ∷ rest) before ≡ none → (10000 ≤ length ms) ⊎ HasLong ms
    forth failed = elim (dec_lt (length ms) 10000) [
      | no many ↦ inl (omega arith)
      | yes few ↦ elim (sendable_or_long ms h) [
        | inr long ↦ inr long
        | inl sendable ↦
            let parsed = parse_data-reply w ms rest before e few sendable in absurd (ground arith)
      ]
    ]
