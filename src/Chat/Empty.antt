-- ===== src/Chat/Empty.antt =====
-- What `parse_data` of applications/morse_chat/morse_chat.c makes of an empty message: `%s` skips the
-- white space behind the comma and reads the next message as this one's word.
use mathlib.Core.List.{append_assoc, append-nil, cons-ne-nil}
use micro_morse_chat.Prelude.{
  ℕ, ◌+◌, ◌<◌, ◌≡◌, ◌≢◌, refl, ◌∙◌, true, List, [], ◌∷◌, ◌++◌, some, lt→ltb, length, length-append,
  arith,
}
use micro_morse_chat.Stdio.{ℤ, pos, decimal, itoa, is_space, scan_int, c_string, advance}
use micro_morse_chat.Stdio.Decimal.{IsDigits, decimal-IsDigits, decimal-ne-nil, scan_int-decimal}
use micro_morse_chat.Stdio.Words.{
  All, All-append, IsInk, NonZero, All-NonZero_ink, All-NonZero_digits, scan_word-append,
  scan_word_space, c_string-append, advance-append,
}
use micro_morse_chat.Chat.{
  morse_max_len, Message, number_text, scan_body, scan_message, read_messages, parse_data,
}
use micro_morse_chat.Chat.Parse.{lines, reply, number_text-decimal, parse_data-count}

All-IsInk_digits : (d : List ℕ) → IsDigits d → All IsInk d
All-IsInk_digits [] h = tt
All-IsInk_digits (c ∷ d) ((low, high), h) = ((ground arith, ground arith), All-IsInk_digits d h)

append-ne-nil : (xs ys : List ℕ) → xs ≢ [] → xs ++ ys ≢ []
append-ne-nil [] ys h = absurd (h refl)
append-ne-nil (x ∷ xs) ys h = cons-ne-nil x (xs ++ ys)

-- The bytes of the second message, without its white space.
abbrev pub swallowed : ℕ → List ℕ → List ℕ
swallowed v morse = decimal v ++ b',' ∷ morse

pub zero_text : number_text (pos 0) ≡ some (b'0' ∷ [])
unfolding number_text itoa
zero_text = refl

module _ (w u v : ℕ) (morse : List ℕ) (space : is_space w ≡ true) (ink : All IsInk morse) where
  swallowed-IsInk : All IsInk (swallowed v morse)
  swallowed-IsInk =
      All-append IsInk (decimal v) (b',' ∷ morse)
        (All-IsInk_digits (decimal v) (decimal-IsDigits v)) ((ground arith, ground arith), ink)

  -- What the first `sscanf` reads.
  scan_empty :
      length (swallowed v morse) < morse_max_len
      → scan_message (decimal u ++ b',' ∷ (w ∷ (swallowed v morse ++ w ∷ [])))
        ≡ some (record { uid = pos u; morse = swallowed v morse })
  unfolding scan_message
  scan_empty fits =
      let text = swallowed v morse in
      let number = scan_int-decimal u (b',' ∷ (w ∷ (text ++ w ∷ []))) refl in
      let word : scan_body (b',' ∷ (w ∷ (text ++ w ∷ []))) ≡ text =
        scan_word_space w (text ++ w ∷ []) space
        ∙ scan_word-append text w [] (append-ne-nil (decimal v) (b',' ∷ morse) (decimal-ne-nil v))
            swallowed-IsInk space in
      rw (number, scan_message, word, lt→ltb _ _ fits)

  -- The second finds only white space.
  scan_blank : scan_message (w ∷ []) ≡ some (record { uid = pos 0; morse = [] })
  unfolding scan_message scan_int
  scan_blank = rw (space, scan_message)

  -- Where the first message starts.
  abbrev body : List ℕ
  body = decimal u ++ b',' ∷ (w ∷ (swallowed v morse ++ w ∷ []))

  body-NonZero : All NonZero body
  body-NonZero =
      let visible : w ≢ 0 = ground arith in
      All-append NonZero (decimal u) (b',' ∷ (w ∷ (swallowed v morse ++ w ∷ [])))
        (All-NonZero_digits (decimal u) (decimal-IsDigits u))
        (
          (omega arith),
          (
            visible,
            All-append NonZero (swallowed v morse) (w ∷ [])
                (All-NonZero_ink (swallowed v morse) swallowed-IsInk) (visible, tt),
          ),
        )

  -- Both rounds of the loop.
  read_messages-empty :
      (x : ℕ) (rest : List ℕ)
      → u < 10000
      → length (swallowed v morse) < morse_max_len
      → read_messages 2 (body ++ 0 ∷ (x ∷ rest))
        ≡ some (
            record { uid = pos u; morse = swallowed v morse }
            ∷ record { uid = pos 0; morse = [] }
            ∷ [])
  unfolding read_messages
  read_messages-empty x rest lt fits =
      let text = swallowed v morse in
      let visible : w ≢ 0 = ground arith in
      let string = c_string-append body (x ∷ rest) body-NonZero in
      let first = scan_empty fits in
      let number = number_text-decimal u lt in
      let front = decimal u ++ b',' ∷ (w ∷ text) in
      let back = w ∷ (0 ∷ (x ∷ rest)) in
      let next : advance (length text + length (decimal u) + 2) (body ++ 0 ∷ (x ∷ rest))
          ≡ some back =
        let split : body ++ 0 ∷ (x ∷ rest) ≡ front ++ back = simp append_assoc in
        rw split (
          advance-append _ front back
            (omega (arith, length-append (decimal u) (b',' ∷ (w ∷ text))))) in
      let blank : c_string back ≡ some (w ∷ []) =
        c_string-append (w ∷ []) (x ∷ rest) (visible, tt) in
      let after : advance 3 back ≡ some rest = advance-append 3 (w ∷ (0 ∷ (x ∷ []))) rest refl in
      rw (string, first, number, next, blank, scan_blank, zero_text, after)

-- A reply with two messages of which the first, from user `u`, is empty: `parse_data` gives the first
-- user the line of the second message as its word, number and comma included, and an empty message of
-- user 0 in place of the second. The numbers are below 10000, the word of the second message has no 0
-- and no white space, and its line is shorter than 128 bytes.
pub parse_data-empty :
    (w u v : ℕ) (morse : List ℕ) (x : ℕ) (rest : List ℕ) (before : ℤ)
    → is_space w ≡ true
    → All IsInk morse
    → u < 10000
    → length (swallowed v morse) < morse_max_len
    → parse_data
        (reply w (record { uid = pos u; morse = [] } ∷ record { uid = pos v; morse = morse } ∷ [])
          ++ 0 ∷ (x ∷ rest))
        before
      ≡ some (
        pos 2,
        record { uid = pos u; morse = swallowed v morse } ∷ record { uid = pos 0; morse = [] } ∷ [],
      )
unfolding itoa
parse_data-empty w u v morse x rest before space ink lt fits =
    let m0 : Message = record { uid = pos u; morse = [] } in
    let m1 : Message = record { uid = pos v; morse = morse } in
    let same : lines w (m0 ∷ m1 ∷ []) ≡ body w u v morse space ink =
      simp (append_assoc, append-nil) in
    rw (
      same,
      parse_data-count w 2 (body w u v morse space ink) (x ∷ rest) before space (omega arith)
          (body-NonZero w u v morse space ink),
      read_messages-empty w u v morse space ink x rest lt fits,
    )
