-- ===== src/Chat/Parse.antt =====
-- `parse_data` of applications/morse_chat/morse_chat.c reads back the messages of a reply.
use mathlib.Core.List.{append_assoc}
use micro_morse_chat.Prelude.{
  ℕ, ◌+◌, ◌<◌, ◌≡◌, ◌≢◌, refl, true, List, [], ◌∷◌, ◌++◌, some, lt→ltb, le→leb, length,
  length-append, arith,
}
use micro_morse_chat.Stdio.{ℤ, pos, ◌>>=◌, decimal, itoa, is_space, scan_int, advance}
use micro_morse_chat.Stdio.Decimal.{decimal-IsDigits, length-decimal, scan_int-decimal}
use micro_morse_chat.Stdio.Words.{
  All, All-append, IsInk, NonZero, All-NonZero_ink, All-NonZero_digits, scan_word-append,
  c_string-append, advance-append,
}
use micro_morse_chat.Chat.{
  morse_max_len, Message, number_text, scan_body, scan_message, read_messages, scan_count,
  parse_data,
}

-- A message that a reply can carry: a user number of at most four digits, and a word that fits.
pub record IsSendable (m : Message) : Type 0 where
  pub user : ℕ
  pub user_eq : m.uid ≡ pos user
  pub user_lt : user < 10000
  pub morse_ne : m.morse ≢ []
  pub morse_ink : All IsInk m.morse
  pub morse_lt : length m.morse < morse_max_len

-- The same with a user number of any size.
pub record IsReadable (m : Message) : Type 0 where
  pub sender : ℕ
  pub sender_eq : m.uid ≡ pos sender
  pub word_ne : m.morse ≢ []
  pub word_ink : All IsInk m.morse
  pub word_lt : length m.morse < morse_max_len

pub IsSendable-IsReadable : {m : Message} → IsSendable m → IsReadable m
IsSendable-IsReadable h = record {
  sender = h.user;
  sender_eq = h.user_eq;
  word_ne = h.morse_ne;
  word_ink = h.morse_ink;
  word_lt = h.morse_lt;
}

abbrev pub AllReadable : List Message → Type 0
AllReadable [] = Unit
AllReadable (m ∷ ms) = IsReadable m × AllReadable ms

abbrev pub AllSendable : List Message → Type 0
AllSendable [] = Unit
AllSendable (m ∷ ms) = IsSendable m × AllSendable ms

pub AllSendable-AllReadable : (ms : List Message) → AllSendable ms → AllReadable ms
AllSendable-AllReadable [] h = tt
AllSendable-AllReadable (m ∷ ms) h = (IsSendable-IsReadable h.0, AllSendable-AllReadable ms h.1)

-- One message of a reply: the user, a comma, the word, and white space.
abbrev pub line : ℕ → Message → List ℕ
line w m = itoa m.uid ++ b',' ∷ (m.morse ++ w ∷ [])

abbrev pub lines : ℕ → List Message → List ℕ
lines w [] = []
lines w (m ∷ ms) = line w m ++ lines w ms

-- A reply: the count, white space, and the messages.
abbrev pub reply : ℕ → List Message → List ℕ
reply w ms = decimal (length ms) ++ w ∷ lines w ms

pub number_text-decimal : (n : ℕ) → n < 10000 → number_text (pos n) ≡ some (decimal n)
unfolding number_text itoa
number_text-decimal n h = rw (le→leb _ _ (length-decimal 3 n h))

line-NonZero : (w : ℕ) (m : Message) → is_space w ≡ true → IsReadable m → All NonZero (line w m)
unfolding itoa
line-NonZero w m e h =
    let ink = All-NonZero_ink m.morse h.word_ink in
    let visible : w ≢ 0 = ground arith in
    rw h.sender_eq (
      All-append NonZero (decimal h.sender) (b',' ∷ (m.morse ++ w ∷ []))
        (All-NonZero_digits (decimal h.sender) (decimal-IsDigits h.sender))
        ((omega arith), All-append NonZero m.morse (w ∷ []) ink (visible, tt)))

pub lines-NonZero :
    (w : ℕ) (ms : List Message) → is_space w ≡ true → AllReadable ms → All NonZero (lines w ms)
lines-NonZero w [] e h = tt
lines-NonZero w (m ∷ ms) e h =
    All-append NonZero (line w m) (lines w ms) (line-NonZero w m e h.0) (lines-NonZero w ms e h.1)

-- The first message of a text is read.
pub scan_message-line :
    (w : ℕ) (m : Message) (rest : List ℕ)
    → is_space w ≡ true
    → IsReadable m
    → scan_message (line w m ++ rest) ≡ some m
unfolding scan_message itoa
scan_message-line w m rest e h =
    let number : scan_int (line w m ++ rest) ≡ some (m.uid, b',' ∷ (m.morse ++ w ∷ rest)) =
      rw
        (
          h.sender_eq,
          append_assoc (decimal h.sender) (b',' ∷ (m.morse ++ w ∷ [])) rest,
          append_assoc m.morse (w ∷ []) rest,
        )
        (scan_int-decimal h.sender (b',' ∷ (m.morse ++ w ∷ rest)) refl) in
    let word : scan_body (b',' ∷ (m.morse ++ w ∷ rest)) ≡ m.morse =
      scan_word-append m.morse w rest h.word_ne h.word_ink e in
    rw (number, scan_message, word, lt→ltb _ _ h.word_lt)

pub length-line :
    (w : ℕ) (m : Message) → length (line w m) ≡ length m.morse + length (itoa m.uid) + 2
length-line w m =
    omega (
      arith,
      length-append (itoa m.uid) (b',' ∷ (m.morse ++ w ∷ [])),
      length-append m.morse (w ∷ []),
    )

read_messages-lines :
    (w : ℕ) (ms : List Message) (rest : List ℕ)
    → is_space w ≡ true
    → AllSendable ms
    → read_messages (length ms) (lines w ms ++ 0 ∷ rest) ≡ some ms
unfolding read_messages itoa
read_messages-lines w [] rest e h = refl
read_messages-lines w (m ∷ ms) rest e h =
    let string =
      c_string-append (lines w (m ∷ ms)) rest
        (lines-NonZero w (m ∷ ms) e (AllSendable-AllReadable (m ∷ ms) h)) in
    let first = scan_message-line w m (lines w ms) e (IsSendable-IsReadable h.0) in
    let text : number_text m.uid ≡ some (itoa m.uid) =
      rw h.0.user_eq (number_text-decimal h.0.user h.0.user_lt) in
    let next : advance (length m.morse + length (itoa m.uid) + 2) (lines w (m ∷ ms) ++ 0 ∷ rest)
        ≡ some (lines w ms ++ 0 ∷ rest) =
      rw (append_assoc (line w m) (lines w ms) (0 ∷ rest))
        (advance-append _ (line w m) (lines w ms ++ 0 ∷ rest) (length-line w m)) in
    rw (string, first, text, next, read_messages-lines w ms rest e h.1)

-- The count is read, and the messages behind it.
pub parse_data-count :
    (w n : ℕ) (body rest : List ℕ) (before : ℤ)
    → is_space w ≡ true
    → n < 10000
    → All NonZero body
    → parse_data (decimal n ++ w ∷ body ++ 0 ∷ rest) before
      ≡ (do msg ← read_messages n (body ++ 0 ∷ rest); some (pos n, msg))
unfolding parse_data
parse_data-count w n body rest before e lt inked =
    let visible : w ≢ 0 = ground arith in
    let string = c_string-append (decimal n ++ w ∷ body) rest (
      All-append NonZero (decimal n) (w ∷ body)
        (All-NonZero_digits (decimal n) (decimal-IsDigits n)) (visible, inked)) in
    let count = scan_int-decimal n (w ∷ body) (ground arith) in
    let counted : scan_count (decimal n ++ w ∷ body) before ≡ pos n = rw (count, scan_count) in
    let text = number_text-decimal n lt in
    let back = body ++ 0 ∷ rest in
    let next : advance (length (decimal n) + 1) (decimal n ++ w ∷ body ++ 0 ∷ rest) ≡ some back =
      rw (append_assoc (decimal n) (w ∷ body) (0 ∷ rest), ← append_assoc (decimal n) (w ∷ []) back)
        (advance-append _ (decimal n ++ w ∷ []) back (length-append (decimal n) (w ∷ []))) in
    rw string (rw (counted, text, next, c_string-append body rest inked))

-- The reply `reply w ms` behind which the buffer holds a 0, and anything after it, is parsed to its
-- count and its messages, whatever `num_messages` held before: for at most 9999 messages, each from a
-- user below 10000 and with a word of 1 to 127 bytes, none of them 0 or white space, and separated by
-- one byte of white space.
pub parse_data-reply :
    (w : ℕ) (ms : List Message) (rest : List ℕ) (before : ℤ)
    → is_space w ≡ true
    → length ms < 10000
    → AllSendable ms
    → parse_data (reply w ms ++ 0 ∷ rest) before ≡ some (pos (length ms), ms)
parse_data-reply w ms rest before e lt h = rw (
  parse_data-count w (length ms) (lines w ms) rest before e lt
      (lines-NonZero w ms e (AllSendable-AllReadable ms h)),
  read_messages-lines w ms rest e h,
)
