-- ===== src/Chat.antt =====
-- The chat application, applications/morse_chat/morse_chat.c: `parse_data`, the two IPC callbacks, and
-- the loop of `main` after its set-up. A wait runs other upcalls: so a callback stops at its wait and
-- what is left of it goes on a stack; `main` is below all callbacks and goes on only when none waits.
pub mod Parse
pub mod Empty
pub mod Blank
pub mod Addresses
pub mod Overflow
pub mod Service
pub mod Setup
mod Tests
use micro_morse_chat.Prelude.{
  ℕ, zero, suc, ◌+◌, ◌≡◌, Bool, true, false, List, [], ◌∷◌, ◌++◌, Option, none, some, ltb, leb,
  ◌==◌, if◌then◌else◌, length, replicate,
}
use micro_morse_chat.Stdio.{
  ℤ, pos, negsuc, ◌>>=◌, itoa, scan_int, scan_word, c_string, advance, snprintf,
}

abbrev pub morse_max_len : ℕ
morse_max_len = 128

-- `struct message_t`.
pub record Message : Type 0 where
  pub uid : ℤ
  pub morse : List ℕ

-- `itoa` into `num_messages_str`, which has five bytes.
unfoldable pub number_text : ℤ → Option (List ℕ)
number_text n = let text = itoa n in if leb (length text) 4 then some text else none

-- The literal comma of `%d,%s`, and the word behind it.
pub scan_body : List ℕ → List ℕ
scan_body [] = []
scan_body (c ∷ s) = if c == b',' then scan_word s else []

-- `sscanf(messages, "%d,%s", …)` into a zeroed message; a longer word does not fit its array.
unfoldable pub scan_message : List ℕ → Option Message
unfolding scan_body
scan_message s = elim (scan_int s) [
  | none ↦ some (record { uid = pos 0; morse = [] })
  | some (uid, rest) ↦
      let morse = scan_body rest in
      if ltb (length morse) morse_max_len then some (record { uid = uid; morse = morse }) else none
]

-- The second loop of `parse_data`, for the messages left.
unfoldable pub read_messages : ℕ → List ℕ → Option (List Message)
read_messages zero messages = some []
read_messages (suc k) messages = do
  s ← c_string messages
  msg ← scan_message s
  text ← number_text msg.uid
  next ← advance (length msg.morse + length text + 2) messages
  rest ← read_messages k next
  some (msg ∷ rest)

-- A loop to `n` runs this often.
abbrev pub rounds : ℤ → ℕ
rounds (pos n) = n
rounds (negsuc n) = 0

-- What `sscanf(data, "%d", num_messages)` leaves in `*num_messages`.
abbrev pub scan_count : List ℕ → ℤ → ℤ
scan_count s before = elim (scan_int s) [ none ↦ before | some (n, rest) ↦ n ]

-- The count and the messages; `before` is what `num_messages` held. `none` is an access outside an
-- array. The read of `printf` behind the count is that of `c_string`.
unfoldable pub parse_data : List ℕ → ℤ → Option (ℤ × List Message)
parse_data buffer before = do
  s ← c_string buffer
  let num_messages = scan_count s before
  text ← number_text num_messages
  messages ← advance (length text + 1) buffer
  _ ← c_string messages
  msg ← read_messages (rounds num_messages) messages
  some (num_messages, msg)
