-- ===== src/Chat/Blank.antt =====
-- What `parse_data` of applications/morse_chat/morse_chat.c makes of a buffer of zeros: the count that
-- `num_messages` held before stays, and so many messages are made up.
use micro_morse_chat.Prelude.{
  ℕ, zero, suc, ◌+◌, ◌-◌, ◌*◌, ◌≤◌, ◌<◌, ◌≡◌, refl, List, [], some, length, drop, replicate, le→leb,
  length-replicate, arith,
}
use micro_morse_chat.Stdio.{ℤ, pos, decimal, scan_int, c_string, advance}
use micro_morse_chat.Stdio.Decimal.{length-decimal}
use micro_morse_chat.Chat.{Message, scan_message, read_messages, scan_count, parse_data}
use micro_morse_chat.Chat.Parse.{number_text-decimal}
use micro_morse_chat.Chat.Empty.{zero_text}

abbrev pub zeros : ℕ → List ℕ
zeros n = replicate n 0

-- The message of user 0 with no word.
abbrev pub blank : Message
blank = record { uid = pos 0; morse = [] }

drop-zeros : (a n : ℕ) → drop a (zeros n) ≡ zeros (n - a)
drop-zeros zero n = let e : n - 0 ≡ n = omega arith in rw e
drop-zeros (suc a) zero = let e : 0 - suc a ≡ 0 = omega arith in rw e
drop-zeros (suc a) (suc n) = let e : suc n - suc a ≡ n - a = omega arith in rw e (drop-zeros a n)

advance-zeros : (a n : ℕ) → a ≤ n → advance a (zeros n) ≡ some (zeros (n - a))
unfolding advance
advance-zeros a n h =
    let inside : a ≤ length (zeros n) = omega (arith, length-replicate {A = ℕ} n 0) in
    rw (le→leb _ _ inside, drop-zeros a n)

c_string-zeros : (n : ℕ) → 0 < n → c_string (zeros n) ≡ some []
unfolding c_string
c_string-zeros zero h = absurd (omega arith)
c_string-zeros (suc n) h = refl

scan_message_nil : scan_message [] ≡ some blank
unfolding scan_message scan_int
scan_message_nil = refl

scan_count_nil : (before : ℤ) → scan_count [] before ≡ before
unfolding scan_int
scan_count_nil before = refl

read_messages-zeros : (k m : ℕ) → 3 * k < m → read_messages k (zeros m) ≡ some (replicate k blank)
unfolding read_messages
read_messages-zeros zero m h = refl
read_messages-zeros (suc k) m h = rw (
  c_string-zeros m (omega arith),
  scan_message_nil,
  zero_text,
  advance-zeros 3 m (omega arith),
  read_messages-zeros k (m - 3) (omega arith),
)

-- A buffer of `n` zeros, where `num_messages` was `k`: `parse_data` leaves the count and makes `k`
-- messages of user 0 without a word, if the buffer has room for the steps, 3 bytes each.
pub parse_data-zeros :
    (n k : ℕ)
    → k < 10000
    → 3 * k + 5 < n
    → parse_data (zeros n) (pos k) ≡ some (pos k, replicate k blank)
unfolding parse_data
parse_data-zeros n k small room =
    let digits = length-decimal 3 k small in
    let next = advance-zeros (length (decimal k) + 1) n (omega arith) in
    rw (c_string-zeros n (omega arith)) (
      rw (scan_count_nil (pos k), number_text-decimal k small, next)
        (rw (
          c_string-zeros (n - (length (decimal k) + 1)) (omega arith),
          read_messages-zeros k (n - (length (decimal k) + 1)) (omega arith),
        )))
