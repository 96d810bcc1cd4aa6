-- ===== src/Messages/Tests.antt =====
-- A message on its way through the applications of applications/, at concrete inputs.
use micro_morse_chat.Prelude.{
  ℕ, ◌<◌, ◌≡◌, refl, true, false, List, [], ◌∷◌, ◌++◌, length, some, none, replicate, Option,
  Result, ok, err, ◌==◌, if◌then◌else◌, arith,
}
use micro_morse_chat.Stdio.{pos, itoa}
use micro_morse_chat.Stdio.Words.{All, IsInk, NonZero}
use micro_morse_chat.Chat.Service.{
  looping, Chat, start, then_notify, payload_text, display_text, main_ipc_callback,
}
use micro_morse_chat.Display.Service.{Hardware, Scanned}
use micro_morse_chat.Kernel.{busy, Error, process_error, ReadOnlyProcessBuffer, read_only, Kernel}
use micro_morse_chat.Network.{default_storage, NetworkState, requesting, quiet, Network}
use micro_morse_chat.UserDriver.{Libtock, network_post}
use micro_morse_chat.Messages.Wiring.{Board, on_capsule, Undisturbed}
use micro_morse_chat.Messages.Posting.{busy_message_lost}

-- The letter R as bytes.
abbrev word : List ℕ
word = b'.' ∷ b'-' ∷ b'.' ∷ []

word-AllInk : All IsInk word
word-AllInk = ((refl, omega arith), ((refl, omega arith), ((refl, omega arith), tt)))

word_fits : length (display_text (pos 0) (pos 12) word) < 64
unfolding itoa
word_fits = omega arith

abbrev user_12 : Chat
user_12 = record (start (pos 0)) { main = looping; user_id = pos 12 }

-- A board of 25 LEDs with a buzzer, and variables of an earlier message.
abbrev board : Hardware
board = record { led_count = some 25; buzzer_exists = true; note_g4 = 392; note_c4 = 262 }

abbrev left_over : Scanned
left_over = record { recording = pos 1; uid = pos 3; morse = b'-' ∷ [] }

-- A kernel that knows a buffer by its length: one byte is the address, two are the payload.
abbrev by_length : ReadOnlyProcessBuffer → Result (List ℕ) Error
by_length (read_only n) =
    if n == 1
    then ok (b'u' ∷ [])
    else if n == 2
    then ok (b'h' ∷ b'i' ∷ [])
    else err (process_error 3)

abbrev kernel : Kernel
kernel = record {
  grant_error = λ p. none;
  read = by_length;
  writable = λ b. ok [];
  transmit_buffer = λ b n. ok tt;
  receive_buffer = λ b n. ok tt;
  into_error_code = λ e. busy;
  into_statuscode = λ r. 0;
}

abbrev handle_of : Option (List ℕ) → ReadOnlyProcessBuffer
handle_of none = read_only 0
handle_of (some bytes) = read_only (length bytes)

abbrev pub other_calls : Libtock Board
other_calls = record {
  calloc = λ w n. (w, none);
  allow_readonly = λ w n b. (w, false);
  allow_readwrite = λ w n b. (w, false);
  done_address = 0;
  subscribe = λ w n u. (w, false);
  command = λ w n r2 r3. (w, false);
  yield_for = λ w. some w;
}

abbrev capsule : NetworkState → Network
capsule state = record {
  grant_access = λ p. default_storage;
  state = state;
  buffer = some (replicate 16 0);
  uart = quiet;
  effects = [];
}

text-NonZero : All NonZero (payload_text (pos 12) word)
unfolding itoa
text-NonZero = omega arith

text_fits : length (payload_text (pos 12) word) < 128
unfolding itoa
text_fits = omega arith

busy_message_lost_example :
    (c' : Chat) × (n' : Network) × (main_ipc_callback 1 64 (word ++ 0 ∷ replicate 60 0) user_12
      ≡ some c')
    × (c'.posts ≡ payload_text (pos 12) word ∷ [])
    × (c'.callbacks ≡ then_notify 1 ∷ [])
    × (network_post
          (on_capsule kernel 7 handle_of other_calls)
          (b'u' ∷ [])
          (payload_text (pos 12) word)
          (some (capsule (requesting 7)))
        ≡ some n')
    × Undisturbed (capsule (requesting 7)) n'
busy_message_lost_example =
    busy_message_lost kernel 7 handle_of other_calls (capsule (requesting 7)) 7 (b'u' ∷ []) 1 64
      word (replicate 60 0) user_12 refl (omega arith) (omega arith) text-NonZero text_fits
