-- ===== src/Messages/ReplyTests.antt =====
-- A reply on its way from the UART to the messages, at concrete inputs.
use micro_morse_chat.Prelude.{
  ℕ, List, [], ◌∷◌, Option, some, none, replicate, overlay, length, ok, Outcome, done, panic, true,
  false,
}
use micro_morse_chat.Stdio.{pos}
use micro_morse_chat.Kernel.{
  busy, ReadOnlyProcessBuffer, read_only, ReadWriteProcessBuffer, read_write, Kernel,
}
use micro_morse_chat.Network.{default_storage, idle, Line, quiet, sending, Network}
use micro_morse_chat.Network.Clients.{transmitted_buffer, received_buffer}
use micro_morse_chat.UserDriver.{Libtock}
use micro_morse_chat.Chat.{Message}
use micro_morse_chat.Chat.Parse.{reply}
use micro_morse_chat.Messages.Wiring.{Board}
use micro_morse_chat.Chat.Addresses.{endpoint_text}
use micro_morse_chat.Chat.Service.{looping, Chat, start}
use micro_morse_chat.Display.Service.{Hardware}

-- The letter T from user 8, alone in its reply.
abbrev letter_t : Message
letter_t = record { uid = pos 8; morse = b'-' ∷ [] }

abbrev one : List ℕ
one = reply 10 (letter_t ∷ [])

-- A kernel that reads the address everywhere, and lets so many zeros be written.
abbrev kernel : List ℕ → ℕ → Kernel
kernel url len = record {
  grant_error = λ p. none;
  read = λ b. ok url;
  writable = λ b. ok (replicate len 0);
  transmit_buffer = λ b n. ok tt;
  receive_buffer = λ b n. ok tt;
  into_error_code = λ e. busy;
  into_statuscode = λ r. 0;
}

abbrev handle_of : Option (List ℕ) → ReadOnlyProcessBuffer
handle_of none = read_only 0
handle_of (some bytes) = read_only 1

abbrev slot_of : Option ℕ → ReadWriteProcessBuffer
slot_of none = read_write 0
slot_of (some a) = read_write a

-- The UART transmits what it was given, and receives the reply.
abbrev stopped : Outcome Network → Board
stopped (done n) = some n
stopped panic = none

abbrev answered_by : Kernel → Network → Line → Board
answered_by k m (sending b len) =
    stopped (
      received_buffer k (transmitted_buffer k m b len (ok tt)) (overlay one b) (length one) (ok tt))
answered_by k m _ = some m

abbrev wait : Kernel → Board → Option Board
wait k none = none
wait k (some m) = some (answered_by k m m.uart)

abbrev world : Kernel → Libtock Board
world k = record {
  calloc = λ w n. (w, some 3);
  allow_readonly = λ w n b. (w, false);
  allow_readwrite = λ w n b. (w, false);
  done_address = 0;
  subscribe = λ w n u. (w, true);
  command = λ w n r2 r3. (w, false);
  yield_for = wait k;
}

abbrev capsule : Network
capsule = record {
  grant_access = λ p. default_storage;
  state = idle;
  buffer = some (replicate 256 0);
  uart = quiet;
  effects = [];
}

abbrev url_12 : List ℕ
url_12 = endpoint_text (pos 12)

abbrev around_12 : Kernel
around_12 = kernel url_12 1024

abbrev reader : Chat
reader = record (start (pos 0)) { main = looping; user_id = pos 12 }

abbrev display : Hardware
display = record { led_count = some 25; buzzer_exists = true; note_g4 = 392; note_c4 = 262 }
