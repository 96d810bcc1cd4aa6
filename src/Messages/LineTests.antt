-- ===== src/Messages/LineTests.antt =====
-- A message on its way from the buttons to the UART, at concrete inputs.
use micro_morse_chat.Prelude.{
  ℕ, ◌≡◌, refl, not, true, false, List, [], ◌∷◌, ◌++◌, Option, some, none, replicate, ◌==◌,
  if◌then◌else◌, ok, err, Result, ◌<◌, length, overlay, arith,
}
use micro_morse_chat.Stdio.{pos, itoa}
use micro_morse_chat.Kernel.{busy, Error, process_error, ReadOnlyProcessBuffer, read_only, Kernel}
use micro_morse_chat.Network.{default_storage, idle, requesting, quiet, sending, Network}
use micro_morse_chat.Network.Frames.{post_frame}
use micro_morse_chat.Network.Wire.{line_of}
use micro_morse_chat.Button.{initial, answered}
use micro_morse_chat.Button
use micro_morse_chat.Button.Sequence.{
  Symbol, dot, dash, codes_of, typed, sequence, opening, IsFresh,
}
use micro_morse_chat.Chat.Addresses.{messages_url}
use micro_morse_chat.Chat.Service.{
  looping, Chat, start, payload_text, finish_post, lock_network, main_ipc_callback, from_button,
  resumed, handle, run,
}
use micro_morse_chat.Display.Frames.{frame, recording_mode}
use micro_morse_chat.Display.Screen.{lit_after, entry}
use micro_morse_chat.Display.Service.{Call, Hardware, Scanned, ipc_callback}
use micro_morse_chat.Messages.Recording.{recording_begins}
use micro_morse_chat.UserDriver.{network_post}
use micro_morse_chat.Messages.Wiring.{on_capsule}
use micro_morse_chat.Messages.Tests.{other_calls}
use micro_morse_chat.Messages.OnLine.{Serves, typed_message_on_line}
use micro_morse_chat.Messages.Distinct.{IsPosted, posted_messages-injective}
use micro_morse_chat.Messages.Posting.{idle_post_sends}
use micro_morse_chat.Stdio.Words.{All, NonZero}
use micro_morse_chat.Chat.Service.Answers.{main_ipc_callback-post, finish_post_lem}

untouched-IsFresh : IsFresh initial
untouched-IsFresh = record {
  fresh_button = refl;
  fresh_mode = refl;
  fresh_sequence = refl;
  fresh_full = refl;
  fresh_idx = refl;
  fresh_message = refl;
  fresh_waiting = refl;
}

-- The letter N of user 12.
abbrev letter_n : List Symbol
letter_n = dash ∷ dot ∷ []

abbrev letter_n_text : List ℕ
letter_n_text = payload_text (pos 12) (codes_of letter_n)

abbrev sender : Chat
sender = record (start (pos 0)) { main = looping; user_id = pos 12 }

-- A kernel that knows a buffer by its first byte.
abbrev by_number : ReadOnlyProcessBuffer → Result (List ℕ) Error
by_number (read_only n) =
    if n == b'h'
    then ok messages_url
    else if n == b'{'
    then ok letter_n_text
    else err (process_error 3)

abbrev kernel : Kernel
kernel = record {
  grant_error = λ p. none;
  read = by_number;
  writable = λ b. ok [];
  transmit_buffer = λ b n. ok tt;
  receive_buffer = λ b n. ok tt;
  into_error_code = λ e. busy;
  into_statuscode = λ r. 0;
}

abbrev handle_of : Option (List ℕ) → ReadOnlyProcessBuffer
handle_of none = read_only 0
handle_of (some []) = read_only 0
handle_of (some (c ∷ bytes)) = read_only c

abbrev capsule : Network
capsule = record {
  grant_access = λ p. default_storage;
  state = idle;
  buffer = some (replicate 256 0);
  uart = quiet;
  effects = [];
}

capsule-Serves : Serves kernel 7 handle_of capsule messages_url letter_n_text (replicate 256 0)
capsule-Serves = record {
  is_idle = refl;
  held = refl;
  granted = refl;
  reads_url = refl;
  reads_text = refl;
  accepts = refl;
}

typed_message_on_line_example :
    let b' =
      Button.run initial (opening false ++ (typed letter_n ++ (sequence ++ answered ∷ []))) in
    (handed : List ℕ) × (earlier : List (List ℕ)) × (c' : Chat) × (text : List ℕ) × (n' : Network)
    × (b'.notified ≡ handed ∷ earlier)
    × (main_ipc_callback 1 64 handed sender ≡ some c')
    × (c'.posts ≡ text ∷ [])
    × (network_post (on_capsule kernel 7 handle_of other_calls) messages_url text (some capsule)
        ≡ some n')
    × (line_of n'.uart ≡ post_frame messages_url letter_n_text)
    × (n'.state ≡ requesting 7)
typed_message_on_line_example =
    typed_message_on_line kernel 7 handle_of other_calls initial false letter_n sender 12 1 64
      capsule (replicate 256 0) untouched-IsFresh (omega arith) refl (omega arith) (omega arith)
      (omega arith) capsule-Serves

letter_n_fits : All NonZero letter_n_text × (length letter_n_text < 128)
unfolding itoa
letter_n_fits = omega arith

-- The capsule behind the POST of that letter.
sent :
    (n' : Network) × (network_post
        (on_capsule kernel 7 handle_of other_calls)
        messages_url
        letter_n_text
        (some capsule)
      ≡ some n')
    × (n'.state ≡ requesting 7)
    × (n'.uart
        ≡ sending
            (overlay (post_frame messages_url letter_n_text) (replicate 256 0))
            (length (post_frame messages_url letter_n_text)))
unfolding itoa
sent =
    idle_post_sends kernel 7 handle_of other_calls capsule messages_url letter_n_text
      (replicate 256 0) refl refl refl refl refl (omega arith) refl

letter_n-IsPosted : IsPosted other_calls 12 (b'-' ∷ b'.' ∷ []) (sent.0)
letter_n-IsPosted = record {
  k = kernel;
  p = 7;
  handle = handle_of;
  pid = 1;
  len = 64;
  rest = replicate 61 0;
  c = sender;
  c' = finish_post 1 letter_n_text sender;
  text = letter_n_text;
  n = capsule;
  buffer = replicate 256 0;
  of_user = refl;
  sized = omega arith;
  is_message = omega arith;
  shown = letter_n_fits.0;
  fits = letter_n_fits.1;
  handed =
      main_ipc_callback-post 1 64 (b'-' ∷ b'.' ∷ []) (replicate 61 0) sender (omega arith)
        (omega arith) (letter_n_fits.0) (letter_n_fits.1);
  posts = (finish_post_lem 1 letter_n_text sender).0;
  room = omega arith;
  serves = capsule-Serves;
  posted = sent.1;
}

posted_messages-injective_example : ◌≡◌ {A = ℕ} 12 12 × (codes_of letter_n ≡ b'-' ∷ b'.' ∷ [])
posted_messages-injective_example =
    posted_messages-injective other_calls 12 12 (b'-' ∷ b'.' ∷ []) (b'-' ∷ b'.' ∷ []) (sent.0)
      (sent.0) letter_n-IsPosted letter_n-IsPosted refl

-- The same user opens the send mode, and the chat application's loop gets the processor in vain.
abbrev held_by_user : Chat
held_by_user = lock_network sender

run-held_by_user :
    run sender (from_button 1 64 (0xff ∷ replicate 63 0) ∷ resumed ∷ []) ≡ some held_by_user
unfolding run handle lock_network
run-held_by_user = refl

abbrev display : Hardware
display = record { led_count = some 25; buzzer_exists = false; note_g4 = 392; note_c4 = 262 }

abbrev unused : Scanned
unused = record { recording = pos 0; uid = pos 0; morse = [] }

recording_begins_example :
    ((Button.run initial (opening false)).notified ≡ (0xff ∷ replicate 63 0) ∷ [])
    × (c' : Chat) × (buffer : List ℕ) × (calls : List Call) × (main_ipc_callback 1 64
          (0xff ∷ replicate 63 0)
          sender
        ≡ some c')
    × (c'.shown ≡ buffer ∷ [])
    × (ipc_callback display 2 64 buffer unused ≡ some calls)
    × (lit_after calls (λ j. false) 12 ≡ not (entry (frame recording_mode) 12 == 0))
    × (held_by_user.network_lock ≡ true)
    × (held_by_user.requests ≡ sender.requests)
    × (held_by_user.posts ≡ [])
recording_begins_example =
    recording_begins initial false 0 (replicate 63 0) sender 1 64 (resumed ∷ []) held_by_user
      display 25 2 64 unused (λ j. false) 12 untouched-IsFresh refl (tt, tt) run-held_by_user refl
      (omega arith) (omega arith) (omega arith)
