-- ===== src/Network/Tests.antt =====
-- Runs of the driver of kernel/drivers/src/network.rs on a small kernel, and each theorem at one of
-- them.
use micro_morse_chat.Prelude.{
  ℕ, ◌+◌, ◌≤◌, ◌≡◌, refl, ◌↔◌, inl, List, [], ◌∷◌, none, some, Result, ok, err, done, panic, ◌==◌,
  if◌then◌else◌, replicate, overlay, store, copy_at, arith,
}
use micro_morse_chat.Kernel.{
  ErrorCode, size, busy, inval, other, Error, process_error, ReadOnlyProcessBuffer, read_only,
  read_write, success, failure, Kernel, ReturnsBuffers,
}
use micro_morse_chat.Network.{
  AppStorage, idle, requesting, quiet, sending, upcall, wrote, Network, new, command, request,
  with_storage, with_address, with_buffer, send_get, send_post, fill_post, transmit,
}
use micro_morse_chat.Network.Allow.{allow_readonly}
use micro_morse_chat.Network.Clients.{transmitted_buffer, received_buffer}
use micro_morse_chat.Network.Frames.{get_frame, post_frame}
use micro_morse_chat.Network.Commands.{
  Composes, get, post, IsReady, command-accepted, long_address, long_data, command-Drops,
}
use micro_morse_chat.Network.Overruns.{Overruns, command_panics_iff}
use micro_morse_chat.Network.Lifecycle.{Calls, command-Calls}
use micro_morse_chat.Network.Runs.{calls, allows_read, here, next, IsOwned, Reach-IsOwned, IsLost}
use micro_morse_chat.Network.Delivery.{received_buffer-delivers}
use micro_morse_chat.Network.Accounting.{upcalls, pending, start, more, Run-upcalls, lost_forever}
use micro_morse_chat.Network.Answers.{
  IsAnswered, transmitted_buffer-answers, received_buffer-answers,
}
use micro_morse_chat.Network.Wire.{Posts, Posts-injective}

-- Handle 1 is the address `u`, handle 2 the payload `hi`; a reply goes to four bytes.
abbrev read_handle : ReadOnlyProcessBuffer → Result (List ℕ) Error
read_handle (read_only i) =
    if i == 1
    then ok (b'u' ∷ [])
    else if i == 2
    then ok (b'h' ∷ b'i' ∷ [])
    else err (process_error 3)

abbrev demo : Kernel
demo = record {
  grant_error = λ p. if p == 9 then some (process_error 1) else none;
  read = read_handle;
  writable = λ _. ok (1 ∷ 2 ∷ 3 ∷ 4 ∷ []);
  transmit_buffer = λ _ _. ok tt;
  receive_buffer = λ _ _. ok tt;
  into_error_code = λ _. other 0;
  into_statuscode = λ r. elim r [ ok _ ↦ 0 | err _ ↦ 1 ];
}

demo-ReturnsBuffers : ReturnsBuffers demo
demo-ReturnsBuffers = record {
  transmit_returns = λ b len e b' h. cc;
  receive_returns = λ b len e b' h. cc;
}

-- The same with a UART that refuses.
abbrev deaf : Kernel
deaf = record demo { transmit_buffer = λ b _. err (busy, b); receive_buffer = λ b _. err (busy, b) }

abbrev storage : AppStorage
storage = record { address = read_only 1; data_out = read_only 2; data_in = read_write 3 }

-- An idle driver with a buffer of so many zeros, for processes that have allowed all three buffers.
abbrev idle_with : ℕ → Network
idle_with bytes = record {
  grant_access = λ _. storage;
  state = idle;
  buffer = some (replicate bytes 0);
  uart = quiet;
  effects = [];
}

abbrev url : List ℕ
url = b'u' ∷ []

abbrev hi : List ℕ
hi = b'h' ∷ b'i' ∷ []

ready : (bytes : ℕ) → IsReady demo (idle_with bytes) 7 url (replicate bytes 0)
ready bytes = record { is_idle = refl; granted = refl; addressed = refl; held = refl }

get-Composes : (bytes : ℕ) → Composes demo (idle_with bytes) 0 7 url (get_frame url)
get-Composes bytes = get refl refl

post-Composes : (bytes : ℕ) → Composes demo (idle_with bytes) 1 7 url (post_frame url hi)
post-Composes bytes = post hi (omega arith) refl refl

-- A GET on a buffer of ten bytes sends the first seven of `GET  u\n` and three zeros.
abbrev asked : Network
asked = record (idle_with 10) {
  state = requesting 7;
  buffer = none;
  uart = sending (overlay (get_frame url) (replicate 10 0)) 7;
}

get_run : command demo (idle_with 10) 1 0 0 7 ≡ done (asked, success)
unfolding command request with_storage with_address with_buffer send_get transmit store copy_at
get_run = refl

command-accepted_example :
    command demo (idle_with 10) 1 1 0 7
    ≡ done (
      record (idle_with 10) {
        state = requesting 7;
        buffer = none;
        uart = sending (overlay (post_frame url hi) (replicate 10 0)) 10;
      },
      success,
    )
command-accepted_example =
    command-accepted demo (idle_with 10) 1 0 7 url (post_frame url hi) (replicate 10 0) (ready 10)
      (post-Composes 10) (omega arith) refl

-- A buffer of six bytes has no room for the byte behind `GET  u`.
command_panics_iff_example :
    (command demo (idle_with 6) 1 0 0 7 ≡ panic) ↔ Overruns url (get_frame url) (replicate 6 0)
command_panics_iff_example =
    command_panics_iff demo (idle_with 6) 0 0 7 url (get_frame url) (replicate 6 0) (ready 6)
      (get-Composes 6)

Overruns-six : Overruns url (get_frame url) (replicate 6 0)
Overruns-six = inl refl

-- A buffer of five bytes is too short for any address; nobody gets it back.
abbrev lost : Network
lost = record (idle_with 5) { buffer = none }

command-Drops_example : command demo (idle_with 5) 1 0 0 7 ≡ done (lost, failure size)
command-Drops_example =
    command-Drops demo (idle_with 5) 0 0 7 url (replicate 5 0) (ready 5)
      (long_address (omega arith))

-- A payload of two bytes is refused if the line needs three bytes more than the buffer has.
inval_drops :
    command demo (idle_with 7) 1 1 0 7
    ≡ done (record (idle_with 7) { buffer = none }, failure inval)
inval_drops =
    command-Drops demo (idle_with 7) 1 0 7 url (replicate 7 0) (ready 7)
      (long_data hi (omega arith) (omega arith) refl (omega arith))

lost-IsLost : IsLost lost
lost-IsLost = record { lost_idle = refl; lost_buffer = refl; lost_line = refl }

abbrev lost_later : Network
lost_later = (allow_readonly demo lost 7 0 (read_only 2)).0

lost_forever_example :
    (e : ErrorCode) × (command demo lost_later 1 1 0 7 ≡ done (lost_later, failure e))
lost_forever_example =
    lost_forever demo 1 0 7 lost-IsLost (next here (allows_read demo 7 0 (read_only 2) refl))

-- From a new driver: one allow call, then a GET.
abbrev allowed : Network
allowed = (allow_readonly demo (new (replicate 10 0)) 7 0 (read_only 1)).0

abbrev asked_later : Network
asked_later = record allowed {
  state = requesting 7;
  buffer = none;
  uart = sending (overlay (get_frame url) (replicate 10 0)) 7;
}

later_run : command demo allowed 1 0 0 7 ≡ done (asked_later, success)
unfolding command request with_storage with_address with_buffer send_get transmit store copy_at new
    allow_readonly
later_run = refl

Reach-IsOwned_example : IsOwned 10 asked_later
Reach-IsOwned_example = Reach-IsOwned (replicate 10 0) (
    next (next here (allows_read demo 7 0 (read_only 1) refl))
      (calls demo 1 0 0 7 success demo-ReturnsBuffers later_run))

Run-upcalls_example : upcalls asked.effects + pending asked.state ≤ 0 + 0 + 1
Run-upcalls_example =
    Run-upcalls {n = idle_with 10} {m = asked}
      (more start (calls demo 1 0 0 7 success demo-ReturnsBuffers get_run) refl)

command-Calls_example : Calls (idle_with 10) 7 asked success
command-Calls_example = command-Calls demo (idle_with 10) 1 0 0 7 demo-ReturnsBuffers get_run

-- The reply `ok` leaves one byte of the four alone; a reply of four bytes leaves no room for its 0.
abbrev reply : List ℕ
reply = b'o' ∷ b'k' ∷ 0 ∷ 0 ∷ 0 ∷ 0 ∷ 0 ∷ 0 ∷ 0 ∷ 0 ∷ []

received_buffer-delivers_example :
    received_buffer demo asked reply 2 (ok tt)
    ≡ done (record asked {
      state = idle;
      buffer = some reply;
      effects = upcall 7 0 0 2 ∷ wrote (read_write 3) (b'o' ∷ b'k' ∷ 0 ∷ 4 ∷ []) ∷ [];
    })
received_buffer-delivers_example =
    received_buffer-delivers demo asked 7 reply 2 refl refl (omega arith) (1 ∷ 2 ∷ 3 ∷ 4 ∷ []) refl

too_long_reply :
    received_buffer demo asked reply 4 (ok tt)
    ≡ done (record asked { state = idle; buffer = some reply; effects = upcall 7 0 0 4 ∷ [] })
too_long_reply =
    received_buffer-delivers demo asked 7 reply 4 refl refl (omega arith) (1 ∷ 2 ∷ 3 ∷ 4 ∷ []) refl

received_buffer-answers_example :
    (m : Network) × (received_buffer demo asked reply 2 (err busy) ≡ done m)
    × IsAnswered asked 7 1 0 reply m
received_buffer-answers_example =
    received_buffer-answers demo asked 7 reply 2 (err busy) refl refl (omega arith)

transmitted_buffer-answers_example :
    IsAnswered asked 7 1 0 reply (transmitted_buffer deaf asked reply 7 (ok tt))
transmitted_buffer-answers_example =
    transmitted_buffer-answers deaf asked 7 reply 7 (ok tt) refl refl

abbrev posted : Network
posted = record (idle_with 10) {
  state = requesting 7;
  buffer = none;
  uart = sending (overlay (post_frame url hi) (replicate 10 0)) 10;
}

post_run : command demo (idle_with 10) 1 1 0 7 ≡ done (posted, success)
unfolding command request with_storage with_address with_buffer send_post fill_post transmit store
    copy_at
post_run = refl

posts : Posts demo (idle_with 10) 1 0 7 url hi (replicate 10 0) posted
posts = record {
  ready = ready 10;
  payload = refl;
  is_post = omega arith;
  room = omega arith;
  accepted = post_run;
}

Posts-injective_example : (url ≡ url) × (hi ≡ hi)
Posts-injective_example =
    Posts-injective demo demo (idle_with 10) (idle_with 10) 1 0 1 0 7 7 url hi (replicate 10 0) url
      hi (replicate 10 0) posted posted posts posts (omega arith) (omega arith) refl
