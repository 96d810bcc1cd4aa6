-- ===== src/Button.antt =====
-- The button application, applications/morse_button/morse_button.c: its globals, `reset_state`,
-- `button_callback` and `main_ipc_callback`. `yield_for` runs other upcalls while it waits: so a
-- callback stops at its wait, and what is left of it goes on a stack, which the answer of the chat
-- application unwinds.
pub mod Buffer
pub mod Full
pub mod Sequence
pub mod Waiting
pub mod Setup
mod Tests
use micro_morse_chat.Prelude.{
  ℕ, ◌+◌, Bool, true, false, ◌&&◌, not, List, [], ◌∷◌, ◌++◌, ◌==◌, if◌then◌else◌, set, take, drop,
  replicate,
}

abbrev pub message_len : ℕ
message_len = 10

-- The bytes of the array `message`.
abbrev pub message_size : ℕ
message_size = 11

abbrev pub on_release : ℕ
on_release = 0

abbrev pub on_press : ℕ
on_press = 1

abbrev pub left_button : ℕ
left_button = 0

abbrev pub right_button : ℕ
right_button = 1

-- What is left of a callback behind its `yield_for(&main_done)`.
pub data Rest : Type 0 where
  nothing : Rest
  then_reset : Rest

-- The globals. The last two fields are no globals: the callbacks that wait, the innermost first, and
-- the contents of the shared buffer at each notification of the chat application, newest first.
pub record Button : Type 0 where
  pub fst_btn_pushed : Bool
  pub send_mode_active : Bool
  pub send_mode_sequence : Bool
  pub buffer_full : Bool
  pub idx : ℕ
  pub message : List ℕ
  pub main_buff : List ℕ
  pub main_done : Bool
  pub waiting : List Rest
  pub notified : List (List ℕ)

-- The initial globals.
abbrev pub initial : Button
initial = record {
  fst_btn_pushed = false;
  send_mode_active = false;
  send_mode_sequence = false;
  buffer_full = false;
  idx = 0;
  message = replicate message_size 0;
  main_buff = replicate 64 0;
  main_done = false;
  waiting = [];
  notified = [];
}

pub reset_state : Button → Button
reset_state b = record b {
  fst_btn_pushed = false;
  send_mode_active = false;
  send_mode_sequence = false;
  buffer_full = false;
  idx = 0;
  message = replicate message_size 0;
}

-- `ipc_notify_service(main_service); yield_for(&main_done);`
pub notify_and_wait : Rest → Button → Button
notify_and_wait r b = record b { waiting = r ∷ b.waiting; notified = b.main_buff ∷ b.notified }

-- The end of the sequence that enters the send mode.
pub activate : Button → Button
unfolding reset_state notify_and_wait
activate b =
    let fresh = reset_state b in
    notify_and_wait nothing (record fresh {
      send_mode_active = true;
      main_done = false;
      main_buff = set fresh.main_buff 0 0xff;
    })

-- A message is handed to the chat application, early or full; `reset_state` follows the wait.
pub send : Button → Button
unfolding notify_and_wait
send b = notify_and_wait then_reset (record b {
  main_done = false;
  main_buff = take message_size b.message ++ drop message_size b.main_buff;
})

-- The branch `!send_mode_active`.
pub when_inactive : Button → ℕ → ℕ → Button
unfolding activate
when_inactive b btn_num val =
    if val == on_press
    then if btn_num == left_button
      then record b { fst_btn_pushed = true }
      else if btn_num == right_button && b.fst_btn_pushed
      then record b { send_mode_sequence = true }
      else b
    else if btn_num == left_button
    then record b { fst_btn_pushed = false }
    else if btn_num == right_button && (not b.fst_btn_pushed && b.send_mode_sequence)
    then activate b
    else b

-- The symbol of a released button.
pub add_symbol : Button → ℕ → ℕ → Button
add_symbol b btn_num val =
    if btn_num == left_button && val == on_release
    then record b { message = set b.message b.idx b'.'; idx = b.idx + 1; fst_btn_pushed = false }
    else if btn_num == right_button && val == on_release
    then record b { message = set b.message b.idx b'-'; idx = b.idx + 1 }
    else b

-- The test for a full buffer behind it.
pub check_full : Button → Button
unfolding send
check_full b = if b.idx == message_len then send (record b { buffer_full = true }) else b

-- The branch of a buffer that is not full.
pub when_recording : Button → ℕ → ℕ → Button
unfolding send add_symbol check_full
when_recording b btn_num val =
    if not b.send_mode_sequence && val == on_press
    then if btn_num == left_button
      then record b { fst_btn_pushed = true }
      else if btn_num == right_button && b.fst_btn_pushed
      then record b { send_mode_sequence = true }
      else b
    else if b.send_mode_sequence
    then if btn_num == left_button
      then record b { fst_btn_pushed = false }
      else if btn_num == right_button && not b.fst_btn_pushed
      then send b
      else b
    else check_full (add_symbol b btn_num val)

pub button_callback : Button → ℕ → ℕ → Button
unfolding when_inactive when_recording
button_callback b btn_num val =
    if not b.send_mode_active
    then when_inactive b btn_num val
    else if not b.buffer_full
    then when_recording b btn_num val
    else b

-- Every wait sees `main_done`, the innermost first; nothing between them clears it.
pub unwind : List Rest → Button → Button
unfolding reset_state
unwind [] b = b
unwind (nothing ∷ rs) b = unwind rs b
unwind (then_reset ∷ rs) b = unwind rs (reset_state b)

-- `main_ipc_callback`, and the returns of the waits.
pub main_ipc_callback : Button → Button
unfolding unwind
main_ipc_callback b = unwind b.waiting (record b { main_done = true; waiting = [] })

-- Upcalls, in the order in which they are delivered.
pub data Event : Type 0 where
  button : ℕ → ℕ → Event
  answered : Event

pub handle : Button → Event → Button
unfolding button_callback main_ipc_callback
handle b (button btn_num val) = button_callback b btn_num val
handle b answered = main_ipc_callback b

pub run : Button → List Event → Button
run b [] = b
run b (e ∷ es) = run (handle b e) es
