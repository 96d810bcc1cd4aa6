-- ===== src/Button/Tests.antt =====
-- Runs of applications/morse_button/morse_button.c from its start, and each theorem at one of them.
use micro_morse_chat.Prelude.{
  ◌≡◌, refl, true, false, arith, List, [], ◌∷◌, ◌++◌, set, drop, replicate,
}
use micro_morse_chat.Button.{
  message_size, on_release, on_press, left_button, right_button, then_reset, Button, initial, Event,
  button, answered, handle, run,
}
use micro_morse_chat.Button.Buffer.{IsValid, run-IsValid}
use micro_morse_chat.Button.Sequence.{
  Symbol, dot, dash, code_of, codes_of, typed, padded, sequence, opening, IsListening, IsFresh,
  send_round,
}
use micro_morse_chat.Button.Full.{clicks, full_round}
use micro_morse_chat.Button.Waiting.{sent_twice}

initial-IsFresh : IsFresh initial
initial-IsFresh = record {
  fresh_button = refl;
  fresh_mode = refl;
  fresh_sequence = refl;
  fresh_full = refl;
  fresh_idx = refl;
  fresh_message = refl;
  fresh_waiting = refl;
}

-- The letter R.
abbrev letter : List Symbol
letter = dot ∷ dash ∷ dot ∷ []

abbrev nine : List Symbol
nine = letter ++ letter ++ letter

-- A release of a button that nobody pressed, and a press in a wait.
abbrev disorder : List Event
disorder =
    button left_button on_release ∷ sequence
    ++ typed letter
    ++ (button 7 on_press ∷ answered ∷ typed nine ++ sequence)

abbrev recording : Button
recording = record initial { send_mode_active = true; idx = 3; message = padded letter }

-- The bytes of a message that was sent and the state behind it.
sent_letter :
    (run initial (sequence ++ answered ∷ [] ++ (typed letter ++ sequence))).notified
    ≡ (padded letter ++ replicate 53 0) ∷ (0xff ∷ replicate 63 0) ∷ []
unfolding run handle
sent_letter = refl

run-IsValid_example : IsValid (run initial disorder)
run-IsValid_example = run-IsValid disorder

send_round_example :
    let b' = run initial (opening false ++ (typed letter ++ (sequence ++ answered ∷ []))) in
    let entered = set initial.main_buff 0 0xff in
    IsFresh b' × (b'.notified ≡ (padded letter ++ drop message_size entered) ∷ entered ∷ [])
send_round_example = send_round initial false letter initial-IsFresh (ground arith)

full_round_example :
    let b' = run initial (
      opening true
      ++ (typed nine ++ (typed (dash ∷ []) ++ (clicks ((1, 1) ∷ []) ++ answered ∷ [])))) in
    let entered = set initial.main_buff 0 0xff in
    (run initial (opening true ++ (typed nine ++ (typed (dash ∷ []) ++ clicks ((1, 1) ∷ []))))
      ≡ run initial (opening true ++ (typed nine ++ typed (dash ∷ []))))
    × IsFresh b'
    × (b'.notified
        ≡ (codes_of nine ++ code_of dash ∷ 0 ∷ [] ++ drop message_size entered) ∷ entered ∷ [])
full_round_example = full_round initial true nine dash ((1, 1) ∷ []) initial-IsFresh refl

recording-IsListening : IsListening recording
recording-IsListening = record {
  is_active = refl;
  no_sequence = refl;
  no_button = refl;
  not_full = refl;
}

sent_twice_example :
    let b' = run recording (sequence ++ button right_button on_press ∷ []) in
    let buff = recording.message ++ drop message_size recording.main_buff in
    (b'.notified ≡ buff ∷ buff ∷ []) × (b'.waiting ≡ then_reset ∷ then_reset ∷ [])
sent_twice_example = sent_twice recording on_press recording-IsListening refl
