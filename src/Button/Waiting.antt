-- ===== src/Button/Waiting.antt =====
-- What a button does in applications/morse_button/morse_button.c while an early ended message waits for
-- the answer: `yield_for` runs the callback again, and nothing marks the message as sent.
use micro_morse_chat.Prelude.{ℕ, ◌≡◌, [], ◌∷◌, ◌++◌, length, drop, take-all, drop-append, arith}
use micro_morse_chat.Button.{message_size, right_button, then_reset, Button, button, handle, run}
use micro_morse_chat.Button.Sequence.{sequence, IsListening}

-- From a state that records with no button down: behind the closing sequence, while its callback
-- waits, one more press or release of the right button hands the same eleven bytes to the chat
-- application again, and a second callback waits behind the first.
pub sent_twice :
    (b : Button) (val : ℕ)
    → IsListening b
    → length b.message ≡ message_size
    → let b' = run b (sequence ++ button right_button val ∷ []) in
      let buff = b.message ++ drop message_size b.main_buff in
      (b'.notified ≡ buff ∷ buff ∷ b.notified) × (b'.waiting ≡ then_reset ∷ then_reset ∷ b.waiting)
unfolding run handle
sent_twice b val h l =
    ground (
      arith,
      take-all message_size b.message,
      drop-append b.message (drop message_size b.main_buff),
    )
