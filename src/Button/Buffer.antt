-- ===== src/Button/Buffer.antt =====
-- The message buffer of applications/morse_button/morse_button.c under any upcalls.
use native.Mathlib.Nat.{suc-add}
use micro_morse_chat.Prelude.{
  ℕ, zero, suc, ◌+◌, ◌≤◌, ◌<◌, ◌≡◌, ◌⊎◌, true, false, List, [], ◌∷◌, length, set, length-set, arith,
}
use micro_morse_chat.Button.{
  message_len, message_size, Rest, nothing, then_reset, Button, initial, reset_state, unwind,
  button_callback, Event, button, answered, handle, run,
}

-- Symbols and zeros: the first `n` bytes are dots and dashes, all others 0.
abbrev pub Recorded : ℕ → List ℕ → Type 0
Recorded zero [] = Unit
Recorded zero (c ∷ cs) = (c ≡ 0) × Recorded zero cs
Recorded (suc n) [] = ⊥
Recorded (suc n) (c ∷ cs) = ((c ≡ b'.') ⊎ (c ≡ b'-')) × Recorded n cs

Recorded-set :
    (n : ℕ) (cs : List ℕ) (c : ℕ)
    → n < length cs
    → (c ≡ b'.') ⊎ (c ≡ b'-')
    → Recorded n cs
    → Recorded (n + 1) (set cs n c)
Recorded-set zero [] c h s r = absurd (omega arith)
Recorded-set zero (x ∷ cs) c h s r = (s, r.1)
Recorded-set (suc n) [] c h s r = absurd (omega arith)
Recorded-set (suc n) (x ∷ cs) c h s r = rw suc-add (r.0, Recorded-set n cs c (omega arith) s r.1)

-- What holds between two upcalls.
pub record IsValid (b : Button) : Type 0 where
  pub sized : length b.message ≡ message_size
  pub bounded : b.idx ≤ message_len
  pub marked : b.buffer_full ≡ false → b.idx < message_len
  pub recorded : Recorded b.idx b.message

pub initial-IsValid : IsValid initial
initial-IsValid = ground arith

reset_state-IsValid : (b : Button) → IsValid (reset_state b)
unfolding reset_state
reset_state-IsValid b = ground arith

button_callback-IsValid :
    (b : Button) (btn_num val : ℕ) → IsValid b → IsValid (button_callback b btn_num val)
unfolding button_callback reset_state
button_callback-IsValid b btn_num val h = ground (
  arith,
  length-set b.message b.idx b'.',
  length-set b.message b.idx b'-',
  Recorded-set b.idx b.message b'.',
  Recorded-set b.idx b.message b'-',
)

unwind-IsValid : (rs : List Rest) (b : Button) → IsValid b → IsValid (unwind rs b)
unfolding unwind
unwind-IsValid [] b h = h
unwind-IsValid (nothing ∷ rs) b h = unwind-IsValid rs b h
unwind-IsValid (then_reset ∷ rs) b h = unwind-IsValid rs (reset_state b) (reset_state-IsValid b)

handle-IsValid : (b : Button) (e : Event) → IsValid b → IsValid (handle b e)
unfolding handle
handle-IsValid b (button btn_num val) h = button_callback-IsValid b btn_num val h
handle-IsValid b answered h =
    unwind-IsValid b.waiting (record b { main_done = true; waiting = [] })
      (record { sized = h.sized; bounded = h.bounded; marked = h.marked; recorded = h.recorded })

run_from-IsValid : (b : Button) (es : List Event) → IsValid b → IsValid (run b es)
unfolding run
run_from-IsValid b [] h = h
run_from-IsValid b (e ∷ es) h = run_from-IsValid (handle b e) es (handle-IsValid b e h)

-- After any upcalls, also those that arrive while a callback waits, the array keeps its eleven bytes,
-- its first `idx` bytes are dots and dashes and the others 0, and `idx` is at most ten and below ten
-- unless the buffer is marked full: every symbol is written inside the array and leaves a closing 0.
pub run-IsValid : (es : List Event) → IsValid (run initial es)
run-IsValid es = run_from-IsValid initial es initial-IsValid
