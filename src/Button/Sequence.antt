-- ===== src/Button/Sequence.antt =====
-- The button sequences of applications/morse_button/morse_button.c: how the send mode is entered, a
-- message is recorded, and what the chat application is given.
use mathlib.Core.List.{append_assoc}
use native.Mathlib.Nat.{suc-add, zero-add}
use micro_morse_chat.Prelude.{
  ℕ, suc, ◌+◌, ◌-◌, ◌≤◌, ◌<◌, ◌≡◌, refl, ap, sym, ◌∙◌, Bool, true, false, List, [], ◌∷◌, ◌++◌,
  length, set, drop, replicate, length-append, length-replicate, set-append, take-all, arith,
}
use micro_morse_chat.Button.{
  message_len, message_size, on_release, on_press, left_button, right_button, Rest, nothing, Button,
  Event, button, answered, handle, run,
}

pub data Symbol : Type 0 where
  dot dash : Symbol

abbrev pub code_of : Symbol → ℕ
code_of dot = b'.'
code_of dash = b'-'

-- A press and a release of the symbol's button.
abbrev pub typed : List Symbol → List Event
typed [] = []
typed (dot ∷ ss) = button left_button on_press ∷ button left_button on_release ∷ typed ss
typed (dash ∷ ss) = button right_button on_press ∷ button right_button on_release ∷ typed ss

abbrev pub codes_of : List Symbol → List ℕ
codes_of [] = []
codes_of (s ∷ ss) = code_of s ∷ codes_of ss

-- Left down, right down, left up, right up.
abbrev pub sequence : List Event
sequence =
    button left_button on_press
    ∷ button right_button on_press
    ∷ button left_button on_release
    ∷ button right_button on_release
    ∷ []

-- Recording, with no button down.
pub record IsListening (b : Button) : Type 0 where
  pub is_active : b.send_mode_active ≡ true
  pub no_sequence : b.send_mode_sequence ≡ false
  pub no_button : b.fst_btn_pushed ≡ false
  pub not_full : b.buffer_full ≡ false

pub run-append : (b : Button) (es fs : List Event) → run b (es ++ fs) ≡ run (run b es) fs
unfolding run
run-append b [] fs = refl
run-append b (e ∷ es) fs = run-append (handle b e) es fs

typed-cons : (s : Symbol) (ss : List Symbol) → typed (s ∷ ss) ≡ typed (s ∷ []) ++ typed ss
typed-cons dot ss = refl
typed-cons dash ss = refl

type_one :
    (b : Button) (s : Symbol) (p r : List ℕ)
    → IsListening b
    → b.message ≡ p ++ 0 ∷ r
    → length p ≡ b.idx
    → b.idx + 1 < message_len
    → run b (typed (s ∷ [])) ≡ record b { message = p ++ code_of s ∷ r; idx = b.idx + 1 }
unfolding run handle
type_one b dot p r h em el lt = ground (arith, set-append p 0 r b'.')
type_one b dash p r h em el lt = ground (arith, set-append p 0 r b'-')

-- The message behind `p` recorded symbols with room for `m` more bytes.
pub type_all :
    (ss : List Symbol) (b : Button) (p : List ℕ) (m : ℕ)
    → IsListening b
    → b.message ≡ p ++ replicate (length ss + m) 0
    → length p ≡ b.idx
    → b.idx + length ss < message_len
    → run b (typed ss)
      ≡ record b { message = p ++ (codes_of ss ++ replicate m 0); idx = b.idx + length ss }
unfolding run
type_all [] b p m h em el lt =
    let count : b.idx + 0 ≡ b.idx = omega arith in
    let bytes : b.message ≡ p ++ replicate m 0 = em ∙ ap (λ k. p ++ replicate k 0) (zero-add m) in
    rw (count, sym bytes)
type_all (s ∷ ss) b p m h em el lt =
    let r : List ℕ = replicate (length ss + m) 0 in
    let first =
      type_one b s p r h (em ∙ ap (λ k. p ++ replicate k 0) (suc-add (length ss) m)) el
        (omega arith) in
    let b' : Button = record b { message = p ++ code_of s ∷ r; idx = b.idx + 1 } in
    let listening : IsListening b' = record {
      is_active = h.is_active;
      no_sequence = h.no_sequence;
      no_button = h.no_button;
      not_full = h.not_full;
    } in
    let rest =
      type_all ss b' (p ++ code_of s ∷ []) m listening (sym (append_assoc p (code_of s ∷ []) r))
        (length-append p (code_of s ∷ []) ∙ ap (λ k. k + 1) el) (omega arith) in
    let count : b.idx + 1 + length ss ≡ b.idx + suc (length ss) = omega arith in
    ap (λ x. run b x) (typed-cons s ss)
    ∙ run-append b (typed (s ∷ [])) (typed ss)
    ∙ ap (λ x. run x (typed ss)) first
    ∙ rest
    ∙ rw (append_assoc p (code_of s ∷ []), count)

-- The globals of an application that nobody is using.
pub record IsFresh (b : Button) : Type 0 where
  pub fresh_button : b.fst_btn_pushed ≡ false
  pub fresh_mode : b.send_mode_active ≡ false
  pub fresh_sequence : b.send_mode_sequence ≡ false
  pub fresh_full : b.buffer_full ≡ false
  pub fresh_idx : b.idx ≡ 0
  pub fresh_message : b.message ≡ replicate message_size 0
  pub fresh_waiting : b.waiting ≡ []

-- How the send mode is entered: the chat application may answer the sequence at once, or leave the
-- callback waiting, as it does in applications/morse_chat/morse_chat.c.
abbrev pub opening : Bool → List Event
opening true = sequence ++ answered ∷ []
opening false = sequence

abbrev pub left_waiting : Bool → List Rest
left_waiting true = []
left_waiting false = nothing ∷ []

-- The first round: the chat application is told to keep the network for the message.
pub enter :
    (b : Button) (acknowledged : Bool)
    → IsFresh b
    → let b' = run b (opening acknowledged) in
      IsListening b'
      × (b'.idx ≡ 0)
      × (b'.message ≡ replicate message_size 0)
      × (b'.waiting ≡ left_waiting acknowledged)
      × (b'.main_buff ≡ set b.main_buff 0 0xff)
      × (b'.notified ≡ set b.main_buff 0 0xff ∷ b.notified)
unfolding run handle
enter b true h = ground arith
enter b false h = ground arith

-- The last round: the sequence again, and the answer.
leave :
    (b : Button) (acknowledged : Bool)
    → IsListening b
    → b.waiting ≡ left_waiting acknowledged
    → length b.message ≡ message_size
    → let b' = run b (sequence ++ answered ∷ []) in
      IsFresh b' × (b'.notified ≡ (b.message ++ drop message_size b.main_buff) ∷ b.notified)
unfolding run handle
leave b true h w l = ground (arith, take-all message_size b.message)
leave b false h w l = ground (arith, take-all message_size b.message)

pub length-codes_of : (ss : List Symbol) → length (codes_of ss) ≡ length ss
length-codes_of [] = refl
length-codes_of (s ∷ ss) = ap suc (length-codes_of ss)

-- What a message in Morse code is in the array: its bytes, and zeros behind them.
abbrev pub padded : List Symbol → List ℕ
padded ss = codes_of ss ++ replicate (message_size - length ss) 0

length-padded : (ss : List Symbol) → length ss ≤ message_size → length (padded ss) ≡ message_size
length-padded ss h = omega (
  arith,
  length-append (codes_of ss) (replicate (message_size - length ss) 0),
  length-codes_of ss,
  length-replicate {A = ℕ} (message_size - length ss) 0,
)

-- One whole message of fewer than ten symbols, from a state in which nobody uses the application: the
-- sequence of the two buttons, the symbols, the sequence, the answer. The first sequence may be
-- answered or not: then its callback waits until the last answer. The application is then again in
-- such a state, and it notified the chat application exactly twice: first with 0xff in the first byte
-- of the shared buffer, then with the codes of the symbols in their order and zeros up to the eleventh
-- byte, the rest of the buffer as it was.
pub send_round :
    (b : Button) (acknowledged : Bool) (ss : List Symbol)
    → IsFresh b
    → length ss < message_len
    → let b' = run b (opening acknowledged ++ (typed ss ++ (sequence ++ answered ∷ []))) in
      let entered = set b.main_buff 0 0xff in
      IsFresh b' × (b'.notified ≡ (padded ss ++ drop message_size entered) ∷ entered ∷ b.notified)
send_round b acknowledged ss h lt =
    let b1 = run b (opening acknowledged) in
    let (listening, index, bytes, waits, buff, told) = enter b acknowledged h in
    let room : message_size ≡ length ss + (message_size - length ss) = omega arith in
    let c : Button = record b1 { message = padded ss; idx = b1.idx + length ss } in
    let typing : run b1 (typed ss) ≡ c =
      type_all ss b1 [] (message_size - length ss) listening (bytes ∙ ap (λ k. replicate k 0) room)
        (sym index) (omega arith) in
    let listening_c : IsListening c = record {
      is_active = listening.is_active;
      no_sequence = listening.no_sequence;
      no_button = listening.no_button;
      not_full = listening.not_full;
    } in
    let (fresh, sent) = leave c acknowledged listening_c waits (length-padded ss (omega arith)) in
    let whole : run b (opening acknowledged ++ (typed ss ++ (sequence ++ answered ∷ [])))
        ≡ run c (sequence ++ answered ∷ []) =
      run-append b (opening acknowledged) (typed ss ++ (sequence ++ answered ∷ []))
      ∙ run-append b1 (typed ss) (sequence ++ answered ∷ [])
      ∙ ap (λ x. run x (sequence ++ answered ∷ [])) typing in
    rw whole (fresh, sent ∙ rw (buff, told))
