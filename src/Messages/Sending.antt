-- ===== src/Messages/Sending.antt =====
-- From the buttons to the payload: applications/morse_button/morse_button.c hands its buffer to
-- applications/morse_chat/morse_chat.c.
use mathlib.Core.List.{append_assoc}
use micro_morse_chat.Prelude.{
  ℕ, suc, ◌-◌, ◌^◌, ◌≤◌, ◌<◌, ◌≡◌, ◌≢◌, Bool, false, List, [], ◌∷◌, ◌++◌, some, length, set, drop,
  replicate, length-append, arith,
}
use micro_morse_chat.Stdio.{pos, decimal, itoa}
use micro_morse_chat.Stdio.Decimal.{decimal-IsDigits, length-decimal}
use micro_morse_chat.Stdio.Words.{All, All-append, NonZero, All-NonZero_digits}
use micro_morse_chat.Button.{message_len, message_size, Button, Event, answered}
use micro_morse_chat.Button
use micro_morse_chat.Button.Sequence.{
  Symbol, dot, dash, codes_of, typed, padded, sequence, opening, IsFresh, send_round,
  length-codes_of,
}
use micro_morse_chat.Chat.Service.{
  then_notify, Chat, uid_key, message_key, closing, payload_text, finish_post, main_ipc_callback,
}
use micro_morse_chat.Chat.Service.Answers.{IsMessage, main_ipc_callback-post, finish_post_lem}

codes_of-NonZero : (ss : List Symbol) → All NonZero (codes_of ss)
codes_of-NonZero [] = tt
codes_of-NonZero (dot ∷ ss) = ((omega arith), codes_of-NonZero ss)
codes_of-NonZero (dash ∷ ss) = ((omega arith), codes_of-NonZero ss)

codes_of-IsMessage : (ss : List Symbol) → IsMessage (codes_of ss)
codes_of-IsMessage [] = tt
codes_of-IsMessage (dot ∷ ss) = (codes_of-NonZero (dot ∷ ss), omega arith)
codes_of-IsMessage (dash ∷ ss) = (codes_of-NonZero (dash ∷ ss), omega arith)

padded-split :
    (ss : List Symbol) (rest : List ℕ)
    → length ss < message_len
    → padded ss ++ rest ≡ codes_of ss ++ 0 ∷ (replicate (10 - length ss) 0 ++ rest)
padded-split ss rest h =
    let room : message_size - length ss ≡ suc (10 - length ss) = omega arith in
    rw room (append_assoc (codes_of ss) (0 ∷ replicate (10 - length ss) 0) rest)

payload_text-NonZero : (u : ℕ) (ss : List Symbol) → All NonZero (payload_text (pos u) (codes_of ss))
unfolding itoa
payload_text-NonZero u ss =
    let tail = All-append NonZero (codes_of ss) closing (codes_of-NonZero ss) (omega arith) in
    let behind = All-append NonZero message_key (codes_of ss ++ closing) (omega arith) tail in
    All-append NonZero uid_key (decimal u ++ (message_key ++ (codes_of ss ++ closing)))
      (omega arith)
      (All-append NonZero (decimal u) (message_key ++ (codes_of ss ++ closing))
        (All-NonZero_digits (decimal u) (decimal-IsDigits u)) behind)

pub length-payload_text :
    (u : ℕ) (ss : List Symbol)
    → u < 10 ^ 10
    → length ss ≤ message_len
    → length (payload_text (pos u) (codes_of ss)) < 128
unfolding itoa
length-payload_text u ss small short = omega (
  arith,
  length-append (decimal u) (message_key ++ (codes_of ss ++ closing)),
  length-append (codes_of ss) closing,
  length-codes_of ss,
  length-decimal 9 u small,
)

-- A message of fewer than ten symbols, typed on the buttons from a state in which nobody uses the
-- button application: when it hands its buffer to the chat application of a user below 10 ^ 10, the
-- chat application posts the user's number with exactly the codes of the symbols, opens the network
-- lock, and owes the button application a notice.
pub typed_message_posted :
    (b : Button) (acknowledged : Bool) (ss : List Symbol) (c : Chat) (u pid len : ℕ)
    → IsFresh b
    → length ss < message_len
    → c.user_id ≡ pos u
    → u < 10 ^ 10
    → len ≢ 0
    → let b' = Button.run b (opening acknowledged ++ (typed ss ++ (sequence ++ answered ∷ []))) in
      (handed : List ℕ) × (earlier : List (List ℕ)) × (c' : Chat) × (b'.notified ≡ handed ∷ earlier)
      × (main_ipc_callback pid len handed c ≡ some c')
      × (c'.posts ≡ payload_text (pos u) (codes_of ss) ∷ c.posts)
      × (c'.network_lock ≡ false)
      × (c'.callbacks ≡ then_notify pid ∷ c.callbacks)
typed_message_posted b acknowledged ss c u pid len fresh short user small sized =
    let entered = set b.main_buff 0 0xff in
    let rest = drop message_size entered in
    let (free, told) = send_round b acknowledged ss fresh short in
    let text = payload_text (pos u) (codes_of ss) in
    let posted : main_ipc_callback pid len (padded ss ++ rest) c ≡ some (finish_post pid text c) =
      rw (padded-split ss rest short) (
        rw (← user) (
          main_ipc_callback-post pid len (codes_of ss) (replicate (10 - length ss) 0 ++ rest) c
            sized (codes_of-IsMessage ss) (rw user (payload_text-NonZero u ss))
            (rw user (length-payload_text u ss small (omega arith))))) in
    let (posts, lock, owes) = finish_post_lem pid text c in
    (
      padded ss ++ rest,
      entered ∷ b.notified,
      finish_post pid text c,
      told,
      posted,
      posts,
      lock,
      owes,
    )
