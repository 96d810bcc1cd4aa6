-- ===== src/Chat/Service/Tests.antt =====
-- Runs of applications/morse_chat/morse_chat.c from its start, and each theorem at one of them.
use micro_morse_chat.Prelude.{
  ◌+◌, ◌<◌, ◌≡◌, refl, true, List, [], ◌∷◌, ◌++◌, some, length, replicate, arith,
}
use micro_morse_chat.Stdio.{pos, itoa, scan_int, c_string, snprintf}
use micro_morse_chat.Chat.Parse.{reply, parse_data-reply}
use micro_morse_chat.Chat.Tests.{letter_s, both, both-AllSendable}
use micro_morse_chat.Chat.Service.{
  looping, Chat, start, payload_text, lock_network, finish_post, Event, from_button, displayed,
  replied, resumed, handle, run, then_notify, main_ipc_callback,
}
use micro_morse_chat.Stdio.Words.{All, NonZero}
use micro_morse_chat.Chat.Addresses.{endpoint}
use micro_morse_chat.Chat.Service.Early.{early_message_posted}
use micro_morse_chat.Chat.Service.Answers.{IsBalanced, answer_settles}
use micro_morse_chat.Chat.Service.Senders.{notices_to, owed_to, messages_of, run-notifies_senders}
use micro_morse_chat.Chat.Service.Round.{shows, answers, IsReady, round_shows}

-- The application of user 5, and the buffer that asks for the lock.
abbrev first : Chat
first = record (start (pos 7)) { main = looping; user_id = pos 5 }

abbrev asking : Event
asking = from_button 1 64 (0xff ∷ replicate 63 0)

abbrev locked : Chat
locked = lock_network first

abbrev locked_twice : Chat
locked_twice = record (lock_network locked) { display_done = true; callbacks = [] }

abbrev meanwhile : List Event
meanwhile = resumed ∷ asking ∷ resumed ∷ displayed ∷ resumed ∷ []

run-meanwhile : run locked meanwhile ≡ some locked_twice
unfolding run handle lock_network
run-meanwhile = refl

locked_held : locked.network_lock ≡ true
unfolding lock_network
locked_held = refl

-- The user number arrives, then the letter S, while the display shows the lock.
abbrev posting : List Event
posting =
    replied (some (b'5' ∷ 0 ∷ []))
    ∷ asking
    ∷ from_button 1 64 (letter_s.morse ++ replicate 61 0)
    ∷ []

abbrev posted : Chat
posted = finish_post 1 (payload_text (pos 5) letter_s.morse) locked

run-posting : run (start (pos 7)) posting ≡ some posted
unfolding run handle lock_network finish_post c_string snprintf itoa scan_int
run-posting = refl

-- The first of two clients that hand over a letter while the display shows the lock.
abbrev two_clients : List Event
two_clients = posting ++ from_button 2 64 (letter_s.morse ++ replicate 61 0) ∷ []

abbrev both_posted : Chat
both_posted = finish_post 2 (payload_text (pos 5) letter_s.morse) posted

run-two_clients : run (start (pos 7)) two_clients ≡ some both_posted
unfolding run handle lock_network finish_post c_string snprintf itoa scan_int
run-two_clients = refl

run-notifies_senders_example :
    (notices_to 1 both_posted.notified + owed_to 1 both_posted.callbacks
      ≡ messages_of 1 two_clients)
    × IsBalanced both_posted
run-notifies_senders_example =
    run-notifies_senders (pos 7) two_clients both_posted 1 run-two_clients

abbrev settled : Chat
settled = record posted { display_done = true; callbacks = []; notified = 1 ∷ [] }

handle-settled : handle posted displayed ≡ some settled
unfolding handle finish_post lock_network
handle-settled = refl

answer_settles_example : (settled.callbacks ≡ []) × (length settled.posts ≡ length settled.notified)
answer_settles_example = answer_settles (pos 7) posting posted settled run-posting handle-settled

first-IsReady : IsReady first
first-IsReady = record { at_head = refl; no_callbacks = refl }

round_shows_example :
    (c' : Chat) × (run first (resumed ∷ replied (some (reply 10 both ++ 0 ∷ [])) ∷ answers both)
      ≡ some c')
    × IsReady c'
    × (c'.requests ≡ endpoint (pos 5) ∷ first.requests)
    × (c'.posts ≡ [])
    × (c'.shown ≡ shows first.display_buff both [])
round_shows_example =
    round_shows first (reply 10 both ++ 0 ∷ []) (pos 2) both first-IsReady refl
      (parse_data-reply 10 both [] first.num_messages refl (omega arith) both-AllSendable)

-- The letter S before the user number arrives, while the display shows the lock.
abbrev early : List Event
early = asking ∷ resumed ∷ []

abbrev early_lock : Chat
early_lock = lock_network (start (pos 7))

run-early : run (start (pos 7)) early ≡ some early_lock
unfolding run handle lock_network
run-early = refl

early_text_fits :
    All NonZero (payload_text (pos 0) letter_s.morse)
    × (length (payload_text (pos 0) letter_s.morse) < 128)
unfolding itoa
early_text_fits = omega arith

early_message_posted_example :
    (c' : Chat) × (main_ipc_callback 1 64 (letter_s.morse ++ 0 ∷ replicate 60 0) early_lock
      ≡ some c')
    × (c'.posts ≡ payload_text (pos 0) letter_s.morse ∷ early_lock.posts)
    × (c'.callbacks ≡ then_notify 1 ∷ early_lock.callbacks)
early_message_posted_example =
    early_message_posted (pos 7) early early_lock 1 64 letter_s.morse (replicate 60 0) tt run-early
      (omega arith) (omega arith) early_text_fits.0 early_text_fits.1
