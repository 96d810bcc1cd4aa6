-- ===== src/Chat/Service/Answers.antt =====
-- The notices that applications/morse_chat/morse_chat.c owes to the button application, and what one
-- message of it makes the chat application do.
use native.Mathlib.Nat.{add-zero}
use micro_morse_chat.Prelude.{
  ℕ, suc, ◌+◌, ◌<◌, ◌≡◌, ◌≢◌, refl, sym, ◌∙◌, inl, inr, true, false, List, [], ◌∷◌, ◌++◌, Option,
  none, some, Option-cases, ◌==◌, length, replicate, drop, arith,
}
use micro_morse_chat.Stdio.{ℤ, c_string}
use micro_morse_chat.Stdio.Words.{All, NonZero, c_string-append, snprintf_fits}
use micro_morse_chat.Chat.{Message, parse_data}
use micro_morse_chat.Chat.Service.{
  Main, registering, registered, looping, fetching, fetched, delaying, Rest, nothing, then_notify,
  Chat, start, payload, payload_text, call_display, finish_post, main_ipc_callback, show_next,
  take_user, take_reply, go_on, unwind, display_ipc_callback, network_reply, tick, Event,
  from_button, displayed, replied, resumed, handle, run,
}

-- The callbacks that still have to notify a client.
abbrev pub owed : List Rest → ℕ
owed [] = 0
owed (nothing ∷ rs) = owed rs
owed (then_notify pid ∷ rs) = suc (owed rs)

abbrev pub IsBalanced : Chat → Type 0
IsBalanced c = length c.posts ≡ length c.notified + owed c.callbacks

-- Posts, notices and waiting callbacks are as before.
pub record Same (c c' : Chat) : Type 0 where
  pub same_posts : c'.posts ≡ c.posts
  pub same_notified : c'.notified ≡ c.notified
  pub same_callbacks : c'.callbacks ≡ c.callbacks

Same-IsBalanced : {c c' : Chat} → Same c c' → IsBalanced c → IsBalanced c'
Same-IsBalanced {c} {c'} s h = rw (s.same_posts, s.same_notified, s.same_callbacks) h

-- All waits end: every notice that was owed is given.
record Settled (rs : List Rest) (c c' : Chat) : Type 0 where
  posts_kept : c'.posts ≡ c.posts
  callbacks_kept : c'.callbacks ≡ c.callbacks
  all_notified : length c'.notified ≡ length c.notified + owed rs

unwind-Settled : (rs : List Rest) (c : Chat) → Settled rs c (unwind rs c)
unfolding unwind
unwind-Settled [] c = ground arith
unwind-Settled (nothing ∷ rs) c =
    let rest = unwind-Settled rs c in
    record {
      posts_kept = rest.posts_kept;
      callbacks_kept = rest.callbacks_kept;
      all_notified = rest.all_notified;
    }
unwind-Settled (then_notify pid ∷ rs) c =
    let rest = unwind-Settled rs (record c { notified = pid ∷ c.notified }) in
    record {
      posts_kept = rest.posts_kept;
      callbacks_kept = rest.callbacks_kept;
      all_notified = omega (arith, rest.all_notified);
    }

show_next-Same : (ms : List Message) (c : Chat) → Same c (show_next ms c)
unfolding show_next
show_next-Same [] c = ground arith
show_next-Same (m ∷ ms) c = ground arith

take_reply-Same : (r : Option (List ℕ)) (c c' : Chat) → take_reply r c ≡ some c' → Same c c'
unfolding take_reply
take_reply-Same none c c' e = ground arith
take_reply-Same (some buffer) c c' e = elim (Option-cases (parse_data buffer c.num_messages)) [
  | inl bad ↦ absurd (ground arith)
  | inr ((n, ms), parsed) ↦
      let next = show_next-Same ms (record c { num_messages = n }) in ground arith
]

take_user-Same : (r : Option (List ℕ)) (c c' : Chat) → take_user r c ≡ some c' → Same c c'
unfolding take_user
take_user-Same none c c' e = ground arith
take_user-Same (some text) c c' e = ground arith

pub go_on-Same : (m : Main) (c c' : Chat) → go_on m c ≡ some c' → Same c c'
unfolding go_on
go_on-Same (registered r) c c' e = take_user-Same r c c' e
go_on-Same (fetched r) c c' e = take_reply-Same r c c' e
go_on-Same looping c c' e = ground arith
go_on-Same _ c c' e = ground arith

pub network_reply-Same :
    (r : Option (List ℕ)) (rs : List Rest) (m : Main) (c c' : Chat)
    → network_reply r rs m c ≡ some c'
    → Same c c'
unfolding network_reply
network_reply-Same r [] registering c c' e = take_user-Same r c c' e
network_reply-Same r (x ∷ rs) registering c c' e = ground arith
network_reply-Same r [] fetching c c' e = take_reply-Same r c c' e
network_reply-Same r (x ∷ rs) fetching c c' e = ground arith
network_reply-Same r rs looping c c' e = ground arith
network_reply-Same r rs _ c c' e = ground arith

pub tick-Same : (rs : List Rest) (m : Main) (c : Chat) → Same c (tick rs m c)
unfolding tick
tick-Same [] (delaying ms) c = show_next-Same ms c
tick-Same [] looping c = ground arith
tick-Same rs m c = ground arith

-- Once the display has answered, no callback waits and no notice is owed.
displayed-Settled :
    (c c' : Chat)
    → IsBalanced c
    → display_ipc_callback c ≡ some c'
    → (c'.callbacks ≡ []) × (length c'.posts ≡ length c'.notified)
unfolding display_ipc_callback
displayed-Settled c c' h e =
    let c1 : Chat = record c { display_done = true; callbacks = [] } in
    let u = unwind-Settled c.callbacks c1 in
    let g = go_on-Same c.main (unwind c.callbacks c1) c' e in (ground arith, ground arith)

main_ipc_callback-IsBalanced :
    (pid len : ℕ) (buf : List ℕ) (c c' : Chat)
    → IsBalanced c
    → main_ipc_callback pid len buf c ≡ some c'
    → IsBalanced c'
unfolding main_ipc_callback call_display
main_ipc_callback-IsBalanced pid len [] c c' h e = ground arith
main_ipc_callback-IsBalanced pid len (lock ∷ buf) c c' h e = ground arith

handle-IsBalanced : (c c' : Chat) (e : Event) → IsBalanced c → handle c e ≡ some c' → IsBalanced c'
unfolding handle
handle-IsBalanced c c' (from_button pid len buf) h e =
    main_ipc_callback-IsBalanced pid len buf c c' h e
handle-IsBalanced c c' displayed h e =
    let (quiet, even) = displayed-Settled c c' h e in rw quiet (even ∙ sym (add-zero _))
handle-IsBalanced c c' (replied r) h e =
    Same-IsBalanced {c = c} {c' = c'} (network_reply-Same r c.callbacks c.main c c' e) h
handle-IsBalanced c c' resumed h e =
    let s : Same c c' = let t = tick-Same c.callbacks c.main c in ground arith in
    Same-IsBalanced {c = c} {c' = c'} s h

run_from-IsBalanced :
    (es : List Event) (c c' : Chat) → IsBalanced c → run c es ≡ some c' → IsBalanced c'
unfolding run
run_from-IsBalanced [] c c' h e = let same : c ≡ c' = ground arith in rw (← same) h
run_from-IsBalanced (x ∷ es) c c' h e = elim (Option-cases (handle c x)) [
  | inl bad ↦ absurd (ground arith)
  | inr (d, stepped) ↦
      run_from-IsBalanced es d c' (handle-IsBalanced c d x h stepped) (ground arith)
]

-- In every run from the start, in any order of events: the messages posted are as many as the notices
-- given and those still owed by waiting callbacks.
pub run-IsBalanced :
    (num : ℤ) (es : List Event) (c : Chat) → run (start num) es ≡ some c → IsBalanced c
run-IsBalanced num es c e = run_from-IsBalanced es (start num) c (omega arith) e

-- In every run from the start, once the display answers, no callback waits and every message posted so
-- far has been followed by a notice: as many notices as messages.
pub answer_settles :
    (num : ℤ) (es : List Event) (c c' : Chat)
    → run (start num) es ≡ some c
    → handle c displayed ≡ some c'
    → (c'.callbacks ≡ []) × (length c'.posts ≡ length c'.notified)
unfolding handle
answer_settles num es c c' e d = displayed-Settled c c' (run-IsBalanced num es c e) d

-- A C string whose first byte does not ask for the lock.
abbrev pub IsMessage : List ℕ → Type 0
IsMessage [] = Unit
IsMessage (x ∷ xs) = All NonZero (x ∷ xs) × (x ≢ 0xff)

-- The payload is the whole text, if that fits.
payload-payload_text :
    (u : ℤ) (message : List ℕ)
    → All NonZero (payload_text u message)
    → length (payload_text u message) < 128
    → c_string (payload u message) ≡ some (payload_text u message)
unfolding payload
payload-payload_text u message shown fits =
    let text = payload_text u message in
    rw (snprintf_fits (replicate 128 0) 128 text fits)
      (c_string-append text (drop (length text + 1) (replicate 128 0)) shown)

-- One message of the button application, with its closing 0, in a text that fits the payload.
pub main_ipc_callback-post :
    (pid len : ℕ) (message rest : List ℕ) (c : Chat)
    → len ≢ 0
    → IsMessage message
    → All NonZero (payload_text c.user_id message)
    → length (payload_text c.user_id message) < 128
    → main_ipc_callback pid len (message ++ 0 ∷ rest) c
      ≡ some (finish_post pid (payload_text c.user_id message) c)
unfolding main_ipc_callback
main_ipc_callback-post pid len [] rest c sized m shown fits =
    let size : (len == 0) ≡ false = ground arith in
    let empty : c_string (0 ∷ rest) ≡ some [] = c_string-append [] rest tt in
    rw (size, empty) (rw (payload-payload_text c.user_id [] shown fits))
main_ipc_callback-post pid len (x ∷ message) rest c sized m shown fits =
    let size : (len == 0) ≡ false = ground arith in
    let no_lock : (x == 0xff) ≡ false = ground arith in
    rw (
      no_lock,
      size,
      c_string-append (x ∷ message) rest m.0,
      payload-payload_text c.user_id (x ∷ message) shown fits,
    )

-- What it leaves: the text is posted, the lock is open, and the notice to the sender is owed.
pub finish_post_lem :
    (pid : ℕ) (text : List ℕ) (c : Chat)
    → ((finish_post pid text c).posts ≡ text ∷ c.posts)
      × ((finish_post pid text c).network_lock ≡ false)
      × ((finish_post pid text c).callbacks ≡ then_notify pid ∷ c.callbacks)
unfolding finish_post call_display
finish_post_lem pid text c = (refl, refl, refl)
