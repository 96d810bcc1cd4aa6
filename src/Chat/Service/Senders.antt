-- ===== src/Chat/Service/Senders.antt =====
-- Whom the notices of `main_ipc_callback` in applications/morse_chat/morse_chat.c go to: the client that
-- the kernel names as the sender, also where callbacks wait one above the other.
use micro_morse_chat.Prelude.{
  ℕ, ◌+◌, ◌≡◌, inl, inr, true, List, [], ◌∷◌, some, Option-cases, ◌==◌, if◌then◌else◌, arith,
}
use micro_morse_chat.Stdio.{ℤ}
use micro_morse_chat.Chat.Service.{
  Rest, nothing, then_notify, Chat, start, call_display, main_ipc_callback, unwind,
  display_ipc_callback, Event, from_button, displayed, replied, resumed, handle, run,
}
use micro_morse_chat.Chat.Service.Answers.{
  IsBalanced, run-IsBalanced, Same, go_on-Same, network_reply-Same, tick-Same,
}

-- How often a client is among those notified.
abbrev pub notices_to : ℕ → List ℕ → ℕ
notices_to pid [] = 0
notices_to pid (q ∷ qs) = (if q == pid then 1 else 0) + notices_to pid qs

-- How many waiting callbacks will notify a client.
abbrev pub owed_to : ℕ → List Rest → ℕ
owed_to pid [] = 0
owed_to pid (nothing ∷ rs) = owed_to pid rs
owed_to pid (then_notify q ∷ rs) = (if q == pid then 1 else 0) + owed_to pid rs

-- Whether one call of the service is a message of a client: its sender is that client, its length is
-- not 0 and its first byte does not ask for the lock.
abbrev message_of : ℕ → ℕ → ℕ → List ℕ → ℕ
message_of pid q len [] = 0
message_of pid q len (lock ∷ buf) =
    if lock == 0xff then 0 else if len == 0 then 0 else if q == pid then 1 else 0

-- The messages of a client among some events.
abbrev pub messages_of : ℕ → List Event → ℕ
messages_of pid [] = 0
messages_of pid (from_button q len buf ∷ es) = message_of pid q len buf + messages_of pid es
messages_of pid (_ ∷ es) = messages_of pid es

-- The notices to a client, given and owed.
abbrev told : ℕ → Chat → ℕ
told pid c = notices_to pid c.notified + owed_to pid c.callbacks

Same-told : (pid : ℕ) {c c' : Chat} → Same c c' → told pid c' ≡ told pid c
Same-told pid s = rw (s.same_notified, s.same_callbacks)

-- The end of the waits gives each client what it is owed.
unwind-told :
    (pid : ℕ) (rs : List Rest) (c : Chat)
    → (notices_to pid (unwind rs c).notified ≡ notices_to pid c.notified + owed_to pid rs)
      × ((unwind rs c).callbacks ≡ c.callbacks)
unfolding unwind
unwind-told pid [] c = ground arith
unwind-told pid (nothing ∷ rs) c = unwind-told pid rs c
unwind-told pid (then_notify q ∷ rs) c =
    let (rest, kept) = unwind-told pid rs (record c { notified = q ∷ c.notified }) in
    (omega (arith, rest), kept)

displayed-told :
    (pid : ℕ) (c c' : Chat) → display_ipc_callback c ≡ some c' → told pid c' ≡ told pid c
unfolding display_ipc_callback
displayed-told pid c c' e =
    let c1 : Chat = record c { display_done = true; callbacks = [] } in
    let (given, none_left) = unwind-told pid c.callbacks c1 in
    let after = unwind c.callbacks c1 in
    let same = Same-told pid {c = after} {c' = c'} (go_on-Same c.main after c' e) in ground arith

main_ipc_callback-told :
    (pid q len : ℕ) (buf : List ℕ) (c c' : Chat)
    → main_ipc_callback q len buf c ≡ some c'
    → told pid c' ≡ message_of pid q len buf + told pid c
unfolding main_ipc_callback call_display
main_ipc_callback-told pid q len [] c c' e = ground arith
main_ipc_callback-told pid q len (lock ∷ buf) c c' e = ground arith

handle-told :
    (pid : ℕ) (c c' : Chat) (e : Event)
    → handle c e ≡ some c'
    → told pid c' ≡ messages_of pid (e ∷ []) + told pid c
unfolding handle
handle-told pid c c' (from_button q len buf) h =
    let one = main_ipc_callback-told pid q len buf c c' h in omega (arith, one)
handle-told pid c c' displayed h = let same = displayed-told pid c c' h in omega (arith, same)
handle-told pid c c' (replied r) h =
    let same = Same-told pid {c = c} {c' = c'} (network_reply-Same r c.callbacks c.main c c' h) in
    omega (arith, same)
handle-told pid c c' resumed h =
    let s : Same c c' = let t = tick-Same c.callbacks c.main c in ground arith in
    let same = Same-told pid {c = c} {c' = c'} s in omega (arith, same)

messages_of-cons :
    (pid : ℕ) (e : Event) (es : List Event)
    → messages_of pid (e ∷ es) ≡ messages_of pid (e ∷ []) + messages_of pid es
messages_of-cons pid (from_button q len buf) es = omega arith
messages_of-cons pid displayed es = omega arith
messages_of-cons pid (replied r) es = omega arith
messages_of-cons pid resumed es = omega arith

run_from-told :
    (pid : ℕ) (es : List Event) (c c' : Chat)
    → run c es ≡ some c'
    → told pid c' ≡ messages_of pid es + told pid c
unfolding run
run_from-told pid [] c c' e = let same : c ≡ c' = ground arith in rw (← same) (omega arith)
run_from-told pid (x ∷ es) c c' e = elim (Option-cases (handle c x)) [
  | inl bad ↦ absurd (ground arith)
  | inr (d, stepped) ↦
      let first = handle-told pid c d x stepped in
      let rest = run_from-told pid es d c' (ground arith) in
      omega (arith, first, rest, messages_of-cons pid x es)
]

-- In every run from the start, in any order of events: for each client, the notices given to it and
-- those that waiting callbacks still owe it are as many as the messages it handed over, that is, the
-- calls of the service in its name with a length other than 0 whose first byte is not 0xff; and the
-- messages posted are as many as all notices given and owed.
pub run-notifies_senders :
    (num : ℤ) (es : List Event) (c : Chat) (pid : ℕ)
    → run (start num) es ≡ some c
    → (notices_to pid c.notified + owed_to pid c.callbacks ≡ messages_of pid es) × IsBalanced c
run-notifies_senders num es c pid e =
    let all = run_from-told pid es (start num) c e in
    (omega (arith, all), run-IsBalanced num es c e)
