-- ===== src/Chat/Service/Lock.antt =====
-- The network lock of applications/morse_chat/morse_chat.c, and the answers to the button application.
use micro_morse_chat.Prelude.{
  ℕ, ◌≡◌, refl, ◌∙◌, inl, inr, true, List, [], ◌∷◌, Option, none, some, Option-cases, arith,
}
use micro_morse_chat.Stdio.{pos, snprintf}
use micro_morse_chat.Chat.{Message, parse_data}
use micro_morse_chat.Chat.Service.{
  Main, registering, registered, looping, fetching, fetched, delaying, Rest, nothing, then_notify,
  Chat, display_text, call_display, lock_network, main_ipc_callback, show_next, take_user,
  take_reply, go_on, unwind, display_ipc_callback, network_reply, tick, Event, from_button,
  displayed, replied, resumed, handle, run,
}

-- No event hands over a message: the buffer of the button application begins with 0xff.
abbrev pub IsOpening : Event → Type 0
IsOpening (from_button pid len []) = Unit
IsOpening (from_button pid len (lock ∷ buf)) = lock ≡ 0xff
IsOpening _ = Unit

abbrev pub AllOpening : List Event → Type 0
AllOpening [] = Unit
AllOpening (e ∷ es) = IsOpening e × AllOpening es

-- The lock is held and nothing was requested or posted in between.
pub record Locked (c c' : Chat) : Type 0 where
  pub held : c'.network_lock ≡ true
  pub same_requests : c'.requests ≡ c.requests
  pub same_posts : c'.posts ≡ c.posts

unwind-Locked : (rs : List Rest) (c : Chat) → c.network_lock ≡ true → Locked c (unwind rs c)
unfolding unwind
unwind-Locked [] c h = ground arith
unwind-Locked (nothing ∷ rs) c h = unwind-Locked rs c h
unwind-Locked (then_notify pid ∷ rs) c h =
    let rest = unwind-Locked rs (record c { notified = pid ∷ c.notified }) h in ground arith

show_next-Locked :
    (ms : List Message) (c : Chat) → c.network_lock ≡ true → Locked c (show_next ms c)
unfolding show_next
show_next-Locked [] c h = ground arith
show_next-Locked (m ∷ ms) c h = ground arith

take_reply-Locked :
    (r : Option (List ℕ)) (c c' : Chat)
    → c.network_lock ≡ true
    → take_reply r c ≡ some c'
    → Locked c c'
unfolding take_reply
take_reply-Locked none c c' h e = ground arith
take_reply-Locked (some buffer) c c' h e = elim (Option-cases (parse_data buffer c.num_messages)) [
  | inl bad ↦ absurd (ground arith)
  | inr ((n, ms), parsed) ↦
      let next = show_next-Locked ms (record c { num_messages = n }) h in ground arith
]

take_user-Locked :
    (r : Option (List ℕ)) (c c' : Chat)
    → c.network_lock ≡ true
    → take_user r c ≡ some c'
    → Locked c c'
unfolding take_user
take_user-Locked none c c' h e = ground arith
take_user-Locked (some text) c c' h e = ground arith

go_on-Locked : (m : Main) (c c' : Chat) → c.network_lock ≡ true → go_on m c ≡ some c' → Locked c c'
unfolding go_on
go_on-Locked (registered r) c c' h e = take_user-Locked r c c' h e
go_on-Locked (fetched r) c c' h e = take_reply-Locked r c c' h e
go_on-Locked looping c c' h e = ground arith
go_on-Locked _ c c' h e = ground arith

network_reply-Locked :
    (r : Option (List ℕ)) (rs : List Rest) (m : Main) (c c' : Chat)
    → c.network_lock ≡ true
    → network_reply r rs m c ≡ some c'
    → Locked c c'
unfolding network_reply
network_reply-Locked r [] registering c c' h e = take_user-Locked r c c' h e
network_reply-Locked r (x ∷ rs) registering c c' h e = ground arith
network_reply-Locked r [] fetching c c' h e = take_reply-Locked r c c' h e
network_reply-Locked r (x ∷ rs) fetching c c' h e = ground arith
network_reply-Locked r rs looping c c' h e = ground arith
network_reply-Locked r rs _ c c' h e = ground arith

tick-Locked :
    (rs : List Rest) (m : Main) (c : Chat) → c.network_lock ≡ true → Locked c (tick rs m c)
unfolding tick
tick-Locked [] (delaying ms) c h = show_next-Locked ms c h
tick-Locked [] looping c h = ground arith
tick-Locked rs m c h = ground arith

display_ipc_callback-Locked :
    (c c' : Chat) → c.network_lock ≡ true → display_ipc_callback c ≡ some c' → Locked c c'
unfolding display_ipc_callback
display_ipc_callback-Locked c c' h e =
    let c1 : Chat = record c { display_done = true; callbacks = [] } in
    let u = unwind-Locked c.callbacks c1 h in
    let g = go_on-Locked c.main (unwind c.callbacks c1) c' u.held e in ground arith

main_ipc_callback-Locked :
    (pid len : ℕ) (buf : List ℕ) (c c' : Chat)
    → IsOpening (from_button pid len buf)
    → c.network_lock ≡ true
    → main_ipc_callback pid len buf c ≡ some c'
    → Locked c c'
unfolding main_ipc_callback call_display
main_ipc_callback-Locked pid len [] c c' o h e = ground arith
main_ipc_callback-Locked pid len (lock ∷ buf) c c' o h e = ground arith

handle-Locked :
    (c c' : Chat) (e : Event)
    → IsOpening e
    → c.network_lock ≡ true
    → handle c e ≡ some c'
    → Locked c c'
unfolding handle
handle-Locked c c' (from_button pid len buf) o h e = main_ipc_callback-Locked pid len buf c c' o h e
handle-Locked c c' displayed o h e = display_ipc_callback-Locked c c' h e
handle-Locked c c' (replied r) o h e = network_reply-Locked r c.callbacks c.main c c' h e
handle-Locked c c' resumed o h e = let t = tick-Locked c.callbacks c.main c h in ground arith

-- From a state in which the network is locked, through any events that hand over no message, in any
-- order: the lock stays, no request to the network is begun, and nothing is posted.
pub run-Locked :
    (es : List Event) (c c' : Chat)
    → AllOpening es
    → c.network_lock ≡ true
    → run c es ≡ some c'
    → Locked c c'
unfolding run
run-Locked [] c c' o h e = ground arith
run-Locked (x ∷ es) c c' o h e = elim (Option-cases (handle c x)) [
  | inl bad ↦ absurd (ground arith)
  | inr (d, stepped) ↦
      let one = handle-Locked c d x o.0 h stepped in
      let rest = run-Locked es d c' o.1 one.held (ground arith) in ground arith
]

-- What the first message of the button application, which begins with 0xff, does.
main_ipc_callback-locks :
    (pid len : ℕ) (buf : List ℕ) (c : Chat)
    → let text = display_text (pos 1) (pos 0) [] in
      (c' : Chat) × (main_ipc_callback pid len (0xff ∷ buf) c ≡ some c')
      × (c'.network_lock ≡ true)
      × (c'.requests ≡ c.requests)
      × (c'.posts ≡ c.posts)
      × (c'.shown ≡ snprintf c.display_buff 64 text ∷ c.shown)
unfolding main_ipc_callback lock_network call_display
main_ipc_callback-locks pid len buf c = (lock_network c, refl, refl, refl, refl, refl)

-- The lock is taken, and held through all that follows but a message.
pub run-locks :
    (pid len : ℕ) (buf : List ℕ) (es : List Event) (c d : Chat)
    → AllOpening es
    → run c (from_button pid len (0xff ∷ buf) ∷ es) ≡ some d
    → (c' : Chat) × (main_ipc_callback pid len (0xff ∷ buf) c ≡ some c')
      × (c'.shown ≡ snprintf c.display_buff 64 (display_text (pos 1) (pos 0) []) ∷ c.shown)
      × Locked c d
unfolding run handle
run-locks pid len buf es c d opens ran =
    let (c', locked, lock, asked, posted, shown) = main_ipc_callback-locks pid len buf c in
    let kept = run-Locked es c' d opens lock (ground (arith, locked)) in
    (
      c',
      locked,
      shown,
      record {
        held = kept.held;
        same_requests = kept.same_requests ∙ asked;
        same_posts = kept.same_posts ∙ posted;
      },
    )
