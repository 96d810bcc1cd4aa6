-- ===== src/Chat/Service/Early.antt =====
-- The time before the user number arrives, in applications/morse_chat/morse_chat.c: the button application
-- is served already, by the callback that `main` registers before it asks for the number.
use mathlib.Core.List.{append-nil}
use micro_morse_chat.Prelude.{
  ℕ, ◌<◌, ◌≡◌, ◌≢◌, refl, ap, ◌∙◌, inl, inr, true, List, [], ◌∷◌, ◌++◌, some, Option-cases, length,
  arith,
}
use micro_morse_chat.Stdio.{ℤ, pos, decimal, scan_int}
use micro_morse_chat.Stdio.Decimal.{decimal-IsDigits, scan_int-decimal}
use micro_morse_chat.Stdio.Words.{All, NonZero, All-NonZero_digits, c_string-append}
use micro_morse_chat.Chat.{scan_count}
use micro_morse_chat.Chat.Service.{
  registering, Rest, nothing, then_notify, Chat, start, payload_text, call_display, finish_post,
  main_ipc_callback, go_on, unwind, display_ipc_callback, take_user, network_reply, looping, tick,
  Event, from_button, displayed, replied, resumed, handle, run,
}
use micro_morse_chat.Chat.Service.Answers.{IsMessage, main_ipc_callback-post, finish_post_lem}

-- No reply from the network is among the events.
abbrev pub NoReply : List Event → Type 0
NoReply [] = Unit
NoReply (replied r ∷ es) = ⊥
NoReply (e ∷ es) = NoReply es

NoReply-head : (e : Event) (es : List Event) → NoReply (e ∷ es) → NoReply (e ∷ [])
NoReply-head (replied r) es o = o
NoReply-head (displayed) es o = tt
NoReply-head _ es o = tt

NoReply-tail : (e : Event) (es : List Event) → NoReply (e ∷ es) → NoReply es
NoReply-tail (replied r) es o = absurd o
NoReply-tail displayed es o = o
NoReply-tail _ es o = o

record Unregistered (c : Chat) : Type 0 where
  zero_user : c.user_id ≡ pos 0
  waits_for_user : c.main ≡ registering

unwind-Unregistered : (rs : List Rest) (c : Chat) → Unregistered c → Unregistered (unwind rs c)
unfolding unwind
unwind-Unregistered [] c h = h
unwind-Unregistered (nothing ∷ rs) c h = unwind-Unregistered rs c h
unwind-Unregistered (then_notify pid ∷ rs) c h =
    unwind-Unregistered rs (record c { notified = pid ∷ c.notified })
      (record { zero_user = h.zero_user; waits_for_user = h.waits_for_user })

main_ipc_callback-Unregistered :
    (pid len : ℕ) (buf : List ℕ) (c c' : Chat)
    → Unregistered c
    → main_ipc_callback pid len buf c ≡ some c'
    → Unregistered c'
unfolding main_ipc_callback call_display
main_ipc_callback-Unregistered pid len [] c c' h e = ground arith
main_ipc_callback-Unregistered pid len (lock ∷ buf) c c' h e = ground arith

display_ipc_callback-Unregistered :
    (c c' : Chat) → Unregistered c → display_ipc_callback c ≡ some c' → Unregistered c'
unfolding display_ipc_callback
display_ipc_callback-Unregistered c c' h e =
    let c1 : Chat = record c { display_done = true; callbacks = [] } in
    let u =
      unwind-Unregistered c.callbacks c1
        (record { zero_user = h.zero_user; waits_for_user = h.waits_for_user }) in
    let same : some (unwind c.callbacks c1) ≡ some c' =
      rw (← e) (rw (display_ipc_callback, h.waits_for_user, go_on)) in
    ground arith

tick-registering : (rs : List Rest) (c : Chat) → tick rs registering c ≡ c
unfolding tick
tick-registering [] c = refl
tick-registering (r ∷ rs) c = refl

handle-Unregistered :
    (c c' : Chat) (e : Event)
    → NoReply (e ∷ [])
    → Unregistered c
    → handle c e ≡ some c'
    → Unregistered c'
unfolding handle
handle-Unregistered c c' (from_button pid len buf) o h e =
    main_ipc_callback-Unregistered pid len buf c c' h e
handle-Unregistered c c' displayed o h e = display_ipc_callback-Unregistered c c' h e
handle-Unregistered c c' (replied r) o h e = absurd o
handle-Unregistered c c' resumed o h e =
    let same : tick c.callbacks c.main c ≡ c =
      ap (λ m. tick c.callbacks m c) h.waits_for_user ∙ tick-registering c.callbacks c in
    ground arith

run-Unregistered :
    (es : List Event) (c c' : Chat)
    → NoReply es
    → Unregistered c
    → run c es ≡ some c'
    → Unregistered c'
unfolding run
run-Unregistered [] c c' o h e = ground arith
run-Unregistered (x ∷ es) c c' o h e = elim (Option-cases (handle c x)) [
  | inl bad ↦ absurd (ground arith)
  | inr (d, stepped) ↦
      run-Unregistered es d c' (NoReply-tail x es o)
        (handle-Unregistered c d x (NoReply-head x es o) h stepped) (ground arith)
]

-- In every run from the start in which the network has not replied yet, whatever else has happened: a
-- message that the button application hands over, and whose text fits the payload, is posted as one of
-- user 0, and the button application is owed its notice.
pub early_message_posted :
    (num : ℤ) (es : List Event) (c : Chat) (pid len : ℕ) (message rest : List ℕ)
    → NoReply es
    → run (start num) es ≡ some c
    → len ≢ 0
    → IsMessage message
    → All NonZero (payload_text (pos 0) message)
    → length (payload_text (pos 0) message) < 128
    → (c' : Chat) × (main_ipc_callback pid len (message ++ 0 ∷ rest) c ≡ some c')
      × (c'.posts ≡ payload_text (pos 0) message ∷ c.posts)
      × (c'.callbacks ≡ then_notify pid ∷ c.callbacks)
early_message_posted num es c pid len message rest silent ran sized m shown fits =
    let u =
      run-Unregistered es (start num) c silent (record { zero_user = refl; waits_for_user = refl })
        ran in
    let text = payload_text (pos 0) message in
    let (posts, _, owes) = finish_post_lem pid text c in
    let posted : main_ipc_callback pid len (message ++ 0 ∷ rest) c ≡ some (finish_post pid text c) =
      rw (← u.zero_user) (
        main_ipc_callback-post pid len message rest c sized m (rw u.zero_user shown)
          (rw u.zero_user fits)) in
    (finish_post pid text c, posted, posts, owes)

-- The first reply, where no callback waits: its number becomes the user, and the loop begins.
pub reply_registers :
    (num : ℤ) (es : List Event) (c : Chat) (u : ℕ) (rest : List ℕ)
    → NoReply es
    → run (start num) es ≡ some c
    → c.callbacks ≡ []
    → handle c (replied (some (decimal u ++ 0 ∷ rest)))
      ≡ some (record c { user_id = pos u; main = looping })
unfolding handle network_reply take_user
reply_registers num es c u rest silent ran quiet =
    let before =
      run-Unregistered es (start num) c silent (record { zero_user = refl; waits_for_user = refl })
        ran in
    let string =
      c_string-append (decimal u) rest (All-NonZero_digits (decimal u) (decimal-IsDigits u)) in
    let number : scan_int (decimal u) ≡ some (pos u, []) =
      rw (← append-nil (decimal u)) (scan_int-decimal u [] tt) in
    let counted : scan_count (decimal u) c.user_id ≡ pos u = rw (number, scan_count) in
    rw (quiet, before.waits_for_user) (rw (string, counted))
