-- ===== src/Chat/Service/Round.antt =====
-- One round of the loop of `main` in applications/morse_chat/morse_chat.c.
use micro_morse_chat.Prelude.{ℕ, ◌≡◌, refl, true, false, List, [], ◌∷◌, some, arith}
use micro_morse_chat.Stdio.{ℤ, pos, snprintf}
use micro_morse_chat.Chat.{Message, parse_data}
use micro_morse_chat.Chat.Addresses.{endpoint}
use micro_morse_chat.Chat.Service.{
  looping, fetching, delaying, Chat, display_text, call_display, show_next, take_reply, go_on,
  unwind, display_ipc_callback, network_reply, tick, Event, displayed, replied, resumed, handle,
  run,
}

-- The display's buffer, over what it held before.
abbrev pub printed : List ℕ → Message → List ℕ
printed old m = snprintf old 64 (display_text (pos 0) m.uid m.morse)

-- What the display is given for a list of messages, newest first, before what it was given already.
abbrev pub shows : List ℕ → List Message → List (List ℕ) → List (List ℕ)
shows old [] earlier = earlier
shows old (m ∷ ms) earlier = shows (printed old m) ms (printed old m ∷ earlier)

-- The display answers each message, and the delay behind it ends.
abbrev pub answers : List Message → List Event
answers [] = []
answers (m ∷ ms) = displayed ∷ resumed ∷ answers ms

-- `main` is at the head of its loop, and no callback waits.
pub record IsReady (c : Chat) : Type 0 where
  pub at_head : c.main ≡ looping
  pub no_callbacks : c.callbacks ≡ []

-- The messages of a reply, one after the other.
show_all :
    (ms : List Message) (c : Chat)
    → c.callbacks ≡ []
    → (c' : Chat) × (run (show_next ms c) (answers ms) ≡ some c')
      × IsReady c'
      × (c'.requests ≡ c.requests)
      × (c'.posts ≡ c.posts)
      × (c'.shown ≡ shows c.display_buff ms c.shown)
unfolding run handle tick show_next call_display display_ipc_callback go_on unwind
show_all [] c w = (record c { main = looping }, refl, ground arith, refl, refl, refl)
show_all (x ∷ ms) c w =
    let old = c.display_buff in
    let c1 : Chat = record c {
      display_done = true;
      display_buff = printed old x;
      shown = printed old x ∷ c.shown;
      main = delaying ms;
      callbacks = [];
    } in
    let (c', ran, ready, asked, posts, shown) = show_all ms c1 refl in
    (c', rw w ran, ready, asked, posts, shown)

-- From a state with the network unlocked and `main` at the head of its loop, no callback waiting: when
-- the reply to its request is parsed to the messages `ms`, and the display answers each of them, `main`
-- ends its round at the head of the loop. It began one request, for the messages of its user, posted nothing, and gave the display
-- every message once, in the order of the reply.
pub round_shows :
    (c : Chat) (buffer : List ℕ) (num : ℤ) (ms : List Message)
    → IsReady c
    → c.network_lock ≡ false
    → parse_data buffer c.num_messages ≡ some (num, ms)
    → (c' : Chat) × (run c (resumed ∷ replied (some buffer) ∷ answers ms) ≡ some c')
      × IsReady c'
      × (c'.requests ≡ endpoint c.user_id ∷ c.requests)
      × (c'.posts ≡ c.posts)
      × (c'.shown ≡ shows c.display_buff ms c.shown)
unfolding run handle tick network_reply take_reply
round_shows c buffer num ms ready unlocked parsed =
    let c1 : Chat = record c {
      main = fetching;
      network_lock = false;
      requests = endpoint c.user_id ∷ c.requests;
      num_messages = num;
      callbacks = [];
    } in
    let (c', ran, ended, asked, posts, shown) = show_all ms c1 refl in
    (
      c',
      rw (ready.no_callbacks, ready.at_head, unlocked) (rw parsed ran),
      ended,
      asked,
      posts,
      shown,
    )
