-- ===== src/Messages/Distinct.antt =====
-- Different messages of applications/morse_chat/morse_chat.c make different lines of
-- kernel/drivers/src/network.rs.
use micro_morse_chat.Prelude.{
  ℕ, ◌≤◌, ◌<◌, ◌≡◌, ◌≢◌, sym, ap, ◌∙◌, List, ◌∷◌, ◌++◌, Option, some, length, drop, take-append,
  arith,
}
use micro_morse_chat.Kernel.{ProcessId, ReadOnlyProcessBuffer, Kernel}
use micro_morse_chat.Network.{Network}
use micro_morse_chat.Network.Frames.{post_frame, length-post_frame}
use micro_morse_chat.Network.Wire.{line_of}
use micro_morse_chat.Stdio.{pos}
use micro_morse_chat.Stdio.Words.{All, NonZero}
use micro_morse_chat.Chat.Addresses.{messages_url}
use micro_morse_chat.Chat.Service.{Chat, payload_text, finish_post, main_ipc_callback}
use micro_morse_chat.Chat.Service.Answers.{IsMessage, main_ipc_callback-post, finish_post_lem}
use micro_morse_chat.Messages.Wiring.{Board, on_capsule}
use micro_morse_chat.Messages.Posting.{idle_post_sends}
use micro_morse_chat.Messages.OnLine.{Serves, message_line-injective}
use micro_morse_chat.UserDriver.{Libtock, network_post}

-- The user `u` hands over a message `m` with its closing 0, whose text fits the payload. `text` is what the chat
-- application posts for it, and `w` the capsule behind the `network_post` of that text, before which
-- it rested with a buffer of at least 256 bytes, and its kernel and UART had no error.
pub record IsPosted (base : Libtock Board) (u : ℕ) (m : List ℕ) (w : Network) : Type 0 where
  pub k : Kernel
  pub p : ProcessId
  pub handle : Option (List ℕ) → ReadOnlyProcessBuffer
  pub pid : ℕ
  pub len : ℕ
  pub rest : List ℕ
  pub c : Chat
  pub c' : Chat
  pub text : List ℕ
  pub n : Network
  pub buffer : List ℕ
  pub of_user : c.user_id ≡ pos u
  pub sized : len ≢ 0
  pub is_message : IsMessage m
  pub shown : All NonZero (payload_text (pos u) m)
  pub fits : length (payload_text (pos u) m) < 128
  pub handed : main_ipc_callback pid len (m ++ 0 ∷ rest) c ≡ some c'
  pub posts : c'.posts ≡ text ∷ c.posts
  pub room : 256 ≤ length buffer
  pub serves : Serves k p handle n messages_url text buffer
  pub posted : network_post (on_capsule k p handle base) messages_url text (some n) ≡ some w

cons-cancel : {a b : List ℕ} {l l' : List (List ℕ)} → a ∷ l ≡ b ∷ l' → a ≡ b
cons-cancel e = cc

some-cancel : {A : Type 0} {a b : A} → some a ≡ some b → a ≡ b
some-cancel e = cc

-- What is posted is the text of the user and the message.
posted_text :
    (base : Libtock Board) {u : ℕ} {m : List ℕ} {w : Network} (i : IsPosted base u m w)
    → i.text ≡ payload_text (pos u) m
posted_text base {u} {m} i =
    let whole = payload_text i.c.user_id m in
    let shown : All NonZero whole = rw i.of_user i.shown in
    let fits : length whole < 128 = rw i.of_user i.fits in
    let (posts, _, _) = finish_post_lem i.pid whole i.c in
    let heard = main_ipc_callback-post i.pid i.len m i.rest i.c i.sized i.is_message shown fits in
    let after : finish_post i.pid whole i.c ≡ i.c' = some-cancel (sym heard ∙ i.handed) in
    let same : whole ∷ i.c.posts ≡ i.text ∷ i.c.posts =
      sym posts ∙ (ap (λ x. x.posts) after ∙ i.posts) in
    let number : whole ≡ payload_text (pos u) m = ap (λ x. payload_text x m) i.of_user in
    sym (cons-cancel same) ∙ number

-- The line is the POST line of the text.
posted_line :
    (base : Libtock Board) {u : ℕ} {m : List ℕ} {w : Network} (i : IsPosted base u m w)
    → line_of w.uart ≡ post_frame messages_url (payload_text (pos u) m)
posted_line base {u} {m} {w} i =
    let frame = post_frame messages_url i.text in
    let same = posted_text base i in
    let size : length i.text ≡ length (payload_text (pos u) m) = ap length same in
    let fits : length frame ≤ length i.buffer =
      omega (arith, length-post_frame messages_url i.text, size, i.fits, i.room) in
    let s = i.serves in
    let (n', posted, _, line) =
      idle_post_sends i.k i.p i.handle base i.n messages_url i.text i.buffer s.is_idle s.held
        s.granted s.reads_url s.reads_text fits s.accepts in
    let end : n' ≡ w = some-cancel (sym posted ∙ i.posted) in
    ap (λ x. line_of x.uart) (sym end)
    ∙ (ap line_of line
        ∙ (take-append frame (drop (length frame) i.buffer) ∙ ap (post_frame messages_url) same))

-- Two messages of the button application, each of any user, with a text that fits the payload, each
-- handed to any state of the chat application and posted to the address of the messages on any idle
-- capsule with a buffer of at least 256 bytes whose kernel and UART have no error: if the lines that
-- the two calls of `network_post` put on the UART are equal, then the users and the messages are equal.
pub posted_messages-injective :
    (base : Libtock Board) (u v : ℕ) (m m' : List ℕ) (w w' : Network)
    → IsPosted base u m w
    → IsPosted base v m' w'
    → line_of w.uart ≡ line_of w'.uart
    → (u ≡ v) × (m ≡ m')
posted_messages-injective base u v m m' w w' i j e =
    message_line-injective u v m m' (sym (posted_line base i) ∙ (e ∙ posted_line base j))
