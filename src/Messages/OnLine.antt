-- ===== src/Messages/OnLine.antt =====
-- From the buttons to the UART: applications/morse_button/morse_button.c, applications/morse_chat/morse_chat.c,
-- `network_post` of applications/drivers/network.c and kernel/drivers/src/network.rs, one behind the other.
use mathlib.Core.List.{append_assoc}
use micro_morse_chat.Prelude.{
  ℕ, ◌^◌, ◌≤◌, ◌<◌, ◌≡◌, ◌≢◌, refl, sym, ap, ◌∙◌, Bool, List, [], ◌∷◌, ◌++◌, Option, some, none, ok,
  length, drop, overlay, take-append, Avoids, arith,
}
use micro_morse_chat.Kernel.{ProcessId, ReadOnlyProcessBuffer, Kernel}
use micro_morse_chat.Network.{Network, idle, requesting}
use micro_morse_chat.Network.Frames.{post_frame, length-post_frame}
use micro_morse_chat.Network.Wire.{line_of, post_frame-injective, append-cancel_last}
use micro_morse_chat.Stdio.{ℤ, pos, itoa, scan_int}
use micro_morse_chat.Stdio.Decimal.{scan_int-decimal}
use micro_morse_chat.Button.{message_len, Button, answered}
use micro_morse_chat.Button
use micro_morse_chat.Button.Sequence.{Symbol, codes_of, typed, sequence, opening, IsFresh}
use micro_morse_chat.Chat.Addresses.{messages_url}
use micro_morse_chat.Chat.Service.{Chat, message_key, closing, payload_text, main_ipc_callback}
use micro_morse_chat.Messages.Sending.{typed_message_posted, length-payload_text}
use micro_morse_chat.Messages.Wiring.{Board, on_capsule}
use micro_morse_chat.Messages.Posting.{idle_post_sends}
use micro_morse_chat.UserDriver.{Libtock, network_post}

-- The capsule rests with its buffer, its grant for the process can be entered, the kernel reads what is
-- shared, and the UART takes the line.
pub record Serves (k : Kernel) (p : ProcessId) (handle : Option (List ℕ) → ReadOnlyProcessBuffer)
    (n : Network) (url text buffer : List ℕ) : Type 0 where
  pub is_idle : n.state ≡ idle
  pub held : n.buffer ≡ some buffer
  pub granted : k.grant_error p ≡ none
  pub reads_url : k.read (handle (some url)) ≡ ok url
  pub reads_text : k.read (handle (some text)) ≡ ok text
  pub accepts :
      k.transmit_buffer (overlay (post_frame url text) buffer) (length (post_frame url text))
      ≡ ok tt

-- A user below 10 ^ 10 types a message of fewer than ten symbols on the buttons, from a state in which
-- nobody uses the button application, and the capsule is idle with a buffer of at least 256 bytes, its
-- grant, its reads and the UART without an error: then what the button application hands over makes
-- the chat application post a text, and the `network_post` of that text to the address of the messages
-- puts on the UART exactly the POST line of that address with the user's number and the codes of the
-- symbols, and the capsule waits for the process.
pub typed_message_on_line :
    (k : Kernel) (p : ProcessId) (handle : Option (List ℕ) → ReadOnlyProcessBuffer)
    (base : Libtock Board) (b : Button) (acknowledged : Bool) (ss : List Symbol) (c : Chat)
    (u pid len : ℕ) (n : Network) (buffer : List ℕ)
    → IsFresh b
    → length ss < message_len
    → c.user_id ≡ pos u
    → u < 10 ^ 10
    → len ≢ 0
    → 256 ≤ length buffer
    → Serves k p handle n messages_url (payload_text (pos u) (codes_of ss)) buffer
    → let b' = Button.run b (opening acknowledged ++ (typed ss ++ (sequence ++ answered ∷ []))) in
      (handed : List ℕ) × (earlier : List (List ℕ)) × (c' : Chat) × (text : List ℕ) × (n' : Network)
      × (b'.notified ≡ handed ∷ earlier)
      × (main_ipc_callback pid len handed c ≡ some c')
      × (c'.posts ≡ text ∷ c.posts)
      × (network_post (on_capsule k p handle base) messages_url text (some n) ≡ some n')
      × (line_of n'.uart ≡ post_frame messages_url (payload_text (pos u) (codes_of ss)))
      × (n'.state ≡ requesting p)
typed_message_on_line k p handle base b acknowledged ss c u pid len n buffer fresh short user small
      sized room serves =
    let text = payload_text (pos u) (codes_of ss) in
    let frame = post_frame messages_url text in
    let (handed, earlier, c', told, heard, posts, _, _) =
      typed_message_posted b acknowledged ss c u pid len fresh short user small sized in
    let fits : length frame ≤ length buffer =
      omega (
        arith,
        length-post_frame messages_url text,
        length-payload_text u ss small (omega arith),
      ) in
    let (n', posted, waits, line) =
      idle_post_sends k p handle base n messages_url text buffer serves.is_idle serves.held
        serves.granted serves.reads_url serves.reads_text fits serves.accepts in
    (
      handed,
      earlier,
      c',
      text,
      n',
      told,
      heard,
      posts,
      posted,
      ap line_of line ∙ take-append frame (drop (length frame) buffer),
      waits,
    )

messages_url-Avoids : Avoids b' ' messages_url
messages_url-Avoids = omega arith

append-cancel_closing : (m m' : List ℕ) → m ++ closing ≡ m' ++ closing → m ≡ m'
append-cancel_closing m m' e = append-cancel_last b'"' m m' (
    append-cancel_last b'}' (m ++ b'"' ∷ []) (m' ++ b'"' ∷ [])
      (append_assoc m (b'"' ∷ []) (b'}' ∷ []) ∙ e ∙ sym (append_assoc m' (b'"' ∷ []) (b'}' ∷ []))))

-- The number ends at the quotation mark behind it.
payload_text-injective :
    (u v : ℕ) (m m' : List ℕ)
    → payload_text (pos u) m ≡ payload_text (pos v) m'
    → (u ≡ v) × (m ≡ m')
unfolding itoa
payload_text-injective u v m m' e =
    let scanned = λ (w : ℕ) (x : List ℕ). scan_int-decimal w (message_key ++ (x ++ closing)) refl in
    let same : ◌≡◌ {A = Option (ℤ × List ℕ)} (some (pos u, message_key ++ (m ++ closing)))
        (some (pos v, message_key ++ (m' ++ closing))) =
      sym (scanned u m) ∙ ap (λ t. scan_int (drop 9 t)) e ∙ scanned v m' in
    let texts : message_key ++ (m ++ closing) ≡ message_key ++ (m' ++ closing) = cc in
    (cc, append-cancel_closing m m' (ap (drop 15) texts))

-- If two lines to the address of the messages, of any two users and messages, are equal, then the
-- users and the messages are equal.
pub message_line-injective :
    (u v : ℕ) (m m' : List ℕ)
    → post_frame messages_url (payload_text (pos u) m)
      ≡ post_frame messages_url (payload_text (pos v) m')
    → (u ≡ v) × (m ≡ m')
message_line-injective u v m m' e =
    let text = payload_text (pos u) m in
    let text' = payload_text (pos v) m' in
    let (_, texts) =
      post_frame-injective messages_url messages_url text text' messages_url-Avoids
        messages_url-Avoids e in
    payload_text-injective u v m m' texts
