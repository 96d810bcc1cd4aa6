-- ===== src/Messages/Posting.antt =====
-- From the payload to the line: `network_post` of applications/drivers/network.c makes its calls on the
-- capsule of kernel/drivers/src/network.rs.
use micro_morse_chat.Prelude.{
  ℕ, ◌≤◌, ◌<◌, ◌≡◌, ◌≢◌, refl, ◌∙◌, inl, inr, Bool, true, false, List, ◌∷◌, ◌++◌, Option, none,
  some, ok, length, overlay, arith,
}
use micro_morse_chat.Kernel.{ProcessId, ReadOnlyProcessBuffer, Kernel}
use micro_morse_chat.Network.{Network, idle, requesting, sending}
use micro_morse_chat.Network.Allow.{swap_address, swap_data_out, allow_readonly}
use micro_morse_chat.Network.Frames.{post_frame}
use micro_morse_chat.Network.Commands.{Composes, post, IsReady, command_busy, command-accepted}
use micro_morse_chat.Stdio.Words.{All, NonZero}
use micro_morse_chat.Chat.Service.{Chat, then_notify, payload_text, finish_post, main_ipc_callback}
use micro_morse_chat.Chat.Service.Answers.{IsMessage, main_ipc_callback-post, finish_post_lem}
use micro_morse_chat.Messages.Wiring.{
  Board, allowed, on_capsule, Undisturbed, Undisturbed-trans, allowed-some, allowed-cases,
  allow_readonly-Undisturbed,
}
use micro_morse_chat.UserDriver.{Libtock, command_post, unallow_post, send_payload, network_post}

module _ (k : Kernel) (p : ProcessId) (handle : Option (List ℕ) → ReadOnlyProcessBuffer)
    (base : Libtock Board) where
  abbrev lib : Libtock Board
  lib = on_capsule k p handle base

  unallow_post-Undisturbed :
      (n : Network) → (n' : Network) × (unallow_post lib (some n) ≡ some n') × Undisturbed n n'
  unfolding unallow_post
  unallow_post-Undisturbed n =
      let n1 = (allow_readonly k n p 1 (handle none)).0 in
      let n2 = (allow_readonly k n1 p 0 (handle none)).0 in
      (
        n2,
        rw (unallow_post, allowed-some (allow_readonly k n p 1 (handle none)))
            (allowed-some (allow_readonly k n1 p 0 (handle none))),
        Undisturbed-trans (allow_readonly-Undisturbed k p n 1 (handle none))
            (allow_readonly-Undisturbed k p n1 0 (handle none)),
      )

  send_payload-Undisturbed :
      (n : Network) (q : ProcessId) (r : Board × Bool)
      → n.state ≡ requesting q
      → r.0 ≡ some n
      → (n' : Network) × (send_payload lib r ≡ some n') × Undisturbed n n'
  unfolding send_payload
  send_payload-Undisturbed n q (w, true) h e =
      rw (e, command_busy k n command_post 0 p q h) (unallow_post-Undisturbed n)
  send_payload-Undisturbed n q (w, false) h e = rw e (unallow_post-Undisturbed n)

  -- While the capsule has a request under way, `network_post` changes nothing of it but the grants.
  pub busy_post-Undisturbed :
      (n : Network) (q : ProcessId) (url payload : List ℕ)
      → n.state ≡ requesting q
      → (n' : Network) × (network_post lib url payload (some n) ≡ some n') × Undisturbed n n'
  unfolding network_post
  busy_post-Undisturbed n q url payload h =
      let shared = allow_readonly k n p 0 (handle (some url)) in
      let kept = allow_readonly-Undisturbed k p n 0 (handle (some url)) in
      elim (allowed-cases shared) [
        | inl refused ↦
            let n' = allow_readonly k shared.0 p 0 (handle none) in
            (
              n'.0,
              rw (network_post, refused) (allowed-some n'),
              Undisturbed-trans kept (allow_readonly-Undisturbed k p shared.0 0 (handle none)),
            )
        | inr granted ↦
            let payload_shared = allow_readonly k shared.0 p 1 (handle (some payload)) in
            let kept' =
              Undisturbed-trans kept
                (allow_readonly-Undisturbed k p shared.0 1 (handle (some payload))) in
            let (n', ended, same) =
              send_payload-Undisturbed payload_shared.0 q (allowed payload_shared)
                (kept'.same_state ∙ h) (allowed-some payload_shared) in
            (n', rw (network_post, granted) ended, Undisturbed-trans kept' same)
      ]

  -- Both buffers are shared, and the capsule is ready for the POST.
  shares :
      (n : Network) (url payload buffer : List ℕ)
      → n.state ≡ idle
      → n.buffer ≡ some buffer
      → k.grant_error p ≡ none
      → k.read (handle (some url)) ≡ ok url
      → k.read (handle (some payload)) ≡ ok payload
      → let first = allow_readonly k n p 0 (handle (some url)) in
        let second = allow_readonly k first.0 p 1 (handle (some payload)) in
        (allowed first ≡ (some (first.0), true))
        × (allowed second ≡ (some (second.0), true))
        × IsReady k (second.0) p url buffer
        × Composes k (second.0) 1 p url (post_frame url payload)
  unfolding allow_readonly swap_address swap_data_out
  shares n url payload buffer resting held granted read_url read_payload = (
    ground arith,
    ground arith,
    record {
      is_idle = ground arith;
      granted = granted;
      addressed = ground arith;
      held = ground arith;
    },
    post payload (omega arith) (ground arith) refl,
  )

  -- If the capsule is idle with its buffer, the grant of the process can be entered, the kernel reads
  -- what was shared, and the line fits the buffer and is accepted by the UART: `network_post` puts
  -- exactly the line of the address and the payload on the UART, and the capsule waits for the process.
  pub idle_post_sends :
      (n : Network) (url payload buffer : List ℕ)
      → n.state ≡ idle
      → n.buffer ≡ some buffer
      → k.grant_error p ≡ none
      → k.read (handle (some url)) ≡ ok url
      → k.read (handle (some payload)) ≡ ok payload
      → length (post_frame url payload) ≤ length buffer
      → k.transmit_buffer
          (overlay (post_frame url payload) buffer)
          (length (post_frame url payload))
        ≡ ok tt
      → (n' : Network) × (network_post lib url payload (some n) ≡ some n')
        × (n'.state ≡ requesting p)
        × (n'.uart
            ≡ sending (overlay (post_frame url payload) buffer) (length (post_frame url payload)))
  unfolding network_post send_payload
  idle_post_sends n url payload buffer resting held granted read_url read_payload fits accepted =
      let frame = post_frame url payload in
      let n1 = (allow_readonly k n p 0 (handle (some url))).0 in
      let n2 = (allow_readonly k n1 p 1 (handle (some payload))).0 in
      let (first, second, ready, line) =
        shares n url payload buffer resting held granted read_url read_payload in
      let sent = command-accepted k n2 1 0 p url frame buffer ready line fits accepted in
      let n3 : Network = record n2 {
        state = requesting p;
        buffer = none;
        uart = sending (overlay frame buffer) (length frame);
      } in
      let (n', ended, same) = unallow_post-Undisturbed n3 in
      (
        n',
        rw (network_post, first, second, send_payload, sent) ended,
        same.same_state,
        same.same_uart,
      )

  -- While the capsule has a request under way, of any process: a message that the button application
  -- hands to the chat application, whose text fits the payload, is lost. The chat application owes its
  -- sender the notice as for one that was sent, but the `network_post` of its text changes nothing of
  -- the capsule but the grants: nothing is sent and no request is begun.
  pub busy_message_lost :
      (n : Network) (q : ProcessId) (url : List ℕ) (pid len : ℕ) (message rest : List ℕ) (c : Chat)
      → n.state ≡ requesting q
      → len ≢ 0
      → IsMessage message
      → All NonZero (payload_text c.user_id message)
      → length (payload_text c.user_id message) < 128
      → (c' : Chat) × (n' : Network) × (main_ipc_callback pid len (message ++ 0 ∷ rest) c ≡ some c')
        × (c'.posts ≡ payload_text c.user_id message ∷ c.posts)
        × (c'.callbacks ≡ then_notify pid ∷ c.callbacks)
        × (network_post lib url (payload_text c.user_id message) (some n) ≡ some n')
        × Undisturbed n n'
  busy_message_lost n q url pid len message rest c busy_capsule sized m shown fits =
      let text = payload_text c.user_id message in
      let (posts, _, owes) = finish_post_lem pid text c in
      let (n', posted, same) = busy_post-Undisturbed n q url text busy_capsule in
      (
        finish_post pid text c,
        n',
        main_ipc_callback-post pid len message rest c sized m shown fits,
        posts,
        owes,
        posted,
        same,
      )
