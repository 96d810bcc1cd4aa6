-- ===== src/Messages/Fetching.antt =====
-- From a reply on the line to the messages: `network_get` of applications/drivers/network.c on the capsule
-- of kernel/drivers/src/network.rs, and `parse_data` of applications/morse_chat/morse_chat.c on its array.
use mathlib.Core.List.{append_assoc}
use micro_morse_chat.Prelude.{
  ℕ, ◌≤◌, ◌<◌, ◌≡◌, refl, ap, ◌∙◌, true, List, [], ◌∷◌, ◌++◌, Option, none, some, ok, length,
  overlay, drop, replicate, length-append, length-replicate, arith,
}
use micro_morse_chat.Stdio.{ℤ, pos, ◌>>=◌, decimal, itoa, is_space}
use micro_morse_chat.Kernel.{ProcessId, ReadOnlyProcessBuffer, ReadWriteProcessBuffer, Kernel}
use micro_morse_chat.Network.{Network, idle, requesting, sending, receiving, upcall, wrote}
use micro_morse_chat.Network.Allow.{allow_readonly, allow_readwrite}
use micro_morse_chat.Network.Clients.{receive_len}
use micro_morse_chat.Network.Frames.{get_frame}
use micro_morse_chat.Network.Commands.{get, command-accepted}
use micro_morse_chat.UserDriver.{
  Libtock, command_get, unallow_rw, await, request_get, subscribe_get, share_get, address_get,
  network_get,
}
use micro_morse_chat.Chat.{Message, parse_data}
use micro_morse_chat.Chat.Parse.{AllSendable, line, lines, reply, parse_data-reply}
use micro_morse_chat.Messages.Answering.{
  Responds, wired, unallow_rw-Undisturbed, shares_get, reception,
}
use micro_morse_chat.Messages.Wiring.{Board, answered}

-- Every message takes a byte of its reply, and more.
length-lines : (w : ℕ) (ms : List Message) → length ms ≤ length (lines w ms)
length-lines w [] = omega arith
length-lines w (m ∷ ms) = omega (
  arith,
  length-append (line w m) (lines w ms),
  length-append (itoa m.uid) (b',' ∷ (m.morse ++ w ∷ [])),
  length-lines w ms,
)

module _ (k : Kernel) (p : ProcessId) (handle : Option (List ℕ) → ReadOnlyProcessBuffer)
    (slot : Option ℕ → ReadWriteProcessBuffer) (base : Libtock Board) where
  abbrev io : Libtock Board
  io = wired k p handle slot base

  -- The whole of a GET, from an idle capsule to an idle capsule.
  pub network_get-answered :
      (n : Network) (a len : ℕ) (url buffer answer : List ℕ)
      → Responds k a answer base
      → n.state ≡ idle
      → n.buffer ≡ some buffer
      → k.grant_error p ≡ none
      → k.read (handle (some url)) ≡ ok url
      → k.writable (slot (some a)) ≡ ok (replicate len 0)
      → length (get_frame url) ≤ length buffer
      → k.transmit_buffer (overlay (get_frame url) buffer) (length (get_frame url)) ≡ ok tt
      → k.receive_buffer (overlay (get_frame url) buffer) receive_len ≡ ok tt
      → length answer < len
      → (n' : Network) × (network_get io url len (some n) ≡ some (some n', some a))
        × (n'.state ≡ idle)
        × (n'.effects
            ≡ upcall p 0 (k.into_statuscode (ok tt)) (length answer)
              ∷ wrote (slot (some a)) (overlay (answer ++ 0 ∷ []) (replicate len 0))
              ∷ n.effects)
  unfolding network_get address_get share_get subscribe_get request_get await
  network_get-answered n a len url buffer answer world resting held granted read_url writes fits
        transmits receives short =
      let frame = get_frame url in
      let rx = overlay frame buffer in
      let n1 = (allow_readonly k n p 0 (handle (some url))).0 in
      let n2 = (allow_readwrite k n1 p 0 (slot (some a))).0 in
      let (first, second, ready, data_in, effects) =
        shares_get k p handle slot base n a url buffer resting held granted read_url in
      let sent =
        command-accepted k n2 command_get 0 p url frame buffer ready (get refl refl) fits
          transmits in
      let n3 : Network = record n2 {
        state = requesting p;
        buffer = none;
        uart = sending rx (length frame);
      } in
      let received =
        reception k p handle slot base n3 rx answer (replicate len 0) (length frame) refl granted
          receives (rw data_in writes) (omega (arith, length-replicate {A = ℕ} len 0)) in
      let n5 : Network = record n3 {
        state = idle;
        buffer = some (overlay answer rx);
        uart = receiving rx receive_len;
        effects =
            upcall p 0 (k.into_statuscode (ok tt)) (length answer)
            ∷ wrote ((n2.grant_access p).data_in) (overlay (answer ++ 0 ∷ []) (replicate len 0))
            ∷ n2.effects;
      } in
      let waited = world.waits n3 n5 rx (length frame) refl received in
      let (n', ended, same) = unallow_rw-Undisturbed k p handle slot base a n5 in
      (
        n',
        ap (address_get io url) (world.allocates n len)
            ∙ ap (share_get io a) first
            ∙ ap (subscribe_get io a) second
            ∙ ap (request_get io a) (world.subscribes n2)
            ∙ ap (λ o. await io a (answered o)) sent
            ∙ ap (λ o. o >>= λ w. unallow_rw io a w) waited
            ∙ ended,
        same.same_state,
        same.same_effects ∙ rw (data_in, effects),
      )

  -- If the capsule is idle with its buffer, the grant of the process can be entered, the kernel reads the
  -- address and lets the array be written, the line of the GET fits the buffer, and the UART accepts
  -- both the line and the wait for an answer: when the UART receives a reply with the messages `ms`, of
  -- at most 128 bytes and shorter than the array, then `network_get` returns the array, the capsule is
  -- idle again, the process got one upcall, and what was written to the array is parsed to exactly the
  -- messages, whatever `num_messages` held before. Each message is from a user below 10000 and has a
  -- word of 1 to 127 bytes, none of them 0 or white space; `w` is the white space between them.
  pub reply_fetched :
      (n : Network) (a len : ℕ) (url buffer : List ℕ) (w : ℕ) (ms : List Message) (before : ℤ)
      → Responds k a (reply w ms) base
      → n.state ≡ idle
      → n.buffer ≡ some buffer
      → k.grant_error p ≡ none
      → k.read (handle (some url)) ≡ ok url
      → k.writable (slot (some a)) ≡ ok (replicate len 0)
      → length (get_frame url) ≤ length buffer
      → k.transmit_buffer (overlay (get_frame url) buffer) (length (get_frame url)) ≡ ok tt
      → k.receive_buffer (overlay (get_frame url) buffer) receive_len ≡ ok tt
      → is_space w ≡ true
      → AllSendable ms
      → length (reply w ms) < len
      → (n' : Network) × (bytes : List ℕ) × (network_get io url len (some n)
          ≡ some (some n', some a))
        × (n'.state ≡ idle)
        × (n'.effects
            ≡ upcall p 0 (k.into_statuscode (ok tt)) (length (reply w ms))
              ∷ wrote (slot (some a)) bytes
              ∷ n.effects)
        × (parse_data bytes before ≡ some (pos (length ms), ms))
  reply_fetched n a len url buffer w ms before world resting held granted read_url writes fits
        transmits receives space sendable short =
      let answer = reply w ms in
      let behind : List ℕ = drop (length (answer ++ 0 ∷ [])) (replicate len 0) in
      let few : length ms < 10000 = omega (
        arith,
        world.is_short,
        length-append (decimal (length ms)) (w ∷ lines w ms),
        length-lines w ms,
      ) in
      let (n', ended, rests, effects) =
        network_get-answered n a len url buffer answer world resting held granted read_url writes
          fits transmits receives short in
      (
        n',
        overlay (answer ++ 0 ∷ []) (replicate len 0),
        ended,
        rests,
        effects,
        rw (append_assoc answer (0 ∷ []) behind)
            (parse_data-reply w ms behind before space few sendable),
      )
