-- ===== src/Messages/Receiving.antt =====
-- From the UART to the LEDs: kernel/drivers/src/network.rs, `network_get` of applications/drivers/network.c,
-- a round of `main` in applications/morse_chat/morse_chat.c and the message handler of
-- applications/morse_display/morse_display.c, one behind the other.
use micro_morse_chat.Prelude.{
  ℕ, ◌<◌, ◌≡◌, List, [], ◌∷◌, ◌++◌, map, Option, some, none, ok, length, overlay, replicate,
}
use micro_morse_chat.Kernel.{ProcessId, ReadOnlyProcessBuffer, ReadWriteProcessBuffer, Kernel}
use micro_morse_chat.Network.{Network, idle}
use micro_morse_chat.Network.Clients.{receive_len}
use micro_morse_chat.Network.Frames.{get_frame}
use micro_morse_chat.Stdio.{pos}
use micro_morse_chat.Chat.{Message}
use micro_morse_chat.Chat.Service.{Chat, display_text}
use micro_morse_chat.Display.{LedCall, use_leds}
use micro_morse_chat.Display.Service.{
  led, notify_client, Hardware, use_buzzer, Scanned, ipc_callback,
}
use micro_morse_chat.UserDriver.{Libtock}
use micro_morse_chat.Messages.Wiring.{Board}
use micro_morse_chat.Messages.Answering.{Responds}

-- Around the capsule, which rests with its buffer: its grant for the process can be entered, the kernel
-- reads the address and lets the array of 1024 bytes be written, and the UART takes the line, then the
-- wait for a reply, and receives `answer`.
pub record Fetches (k : Kernel) (p : ProcessId) (handle : Option (List ℕ) → ReadOnlyProcessBuffer)
    (slot : Option ℕ → ReadWriteProcessBuffer) (base : Libtock Board) (n : Network) (a : ℕ)
    (url buffer answer : List ℕ) : Type 0 where
  pub responds : Responds k a answer base
  pub is_idle : n.state ≡ idle
  pub held : n.buffer ≡ some buffer
  pub granted : k.grant_error p ≡ none
  pub reads_url : k.read (handle (some url)) ≡ ok url
  pub writes : k.writable (slot (some a)) ≡ ok (replicate 1024 0)
  pub transmits :
      k.transmit_buffer (overlay (get_frame url) buffer) (length (get_frame url)) ≡ ok tt
  pub receives : k.receive_buffer (overlay (get_frame url) buffer) receive_len ≡ ok tt

-- The display application, given the buffer by `pid`, whatever its variables hold: the picture of the
-- word on all LEDs, its tones, no LEDs, and the notice.
abbrev pub Pictured : Hardware → ℕ → ℕ → ℕ → List ℕ → List ℕ → Type 0
Pictured hw n pid len buffer morse =
    (before : Scanned)
    → (lit : List LedCall) × (cleared : List LedCall) × (use_leds (some morse) 0 n ≡ some lit)
      × (use_leds none 0 n ≡ some cleared)
      × (ipc_callback hw pid len buffer before
          ≡ some
              (map led lit ++ (use_buzzer hw morse ++ (map led cleared ++ notify_client pid ∷ []))))

-- `now` is `earlier` with one buffer for each message in front, in order, each with its picture.
abbrev pub AllPictured :
    Hardware → ℕ → ℕ → ℕ → List Message → List (List ℕ) → List (List ℕ) → Type 0
AllPictured hw n pid len [] earlier now = now ≡ earlier
AllPictured hw n pid len (m ∷ ms) earlier now =
    (buffer : List ℕ) × Pictured hw n pid len buffer m.morse
    × AllPictured hw n pid len ms (buffer ∷ earlier) now

-- Each message fits the buffer of the display.
abbrev pub AllFit : List Message → Type 0
AllFit [] = Unit
AllFit (m ∷ ms) = (length (display_text (pos 0) m.uid m.morse) < 64) × AllFit ms
