-- ===== src/Messages/Recording.antt =====
-- What begins when a user enters the send mode: applications/morse_button/morse_button.c asks
-- applications/morse_chat/morse_chat.c for the network, which tells applications/morse_display/morse_display.c.
use micro_morse_chat.Prelude.{
  ℕ, ◌+◌, ◌≤◌, ◌<◌, ◌≡◌, ◌≢◌, ◌∙◌, Bool, true, false, not, List, [], ◌∷◌, ◌++◌, map, none, some,
  ◌==◌, length, drop, length-append, arith,
}
use micro_morse_chat.Stdio.{pos, decimal, itoa, c_string, snprintf}
use micro_morse_chat.Stdio.Decimal.{length-decimal}
use micro_morse_chat.Stdio.Words.{c_string-append, snprintf_fits}
use micro_morse_chat.Button.{Button}
use micro_morse_chat.Button
use micro_morse_chat.Button.Sequence.{opening, IsFresh, enter}
use micro_morse_chat.Chat.Service.{Chat, display_text, main_ipc_callback, Event, from_button, run}
use micro_morse_chat.Chat.Service.Lock.{AllOpening, run-locks}
use micro_morse_chat.Display.Frames.{frame, recording_mode}
use micro_morse_chat.Display.Unambiguous.{use_leds-length}
use micro_morse_chat.Display.Screen.{lit_after, lit_after-append, entry, lit_after-use_leds}
use micro_morse_chat.Display.Service.{
  Call, led, notify_client, Hardware, set_leds, Scanned, show_message, ipc_callback,
}
use micro_morse_chat.Messages.Showing.{display_text-NonZero, scan_display-display_text}

length-recording_text : length (display_text (pos 1) (pos 0) []) < 64
unfolding itoa
length-recording_text = omega (
  arith,
  length-append (decimal 1) (b' ' ∷ (decimal 0 ++ b' ' ∷ [])),
  length-append (decimal 0) (b' ' ∷ []),
  length-decimal 0 1 (omega arith),
  length-decimal 0 0 (omega arith),
)

-- The display application, given the text of the recording mode.
recording_lit :
    (hw : Hardware) (n pid len : ℕ) (old : List ℕ) (before : Scanned) (lit : ℕ → Bool) (i : ℕ)
    → hw.led_count ≡ some n
    → n ≤ 25
    → i < n
    → len ≢ 0
    → (calls : List Call) × (ipc_callback hw pid len
          (snprintf old 64 (display_text (pos 1) (pos 0) []))
          before
        ≡ some calls)
      × (lit_after calls lit i ≡ not (entry (frame recording_mode) i == 0))
unfolding ipc_callback show_message set_leds
recording_lit hw n pid len old before lit i count small inside sized =
    let text = display_text (pos 1) (pos 0) [] in
    let (shown, on, _) = use_leds-length none 1 n small in
    let size : (len == 0) ≡ false = ground arith in
    let string : c_string (snprintf old 64 text) ≡ some text =
      rw (snprintf_fits old 64 text length-recording_text)
        (c_string-append text (drop (length text + 1) old) (display_text-NonZero 1 0 [] tt)) in
    let read = scan_display-display_text 1 0 [] before tt in
    (
      map led shown ++ notify_client pid ∷ [],
      rw (size, string) (rw read (rw (count, on))),
      lit_after-append (map led shown) (notify_client pid ∷ []) lit i
          ∙ lit_after-use_leds none 1 n shown lit i on inside,
    )

-- A user enters the send mode on the buttons, from a state in which nobody uses the button application,
-- whose shared buffer is not empty. The button application then hands over its buffer with 0xff in
-- front. The chat application takes the lock of the network and hands the display a buffer, of which the
-- display application, on at most 25 LEDs and whatever its variables hold, makes the picture of the
-- recording mode. And through any further events that hand over no message, in any order, the chat
-- application keeps the lock, begins no request, and posts nothing.
pub recording_begins :
    (b : Button) (acknowledged : Bool) (x : ℕ) (rest : List ℕ) (c : Chat) (pid len : ℕ)
    (es : List Event) (c'' : Chat) (hw : Hardware) (n pid' len' : ℕ) (before : Scanned)
    (lit : ℕ → Bool) (i : ℕ)
    → IsFresh b
    → b.main_buff ≡ x ∷ rest
    → AllOpening es
    → run c (from_button pid len (0xff ∷ rest) ∷ es) ≡ some c''
    → hw.led_count ≡ some n
    → n ≤ 25
    → i < n
    → len' ≢ 0
    → ((Button.run b (opening acknowledged)).notified ≡ (0xff ∷ rest) ∷ b.notified)
      × (c' : Chat) × (buffer : List ℕ) × (calls : List Call) × (main_ipc_callback pid len
            (0xff ∷ rest)
            c
          ≡ some c')
      × (c'.shown ≡ buffer ∷ c.shown)
      × (ipc_callback hw pid' len' buffer before ≡ some calls)
      × (lit_after calls lit i ≡ not (entry (frame recording_mode) i == 0))
      × (c''.network_lock ≡ true)
      × (c''.requests ≡ c.requests)
      × (c''.posts ≡ c.posts)
recording_begins b acknowledged x rest c pid len es c'' hw n pid' len' before lit i fresh held opens
      ran count small inside sized =
    let (_, _, _, _, _, told) = enter b acknowledged fresh in
    let (c', locked, shown, kept) = run-locks pid len rest es c c'' opens ran in
    let (calls, handled, picture) =
      recording_lit hw n pid' len' c.display_buff before lit i count small inside sized in
    (
      told ∙ rw held,
      c',
      snprintf c.display_buff 64 (display_text (pos 1) (pos 0) []),
      calls,
      locked,
      shown,
      handled,
      picture,
      kept.held,
      kept.same_requests,
      kept.same_posts,
    )
