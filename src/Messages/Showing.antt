-- ===== src/Messages/Showing.antt =====
-- From a reply to the LEDs: applications/morse_chat/morse_chat.c hands a message to
-- applications/morse_display/morse_display.c.
use micro_morse_chat.Prelude.{
  ℕ, ◌+◌, ◌≤◌, ◌<◌, ◌≡◌, ◌≢◌, refl, ◌∙◌, false, List, [], ◌∷◌, ◌++◌, map, none, some, ◌==◌, lt→ltb,
  length, drop, length-append, arith,
}
use micro_morse_chat.Stdio.{pos, decimal, itoa, scan_int, c_string, snprintf}
use micro_morse_chat.Stdio.Decimal.{decimal-IsDigits, scan_int-decimal}
use micro_morse_chat.Stdio.Words.{
  All, All-append, IsInk, NonZero, All-NonZero_ink, All-NonZero_digits, scan_word-All,
  scan_word_space, c_string-append, snprintf_fits,
}
use micro_morse_chat.Chat.Service.{display_text}
use micro_morse_chat.Display.{LedCall, use_leds}
use micro_morse_chat.Display.Unambiguous.{use_leds-length}
use micro_morse_chat.Display.Service.{
  led, notify_client, Hardware, set_leds, use_buzzer, Scanned, scan_display, show_message,
  ipc_callback,
}

pub display_text-NonZero :
    (r u : ℕ) (morse : List ℕ) → All IsInk morse → All NonZero (display_text (pos r) (pos u) morse)
unfolding itoa
display_text-NonZero r u morse ink =
    All-append NonZero (decimal r) (b' ' ∷ (decimal u ++ b' ' ∷ morse))
      (All-NonZero_digits (decimal r) (decimal-IsDigits r))
      (
        (omega arith),
        All-append NonZero (decimal u) (b' ' ∷ morse)
            (All-NonZero_digits (decimal u) (decimal-IsDigits u))
            ((omega arith), All-NonZero_ink morse ink),
      )

-- What the handler reads is what was printed.
pub scan_display-display_text :
    (r u : ℕ) (morse : List ℕ) (before : Scanned)
    → All IsInk morse
    → scan_display (display_text (pos r) (pos u) morse) before
      ≡ record { recording = pos r; uid = pos u; morse = morse }
unfolding scan_display itoa
scan_display-display_text r u morse before ink =
    let behind = b' ' ∷ (decimal u ++ b' ' ∷ morse) in
    let first : scan_int (decimal r ++ behind) ≡ some (pos r, behind) =
      scan_int-decimal r behind refl in
    let second : scan_int (b' ' ∷ (decimal u ++ b' ' ∷ morse)) ≡ some (pos u, b' ' ∷ morse) =
      unfold scan_int in scan_int-decimal u (b' ' ∷ morse) refl in
    let word = scan_word_space b' ' morse refl ∙ scan_word-All morse ink in
    rw (first, scan_display, second, word)

-- A message that the chat application prints into its buffer of 64 bytes, where it fits, is handled by
-- the display application, on at most 25 LEDs and whatever its variables held before: it lights the
-- picture of the word on all LEDs, plays it if there is a buzzer, clears all LEDs, and notifies the
-- chat application, in this order.
pub message_shown :
    (hw : Hardware) (n pid len u : ℕ) (morse old : List ℕ) (before : Scanned)
    → hw.led_count ≡ some n
    → n ≤ 25
    → len ≢ 0
    → All IsInk morse
    → length (display_text (pos 0) (pos u) morse) < 64
    → (lit : List LedCall) × (cleared : List LedCall) × (use_leds (some morse) 0 n ≡ some lit)
      × (use_leds none 0 n ≡ some cleared)
      × (ipc_callback hw pid len (snprintf old 64 (display_text (pos 0) (pos u) morse)) before
          ≡ some
              (map led lit ++ (use_buzzer hw morse ++ (map led cleared ++ notify_client pid ∷ []))))
unfolding ipc_callback show_message set_leds
message_shown hw n pid len u morse old before count small sized ink fits =
    let text = display_text (pos 0) (pos u) morse in
    let (lit, on, _) = use_leds-length (some morse) 0 n small in
    let (cleared, off, _) = use_leds-length none 0 n small in
    let size : (len == 0) ≡ false = ground arith in
    let string : c_string (snprintf old 64 text) ≡ some text =
      rw (snprintf_fits old 64 text fits)
        (c_string-append text (drop (length text + 1) old) (display_text-NonZero 0 u morse ink)) in
    let short : length morse < 129 = omega (
      arith,
      length-append (itoa (pos 0)) (b' ' ∷ (itoa (pos u) ++ b' ' ∷ morse)),
      length-append (itoa (pos u)) (b' ' ∷ morse),
    ) in
    let read = scan_display-display_text 0 u morse before ink in
    (lit, cleared, on, off, rw (size, string) (rw read (rw (lt→ltb _ _ short, count, on, off))))
