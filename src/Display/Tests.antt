-- ===== src/Display/Tests.antt =====
-- The display application on single messages.
use micro_morse_chat.Prelude.{
  ◌*◌, ◌-◌, ◌≤◌, length, ◌≡◌, refl, inl, inr, true, false, not, [], ◌∷◌, List, ℕ, some, ◌==◌, arith,
}
use micro_morse_chat.Stdio.{pos, scan_int, scan_word, c_string}
use micro_morse_chat.Display.Frames.{recording_mode, frame}
use micro_morse_chat.Display.{decode_morse, led_on, led_off, use_leds}
use micro_morse_chat.Display.Screen.{lit_after, entry}
use micro_morse_chat.Display.Timing.{total, total-ipc_callback}
use micro_morse_chat.Display.Interrupted.{recording_goes_dark}
use micro_morse_chat.Display.Service.{
  Call, led, tone, delay, notify_client, Hardware, set_leds, use_buzzer, Scanned, scan_display,
  show_message, ipc_callback,
}

-- The letter R.
abbrev letter : List ℕ
letter = b'.' ∷ b'-' ∷ b'.' ∷ []

-- One LED and a buzzer: the letter E from client 2, and a recording request from client 3.
abbrev one_led : Hardware
one_led = record { led_count = some 1; buzzer_exists = true; note_g4 = 392; note_c4 = 262 }

abbrev letter_e_shown : Scanned
letter_e_shown = record { recording = pos 0; uid = pos 8; morse = b'.' ∷ [] }

abbrev recording_begins : Scanned
recording_begins = record { recording = pos 1; uid = pos 0; morse = [] }

abbrev shown_calls : List Call
shown_calls = led (led_on 0) ∷ tone 1176 380 ∷ delay 200 ∷ led (led_off 0) ∷ notify_client 2 ∷ []

abbrev recording_calls : List Call
recording_calls = led (led_on 0) ∷ notify_client 3 ∷ []

show_message-shown_calls : show_message one_led 2 letter_e_shown ≡ some shown_calls
unfolding show_message set_leds use_leds use_buzzer decode_morse
show_message-shown_calls = refl

show_message-recording_calls : show_message one_led 3 recording_begins ≡ some recording_calls
unfolding show_message set_leds use_leds
show_message-recording_calls = refl

-- The request runs inside `tone_sync`.
abbrev together : List Call
together =
    led (led_on 0)
    ∷ tone 1176 380
    ∷ led (led_on 0)
    ∷ notify_client 3
    ∷ delay 200
    ∷ led (led_off 0)
    ∷ notify_client 2
    ∷ []

recording_goes_dark_example :
    (lit_after recording_calls (λ k. true) 0 ≡ not (entry (frame recording_mode) 0 == 0))
    × (lit_after together (λ k. true) 0 ≡ false)
recording_goes_dark_example =
    recording_goes_dark one_led 1 2 3 letter_e_shown recording_begins shown_calls recording_calls
      together (λ k. true) 0 refl (omega arith) (omega arith) refl show_message-shown_calls
      show_message-recording_calls (inr (_, refl, inl (tt, refl)))

-- The same letter as text.
abbrev letter_e_text : List ℕ
letter_e_text = b'0' ∷ b' ' ∷ b'8' ∷ b' ' ∷ b'.' ∷ 0 ∷ []

letter_e_handled : ipc_callback one_led 2 64 letter_e_text recording_begins ≡ some shown_calls
unfolding ipc_callback show_message set_leds use_leds use_buzzer decode_morse scan_display scan_int
    scan_word c_string
letter_e_handled = refl

total-ipc_callback_example : total shown_calls ≤ 656 * (length letter_e_text - 3)
total-ipc_callback_example =
    total-ipc_callback one_led 2 64 letter_e_text recording_begins shown_calls letter_e_handled
