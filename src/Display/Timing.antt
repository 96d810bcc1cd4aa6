-- ===== src/Display/Timing.antt =====
-- How long a request keeps applications/morse_display/morse_display.c waiting in `use_buzzer`.
use micro_morse_chat.Prelude.{
  ℕ, ◌+◌, ◌*◌, ◌-◌, ◌≤◌, ◌≡◌, refl, inl, inr, List, [], ◌∷◌, ◌++◌, map, Option, none, some,
  Option-cases, Bool-cases, ◌==◌, length, arith,
}
use micro_morse_chat.Stdio.{scan_int, c_string}
use micro_morse_chat.Stdio.Shrinking.{length-scan_word, length-scan_int, length-c_string}
use micro_morse_chat.Display.{LedCall, use_leds}
use micro_morse_chat.Display.Service.{
  Call, led, tone, delay, notify_client, Hardware, note_duration, play, play_all, use_buzzer,
  Scanned, scan_display, flag, set_leds, show_message, ipc_callback,
}

-- The milliseconds that a call waits.
abbrev pub time_of : Call → ℕ
time_of (tone f d) = d
time_of (delay d) = d
time_of _ = 0

abbrev pub total : List Call → ℕ
total [] = 0
total (c ∷ cs) = time_of c + total cs

total-append : (cs ds : List Call) → total (cs ++ ds) ≡ total cs + total ds
total-append [] ds = omega arith
total-append (c ∷ cs) ds = omega (arith, total-append cs ds)

total-led : (calls : List LedCall) → total (map led calls) ≡ 0
total-led [] = refl
total-led (c ∷ calls) = omega (arith, total-led calls)

-- A point sounds for 380 ms, anything else for 456 ms, and each is followed by 200 ms.
total-play_all : (hw : Hardware) (word : List ℕ) → total (play_all hw word) ≤ 656 * length word
unfolding play_all play note_duration
total-play_all hw [] = omega arith
total-play_all hw (c ∷ word) = elim (Bool-cases (c == b'.')) [
  | inl point ↦ rw point (omega (arith, total-play_all hw word))
  | inr dash ↦ rw dash (omega (arith, total-play_all hw word))
]

total-use_buzzer : (hw : Hardware) (word : List ℕ) → total (use_buzzer hw word) ≤ 656 * length word
unfolding use_buzzer
total-use_buzzer hw word = elim (Bool-cases hw.buzzer_exists) [
  | inl sounds ↦ simp sounds (total-play_all hw word)
  | inr silent ↦ simp silent (omega arith)
]

length-scan_display :
    (s : List ℕ) (before : Scanned) → length (scan_display s before).morse ≤ length s - 2
unfolding scan_display
length-scan_display s before = elim (Option-cases (scan_int s)) [
  | inl nothing ↦ rw (nothing, length) (omega arith)
  | inr ((recording, s'), first) ↦ elim (Option-cases (scan_int s')) [
    | inl nothing ↦ rw (first, nothing, length) (omega arith)
    | inr ((uid, s''), second) ↦
        rw (first, second, length)
          (omega (
            arith,
            length-scan_int s s' recording first,
            length-scan_int s' s'' uid second,
            length-scan_word s'',
          ))
  ]
]

total-set_leds :
    (hw : Hardware) (morse : Option (List ℕ)) (recording : ℕ) (calls : List Call)
    → set_leds hw morse recording ≡ some calls
    → total calls ≡ 0
unfolding set_leds
total-set_leds hw morse recording calls e = elim (Option-cases hw.led_count) [
  | inl missing ↦ ground (arith, missing)
  | inr (n, count) ↦ elim (Option-cases (use_leds morse recording n)) [
    | inl bad ↦ absurd (ground (arith, count))
    | inr (set, on) ↦ ground (arith, count, total-led set)
  ]
]

total-show_message :
    (hw : Hardware) (pid : ℕ) (msg : Scanned) (calls : List Call)
    → show_message hw pid msg ≡ some calls
    → total calls ≤ 656 * length msg.morse
unfolding show_message
total-show_message hw pid msg calls e =
    elim (Option-cases (set_leds hw none (flag msg.recording))) [
      | inl bad ↦ absurd (ground arith)
      | inr (dark, off) ↦ elim (Option-cases (set_leds hw (some msg.morse) (flag msg.recording))) [
        | inl bad ↦
            let silent = total-set_leds hw none (flag msg.recording) dark off in
            ground (arith, total-append dark (notify_client pid ∷ []))
        | inr (shown, on) ↦
            let silent = total-set_leds hw none (flag msg.recording) dark off in
            let silent' = total-set_leds hw (some msg.morse) (flag msg.recording) shown on in
            ground (
              arith,
              total-append dark (notify_client pid ∷ []),
              total-append shown (use_buzzer hw msg.morse ++ (dark ++ notify_client pid ∷ [])),
              total-append (use_buzzer hw msg.morse) (dark ++ notify_client pid ∷ []),
              total-use_buzzer hw msg.morse,
            )
      ]
    ]

-- However the buffer of a request is filled, and whatever the variables of `ipc_callback` held before:
-- if the handler returns, then its waits take at most 656 ms for each byte of the buffer but three,
-- about 40 s for the 64 bytes of a display buffer.
pub total-ipc_callback :
    (hw : Hardware) (pid len : ℕ) (buffer : List ℕ) (before : Scanned) (calls : List Call)
    → ipc_callback hw pid len buffer before ≡ some calls
    → total calls ≤ 656 * (length buffer - 3)
unfolding ipc_callback
total-ipc_callback hw pid len buffer before calls e = elim (Option-cases (c_string buffer)) [
  | inl bad ↦ ground (arith, bad)
  | inr (s, string) ↦ elim (Bool-cases (len == 0)) [
    | inl empty ↦ ground (arith, empty)
    | inr other ↦
        let played : show_message hw pid (scan_display s before) ≡ some calls = ground arith in
        omega (
          arith,
          total-show_message hw pid (scan_display s before) calls played,
          length-scan_display s before,
          length-c_string buffer s string,
        )
  ]
]
