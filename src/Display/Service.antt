-- ===== src/Display/Service.antt =====
-- The message handler of applications/morse_display/morse_display.c, `ipc_callback`, with `use_buzzer` and
-- the early return of `use_leds`: the calls that they make, in order. The frequencies of the notes, the
-- number of LEDs and the buzzer are the kernel's and the library's, and are parameters. `none` is an
-- access outside an array.
use micro_morse_chat.Prelude.{
  ℕ, zero, suc, ◌*◌, ◌/◌, Bool, List, [], ◌∷◌, ◌++◌, map, Option, none, some, ltb, ◌==◌,
  if◌then◌else◌, length,
}
use micro_morse_chat.Stdio.{ℤ, pos, negsuc, ◌>>=◌, scan_int, scan_word, c_string}
use micro_morse_chat.Display.{LedCall, use_leds}

pub data Call : Type 0 where
  led : LedCall → Call
  tone : ℕ → ℕ → Call
  delay : ℕ → Call
  notify_client : ℕ → Call

-- What the display runs on: the LEDs that `led_count` finds, or its error; whether there is a buzzer;
-- the frequencies of the two notes.
pub record Hardware : Type 0 where
  pub led_count : Option ℕ
  pub buzzer_exists : Bool
  pub note_g4 : ℕ
  pub note_c4 : ℕ

-- `use_leds` with its early return.
unfoldable pub set_leds : Hardware → Option (List ℕ) → ℕ → Option (List Call)
set_leds hw morse recording = elim (hw.led_count) [
  | none ↦ some []
  | some num_leds ↦ do calls ← use_leds morse recording num_leds; some (map led calls)
]

abbrev pub tempo : ℕ
tempo = 126

-- `point` and `dash`: a note and its divider.
abbrev pub note : Hardware → ℕ → ℕ × ℤ
note hw c = if c == b'.' then (hw.note_g4, pos 4) else (hw.note_c4, negsuc 3)

-- `note_duration`; the products with 1.2 and 0.8 lose their fractions.
unfoldable pub note_duration : ℤ → ℕ
note_duration (pos zero) = 0
note_duration (pos (suc n)) = 60000 * 4 / tempo / suc n
note_duration (negsuc n) = 60000 * 4 / tempo / suc n * 12 / 10

-- One round of the second loop.
unfoldable pub play : ℕ × ℤ → List Call
unfolding note_duration
play (frequency, divider) = tone (frequency * 3) (note_duration divider * 8 / 10) ∷ delay 200 ∷ []

unfoldable pub play_all : Hardware → List ℕ → List Call
unfolding play
play_all hw [] = []
play_all hw (c ∷ cs) = play (note hw c) ++ play_all hw cs

unfoldable pub use_buzzer : Hardware → List ℕ → List Call
unfolding play_all
use_buzzer hw morse = if hw.buzzer_exists then play_all hw morse else []

-- The variables that `sscanf(buffer, "%d %d %s", …)` fills.
pub record Scanned : Type 0 where
  pub recording : ℤ
  pub uid : ℤ
  pub morse : List ℕ

-- From what the variables held before; the array of the word is zeroed.
unfoldable pub scan_display : List ℕ → Scanned → Scanned
scan_display s before = elim (scan_int s) [
  | none ↦ record before { morse = [] }
  | some (recording, s') ↦ elim (scan_int s') [
    | none ↦ record before { recording = recording; morse = [] }
    | some (uid, s'') ↦ record { recording = recording; uid = uid; morse = scan_word s'' }
  ]
]

-- `use_leds` only compares with 1.
abbrev pub flag : ℤ → ℕ
flag (pos n) = n
flag (negsuc n) = 0

-- `ipc_callback` behind `sscanf`; the array has 129 bytes.
unfoldable pub show_message : Hardware → ℕ → Scanned → Option (List Call)
show_message hw pid msg =
    if ltb (length msg.morse) 129
    then if flag msg.recording == 1
      then (do
        shown ← set_leds hw none (flag msg.recording)
        some (shown ++ notify_client pid ∷ []))
      else (do
        shown ← set_leds hw (some msg.morse) (flag msg.recording)
        cleared ← set_leds hw none (flag msg.recording)
        some (shown ++ (use_buzzer hw msg.morse ++ (cleared ++ notify_client pid ∷ []))))
    else none

unfoldable pub ipc_callback : Hardware → ℕ → ℕ → List ℕ → Scanned → Option (List Call)
ipc_callback hw pid len buffer before =
    if len == 0
    then some []
    else (do s ← c_string buffer; show_message hw pid (scan_display s before))
