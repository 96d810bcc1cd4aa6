-- ===== src/Display/Interrupted.antt =====
-- A request that reaches applications/morse_display/morse_display.c while it waits in `use_buzzer`:
-- `tone_sync` and `delay_ms` run other upcalls while they wait, and so `ipc_callback` runs inside itself.
use mathlib.Core.List.{append_assoc}
use micro_morse_chat.Prelude.{
  ℕ, zero, suc, replicate, ◌<◌, ◌≡◌, ◌≢◌, refl, ◌∙◌, ◌⊎◌, inl, inr, Bool, true, false, not, List,
  [], ◌∷◌, ◌++◌, map, none, some, Option-cases, ◌==◌, arith,
}
use micro_morse_chat.Display.Frames.{frame, clear, recording_mode}
use micro_morse_chat.Display.{LedCall, use_leds, decode_morse}
use micro_morse_chat.Display.Service.{
  Call, led, tone, delay, notify_client, Hardware, set_leds, use_buzzer, flag, Scanned,
  show_message,
}
use micro_morse_chat.Display.Screen.{lit_after, lit_after-append, entry, lit_after-use_leds}

abbrev pub IsWait : Call → Type 0
IsWait (tone f d) = Unit
IsWait (delay d) = Unit
IsWait _ = ⊥

abbrev pub NoWaits : List Call → Type 0
NoWaits [] = Unit
NoWaits (c ∷ cs) = (¬ IsWait c) × NoWaits cs

-- `all` is the run of `outer` with the whole of `nested` inside one of its waits.
abbrev pub Interrupted : List Call → List Call → List Call → Type 0
Interrupted nested [] all = ⊥
Interrupted nested (c ∷ outer) all =
    (IsWait c × (all ≡ c ∷ (nested ++ outer)))
    ⊎ ((later : List Call) × (all ≡ c ∷ later) × Interrupted nested outer later)

not-Interrupted : (nested outer all : List Call) → NoWaits outer → ¬ Interrupted nested outer all
not-Interrupted nested [] all h i = i
not-Interrupted nested (c ∷ outer) all h (inl (w, e)) = h.0 w
not-Interrupted nested (c ∷ outer) all h (inr (later, e, i)) =
    not-Interrupted nested outer later h.1 i

-- What has no waits and comes last comes last in the whole.
Interrupted-ends :
    (nested front back all : List Call)
    → NoWaits back
    → Interrupted nested (front ++ back) all
    → (before : List Call) × (all ≡ before ++ back)
Interrupted-ends nested [] back all h i = absurd (not-Interrupted nested back all h i)
Interrupted-ends nested (c ∷ front) back all h (inl (w, e)) =
    (c ∷ (nested ++ front), rw e (simp append_assoc))
Interrupted-ends nested (c ∷ front) back all h (inr (later, e, i)) =
    let (before, ends) = Interrupted-ends nested front back later h i in (c ∷ before, rw (e, ends))

NoWaits-led : (calls : List LedCall) (pid : ℕ) → NoWaits (map led calls ++ notify_client pid ∷ [])
NoWaits-led [] pid = ((λ w. w), tt)
NoWaits-led (c ∷ calls) pid = ((λ w. w), NoWaits-led calls pid)

entry-zeros : (n i : ℕ) → entry (replicate n 0) i ≡ 0
entry-zeros zero i = refl
entry-zeros (suc n) zero = refl
entry-zeros (suc n) (suc i) = entry-zeros n i

-- No LED is lit after `use_leds(NULL, …)` outside the recording mode.
dark :
    (recording n pid : ℕ) (calls : List LedCall) (lit : ℕ → Bool) (i : ℕ)
    → recording ≢ 1
    → use_leds none recording n ≡ some calls
    → i < n
    → lit_after (map led calls ++ notify_client pid ∷ []) lit i ≡ false
unfolding decode_morse
dark recording n pid calls lit i h e lt =
    let other : (recording == 1) ≡ false = ground arith in
    let set = lit_after-use_leds none recording n calls lit i e lt in
    let zeros : entry (frame clear) i ≡ 0 = entry-zeros 25 i in
    lit_after-append (map led calls) (notify_client pid ∷ []) lit i ∙ set ∙ rw other (rw zeros)

-- The calls of a request that shows a message: they end by clearing the LEDs.
show_message-ends :
    (hw : Hardware) (n pid : ℕ) (msg : Scanned) (calls : List Call)
    → hw.led_count ≡ some n
    → flag msg.recording ≢ 1
    → show_message hw pid msg ≡ some calls
    → (front : List Call) × (cleared : List LedCall) × (use_leds none (flag msg.recording) n
        ≡ some cleared)
      × (calls ≡ front ++ (map led cleared ++ notify_client pid ∷ []))
unfolding show_message set_leds
show_message-ends hw n pid msg calls count other e =
    let mode : (flag msg.recording == 1) ≡ false = ground arith in
    elim (Option-cases (use_leds (some msg.morse) (flag msg.recording) n)) [
      | inl bad ↦ absurd (ground (arith, count))
      | inr (shown, on) ↦ elim (Option-cases (use_leds none (flag msg.recording) n)) [
        | inl bad ↦ absurd (ground (arith, count))
        | inr (cleared, off) ↦ (
          map led shown ++ use_buzzer hw msg.morse,
          cleared,
          off,
          rw
              (append_assoc (map led shown) (use_buzzer hw msg.morse)
                (map led cleared ++ notify_client pid ∷ []))
              (ground (arith, count)),
        )
      ]
    ]

-- A recording request leaves its picture.
show_message-records :
    (hw : Hardware) (n pid : ℕ) (msg : Scanned) (calls : List Call) (lit : ℕ → Bool) (i : ℕ)
    → hw.led_count ≡ some n
    → i < n
    → flag msg.recording ≡ 1
    → show_message hw pid msg ≡ some calls
    → lit_after calls lit i ≡ not (entry (frame recording_mode) i == 0)
unfolding show_message set_leds
show_message-records hw n pid msg calls lit i count lt mode e =
    elim (Option-cases (use_leds none (flag msg.recording) n)) [
      | inl bad ↦ absurd (ground (arith, count))
      | inr (shown, on) ↦
          let same : calls ≡ map led shown ++ notify_client pid ∷ [] = ground (arith, count) in
          let set = lit_after-use_leds none (flag msg.recording) n shown lit i on lt in
          let test : (flag msg.recording == 1) ≡ true = ground arith in
          rw same (lit_after-append (map led shown) (notify_client pid ∷ []) lit i ∙ set ∙ rw test)
    ]

-- A message is shown, and a recording request arrives while it waits in `use_buzzer`. By itself the
-- request would leave the picture of the recording mode; but the message goes on behind it and clears
-- the LEDs: once both have ended, every LED is dark.
pub recording_goes_dark :
    (hw : Hardware) (n pid pid' : ℕ) (msg request : Scanned) (outer nested all : List Call)
    (lit : ℕ → Bool) (i : ℕ)
    → hw.led_count ≡ some n
    → i < n
    → flag msg.recording ≢ 1
    → flag request.recording ≡ 1
    → show_message hw pid msg ≡ some outer
    → show_message hw pid' request ≡ some nested
    → Interrupted nested outer all
    → (lit_after nested lit i ≡ not (entry (frame recording_mode) i == 0))
      × (lit_after all lit i ≡ false)
recording_goes_dark hw n pid pid' msg request outer nested all lit i count lt other recording shown
      noted inside =
    let (front, cleared, off, ends) = show_message-ends hw n pid msg outer count other shown in
    let inside' : Interrupted nested (front ++ (map led cleared ++ notify_client pid ∷ [])) all =
      rw (← ends) inside in
    let (before, all_ends) =
      Interrupted-ends nested front (map led cleared ++ notify_client pid ∷ []) all
        (NoWaits-led cleared pid) inside' in
    (
      show_message-records hw n pid' request nested lit i count lt recording noted,
      rw all_ends (
          lit_after-append before (map led cleared ++ notify_client pid ∷ []) lit i
          ∙ dark (flag msg.recording) n pid cleared (lit_after before lit) i other off lt),
    )
