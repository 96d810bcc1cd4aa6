-- ===== src/Display/Screen.antt =====
-- What is lit after the calls of applications/morse_display/morse_display.c.
use micro_morse_chat.Prelude.{
  ℕ, zero, suc, ◌+◌, ◌<◌, ◌≡◌, refl, ap, sym, ◌∙◌, inl, inr, Bool, true, false, not, List, [], ◌∷◌,
  ◌++◌, map, Option, some, Option-cases, ◌==◌, if◌then◌else◌, arith,
}
use micro_morse_chat.Display.Frames.{frame, recording_mode}
use micro_morse_chat.Display.{LedCall, led_on, led_off, show, use_leds, decode_morse}
use micro_morse_chat.Display.Service.{Call, led, tone, delay, notify_client}

-- The LEDs that are lit, from what was lit before.
abbrev pub lit_after : List Call → (ℕ → Bool) → ℕ → Bool
lit_after [] lit i = lit i
lit_after (led (led_on j) ∷ cs) lit i = lit_after cs (λ k. if k == j then true else lit k) i
lit_after (led (led_off j) ∷ cs) lit i = lit_after cs (λ k. if k == j then false else lit k) i
lit_after (_ ∷ cs) lit i = lit_after cs lit i

pub lit_after-append :
    (xs ys : List Call) (lit : ℕ → Bool) (i : ℕ)
    → lit_after (xs ++ ys) lit i ≡ lit_after ys (lit_after xs lit) i
lit_after-append [] ys lit i = refl
lit_after-append (led (led_on j) ∷ xs) ys lit i =
    lit_after-append xs ys (λ k. if k == j then true else lit k) i
lit_after-append (led (led_off j) ∷ xs) ys lit i =
    lit_after-append xs ys (λ k. if k == j then false else lit k) i
lit_after-append (tone f d ∷ xs) ys lit i = lit_after-append xs ys lit i
lit_after-append (delay d ∷ xs) ys lit i = lit_after-append xs ys lit i
lit_after-append (notify_client p ∷ xs) ys lit i = lit_after-append xs ys lit i

-- The entry of a picture for an LED.
abbrev pub entry : List ℕ → ℕ → ℕ
entry [] i = 0
entry (f ∷ fs) zero = f
entry (f ∷ fs) (suc i) = entry fs i

-- The loop leaves every LED before its first one as it was.
lit_after-before :
    (j n : ℕ) (fs : List ℕ) (calls : List LedCall) (lit : ℕ → Bool) (i : ℕ)
    → show j fs n ≡ some calls
    → i < j
    → lit_after (map led calls) lit i ≡ lit i
lit_after-before j zero fs calls lit i e h = ground arith
lit_after-before j (suc n) [] calls lit i e h = absurd (ground arith)
lit_after-before j (suc n) (f ∷ fs) calls lit i e h = elim (Option-cases (show (j + 1) fs n)) [
  | inl bad ↦ absurd (ground arith)
  | inr (rest, ok) ↦ ground (
    arith,
    lit_after-before (j + 1) n fs rest (λ k. if k == j then false else lit k) i ok,
    lit_after-before (j + 1) n fs rest (λ k. if k == j then true else lit k) i ok,
  )
]

-- What the loop sets: the LED `j + i` as the entry `i` says.
lit_after-show :
    (j n : ℕ) (fs : List ℕ) (calls : List LedCall) (lit : ℕ → Bool) (i : ℕ)
    → show j fs n ≡ some calls
    → i < n
    → lit_after (map led calls) lit (j + i) ≡ not (entry fs i == 0)
lit_after-show j zero fs calls lit i e h = absurd (omega arith)
lit_after-show j (suc n) [] calls lit i e h = absurd (ground arith)
lit_after-show j (suc n) (f ∷ fs) calls lit zero e h = elim (Option-cases (show (j + 1) fs n)) [
  | inl bad ↦ absurd (ground arith)
  | inr (rest, ok) ↦
      let same : j + 0 ≡ j = omega arith in
      rw same (
        ground (
          arith,
          lit_after-before (j + 1) n fs rest (λ k. if k == j then false else lit k) j ok
              (omega arith),
          lit_after-before (j + 1) n fs rest (λ k. if k == j then true else lit k) j ok
              (omega arith),
        ))
]
lit_after-show j (suc n) (f ∷ fs) calls lit (suc i) e h = elim (Option-cases (show (j + 1) fs n)) [
  | inl bad ↦ absurd (ground arith)
  | inr (rest, ok) ↦
      let next : j + suc i ≡ j + 1 + i = omega arith in
      rw next (
        ground (
          arith,
          lit_after-show (j + 1) n fs rest (λ k. if k == j then false else lit k) i ok
              (omega arith),
          lit_after-show (j + 1) n fs rest (λ k. if k == j then true else lit k) i ok (omega arith),
        ))
]

-- `use_leds` lights exactly the picture, whatever was lit before.
pub lit_after-use_leds :
    (morse : Option (List ℕ)) (recording n : ℕ) (calls : List LedCall) (lit : ℕ → Bool) (i : ℕ)
    → use_leds morse recording n ≡ some calls
    → i < n
    → lit_after (map led calls) lit i
      ≡ not (entry (frame (if recording == 1 then recording_mode else decode_morse morse)) i == 0)
unfolding use_leds
lit_after-use_leds morse recording n calls lit i e h =
    let same : 0 + i ≡ i = omega arith in
    let g = if recording == 1 then recording_mode else decode_morse morse in
    ap (λ k. lit_after (map led calls) lit k) (sym same)
    ∙ lit_after-show 0 n (frame g) calls lit i e h
