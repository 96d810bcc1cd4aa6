-- ===== src/Board/Microbit/Start.antt =====
-- What the calls of `main` in kernel/microbit_v2/src/main.rs amount to: the main loop is reached, the
-- drivers are known to the kernel by the numbers of the lookup, and no pin is given away twice.
use micro_morse_chat.Prelude.{
  ℕ, ◌+◌, ◌≡◌, ◌⊎◌, inl, inr, refl, Bool, List, [], ◌∷◌, ◌++◌, map, Option, none, some,
  Option-cases, arith,
}
use micro_morse_chat.Board.Dispatch.{Labelled, Finds, Labelled-Finds, Occurs, AllDiffer}
use micro_morse_chat.Board.Microbit.{
  pin, Driver, ble_radio, console, gpio, led, button, rng, ninedof, lsm303agr, temperature, ipc,
  adc, alarm, buzzer, app_flash, sound_pressure, network, DriverNums, p0, with_driver,
}
use micro_morse_chat.Board.Microbit.Lookup.{number, IsDistinct, with_driver_iff}
use micro_morse_chat.Board.Microbit.Writer.{wait, IsResponsive, wait_returns}
use micro_morse_chat.Board.Microbit.Boot.{
  Call, new_gpio, new_button, new_alarm, new_pwm_user, new_buzzer, init_uarte, new_console, new_rng,
  configure_twi, new_lsm303agr, new_ninedof, new_temperature, new_adc, new_adc_microphone,
  new_sound_pressure, new_app_flash, new_ble, new_led_matrix, create_network_grant, new_ipc,
  kernel_loop, set_up_board, main,
}

-- The driver that a call sets up, with the number under which the kernel gets to know it.
abbrev pub registration : Call → List (ℕ × Driver)
registration (new_gpio n ps) = (n, gpio) ∷ []
registration (new_button n ps) = (n, button) ∷ []
registration (new_alarm n) = (n, alarm) ∷ []
registration (new_buzzer n) = (n, buzzer) ∷ []
registration (new_console n) = (n, console) ∷ []
registration (new_rng n) = (n, rng) ∷ []
registration (new_lsm303agr n) = (n, lsm303agr) ∷ []
registration (new_ninedof n) = (n, ninedof) ∷ []
registration (new_temperature n) = (n, temperature) ∷ []
registration (new_adc n chs) = (n, adc) ∷ []
registration (new_sound_pressure n) = (n, sound_pressure) ∷ []
registration (new_app_flash n k) = (n, app_flash) ∷ []
registration (new_ble n) = (n, ble_radio) ∷ []
registration (create_network_grant n) = (n, network) ∷ []
registration (new_ipc n) = (n, ipc) ∷ []
registration _ = []

abbrev pub registered : List Call → List (ℕ × Driver)
registered [] = []
registered (x ∷ xs) = registration x ++ registered xs

-- The pin behind an analog input of the nRF52833, of which the board uses 0 to 3: the first is that of
-- the ring P0.
abbrev pub input_pin : ℕ → ℕ
input_pin channel = p0 (2 + channel)

-- The pins that a call hands to a driver, those that it samples among them. The kernel's debug LED is no
-- driver.
abbrev pub handed_by : Call → List ℕ
handed_by (new_gpio n ps) = map (λ p. pin (p.1)) ps
handed_by (new_button n ps) = map (λ p. pin (p.0)) ps
handed_by (new_pwm_user r) = pin r ∷ []
handed_by (init_uarte tx rx) = pin tx ∷ pin rx ∷ []
handed_by (configure_twi scl sda) = pin scl ∷ pin sda ∷ []
handed_by (new_adc n channels) = map input_pin channels
handed_by (new_adc_microphone channel settings n r) = input_pin channel ∷ pin r ∷ []
handed_by (new_led_matrix fps col_mode cols row_mode rows) = map pin (cols ++ rows)
handed_by _ = []

abbrev pub pins : List Call → List ℕ
pins [] = []
pins (x ∷ xs) = handed_by x ++ pins xs

abbrev pub last_call : List Call → Option Call
last_call [] = none
last_call (x ∷ []) = some x
last_call (x ∷ (y ∷ ys)) = last_call (y ∷ ys)

-- If each clock reports its start within `fuel` questions, `main` gets through both waits and its last
-- call is the kernel's main loop.
pub main_returns :
    (c : DriverNums) (low high : ℕ → Bool) (fuel : ℕ)
    → IsResponsive low fuel
    → IsResponsive high fuel
    → (calls : List Call) × (main c low high fuel ≡ some calls)
      × (last_call calls ≡ some kernel_loop)
unfolding main set_up_board
main_returns c low high fuel l h =
    let (n, en) = wait_returns low fuel l 0 in
    let (m, em) = wait_returns high fuel h 0 in (set_up_board c n m, rw (en, em), refl)

-- The calls of a run that ends.
main_calls :
    (c : DriverNums) (low high : ℕ → Bool) (fuel : ℕ) (calls : List Call)
    → main c low high fuel ≡ some calls
    → (n m : ℕ) × (calls ≡ set_up_board c n m)
unfolding main
main_calls c low high fuel calls e = elim (Option-cases (wait low fuel 0)) [
  | inl en ↦ absurd (ground arith)
  | inr (n, en) ↦ elim (Option-cases (wait high fuel 0)) [
    | inl em ↦ absurd (ground arith)
    | inr (m, em) ↦ (n, m, ground arith)
  ]
]

set_up_board-Labelled :
    (c : DriverNums) (n m : ℕ) → Labelled (number c) (registered (set_up_board c n m))
unfolding set_up_board
set_up_board-Labelled c n m = omega arith

set_up_board-Occurs :
    (c : DriverNums) (n m : ℕ) (d : Driver) → (d ≡ led) ⊎ Occurs d (registered (set_up_board c n m))
unfolding set_up_board
set_up_board-Occurs c n m console = ground arith
set_up_board-Occurs c n m _ = ground arith

set_up_board-AllDiffer : (c : DriverNums) (n m : ℕ) → AllDiffer (pins (set_up_board c n m))
unfolding set_up_board pin
set_up_board-AllDiffer c n m = omega arith

-- In every run of `main` that reaches its end, where the driver numbers differ: each driver of the
-- platform, but for the LED matrix, which has no grant, is set up with a driver number, and under each
-- number that is given to a driver at its set-up `with_driver` finds that driver.
pub main_registers :
    (c : DriverNums) (low high : ℕ → Bool) (fuel : ℕ) (calls : List Call)
    → IsDistinct c
    → main c low high fuel ≡ some calls
    → Finds (λ n. with_driver c n (λ found. found)) (registered calls)
      × ((d : Driver) → (d ≡ led) ⊎ Occurs d (registered calls))
main_registers c low high fuel calls distinct e =
    let (n, m, same) = main_calls c low high fuel calls e in
    let labelled = set_up_board-Labelled c n m in
    rw same (
      Labelled-Finds (number c) (λ n. with_driver c n (λ found. found)) (with_driver_iff c distinct)
          (registered (set_up_board c n m)) labelled,
      set_up_board-Occurs c n m,
    )

-- In every run of `main` that reaches its end, no two drivers are handed the same pin of the chip, and
-- no driver the same pin twice, where the pins behind the channels of the ADC count as handed to their
-- drivers.
pub main-pins :
    (c : DriverNums) (low high : ℕ → Bool) (fuel : ℕ) (calls : List Call)
    → main c low high fuel ≡ some calls
    → AllDiffer (pins calls)
main-pins c low high fuel calls e =
    let (n, m, same) = main_calls c low high fuel calls e in rw same (set_up_board-AllDiffer c n m)
