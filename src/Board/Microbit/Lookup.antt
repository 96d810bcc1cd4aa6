-- ===== src/Board/Microbit/Lookup.antt =====
-- The lookup and the pins of kernel/microbit_v2/src/main.rs are free of conflicts.
use micro_morse_chat.Prelude.{
  ℕ, ◌≡◌, ◌≢◌, ◌↔◌, refl, ap, sym, ◌∙◌, List, [], ◌∷◌, Option, none, some, arith,
}
use micro_morse_chat.Network.{driver_num}
use micro_morse_chat.Board.Dispatch.{match_num, match_num_iff}
use micro_morse_chat.Board.Microbit.{
  Role, led_kernel, led_microphone, button_a, button_b, touch_logo, gpio_p0, gpio_p1, gpio_p2,
  gpio_p8, gpio_p9, gpio_p16, uart_tx, uart_rx, col_0, col_1, col_2, col_3, col_4, row_0, row_1,
  row_2, row_3, row_4, speaker, i2c_sda, i2c_scl, pin, Driver, ble_radio, console, gpio, led,
  button, rng, ninedof, lsm303agr, temperature, ipc, adc, alarm, buzzer, app_flash, sound_pressure,
  network, DriverNums, arms, with_driver,
}

-- The number under which a process asks for a driver.
abbrev pub number : DriverNums → Driver → ℕ
number c ble_radio = c.ble_radio_num
number c console = c.console_num
number c gpio = c.gpio_num
number c led = c.led_num
number c button = c.button_num
number c rng = c.rng_num
number c ninedof = c.ninedof_num
number c lsm303agr = c.lsm303agr_num
number c temperature = c.temperature_num
number c ipc = c.ipc_num
number c adc = c.adc_num
number c alarm = c.alarm_num
number c buzzer = c.buzzer_num
number c app_flash = c.app_flash_num
number c sound_pressure = c.sound_pressure_num
number c network = driver_num

served : (c : DriverNums) (d : Driver) → match_num (arms c) (number c d) ≢ none
served c console e = ground arith
served c _ e = ground arith

-- No two drivers have the same number.
abbrev pub IsDistinct : DriverNums → Type 0
IsDistinct c = (d e : Driver) → number c d ≡ number c e → d ≡ e

-- Where the numbers of the capsules differ from each other and from the network driver's, a number
-- finds a driver exactly if it is that driver's: every field of the platform but the scheduler and
-- the timer is reachable, and none under another's number.
pub with_driver_iff :
    (c : DriverNums)
    → IsDistinct c
    → (n : ℕ) (d : Driver) → (with_driver c n (λ found. found) ≡ some d) ↔ (n ≡ number c d)
unfolding with_driver
with_driver_iff c distinct = match_num_iff (number c) (arms c) (omega arith) distinct (served c)

-- The two roles that share a pin count as one.
abbrev pub merged : Role → Role
merged led_microphone = led_kernel
merged r = r

-- Who owns a pin.
abbrev owners : List (ℕ × Role)
owners =
    (20, led_kernel)
    ∷ (14, button_a)
    ∷ (23, button_b)
    ∷ (36, touch_logo)
    ∷ (2, gpio_p0)
    ∷ (3, gpio_p1)
    ∷ (4, gpio_p2)
    ∷ (10, gpio_p8)
    ∷ (9, gpio_p9)
    ∷ (34, gpio_p16)
    ∷ (6, uart_tx)
    ∷ (40, uart_rx)
    ∷ (28, col_0)
    ∷ (11, col_1)
    ∷ (31, col_2)
    ∷ (37, col_3)
    ∷ (30, col_4)
    ∷ (21, row_0)
    ∷ (22, row_1)
    ∷ (15, row_2)
    ∷ (24, row_3)
    ∷ (19, row_4)
    ∷ (0, speaker)
    ∷ (16, i2c_sda)
    ∷ (8, i2c_scl)
    ∷ []

owned : (r : Role) → match_num owners (pin r) ≡ some (merged r)
unfolding pin
owned led_kernel = refl
owned _ = refl

-- No pin has two roles, but for the LED that the kernel and the microphone share.
pub pin-injective : (r s : Role) → pin r ≡ pin s → merged r ≡ merged s
pin-injective r s e =
    let one : ◌≡◌ {A = Option Role} (some (merged r)) (some (merged s)) =
      sym (owned r) ∙ ap (match_num owners) e ∙ owned s in
    cc
