-- ===== src/Board/Pico/Lookup.antt =====
-- The lookup of kernel/raspberry_pi_pico/src/main.rs: it serves its own drivers, and no network.
use micro_morse_chat.Prelude.{ℕ, ◌≡◌, ◌≢◌, ◌↔◌, none, some, arith}
use micro_morse_chat.Network.{driver_num}
use micro_morse_chat.Board.Dispatch.{match_num, match_num_iff}
use micro_morse_chat.Board.Pico.{
  Driver, ipc, console, alarm, gpio, led, adc, temperature, DriverNums, arms, with_driver,
}

-- The number under which a process asks for a driver.
abbrev pub number : DriverNums → Driver → ℕ
number c ipc = c.ipc_num
number c console = c.console_num
number c alarm = c.alarm_num
number c gpio = c.gpio_num
number c led = c.led_num
number c adc = c.adc_num
number c temperature = c.temperature_num

served : (c : DriverNums) (d : Driver) → match_num (arms c) (number c d) ≢ none
served c console e = ground arith
served c _ e = ground arith

-- No two drivers have the same number.
abbrev pub IsDistinct : DriverNums → Type 0
IsDistinct c = (d e : Driver) → number c d ≡ number c e → d ≡ e

-- Where the numbers of the capsules differ from each other, a number finds a driver exactly if it is
-- that driver's.
pub with_driver_iff_pico :
    (c : DriverNums)
    → IsDistinct c
    → (n : ℕ) (d : Driver) → (with_driver c n (λ found. found) ≡ some d) ↔ (n ≡ number c d)
unfolding with_driver
with_driver_iff_pico c distinct =
    match_num_iff (number c) (arms c) (omega arith) distinct (served c)

-- Under the number of the network driver this board finds no driver, as long as none of its own has
-- that number.
pub with_driver_no_network :
    (c : DriverNums)
    → ((d : Driver) → number c d ≢ driver_num)
    → with_driver c driver_num (λ found. found) ≡ none
unfolding with_driver
with_driver_no_network c others = ground (
  arith,
  others ipc,
  others console,
  others alarm,
  others gpio,
  others led,
  others adc,
  others temperature,
)
