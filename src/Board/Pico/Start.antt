-- ===== src/Board/Pico/Start.antt =====
-- What the calls of `main` in kernel/raspberry_pi_pico/src/main.rs amount to: the drivers are known to
-- the kernel by the numbers of the lookup, no pin is given away twice, and a panic before the console
-- finds no UART that is set up.
use micro_morse_chat.Prelude.{
  ℕ, zero, suc, ◌+◌, ◌<◌, ◌≡◌, ◌⊎◌, refl, Bool, List, [], ◌∷◌, ◌++◌, map, take, drop, arith,
}
use micro_morse_chat.Board.Uart.{concat}
use micro_morse_chat.Board.Dispatch.{Labelled, Finds, Labelled-Finds, Occurs, AllDiffer}
use micro_morse_chat.Board.Pico.{
  Driver, ipc, console, alarm, gpio, led, adc, temperature, DriverNums, with_driver,
}
use micro_morse_chat.Board.Pico.Lookup.{number, IsDistinct, with_driver_iff_pico}
use micro_morse_chat.Board.Pico.Clocks.{init_clocks}
use micro_morse_chat.Board.Pico.Writer.{
  Writer, start, set_uart, send_byte, write_each, write_each-uart,
}
use micro_morse_chat.Board.Pico.Writer
use micro_morse_chat.Board.Pico.Boot.{
  Call, set_panic_uart, set_uart_function, new_alarm, new_uart_mux, new_console, new_gpio, new_led,
  new_temperature, new_adc, new_ipc, main,
}

-- The driver that a call sets up, with the number under which the kernel gets to know it.
abbrev pub registration : Call → List (ℕ × Driver)
registration (new_alarm n) = (n, alarm) ∷ []
registration (new_console n) = (n, console) ∷ []
registration (new_gpio n ps) = (n, gpio) ∷ []
registration (new_temperature n) = (n, temperature) ∷ []
registration (new_adc n chs) = (n, adc) ∷ []
registration (new_ipc n) = (n, ipc) ∷ []
registration _ = []

abbrev pub registered : List Call → List (ℕ × Driver)
registered [] = []
registered (x ∷ xs) = registration x ++ registered xs

-- The pin behind an ADC channel of the RP2040, of which the board uses 0 to 3.
abbrev pub channel_pin : ℕ → ℕ
channel_pin channel = 26 + channel

-- The pins that a call takes for a driver or for UART0, those that it samples among them.
abbrev pub pins_of : Call → List ℕ
pins_of (set_uart_function p) = p ∷ []
pins_of (new_gpio n ps) = map (λ p. p.1) ps
pins_of (new_led p) = p ∷ []
pins_of (new_adc n channels) = map channel_pin channels
pins_of _ = []

abbrev pub pins : List Call → List ℕ
pins [] = []
pins (x ∷ xs) = pins_of x ++ pins xs

main-Occurs : (c : DriverNums) (d : Driver) → (d ≡ led) ⊎ Occurs d (registered (main c))
unfolding main init_clocks
main-Occurs c console = ground arith
main-Occurs c _ = ground arith

main-Labelled : (c : DriverNums) → Labelled (number c) (registered (main c))
unfolding main init_clocks
main-Labelled c = omega arith

-- Where the driver numbers differ, `main` of the Pico sets up each driver of the platform but the LED,
-- which has no grant, with a driver number, and under each number that is given to a driver at its
-- set-up `with_driver` finds that driver; no pin is taken twice by the drivers and UART0, where the pins
-- behind the channels of the ADC count as taken by its driver.
pub main_registers_pico :
    (c : DriverNums)
    → IsDistinct c
    → Finds (λ n. with_driver c n (λ found. found)) (registered (main c))
      × ((d : Driver) → (d ≡ led) ⊎ Occurs d (registered (main c)))
      × AllDiffer (pins (main c))
unfolding main init_clocks
main_registers_pico c distinct = (
  Labelled-Finds (number c) (λ n. with_driver c n (λ found. found))
      (with_driver_iff_pico c distinct) (registered (main c)) (main-Labelled c),
  main-Occurs c,
  omega arith,
)

-- The panic writer behind a list of calls.
abbrev pub effect : Call → Writer → Writer
effect (set_panic_uart u) w = set_uart u w
effect _ w = w

abbrev pub writer_after : List Call → Writer → Writer
writer_after [] w = w
writer_after (x ∷ xs) w = writer_after xs (effect x w)

-- The calls before the one that makes the UART's mux, which configures the UART.
abbrev pub before_mux : List Call → List Call
before_mux [] = []
before_mux (new_uart_mux u baud ∷ xs) = []
before_mux (x ∷ xs) = x ∷ before_mux xs

abbrev Keeps : List Call → Type 0
Keeps [] = Unit
Keeps (x ∷ xs) = ((w : Writer) → effect x w ≡ w) × Keeps xs

writer_after-Keeps :
    (n : ℕ) (xs : List Call) (w : Writer) → Keeps xs → writer_after (take n xs) w ≡ w
writer_after-Keeps zero xs w h = refl
writer_after-Keeps (suc n) [] w h = refl
writer_after-Keeps (suc n) (x ∷ xs) w h = rw (writer_after, h.0 w) (writer_after-Keeps n xs w h.1)

-- From the third call of `main` on, the panic writer holds UART0.
early_writer :
    (c : DriverNums) (n : ℕ)
    → 2 < n
    → writer_after (take n (before_mux (main c))) start ≡ set_uart 0 start
unfolding main init_clocks set_uart
early_writer c zero h = absurd (omega arith)
early_writer c (suc zero) h = absurd (omega arith)
early_writer c (suc (suc zero)) h = absurd (omega arith)
early_writer c (suc (suc (suc n))) h =
    writer_after-Keeps n (drop 3 (before_mux (main c))) (set_uart 0 start) (ground arith)

-- If `main` of the Pico has made its first three calls or more, and not yet the UART's mux, which
-- configures UART0, then a panic writes all its bytes to UART0 without configuring it, whatever the
-- UART reports.
pub early_panic_unconfigured :
    (c : DriverNums) (n : ℕ) (is_configured : List Writer.Call → Bool) (bufs : List (List ℕ))
    → 2 < n
    → write_each is_configured (writer_after (take n (before_mux (main c))) start) bufs []
      ≡ map (send_byte 0) (concat bufs)
early_panic_unconfigured c n is_configured bufs h =
    rw (early_writer c n h) (write_each-uart is_configured start 0 bufs [])
