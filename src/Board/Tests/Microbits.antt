-- ===== src/Board/Tests/Microbits.antt =====
-- kernel/microbit_v2 at concrete driver numbers and on a UART that is ready every second time.
use micro_morse_chat.Prelude.{
  ℕ, ◌%◌, ◌≡◌, ◌⊎◌, refl, ap, sym, ◌∙◌, Bool, true, false, not, if◌then◌else◌, [], ◌∷◌, Option,
  some, ◌==◌, eq→==, arith,
}
use micro_morse_chat.Board.Dispatch.{Finds, Occurs, AllDiffer}
use micro_morse_chat.Board.Uart.{panic_parameters}
use micro_morse_chat.Board.Microbit.{Driver, console, led, DriverNums, with_driver}
use micro_morse_chat.Board.Microbit.Lookup.{number, IsDistinct}
use micro_morse_chat.Board.Microbit.Writer.{
  configure, send_byte, wait, IsResponsive, start, write_each, write_each-sends,
}
use micro_morse_chat.Board.Microbit.Boot.{set_up_board, main}
use micro_morse_chat.Board.Microbit.Start.{registered, pins, main_registers, main-pins}
use micro_morse_chat.Board.Microbit.Led.{
  Pins, IsPins, MatrixLed, init, read, turn_on, flip, run, run-lit_by,
}

abbrev nums : DriverNums
nums = record {
  ble_radio_num = 0x30000;
  console_num = 1;
  gpio_num = 4;
  led_num = 0x90002;
  button_num = 3;
  rng_num = 0x40001;
  ninedof_num = 0x60004;
  lsm303agr_num = 0x70006;
  temperature_num = 0x60000;
  ipc_num = 0x10000;
  adc_num = 5;
  alarm_num = 0;
  buzzer_num = 0x90000;
  app_flash_num = 0x50000;
  sound_pressure_num = 0x60006;
}

found : (d : Driver) → with_driver nums (number nums d) (λ o. o) ≡ some d
unfolding with_driver
found console = refl
found _ = refl

nums-IsDistinct : IsDistinct nums
nums-IsDistinct d e h =
    let one : ◌≡◌ {A = Option Driver} (some d) (some e) =
      sym (found d) ∙ ap (λ n. with_driver nums n (λ o. o)) h ∙ found e in
    cc

abbrev every_second : ℕ → Bool
every_second i = i % 2 == 0

every_second-IsResponsive : IsResponsive every_second 2
every_second-IsResponsive i = (i % 2, omega arith, eq→== _ _ (omega arith))

write_each-sends_example :
    (n : ℕ) × (write_each every_second 2 start
        ((b'o' ∷ []) ∷ (b'k' ∷ []) ∷ [])
        (record { calls = []; polls = 0 })
      ≡ some (
        record { initialized = true },
        record {
          calls = configure panic_parameters ∷ send_byte b'o' ∷ send_byte b'k' ∷ [];
          polls = n;
        },
      ))
write_each-sends_example =
    write_each-sends every_second 2 every_second-IsResponsive start (b'o' ∷ []) ((b'k' ∷ []) ∷ [])
      (record { calls = []; polls = 0 })

-- A clock that has started when it is first asked, and one that reports it at the third question.
abbrev third : ℕ → Bool
third i = i == 2

third_run : main nums every_second third 3 ≡ some (set_up_board nums 1 3)
unfolding main wait
third_run = refl

main_registers_example :
    Finds (λ n. with_driver nums n (λ found. found)) (registered (set_up_board nums 1 3))
    × ((d : Driver) → (d ≡ led) ⊎ Occurs d (registered (set_up_board nums 1 3)))
main_registers_example =
    main_registers nums every_second third 3 (set_up_board nums 1 3) nums-IsDistinct third_run

main-pins_example : AllDiffer (pins (set_up_board nums 1 3))
main-pins_example = main-pins nums every_second third 3 (set_up_board nums 1 3) third_run

-- Pins that keep which of them are outputs, and their levels.
abbrev Levels : Type 0
Levels = (ℕ → Bool) × (ℕ → Bool)

abbrev with_level : ℕ → Bool → Levels → Levels
with_level p b w = (w.0, λ q. if q == p then b else w.1 q)

abbrev bare_pins : Pins Levels
bare_pins = record {
  make_output = λ p w. ((λ q. if q == p then true else w.0 q), w.1);
  set = λ p w. with_level p true w;
  clear = λ p w. with_level p false w;
  toggle = λ p w. with_level p (not (w.1 p)) w;
  read = λ p w. w.1 p;
}

bare_pins-IsPins : IsPins bare_pins (λ p w. w.0 p)
bare_pins-IsPins = record {
  output-make_output = λ p w. ground arith;
  output-make_other = λ p q w h. ground arith;
  output-set = λ p q w. refl;
  output-clear = λ p q w. refl;
  output-toggle = λ p q w. refl;
  read-set = λ p w h. ground arith;
  read-clear = λ p w h. ground arith;
  read-toggle = λ p w h. ground arith;
  read-make_other = λ p q w h. refl;
  read-set_other = λ p q w h. ground arith;
  read-clear_other = λ p q w h. ground arith;
  read-toggle_other = λ p q w h. ground arith;
}

-- Column 1 and row 1 of the matrix.
abbrev upper_left : MatrixLed
upper_left = record { first = 28; second = 21 }

abbrev all_low : Levels
all_low = ((λ p. false), (λ p. false))

upper_left-is_lit :
    let w' =
      run bare_pins upper_left (turn_on ∷ flip ∷ flip ∷ []) (init bare_pins upper_left all_low) in
    (read bare_pins upper_left w' ≡ true) × (w'.1 28 ≡ false)
upper_left-is_lit =
    run-lit_by bare_pins (λ p w. w.0 p) bare_pins-IsPins upper_left (λ e. absurd (omega arith))
      (turn_on ∷ flip ∷ flip ∷ []) all_low
