-- ===== src/Board/Tests/Picos.antt =====
-- kernel/raspberry_pi_pico at concrete driver numbers, clocks and UARTs.
use micro_morse_chat.Prelude.{
  ℕ, ◌*◌, ◌/◌, ◌≡◌, ◌≢◌, ◌==◌, if◌then◌else◌, ◌⊎◌, take, refl, sym, ap, ◌∙◌, Option, some, Bool,
  true, false, List, [], ◌∷◌, arith,
}
use micro_morse_chat.Board.Pico.{Driver, console, led, DriverNums, with_driver}
use micro_morse_chat.Board.Pico.Lookup.{number, IsDistinct}
use micro_morse_chat.Board.Pico.Clocks.{
  PllClock, sys, usb, Call, reset, pll_init, configure_usb, configure_rtc, from_pll_sys,
  init_clocks, spares, run_calls, mismatches, IsPlls, init_clocks-frequencies,
}
use micro_morse_chat.Board.Pico.Writer.{
  configure, send_byte, set_uart_function, set_uart, start, write_each, uart0_set_up, Remembers,
  write_each-uart0,
}
use micro_morse_chat.Board.Pico.Writer
use micro_morse_chat.Board.Dispatch.{Finds, Occurs, AllDiffer}
use micro_morse_chat.Board.Pico.Boot.{main}
use micro_morse_chat.Board.Pico.Jump.{
  inside, branched, Cpu, vtor, run, jump_to_bootloader, jump_to_bootloader_resets,
}
use micro_morse_chat.Board.Pico.Start.{
  registered, pins, main_registers_pico, writer_after, before_mux, early_panic_unconfigured,
}

abbrev nums : DriverNums
nums = record {
  ipc_num = 0x10000;
  console_num = 1;
  alarm_num = 0;
  gpio_num = 4;
  led_num = 2;
  adc_num = 5;
  temperature_num = 0x60000;
}

-- Clock hardware that keeps the two frequencies and nothing else.
abbrev apply : Call → ℕ × ℕ → ℕ × ℕ
apply (pll_init sys f d v p q) s = (v / (p * q), s.1)
apply (pll_init usb f d v p q) s = (s.0, v / (p * q))
apply (reset ps) s = (0, 0)
apply _ s = s

abbrev pll : PllClock → ℕ × ℕ → ℕ
pll sys s = s.0
pll usb s = s.1

sets :
    (c : PllClock) (f d v p q : ℕ) (s : ℕ × ℕ)
    → pll c (apply (pll_init c f d v p q) s) ≡ v / (p * q)
sets sys f d v p q s = refl
sets usb f d v p q s = refl

spared : (c : PllClock) (x : Call) (s : ℕ × ℕ) → spares x ≡ true → pll c (apply x s) ≡ pll c s
spared c (pll_init sys f d v p q) s h = cc
spared c (pll_init usb f d v p q) s h = cc
spared c (reset ps) s h = cc
spared c _ s h = refl

clocks-IsPlls : IsPlls apply pll
clocks-IsPlls = record { sets = sets; keeps_sys = λ f d v p q s. refl; spared = spared }

init_clocks-frequencies_example :
    let t = run_calls apply init_clocks (0, 0) in
    (pll sys t ≡ 125000000)
    × (pll usb t ≡ 48000000)
    × (mismatches (λ c. pll c t) init_clocks
        ≡ configure_usb from_pll_sys 48000000 48000000
          ∷ configure_rtc from_pll_sys 48000000 46875
          ∷ [])
init_clocks-frequencies_example = init_clocks-frequencies apply pll clocks-IsPlls (0, 0)

-- A UART0 that is configured once it was told to be.
abbrev was_configured : List Writer.Call → Bool
was_configured [] = false
was_configured (configure u p ∷ cs) = true
was_configured (c ∷ cs) = was_configured cs

was_configured-Remembers : Remembers was_configured
was_configured-Remembers [] after = refl
was_configured-Remembers (configure u p ∷ cs) after = refl
was_configured-Remembers (set_uart_function g ∷ cs) after = was_configured-Remembers cs after
was_configured-Remembers (send_byte u c ∷ cs) after = was_configured-Remembers cs after

found : (d : Driver) → with_driver nums (number nums d) (λ o. o) ≡ some d
unfolding with_driver
found console = refl
found _ = refl

nums-IsDistinct : IsDistinct nums
nums-IsDistinct d e h =
    let one : ◌≡◌ {A = Option Driver} (some d) (some e) =
      sym (found d) ∙ ap (λ n. with_driver nums n (λ o. o)) h ∙ found e in
    cc

main_registers_pico_example :
    Finds (λ n. with_driver nums n (λ found. found)) (registered (main nums))
    × ((d : Driver) → (d ≡ led) ⊎ Occurs d (registered (main nums)))
    × AllDiffer (pins (main nums))
main_registers_pico_example = main_registers_pico nums nums-IsDistinct

-- A panic behind the reset of UART0.
early_panic_unconfigured_example :
    write_each was_configured
      (writer_after (take 4 (before_mux (main nums))) start)
      ((b'o' ∷ []) ∷ [])
      []
    ≡ send_byte 0 b'o' ∷ []
early_panic_unconfigured_example =
    early_panic_unconfigured nums 4 was_configured ((b'o' ∷ []) ∷ []) (omega arith)

-- A processor in the handler of a debugger's request, where the words 0 and 4 are the boot ROM's.
abbrev rom : ℕ → ℕ
rom i = if i == 0 then 0x20041f00 else if i == 4 then 0xeb else 7

abbrev attached : Cpu
attached = record { register = λ r. 5; msp = 0x20000100; memory = rom; place = inside }

jump_to_bootloader_resets_example :
    let c' = run jump_to_bootloader attached in
    (c'.memory vtor ≡ 0)
    × ((i : ℕ) → i ≢ vtor → c'.memory i ≡ rom i)
    × (c'.msp ≡ 0x20041f00)
    × (c'.place ≡ branched 0xea)
jump_to_bootloader_resets_example = jump_to_bootloader_resets attached refl
