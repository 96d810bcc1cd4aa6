-- ===== src/Board/Pico/Boot.antt =====
-- `main` of kernel/raspberry_pi_pico/src/main.rs as the calls that it makes on the kernel and the chip,
-- in order, those of `init_clocks` among them. A call has the arguments that the file chooses.
-- References to what an earlier call made are left out, and so are capabilities and `debug!`.
use micro_morse_chat.Prelude.{ℕ, Bool, true, List, [], ◌∷◌, ◌++◌, map}
use micro_morse_chat.Board.Pico.{DriverNums}
use micro_morse_chat.Board.Pico.Clocks.{
  Peripheral, pll_sys, pll_usb, io_qspi, pads_qspi, adc, rtc, spi0, spi1, uart0, uart1, usb_ctrl,
  init_clocks,
}
use micro_morse_chat.Board.Pico.Clocks

-- Pins and UARTs are known by their numbers, ADC channels too. The slope and the voltage of the
-- temperature sensor are in thousandths.
pub data Call : Type 0 where
  init_chip new_peripherals : Call
  set_panic_uart : ℕ → Call
  reset_all_except : List Peripheral → Call
  unreset_all_except : List Peripheral → Bool → Call
  on_clocks : Clocks.Call → Call
  set_uart_function deactivate_pads : ℕ → Call
  new_chip : Call
  new_kernel new_deferred_call : ℕ → Call
  set_global_instance new_alarm_mux : Call
  new_alarm : ℕ → Call
  new_uart_mux : ℕ → ℕ → Call
  new_console : ℕ → Call
  new_debug_writer : Call
  new_gpio : ℕ → List (ℕ × ℕ) → Call
  new_led : ℕ → Call
  init_adc new_adc_mux : Call
  new_temperature_sensor : ℕ → ℕ → ℕ → Call
  new_temperature : ℕ → Call
  set_temperature_client : Call
  new_adc_channel : ℕ → Call
  new_adc : ℕ → List ℕ → Call
  start_process_console : Call
  new_scheduler new_ipc new_systick : ℕ → Call
  load_processes kernel_loop : Call

abbrev num_procs : ℕ
num_procs = 4

-- Up to the pins: the panic writer's UART, the resets and the clocks.
pub wake_chip : List Call
wake_chip =
    init_chip
    ∷ new_peripherals
    ∷ set_panic_uart 0
    ∷ reset_all_except (io_qspi ∷ pads_qspi ∷ pll_usb ∷ pll_sys ∷ [])
    ∷ unreset_all_except (adc ∷ rtc ∷ spi0 ∷ spi1 ∷ uart0 ∷ uart1 ∷ usb_ctrl ∷ []) true
    ∷ (map on_clocks init_clocks ++ unreset_all_except [] true ∷ [])

-- The pins of UART0, and the pads 26 to 29.
pub prepare_pins : List Call
prepare_pins =
    set_uart_function 1
    ∷ set_uart_function 0
    ∷ deactivate_pads 26
    ∷ deactivate_pads 27
    ∷ deactivate_pads 28
    ∷ deactivate_pads 29
    ∷ []

-- The chip, the kernel, deferred calls and the alarm.
pub set_up_alarm : DriverNums → List Call
set_up_alarm c =
    new_chip
    ∷ new_kernel num_procs
    ∷ new_deferred_call 2
    ∷ set_global_instance
    ∷ new_alarm_mux
    ∷ new_alarm c.alarm_num
    ∷ []

pub set_up_serial : DriverNums → List Call
set_up_serial c = new_uart_mux 0 115200 ∷ new_console c.console_num ∷ new_debug_writer ∷ []

-- The GPIO pins 2 to 24, each under its own number, and the LED.
pub set_up_gpio : DriverNums → List Call
set_up_gpio c =
    new_gpio c.gpio_num (
      (2, 2)
      ∷ (3, 3)
      ∷ (4, 4)
      ∷ (5, 5)
      ∷ (6, 6)
      ∷ (7, 7)
      ∷ (8, 8)
      ∷ (9, 9)
      ∷ (10, 10)
      ∷ (11, 11)
      ∷ (12, 12)
      ∷ (13, 13)
      ∷ (14, 14)
      ∷ (15, 15)
      ∷ (16, 16)
      ∷ (17, 17)
      ∷ (18, 18)
      ∷ (19, 19)
      ∷ (20, 20)
      ∷ (21, 21)
      ∷ (22, 22)
      ∷ (23, 23)
      ∷ (24, 24)
      ∷ [])
    ∷ new_led 25
    ∷ []

-- The ADC: the temperature sensor on channel 4, and the channels 0 to 3.
pub set_up_channels : DriverNums → List Call
set_up_channels c =
    init_adc
    ∷ new_adc_mux
    ∷ new_temperature_sensor 1721 706 4
    ∷ new_temperature c.temperature_num
    ∷ set_temperature_client
    ∷ new_adc_channel 0
    ∷ new_adc_channel 1
    ∷ new_adc_channel 2
    ∷ new_adc_channel 3
    ∷ new_adc c.adc_num (0 ∷ 1 ∷ 2 ∷ 3 ∷ [])
    ∷ []

-- The platform and the main loop.
pub run_kernel : DriverNums → List Call
run_kernel c =
    start_process_console
    ∷ new_scheduler num_procs
    ∷ new_ipc c.ipc_num
    ∷ new_systick 125000000
    ∷ load_processes
    ∷ kernel_loop
    ∷ []

-- All calls.
unfoldable pub main : DriverNums → List Call
unfolding wake_chip prepare_pins set_up_alarm set_up_serial set_up_gpio set_up_channels run_kernel
main c =
    wake_chip
    ++ prepare_pins
    ++ set_up_alarm c
    ++ set_up_serial c
    ++ set_up_gpio c
    ++ set_up_channels c
    ++ run_kernel c
