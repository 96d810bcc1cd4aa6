-- ===== src/Board/Microbit/Boot.antt =====
-- `main` of kernel/microbit_v2/src/main.rs as the calls that it makes on the kernel and the chip, in
-- order. A call has the arguments that the file chooses: driver numbers, pins, sizes. References to
-- what an earlier call made are left out, and so is `debug!`.
use micro_morse_chat.Prelude.{ℕ, Bool, true, false, List, [], ◌∷◌, ◌++◌, Option, some}
use micro_morse_chat.Network.{driver_num}
use micro_morse_chat.Board.Microbit.{
  Role, led_kernel, led_microphone, button_a, button_b, touch_logo, gpio_p8, gpio_p9, gpio_p16,
  uart_tx, uart_rx, col_0, col_1, col_2, col_3, col_4, row_0, row_1, row_2, row_3, row_4, speaker,
  i2c_sda, i2c_scl, DriverNums,
}
use micro_morse_chat.Board.Microbit.Writer.{and_then, wait}

pub data ActivationMode : Type 0 where
  active_high active_low : ActivationMode

pub data FloatingState : Type 0 where
  pull_none : FloatingState

-- The settings of the accelerometer and the magnetometer that the file names.
pub data DataRate : Type 0 where
  data_rate_25hz data_rate_3_0hz : DataRate

pub data Scale : Type 0 where
  scale_2g range_1_9g : Scale

-- What `AdcChannelSetup::setup` is given behind the channel.
pub data AdcSetting : Type 0 where
  gain_4 bypass pulldown us_3 : AdcSetting

pub data Call : Type 0 where
  init_chip init_peripherals : Call
  new_kernel : ℕ → Call
  assign_gpios : Role → Call
  new_gpio : ℕ → List (ℕ × Role) → Call
  new_button : ℕ → List (Role × ActivationMode × FloatingState) → Call
  new_deferred_call : ℕ → Call
  start_rtc new_alarm_mux : Call
  new_alarm : ℕ → Call
  new_pwm_mux : Call
  new_pwm_user : Role → Call
  add_to_mux new_virtual_alarm : Call
  new_buzzer : ℕ → Call
  set_alarm_client : Call
  init_uarte : Role → Role → Call
  new_uart_mux : ℕ → Call
  new_console : ℕ → Call
  new_debug_writer : Call
  new_rng : ℕ → Call
  configure_twi : Role → Role → Call
  new_i2c_mux : Call
  new_lsm303agr : ℕ → Call
  configure_lsm303agr : DataRate → Bool → Scale → Bool → Bool → DataRate → Scale → Call
  new_ninedof new_temperature : ℕ → Call
  calibrate_adc new_adc_mux : Call
  new_adc : ℕ → List ℕ → Call
  new_adc_microphone : ℕ → List AdcSetting → ℕ → Role → Call
  set_high_drive : Role → Call
  new_sound_pressure : ℕ → Call
  new_flash_mux new_flash_user : Call
  new_app_flash : ℕ → ℕ → Call
  new_ble : ℕ → Call
  new_led_matrix : ℕ → ActivationMode → List Role → ActivationMode → List Role → Call
  create_network_grant : ℕ → Call
  new_uart_device setup_uart_device : Call
  new_network : ℕ → Call
  set_transmit_client set_receive_client : Call
  low_stop high_stop low_start high_start : Call
  low_started high_started : ℕ → Call
  new_scheduler : ℕ → Call
  new_ipc : ℕ → Call
  new_systick : ℕ → Call
  new_chip : Call
  load_processes kernel_loop : Call

abbrev num_procs : ℕ
num_procs = 4

-- From `nrf52833::init` to the debug pins.
pub set_up_kernel : List Call
set_up_kernel = init_chip ∷ init_peripherals ∷ new_kernel num_procs ∷ assign_gpios led_kernel ∷ []

-- GPIO, buttons and the deferred calls.
pub set_up_pins : DriverNums → List Call
set_up_pins c =
    new_gpio c.gpio_num ((8, gpio_p8) ∷ (9, gpio_p9) ∷ (16, gpio_p16) ∷ [])
    ∷ new_button c.button_num (
        (button_a, active_low, pull_none)
        ∷ (button_b, active_low, pull_none)
        ∷ (touch_logo, active_low, pull_none)
        ∷ [])
    ∷ new_deferred_call 3
    ∷ []

-- Alarm, PWM and buzzer.
pub set_up_timers : DriverNums → List Call
set_up_timers c =
    start_rtc
    ∷ new_alarm_mux
    ∷ new_alarm c.alarm_num
    ∷ new_pwm_mux
    ∷ new_pwm_user speaker
    ∷ add_to_mux
    ∷ new_virtual_alarm
    ∷ new_buzzer c.buzzer_num
    ∷ set_alarm_client
    ∷ []

-- UART, console and debug writer.
pub set_up_console : DriverNums → List Call
set_up_console c =
    init_uarte uart_tx uart_rx
    ∷ new_uart_mux 115200
    ∷ new_console c.console_num
    ∷ new_debug_writer
    ∷ []

-- Random numbers and sensors. The accelerometer's configuration may fail: that is only printed.
pub set_up_sensors : DriverNums → List Call
set_up_sensors c =
    new_rng c.rng_num
    ∷ configure_twi i2c_scl i2c_sda
    ∷ new_i2c_mux
    ∷ new_lsm303agr c.lsm303agr_num
    ∷ configure_lsm303agr data_rate_25hz false scale_2g false true data_rate_3_0hz range_1_9g
    ∷ new_ninedof c.ninedof_num
    ∷ new_temperature c.temperature_num
    ∷ []

-- The ADC channels of the rings 0 to 2, by their index, and the microphone on channel 3 with a buffer
-- of 50.
pub set_up_adc : DriverNums → List Call
set_up_adc c =
    calibrate_adc
    ∷ new_adc_mux
    ∷ new_adc c.adc_num (0 ∷ 1 ∷ 2 ∷ [])
    ∷ new_adc_microphone 3 (gain_4 ∷ bypass ∷ pulldown ∷ us_3 ∷ []) 50 led_microphone
    ∷ set_high_drive led_microphone
    ∷ new_sound_pressure c.sound_pressure_num
    ∷ []

-- Flash, radio and the LED matrix.
pub set_up_storage : DriverNums → List Call
set_up_storage c =
    new_flash_mux
    ∷ new_flash_user
    ∷ new_app_flash c.app_flash_num 512
    ∷ new_ble c.ble_radio_num
    ∷ new_led_matrix 60 active_low (col_0 ∷ col_1 ∷ col_2 ∷ col_3 ∷ col_4 ∷ []) active_high
        (row_0 ∷ row_1 ∷ row_2 ∷ row_3 ∷ row_4 ∷ [])
    ∷ []

-- The network driver, on a UART device of its own and a buffer of 4096 zeros.
pub set_up_network : List Call
set_up_network =
    create_network_grant driver_num
    ∷ new_uart_device
    ∷ setup_uart_device
    ∷ new_network 4096
    ∷ set_transmit_client
    ∷ set_receive_client
    ∷ []

pub restart_clocks : List Call
restart_clocks = low_stop ∷ high_stop ∷ low_start ∷ high_start ∷ []

-- The platform and the main loop.
pub enter_loop : DriverNums → List Call
enter_loop c =
    new_scheduler num_procs
    ∷ new_ipc c.ipc_num
    ∷ new_systick 64000000
    ∷ new_chip
    ∷ load_processes
    ∷ kernel_loop
    ∷ []

-- All calls, where the clocks were asked `n` and `m` times.
unfoldable pub set_up_board : DriverNums → ℕ → ℕ → List Call
unfolding set_up_kernel set_up_pins set_up_timers set_up_console set_up_sensors set_up_adc
    set_up_storage set_up_network restart_clocks enter_loop
set_up_board c n m =
    set_up_kernel
    ++ set_up_pins c
    ++ set_up_timers c
    ++ set_up_console c
    ++ set_up_sensors c
    ++ set_up_adc c
    ++ set_up_storage c
    ++ set_up_network
    ++ restart_clocks
    ++ (low_started n ∷ high_started m ∷ enter_loop c)

-- `main`, against the answers of `low_started` and `high_started`. Both loops take fuel; `none` is
-- fuel that ran out before the main loop is reached.
unfoldable pub main : DriverNums → (ℕ → Bool) → (ℕ → Bool) → ℕ → Option (List Call)
main c low high fuel =
    and_then (wait low fuel 0) (λ n. and_then (wait high fuel 0) (λ m. some (set_up_board c n m)))
