-- ===== src/Board/Microbit.antt =====
-- kernel/microbit_v2/src/main.rs: the pins, the drivers of the platform and the lookup of a driver by
-- its number.
pub mod Boot
pub mod Led
pub mod Lookup
pub mod Start
pub mod Writer
use micro_morse_chat.Prelude.{ℕ, ◌+◌, List, [], ◌∷◌, Option}
use micro_morse_chat.Network.{driver_num}
use micro_morse_chat.Board.Dispatch.{match_num}
use micro_morse_chat.Board.Resources.{KernelResources}

-- The pins `P0_xx` and `P1_xx` of the nRF52833.
abbrev pub p0 : ℕ → ℕ
p0 i = i

abbrev pub p1 : ℕ → ℕ
p1 i = 32 + i

-- The roles that the constants of the file give to pins.
pub data Role : Type 0 where
  led_kernel led_microphone : Role
  button_a button_b touch_logo : Role
  gpio_p0 gpio_p1 gpio_p2 gpio_p8 gpio_p9 gpio_p16 : Role
  uart_tx uart_rx : Role
  col_0 col_1 col_2 col_3 col_4 : Role
  row_0 row_1 row_2 row_3 row_4 : Role
  speaker i2c_sda i2c_scl : Role

unfoldable pub pin : Role → ℕ
pin led_kernel = p0 20
pin led_microphone = p0 20
pin button_a = p0 14
pin button_b = p0 23
pin touch_logo = p1 4
pin gpio_p0 = p0 2
pin gpio_p1 = p0 3
pin gpio_p2 = p0 4
pin gpio_p8 = p0 10
pin gpio_p9 = p0 9
pin gpio_p16 = p1 2
pin uart_tx = p0 6
pin uart_rx = p1 8
pin col_0 = p0 28
pin col_1 = p0 11
pin col_2 = p0 31
pin col_3 = p1 5
pin col_4 = p0 30
pin row_0 = p0 21
pin row_1 = p0 22
pin row_2 = p0 15
pin row_3 = p0 24
pin row_4 = p0 19
pin speaker = p0 0
pin i2c_sda = p0 16
pin i2c_scl = p0 8

-- `struct MicroBit`: the drivers that it holds; the scheduler and the timer are no drivers.
pub data Driver : Type 0 where
  ble_radio console gpio led button rng ninedof lsm303agr temperature ipc adc alarm buzzer : Driver
  app_flash sound_pressure network : Driver

-- The constants `DRIVER_NUM` of the capsules and of `kernel::ipc`, which are not in the repository.
pub record DriverNums : Type 0 where
  pub ble_radio_num : ℕ
  pub console_num : ℕ
  pub gpio_num : ℕ
  pub led_num : ℕ
  pub button_num : ℕ
  pub rng_num : ℕ
  pub ninedof_num : ℕ
  pub lsm303agr_num : ℕ
  pub temperature_num : ℕ
  pub ipc_num : ℕ
  pub adc_num : ℕ
  pub alarm_num : ℕ
  pub buzzer_num : ℕ
  pub app_flash_num : ℕ
  pub sound_pressure_num : ℕ

-- The arms of `with_driver`, in order.
abbrev arms : DriverNums → List (ℕ × Driver)
arms c =
    (c.console_num, console)
    ∷ (c.gpio_num, gpio)
    ∷ (c.alarm_num, alarm)
    ∷ (c.button_num, button)
    ∷ (c.led_num, led)
    ∷ (c.ninedof_num, ninedof)
    ∷ (c.adc_num, adc)
    ∷ (c.temperature_num, temperature)
    ∷ (c.lsm303agr_num, lsm303agr)
    ∷ (c.rng_num, rng)
    ∷ (c.ble_radio_num, ble_radio)
    ∷ (c.buzzer_num, buzzer)
    ∷ (c.app_flash_num, app_flash)
    ∷ (c.sound_pressure_num, sound_pressure)
    ∷ (driver_num, network)
    ∷ (c.ipc_num, ipc)
    ∷ []

unfoldable pub with_driver {ℓ} : {R : Type ℓ} → DriverNums → ℕ → (Option Driver → R) → R
with_driver c n f = f (match_num (arms c) n)

-- `impl KernelResources for MicroBit`, from the fields `scheduler` and `systick`.
abbrev pub resources : {S T : Type 0} → DriverNums → S → T → KernelResources (ℕ → Option Driver) S T
resources c scheduler systick = record {
  syscall_driver_lookup = λ n. with_driver c n (λ o. o);
  syscall_filter = tt;
  process_fault = tt;
  scheduler = scheduler;
  scheduler_timer = systick;
  watchdog = tt;
}
