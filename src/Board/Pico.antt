-- ===== src/Board/Pico.antt =====
-- kernel/raspberry_pi_pico/src/main.rs: the drivers of the platform and the lookup of a driver by its
-- number.
pub mod Lookup
pub mod Clocks
pub mod Writer
pub mod Boot
pub mod Bootloader
pub mod Jump
pub mod Start
use micro_morse_chat.Prelude.{ℕ, List, [], ◌∷◌, Option}
use micro_morse_chat.Board.Dispatch.{match_num}
use micro_morse_chat.Board.Resources.{KernelResources}

-- `struct RaspberryPiPico`: the drivers that it holds; the scheduler and the timer are no drivers.
pub data Driver : Type 0 where
  ipc console alarm gpio led adc temperature : Driver

-- The constants `DRIVER_NUM` of the capsules and of `kernel::ipc`, which are not in the repository.
pub record DriverNums : Type 0 where
  pub ipc_num : ℕ
  pub console_num : ℕ
  pub alarm_num : ℕ
  pub gpio_num : ℕ
  pub led_num : ℕ
  pub adc_num : ℕ
  pub temperature_num : ℕ

-- The arms of `with_driver`, in order.
abbrev arms : DriverNums → List (ℕ × Driver)
arms c =
    (c.console_num, console)
    ∷ (c.alarm_num, alarm)
    ∷ (c.gpio_num, gpio)
    ∷ (c.led_num, led)
    ∷ (c.ipc_num, ipc)
    ∷ (c.adc_num, adc)
    ∷ (c.temperature_num, temperature)
    ∷ []

unfoldable pub with_driver {ℓ} : {R : Type ℓ} → DriverNums → ℕ → (Option Driver → R) → R
with_driver c n f = f (match_num (arms c) n)

-- `impl KernelResources for RaspberryPiPico`, from the fields `scheduler` and `systick`.
abbrev pub resources : {S T : Type 0} → DriverNums → S → T → KernelResources (ℕ → Option Driver) S T
resources c scheduler systick = record {
  syscall_driver_lookup = λ n. with_driver c n (λ o. o);
  syscall_filter = tt;
  process_fault = tt;
  scheduler = scheduler;
  scheduler_timer = systick;
  watchdog = tt;
}
