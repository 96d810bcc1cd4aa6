-- ===== src/Board/Resources.antt =====
-- What a board gives the kernel of Tock, which is a git submodule: the trait `KernelResources` as a record
-- of what its accessors return, and the arguments of `debug::panic` that the boards choose.
use micro_morse_chat.Prelude.{ℕ, List}

-- A lookup of drivers `L`, a scheduler `S` and a timer `T`; the filter, the fault handler and the
-- watchdog of both boards are of the unit type.
pub record KernelResources (L S T : Type 0) : Type 0 where
  pub syscall_driver_lookup : L
  pub syscall_filter : Unit {0}
  pub process_fault : Unit {0}
  pub scheduler : S
  pub scheduler_timer : T
  pub watchdog : Unit {0}

-- An LED that is on while its pin is low, or while it is high.
pub data PanicLed : Type 0 where
  led_low led_high : ℕ → PanicLed

-- The LEDs and the writer; the processes and the chip are those of the board.
pub record Panic (W : Type 0) : Type 0 where
  pub leds : List PanicLed
  pub writer : W
