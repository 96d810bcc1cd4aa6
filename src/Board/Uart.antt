-- ===== src/Board/Uart.antt =====
-- The parameters of a UART as both io.rs files write them: the kernel's types, with the variants that
-- the repository names.
use micro_morse_chat.Prelude.{ℕ, Bool, false, List, [], ◌∷◌, ◌++◌}

pub data StopBits : Type 0 where
  stop_one : StopBits

pub data Parity : Type 0 where
  parity_none : Parity

pub data Width : Type 0 where
  width_eight : Width

pub record Parameters : Type 0 where
  pub baud_rate : ℕ
  pub stop_bits : StopBits
  pub parity : Parity
  pub hw_flow_control : Bool
  pub width : Width

-- The literal of both files.
abbrev pub panic_parameters : Parameters
panic_parameters = record {
  baud_rate = 115200;
  stop_bits = stop_one;
  parity = parity_none;
  hw_flow_control = false;
  width = width_eight;
}

abbrev pub concat {ℓ} : {A : Type ℓ} → List (List A) → List A
concat [] = []
concat (xs ∷ xss) = xs ++ concat xss
