-- ===== src/Kernel.antt =====
-- What kernel/drivers/src/network.rs uses of the Tock kernel, which is a git submodule and not part
-- of the repository: the names of its types, and a record `Kernel` of the functions that the driver
-- calls. Every driver operation takes such a record, so nothing is fixed about the functions; what
-- the proofs rely on is stated where it is used.
use micro_morse_chat.Prelude.{ℕ, ◌≡◌, List, Option, Result, err, length}

-- `kernel::process::ProcessId`, which the driver only stores and hands on.
abbrev pub ProcessId : Type 0
ProcessId = ℕ

-- `kernel::ErrorCode`: the variants that the repository names, and all others.
pub data ErrorCode : Type 0 where
  busy size inval nosupport nomem : ErrorCode
  other : ℕ → ErrorCode

-- `kernel::process::Error`, which the driver only converts.
pub data Error : Type 0 where
  process_error : ℕ → Error

-- `ReadOnlyProcessBuffer` and `ReadWriteProcessBuffer`: handles, whose bytes the kernel knows.
pub data ReadOnlyProcessBuffer : Type 0 where
  read_only : ℕ → ReadOnlyProcessBuffer

pub data ReadWriteProcessBuffer : Type 0 where
  read_write : ℕ → ReadWriteProcessBuffer

pub data CommandReturn : Type 0 where
  success : CommandReturn
  failure : ErrorCode → CommandReturn

-- The kernel during one call of the driver.
pub record Kernel : Type 0 where
  -- `Grant::enter`: the error with which the grant of a process refuses to be entered, if it does.
  pub grant_error : ProcessId → Option Error
  -- `ReadOnlyProcessBuffer::enter`: the bytes of a buffer, or the error.
  pub read : ReadOnlyProcessBuffer → Result (List ℕ) Error
  -- `ReadWriteProcessBuffer::mut_enter`: the bytes before the closure writes, or the error.
  pub writable : ReadWriteProcessBuffer → Result (List ℕ) Error
  -- `uart.transmit_buffer` and `uart.receive_buffer`: a refusal hands a buffer back.
  pub transmit_buffer : List ℕ → ℕ → Result (Unit {0}) (ErrorCode × List ℕ)
  pub receive_buffer : List ℕ → ℕ → Result (Unit {0}) (ErrorCode × List ℕ)
  -- `From<Error> for ErrorCode`, and `into_statuscode`.
  pub into_error_code : Error → ErrorCode
  pub into_statuscode : Result (Unit {0}) ErrorCode → ℕ

-- The UART contract of the kernel: a refused buffer is handed back whole.
pub record ReturnsBuffers (k : Kernel) : Type 0 where
  pub transmit_returns :
      (b : List ℕ) (len : ℕ) (e : ErrorCode) (b' : List ℕ)
      → k.transmit_buffer b len ≡ err (e, b')
      → length b' ≡ length b
  pub receive_returns :
      (b : List ℕ) (len : ℕ) (e : ErrorCode) (b' : List ℕ)
      → k.receive_buffer b len ≡ err (e, b')
      → length b' ≡ length b
