-- ===== src/Network.antt =====
-- The network capsule, kernel/drivers/src/network.rs: its state and every operation, with the
-- branches and early returns of the source. An operation takes the kernel of the moment, and
-- returns the new state; `panic` is an index or a slice out of bounds.
pub mod Allow
pub mod Clients
pub mod Frames
pub mod Limits
pub mod Commands
pub mod Overruns
pub mod Shape
pub mod Lifecycle
pub mod Runs
pub mod Delivery
pub mod Accounting
pub mod Answers
pub mod Allowing
pub mod Wire
mod Tests
use micro_morse_chat.Prelude.{
  ℕ, ◌+◌, List, [], ◌∷◌, Option, none, some, Result, ok, err, Outcome, done, ◌>>=◌, ltb, ◌==◌,
  if◌then◌else◌, length, store, copy_at,
}
use micro_morse_chat.Kernel.{
  ProcessId, ErrorCode, busy, size, inval, nosupport, nomem, ReadOnlyProcessBuffer, read_only,
  ReadWriteProcessBuffer, read_write, CommandReturn, success, failure, Kernel,
}

abbrev pub driver_num : ℕ
driver_num = 0xa0001

abbrev pub method_size : ℕ
method_size = 5

-- `"GET  ".as_bytes()` and `"POST ".as_bytes()`.
abbrev pub get_method : List ℕ
get_method = b'G' ∷ b'E' ∷ b'T' ∷ b' ' ∷ b' ' ∷ []

abbrev pub post_method : List ℕ
post_method = b'P' ∷ b'O' ∷ b'S' ∷ b'T' ∷ b' ' ∷ []

pub data NetworkState : Type 0 where
  idle : NetworkState
  requesting : ProcessId → NetworkState

pub record AppStorage : Type 0 where
  pub address : ReadOnlyProcessBuffer
  pub data_out : ReadOnlyProcessBuffer
  pub data_in : ReadWriteProcessBuffer

-- `#[derive(Default)]`; the handle of a default process buffer is 0.
abbrev pub default_storage : AppStorage
default_storage = record { address = read_only 0; data_out = read_only 0; data_in = read_write 0 }

-- The buffer that the UART has accepted and not yet handed back, with the length asked for.
pub data Line : Type 0 where
  quiet : Line
  sending : List ℕ → ℕ → Line
  receiving : List ℕ → ℕ → Line

-- What the driver does to processes: `schedule_upcall(num, (status, len, 0))`, and the bytes that it
-- leaves in a process's buffer.
pub data Effect : Type 0 where
  upcall : ProcessId → ℕ → ℕ → ℕ → Effect
  wrote : ReadWriteProcessBuffer → List ℕ → Effect

-- `struct Network`; a `TakeCell` holds a buffer or nothing. The last two fields are no fields of the
-- source: they record what the driver has handed to the UART and done to processes, newest first.
pub record Network : Type 0 where
  pub grant_access : ProcessId → AppStorage
  pub state : NetworkState
  pub buffer : Option (List ℕ)
  pub uart : Line
  pub effects : List Effect

unfoldable pub new : List ℕ → Network
new buffer = record {
  grant_access = λ _. default_storage;
  state = idle;
  buffer = some buffer;
  uart = quiet;
  effects = [];
}

abbrev pub Reply : Type 0
Reply = Network × Result (Unit {0}) ErrorCode

-- The call of `transmit_buffer` and both arms of its match, which stand twice in `command`.
pub transmit : Kernel → Network → ProcessId → List ℕ → ℕ → Reply
transmit k n process_id buffer len = elim (k.transmit_buffer buffer len) [
  | err (error, returned) ↦ (record n { buffer = some returned }, err error)
  | ok _ ↦ (record n { state = requesting process_id; uart = sending buffer len }, ok tt)
]

-- The branch `r2 == 0`.
pub send_get : Kernel → Network → ProcessId → List ℕ → List ℕ → Outcome Reply
send_get k n process_id address buffer = do
  b ← copy_at buffer 0 get_method
  b' ← store b (method_size + length address) b'\n'
  done (transmit k n process_id b' (method_size + length address + 1))

-- The closure of `data_out.enter`.
pub fill_post : Kernel → Network → ProcessId → List ℕ → List ℕ → List ℕ → Outcome Reply
fill_post k n process_id address buffer data_out =
    let start_idx = method_size + length address + 1 in
    let end_idx = start_idx + length data_out in
    if ltb (length buffer + 1) end_idx then done (n, err inval) else do
      b ← copy_at buffer start_idx data_out
      b' ← copy_at b 0 post_method
      b'' ← store b' end_idx b'\n'
      done (transmit k n process_id b'' (end_idx + 1))

-- The branch `r2 > 0`. An error drops the closure, and with it the buffer that was moved in.
pub send_post : Kernel → Network → ProcessId → List ℕ → List ℕ → Outcome Reply
send_post k n process_id address buffer = elim (k.read ((n.grant_access process_id).data_out)) [
  | err e ↦ done (n, err (k.into_error_code e))
  | ok data_out ↦ fill_post k n process_id address buffer data_out
]

-- The closure of `address.enter` once `self.buffer.take()` has given `buffer`: `n` holds none.
pub with_buffer : Kernel → Network → ℕ → ProcessId → List ℕ → List ℕ → Outcome Reply
with_buffer k n r2 process_id address buffer =
    if ltb (length buffer) (length address + method_size) then done (n, err size) else do
      b ← copy_at buffer method_size address
      b' ← store b (method_size + length address) b' '
      if ltb 0 r2 then send_post k n process_id address b' else send_get k n process_id address b'

-- The closure of `address.enter`.
pub with_address : Kernel → Network → ℕ → ProcessId → List ℕ → Outcome Reply
with_address k n r2 process_id address = elim (n.buffer) [
  | none ↦ done (n, err nomem)
  | some buffer ↦ with_buffer k (record n { buffer = none }) r2 process_id address buffer
]

-- The closure of `grant_access.enter`.
pub with_storage : Kernel → Network → ℕ → ProcessId → Outcome Reply
with_storage k n r2 process_id = elim (k.read ((n.grant_access process_id).address)) [
  | err e ↦ done (n, err (k.into_error_code e))
  | ok address ↦ with_address k n r2 process_id address
]

-- The last match of the command: a result becomes a `CommandReturn`.
abbrev pub returned : Reply → Network × CommandReturn
returned (n, ok _) = (n, success)
returned (n, err e) = (n, failure e)

-- `command_num == 1`.
pub request : Kernel → Network → ℕ → ProcessId → Outcome (Network × CommandReturn)
request k n r2 process_id = elim (n.state) [
  | requesting _ ↦ done (n, failure busy)
  | idle ↦ elim (k.grant_error process_id) [
    | some e ↦ done (n, failure (k.into_error_code e))
    | none ↦ do reply ← with_storage k n r2 process_id; done (returned reply)
  ]
]

pub command : Kernel → Network → ℕ → ℕ → ℕ → ProcessId → Outcome (Network × CommandReturn)
command k n command_num r2 r3 process_id =
    if command_num == 0
    then done (n, success)
    else if command_num == 1
    then request k n r2 process_id
    else done (n, failure nosupport)
