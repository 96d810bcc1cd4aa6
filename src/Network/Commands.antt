-- ===== src/Network/Commands.antt =====
-- `command` of kernel/drivers/src/network.rs, call by call: what is accepted, what is refused, what
-- panics and what each outcome leaves behind.
use micro_morse_chat.Prelude.{
  ℕ, ◌+◌, ◌<◌, ◌≤◌, ◌≡◌, ◌∙◌, ap, List, none, some, ok, err, done, ◌>>=◌, length, overlay, arith,
}
use micro_morse_chat.Kernel.{
  ProcessId, ErrorCode, busy, size, inval, Error, success, failure, Kernel,
}
use micro_morse_chat.Network.{
  method_size, idle, requesting, sending, Network, transmit, with_buffer, with_address,
  with_storage, request, command, returned,
}
use micro_morse_chat.Network.Frames.{
  get_frame, post_frame, length-get_frame, length-post_frame, with_buffer-get, with_buffer-post,
}
use micro_morse_chat.Network.Limits.{with_buffer-size, with_buffer-inval, with_buffer-unreadable}

-- The line that a request of process `p` asks for: GET without a payload, POST with the bytes of
-- the payload buffer.
pub data Composes (k : Kernel) (n : Network) (r2 : ℕ) (p : ProcessId) (address frame : List ℕ)
    : Type 0 where
  get : r2 ≡ 0 → frame ≡ get_frame address → Composes k n r2 p address frame
  post :
      (data_out : List ℕ)
      → 0 < r2
      → k.read ((n.grant_access p).data_out) ≡ ok data_out
      → frame ≡ post_frame address data_out
      → Composes k n r2 p address frame

-- The driver is idle with its buffer, and the process has a readable address.
pub record IsReady (k : Kernel) (n : Network) (p : ProcessId) (address buffer : List ℕ)
    : Type 0 where
  pub is_idle : n.state ≡ idle
  pub granted : k.grant_error p ≡ none
  pub addressed : k.read ((n.grant_access p).address) ≡ ok address
  pub held : n.buffer ≡ some buffer

abbrev pub taken : Network → Network
taken n = record n { buffer = none }

-- Such a request reaches the innermost closure with the buffer taken out.
pub command-IsReady :
    (k : Kernel) (n : Network) (r2 r3 : ℕ) (p : ProcessId) (address buffer : List ℕ)
    → IsReady k n p address buffer
    → command k n 1 r2 r3 p
      ≡ (with_buffer k (taken n) r2 p address buffer >>= λ reply. done (returned reply))
unfolding command request with_storage with_address
command-IsReady k n r2 r3 p address buffer h = ground arith

-- While a request of some process is under way, a request is refused with BUSY and changes nothing.
pub command_busy :
    (k : Kernel) (n : Network) (r2 r3 : ℕ) (p q : ProcessId)
    → n.state ≡ requesting q
    → command k n 1 r2 r3 p ≡ done (n, failure busy)
unfolding command request
command_busy k n r2 r3 p q h = ground arith

pub taken-Composes :
    (k : Kernel) (n : Network) (r2 : ℕ) (p : ProcessId) (address frame : List ℕ)
    → Composes k n r2 p address frame
    → Composes k (taken n) r2 p address frame
taken-Composes k n r2 p address frame (get e f) = get e f
taken-Composes k n r2 p address frame (post d pos reads f) = post d pos reads f

pub with_buffer-Composes :
    (k : Kernel) (n : Network) (r2 : ℕ) (p : ProcessId) (address frame buffer : List ℕ)
    → Composes k n r2 p address frame
    → length frame ≤ length buffer
    → with_buffer k n r2 p address buffer
      ≡ done (transmit k n p (overlay frame buffer) (length frame))
with_buffer-Composes k n r2 p address frame buffer (get e f) h =
    rw (e, f)
      (with_buffer-get k n p address buffer (omega (arith, ap length f, length-get_frame address)))
with_buffer-Composes k n r2 p address frame buffer (post d pos reads f) h = rw f (
    with_buffer-post k n r2 p address buffer d pos reads
      (omega (arith, ap length f, length-post_frame address d)))

module _ (k : Kernel) (n : Network) (r2 r3 : ℕ) (p : ProcessId) (address frame buffer : List ℕ)
    (ready : IsReady k n p address buffer) (line : Composes k n r2 p address frame)
    (fits : length frame ≤ length buffer) where
  -- A request whose line fits, and that the UART accepts, succeeds: the UART gets a buffer that
  -- begins with the line and the length of the line, the driver waits for the process and holds no
  -- buffer, and nothing else changes.
  pub command-accepted :
      k.transmit_buffer (overlay frame buffer) (length frame) ≡ ok tt
      → command k n 1 r2 r3 p
        ≡ done (
          record n {
            state = requesting p;
            buffer = none;
            uart = sending (overlay frame buffer) (length frame);
          },
          success,
        )
  unfolding transmit
  command-accepted accepted =
      command-IsReady k n r2 r3 p address buffer ready
      ∙ ap (λ o. o >>= λ reply. done (returned reply))
          (with_buffer-Composes k (taken n) r2 p address frame buffer
            (taken-Composes k n r2 p address frame line) fits)
      ∙ ground arith

  -- Where the UART refuses it, the driver stays idle, keeps the buffer that the UART hands back, and
  -- the command fails with the UART's error.
  pub command-refused :
      (e : ErrorCode) (back : List ℕ)
      → k.transmit_buffer (overlay frame buffer) (length frame) ≡ err (e, back)
      → command k n 1 r2 r3 p ≡ done (record n { buffer = some back }, failure e)
  unfolding transmit
  command-refused e back refused =
      command-IsReady k n r2 r3 p address buffer ready
      ∙ ap (λ o. o >>= λ reply. done (returned reply))
          (with_buffer-Composes k (taken n) r2 p address frame buffer
            (taken-Composes k n r2 p address frame line) fits)
      ∙ ground arith

-- The requests whose error drops the buffer that the driver had taken.
pub data Drops (k : Kernel) (n : Network) (r2 : ℕ) (p : ProcessId) (address buffer : List ℕ)
    : ErrorCode → Type 0 where
  long_address : length buffer < length address + method_size → Drops k n r2 p address buffer size
  unreadable :
      {e : Error} {code : ErrorCode}
      → 0 < r2
      → method_size + length address < length buffer
      → k.read ((n.grant_access p).data_out) ≡ err e
      → code ≡ k.into_error_code e
      → Drops k n r2 p address buffer code
  long_data :
      (data_out : List ℕ)
      → 0 < r2
      → method_size + length address < length buffer
      → k.read ((n.grant_access p).data_out) ≡ ok data_out
      → length buffer + 1 < method_size + length address + 1 + length data_out
      → Drops k n r2 p address buffer inval

with_buffer-Drops :
    (k : Kernel) (n : Network) (r2 : ℕ) (p : ProcessId) (address buffer : List ℕ) {e : ErrorCode}
    → Drops k n r2 p address buffer e
    → with_buffer k n r2 p address buffer ≡ done (n, err e)
with_buffer-Drops k n r2 p address buffer (long_address h) =
    with_buffer-size k n r2 p address buffer h
with_buffer-Drops k n r2 p address buffer (unreadable {e = e} pos room bad code) =
    with_buffer-unreadable k n r2 p address buffer pos room e bad ∙ rw code
with_buffer-Drops k n r2 p address buffer (long_data d pos room reads h) =
    with_buffer-inval k n r2 p address buffer d pos reads room h

taken-Drops :
    (k : Kernel) (n : Network) (r2 : ℕ) (p : ProcessId) (address buffer : List ℕ) {e : ErrorCode}
    → Drops k n r2 p address buffer e
    → Drops k (taken n) r2 p address buffer e
taken-Drops k n r2 p address buffer (long_address h) = long_address h
taken-Drops k n r2 p address buffer (unreadable pos room bad code) = unreadable pos room bad code
taken-Drops k n r2 p address buffer (long_data d pos room reads h) = long_data d pos room reads h

-- A request of a ready driver with an address that does not fit the buffer behind the method; or a POST
-- whose address leaves room behind it, with a payload that is unreadable or too long for the guard: it
-- fails with that error and leaves the driver idle without its buffer.
pub command-Drops :
    (k : Kernel) (n : Network) (r2 r3 : ℕ) (p : ProcessId) (address buffer : List ℕ) {e : ErrorCode}
    → IsReady k n p address buffer
    → Drops k n r2 p address buffer e
    → command k n 1 r2 r3 p ≡ done (record n { buffer = none }, failure e)
command-Drops k n r2 r3 p address buffer ready drops =
    command-IsReady k n r2 r3 p address buffer ready
    ∙ ap (λ o. o >>= λ reply. done (returned reply))
        (with_buffer-Drops k (taken n) r2 p address buffer
          (taken-Drops k n r2 p address buffer drops))
