-- ===== src/Network/Runs.antt =====
-- Runs of the driver of kernel/drivers/src/network.rs: any calls of any processes and the UART's
-- callbacks, in any order, each under a kernel of its own.
use micro_morse_chat.Prelude.{
  ℕ, ◌≤◌, ◌≡◌, refl, ◌⊎◌, inl, inr, List, Option, none, some, Result, ok, err, done, length,
  Result-cases, arith,
}
use micro_morse_chat.Kernel.{
  ProcessId, ErrorCode, ReadOnlyProcessBuffer, ReadWriteProcessBuffer, CommandReturn, Kernel,
  ReturnsBuffers,
}
use micro_morse_chat.Network.{
  NetworkState, idle, requesting, Line, quiet, sending, receiving, Network, command, new,
}
use micro_morse_chat.Network.Allow.{allow_readonly, allow_readwrite, allocate_grant}
use micro_morse_chat.Network.Clients.{receive_len, abort, transmitted_buffer, received_buffer}
use micro_morse_chat.Network.Lifecycle.{Calls, stays, loses, regains, begins, command-Calls}

-- The buffer is off the line: what the UART does just before it calls back.
abbrev pub released : Network → Network
released n = record n { uart = quiet }

-- One call or callback. The UART hands back a buffer of the length that it was given, and receives
-- no more than it was asked for.
pub data Step (n m : Network) : Type 0 where
  calls :
      (k : Kernel) (command_num r2 r3 : ℕ) (p : ProcessId) (ret : CommandReturn)
      → ReturnsBuffers k
      → command k n command_num r2 r3 p ≡ done (m, ret)
      → Step n m
  allows_read :
      (k : Kernel) (p : ProcessId) (allow_num : ℕ) (b : ReadOnlyProcessBuffer)
      → m ≡ (allow_readonly k n p allow_num b).0
      → Step n m
  allows_write :
      (k : Kernel) (p : ProcessId) (allow_num : ℕ) (b : ReadWriteProcessBuffer)
      → m ≡ (allow_readwrite k n p allow_num b).0
      → Step n m
  allocates : (k : Kernel) (p : ProcessId) → m ≡ (allocate_grant k n p).0 → Step n m
  transmitted :
      (k : Kernel) (b b' : List ℕ) (len tx_len : ℕ) (rval : Result (Unit {0}) ErrorCode)
      → ReturnsBuffers k
      → n.uart ≡ sending b len
      → length b' ≡ length b
      → m ≡ transmitted_buffer k (released n) b' tx_len rval
      → Step n m
  received :
      (k : Kernel) (b b' : List ℕ) (len rx_len : ℕ) (rval : Result (Unit {0}) ErrorCode)
      → n.uart ≡ receiving b len
      → length b' ≡ length b
      → rx_len ≤ len
      → received_buffer k (released n) b' rx_len rval ≡ done m
      → Step n m

pub data Reach (n : Network) : Network → Type 0 where
  here : Reach n n
  next : {m l : Network} → Reach n m → Step m l → Reach n l

-- One owner of a buffer of `size` bytes: the driver while it is idle, the UART while a request is
-- under way. An idle driver may also have lost it.
abbrev pub Owned : ℕ → NetworkState → Option (List ℕ) → Line → Type 0
Owned size idle (some b) quiet = length b ≡ size
Owned size idle none quiet = Unit
Owned size (requesting p) none (sending b len) = (length b ≡ size) × (len ≤ size)
Owned size (requesting p) none (receiving b len) = (length b ≡ size) × (len ≡ receive_len)
Owned size _ _ _ = ⊥

abbrev pub IsOwned : ℕ → Network → Type 0
IsOwned size n = Owned size n.state n.buffer n.uart

pub new-IsOwned : (b : List ℕ) → IsOwned (length b) (new b)
unfolding new
new-IsOwned b = refl

Calls-IsOwned :
    (size : ℕ) {n : Network} {p : ProcessId} {m : Network} {ret : CommandReturn}
    → Calls n p m ret
    → IsOwned size n
    → IsOwned size m
Calls-IsOwned size (stays e) h = rw e h
Calls-IsOwned size (loses b x is held r e) h = ground arith
Calls-IsOwned size (regains b b' x is held l r e) h = ground arith
Calls-IsOwned size (begins b b' len is held l le r e) h = ground arith

-- The allow calls and the allocation leave the state, the buffer, the line and the effects alone.
pub record Quiet (n m : Network) : Type 0 where
  pub same_state : m.state ≡ n.state
  pub same_buffer : m.buffer ≡ n.buffer
  pub same_uart : m.uart ≡ n.uart
  pub same_effects : m.effects ≡ n.effects

pub allow_readonly-Quiet :
    (k : Kernel) (n : Network) (p : ProcessId) (allow_num : ℕ) (b : ReadOnlyProcessBuffer)
    → Quiet n (allow_readonly k n p allow_num b).0
unfolding allow_readonly
allow_readonly-Quiet k n p allow_num b = ground arith

pub allow_readwrite-Quiet :
    (k : Kernel) (n : Network) (p : ProcessId) (allow_num : ℕ) (b : ReadWriteProcessBuffer)
    → Quiet n (allow_readwrite k n p allow_num b).0
unfolding allow_readwrite
allow_readwrite-Quiet k n p allow_num b = ground arith

pub allocate_grant-Quiet :
    (k : Kernel) (n : Network) (p : ProcessId) → Quiet n (allocate_grant k n p).0
unfolding allocate_grant
allocate_grant-Quiet k n p = ground arith

Quiet-IsOwned : (size : ℕ) {n m : Network} → Quiet n m → IsOwned size n → IsOwned size m
Quiet-IsOwned size {n} {m} q h = rw (q.same_state, q.same_buffer, q.same_uart) h

-- A callback that ends the request: the driver is idle and has its buffer back.
pub record Ended (m : Network) (b : List ℕ) : Type 0 where
  pub now_idle : m.state ≡ idle
  pub has_buffer : m.buffer ≡ some b
  pub off_line : m.uart ≡ quiet

abort-Ended :
    (k : Kernel) (n : Network) (b : List ℕ) (e : ErrorCode) → Ended (abort k (released n) b e) b
unfolding abort
abort-Ended k n b e = ground arith

-- After a transmission the same buffer waits for the reply, or the request has ended.
pub transmitted_buffer-cases :
    (k : Kernel) (n : Network) (b : List ℕ) (tx_len : ℕ) (rval : Result (Unit {0}) ErrorCode)
    → ReturnsBuffers k
    → (transmitted_buffer k (released n) b tx_len rval
        ≡ record n { uart = receiving b receive_len })
      ⊎ ((back : List ℕ) × (length back ≡ length b)
          × Ended (transmitted_buffer k (released n) b tx_len rval) back)
unfolding transmitted_buffer
transmitted_buffer-cases k n b tx_len (err e) rb = inr (b, refl, abort-Ended k n b e)
transmitted_buffer-cases k n b tx_len (ok u) rb =
    elim (Result-cases (k.receive_buffer b receive_len)) [
      | inl (v, e) ↦ inl (ground arith)
      | inr ((x, back), e) ↦ inr (back, rb.receive_returns b receive_len x back e, ground arith)
    ]

pub received_buffer-Ended :
    (k : Kernel) (n m : Network) (b : List ℕ) (rx_len : ℕ) (rval : Result (Unit {0}) ErrorCode)
    → received_buffer k (released n) b rx_len rval ≡ done m
    → Ended m b
unfolding received_buffer
received_buffer-Ended k n m b rx_len rval h = ground arith

-- One step keeps the one owner.
Step-IsOwned : (size : ℕ) {n m : Network} → Step n m → IsOwned size n → IsOwned size m
Step-IsOwned size (calls k num r2 r3 p ret rb e) h =
    Calls-IsOwned size (command-Calls k _ num r2 r3 p rb e) h
Step-IsOwned size {n} {m} (allows_read k p num b e) h =
    Quiet-IsOwned size {n = n} {m = m} (rw e (allow_readonly-Quiet k n p num b)) h
Step-IsOwned size {n} {m} (allows_write k p num b e) h =
    Quiet-IsOwned size {n = n} {m = m} (rw e (allow_readwrite-Quiet k n p num b)) h
Step-IsOwned size {n} {m} (allocates k p e) h =
    Quiet-IsOwned size {n = n} {m = m} (rw e (allocate_grant-Quiet k n p)) h
Step-IsOwned size {n} (transmitted k b b' len tx_len rval rb line l e) h =
    elim (transmitted_buffer-cases k n b' tx_len rval rb) [
      | inl waits ↦ rw (e, waits) (ground arith)
      | inr (back, same, ended) ↦ rw e (ground arith)
    ]
Step-IsOwned size {n} {m} (received k b b' len rx_len rval line l le e) h =
    let ended = received_buffer-Ended k n m b' rx_len rval e in ground arith

-- In every run from a new driver, exactly one of driver and UART holds the buffer that `new` was
-- given, at its full length: the driver while it is idle, unless the buffer was dropped, and the UART
-- while a request is under way, which transmits no more bytes than the buffer has.
pub Reach-IsOwned : (b : List ℕ) {n : Network} → Reach (new b) n → IsOwned (length b) n
Reach-IsOwned b here = new-IsOwned b
Reach-IsOwned b (next r s) = Step-IsOwned (length b) s (Reach-IsOwned b r)

-- A driver that is idle, without its buffer, and with nothing on the line.
pub record IsLost (n : Network) : Type 0 where
  pub lost_idle : n.state ≡ idle
  pub lost_buffer : n.buffer ≡ none
  pub lost_line : n.uart ≡ quiet

Calls-IsLost :
    {n : Network} {p : ProcessId} {m : Network} {ret : CommandReturn}
    → Calls n p m ret
    → IsLost n
    → IsLost m
Calls-IsLost (stays e) h = rw e h
Calls-IsLost (loses b x is held r e) h = absurd (ground arith)
Calls-IsLost (regains b b' x is held l r e) h = absurd (ground arith)
Calls-IsLost (begins b b' len is held l le r e) h = absurd (ground arith)

Quiet-IsLost : {n m : Network} → Quiet n m → IsLost n → IsLost m
Quiet-IsLost q h = ground arith

Step-IsLost : {n m : Network} → Step n m → IsLost n → IsLost m
Step-IsLost (calls k num r2 r3 p ret rb e) h = Calls-IsLost (command-Calls k _ num r2 r3 p rb e) h
Step-IsLost {n} (allows_read k p num b e) h =
    Quiet-IsLost (rw e (allow_readonly-Quiet k n p num b)) h
Step-IsLost {n} (allows_write k p num b e) h =
    Quiet-IsLost (rw e (allow_readwrite-Quiet k n p num b)) h
Step-IsLost {n} (allocates k p e) h = Quiet-IsLost (rw e (allocate_grant-Quiet k n p)) h
Step-IsLost (transmitted k b b' len tx_len rval rb line l e) h = absurd (ground arith)
Step-IsLost (received k b b' len rx_len rval line l le e) h = absurd (ground arith)

-- A lost buffer never comes back, whatever happens.
pub Reach-IsLost : {n m : Network} → IsLost n → Reach n m → IsLost m
Reach-IsLost h here = h
Reach-IsLost h (next r s) = Step-IsLost s (Reach-IsLost h r)
