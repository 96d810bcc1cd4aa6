-- ===== src/Network/Accounting.antt =====
-- Requests and upcalls of kernel/drivers/src/network.rs over whole runs, and the driver that has lost
-- its buffer.
use micro_morse_chat.Prelude.{
  ℕ, suc, ◌+◌, ◌≤◌, ◌≡◌, inl, inr, List, [], ◌∷◌, Result, ok, err, done, Option-cases, Result-cases,
  arith,
}
use micro_morse_chat.Kernel.{ProcessId, ErrorCode, nomem, CommandReturn, failure, Kernel}
use micro_morse_chat.Network.{
  NetworkState, idle, requesting, Effect, upcall, wrote, Network, command, request, with_storage,
  with_address,
}
use micro_morse_chat.Network.Clients.{transmitted_buffer, received_buffer, abort}
use micro_morse_chat.Network.Lifecycle.{Calls, stays, loses, regains, begins, command-Calls}
use micro_morse_chat.Network.Runs.{
  released, Step, calls, allows_read, allows_write, allocates, transmitted, received, Reach, IsLost,
  Reach-IsLost, Quiet, allow_readonly-Quiet, allow_readwrite-Quiet, allocate_grant-Quiet,
}

-- How many upcalls have been scheduled.
abbrev pub upcalls : List Effect → ℕ
upcalls [] = 0
upcalls (upcall p num status len ∷ es) = suc (upcalls es)
upcalls (wrote b bytes ∷ es) = upcalls es

-- The request that is under way.
abbrev pub pending : NetworkState → ℕ
pending idle = 0
pending (requesting p) = 1

-- Whether a step has begun a request.
abbrev pub begun : NetworkState → NetworkState → ℕ
begun idle (requesting p) = 1
begun _ _ = 0

-- A run that counts the requests begun.
pub data Run (n : Network) : ℕ → Network → Type 0 where
  start : Run n 0 n
  more :
      {c d : ℕ} {m l : Network} → Run n c m → Step m l → d ≡ c + begun m.state l.state → Run n d l

abbrev IsCounted : Network → Network → Type 0
IsCounted n m =
    upcalls m.effects + pending m.state
    ≤ upcalls n.effects + pending n.state + begun n.state m.state

Calls-IsCounted :
    {n : Network} {p : ProcessId} {m : Network} {ret : CommandReturn}
    → Calls n p m ret
    → IsCounted n m
Calls-IsCounted (stays e) = ground arith
Calls-IsCounted (loses b x is held r e) = ground arith
Calls-IsCounted (regains b b' x is held l r e) = ground arith
Calls-IsCounted (begins b b' len is held l le r e) = ground arith

Quiet-IsCounted : {n m : Network} → Quiet n m → IsCounted n m
Quiet-IsCounted q = ground arith

abort-IsCounted :
    (k : Kernel) (n : Network) (b : List ℕ) (e : ErrorCode) → IsCounted n (abort k (released n) b e)
unfolding abort
abort-IsCounted k n b e = ground arith

transmitted_buffer-IsCounted :
    (k : Kernel) (n : Network) (b : List ℕ) (tx_len : ℕ) (rval : Result (Unit {0}) ErrorCode)
    → IsCounted n (transmitted_buffer k (released n) b tx_len rval)
unfolding transmitted_buffer
transmitted_buffer-IsCounted k n b tx_len (err e) = ground arith
transmitted_buffer-IsCounted k n b tx_len (ok u) = ground arith

received_buffer-IsCounted :
    (k : Kernel) (n m : Network) (b : List ℕ) (rx_len : ℕ) (rval : Result (Unit {0}) ErrorCode)
    → received_buffer k (released n) b rx_len rval ≡ done m
    → IsCounted n m
unfolding received_buffer
received_buffer-IsCounted k n m b rx_len rval h = ground arith

Step-IsCounted : {n m : Network} → Step n m → IsCounted n m
Step-IsCounted (calls k num r2 r3 p ret rb e) = Calls-IsCounted (command-Calls k _ num r2 r3 p rb e)
Step-IsCounted {n} (allows_read k p num b e) =
    rw e (Quiet-IsCounted (allow_readonly-Quiet k n p num b))
Step-IsCounted {n} (allows_write k p num b e) =
    rw e (Quiet-IsCounted (allow_readwrite-Quiet k n p num b))
Step-IsCounted {n} (allocates k p e) = rw e (Quiet-IsCounted (allocate_grant-Quiet k n p))
Step-IsCounted {n} (transmitted k b b' len tx_len rval rb line l e) =
    rw e (transmitted_buffer-IsCounted k n b' tx_len rval)
Step-IsCounted {n} {m} (received k b b' len rx_len rval line l le e) =
    received_buffer-IsCounted k n m b' rx_len rval e

-- In every run the upcalls scheduled and the request under way are no more than the requests begun,
-- plus those at the start: no request is ever answered twice.
pub Run-upcalls :
    {n m : Network} {c : ℕ}
    → Run n c m
    → upcalls m.effects + pending m.state ≤ upcalls n.effects + pending n.state + c
Run-upcalls start = omega arith
Run-upcalls (more r s e) = omega (arith, Run-upcalls r, Step-IsCounted s)

-- A driver without its buffer refuses every request, and stays as it is.
command-IsLost :
    (k : Kernel) (n : Network) (r2 r3 : ℕ) (p : ProcessId)
    → IsLost n
    → (e : ErrorCode) × (command k n 1 r2 r3 p ≡ done (n, failure e))
unfolding command request with_storage with_address
command-IsLost k n r2 r3 p h = elim (Option-cases (k.grant_error p)) [
  | inr (x, e) ↦ (k.into_error_code x, ground arith)
  | inl granted ↦ elim (Result-cases (k.read ((n.grant_access p).address))) [
    | inr (x, e) ↦ (k.into_error_code x, ground arith)
    | inl (address, e) ↦ (nomem, ground arith)
  ]
]

-- Once the driver has lost its buffer, no later request of any process succeeds, after any calls and
-- callbacks: each fails and changes nothing.
pub lost_forever :
    {n m : Network} (k : Kernel) (r2 r3 : ℕ) (p : ProcessId)
    → IsLost n
    → Reach n m
    → (e : ErrorCode) × (command k m 1 r2 r3 p ≡ done (m, failure e))
lost_forever {m = m} k r2 r3 p h r = command-IsLost k m r2 r3 p (Reach-IsLost h r)
