-- ===== src/Network/Lifecycle.antt =====
-- The driver of kernel/drivers/src/network.rs between calls: every call and every callback as one
-- step, and who owns the buffer.
use micro_morse_chat.Prelude.{
  ℕ, ◌≤◌, ◌≡◌, refl, ◌∙◌, ◌⊎◌, inl, inr, List, none, some, done, ◌>>=◌, length, Option-cases,
  Result-cases, Bool-cases, ◌==◌, >>=-eq-done, arith,
}
use micro_morse_chat.Kernel.{
  ProcessId, ErrorCode, CommandReturn, success, failure, Kernel, ReturnsBuffers,
}
use micro_morse_chat.Network.{
  NetworkState, idle, requesting, sending, Network, Reply, transmit, with_buffer, with_address,
  with_storage, request, command, returned,
}
use micro_morse_chat.Network.Shape.{Answers, sends, drops, with_buffer-Answers}

-- What a call of `command` by process `p` makes of the driver.
pub data Calls (n : Network) (p : ProcessId) (m : Network) (ret : CommandReturn) : Type 0 where
  stays : m ≡ n → Calls n p m ret
  loses :
      (b : List ℕ) (e : ErrorCode)
      → n.state ≡ idle
      → n.buffer ≡ some b
      → ret ≡ failure e
      → m ≡ record n { buffer = none }
      → Calls n p m ret
  regains :
      (b b' : List ℕ) (e : ErrorCode)
      → n.state ≡ idle
      → n.buffer ≡ some b
      → length b' ≡ length b
      → ret ≡ failure e
      → m ≡ record n { buffer = some b' }
      → Calls n p m ret
  begins :
      (b b' : List ℕ) (len : ℕ)
      → n.state ≡ idle
      → n.buffer ≡ some b
      → length b' ≡ length b
      → len ≤ length b
      → ret ≡ success
      → m ≡ record n { state = requesting p; buffer = none; uart = sending b' len }
      → Calls n p m ret

-- From the innermost closure outwards.
answered :
    (k : Kernel) (n : Network) (p : ProcessId) (b : List ℕ) {reply : Reply} {m : Network}
    {ret : CommandReturn}
    → ReturnsBuffers k
    → n.state ≡ idle
    → n.buffer ≡ some b
    → Answers k (record n { buffer = none }) p (length b) reply
    → returned reply ≡ (m, ret)
    → Calls n p m ret
unfolding transmit
answered k n p b rb is held (drops e r) h = loses b e is held (ground arith) (ground arith)
answered k n p b rb is held (sends b' len eb el r) h =
    elim (Result-cases (k.transmit_buffer b' len)) [
      | inl (u, e) ↦ begins b b' len is held eb el (ground arith) (ground arith)
      | inr ((x, back), e) ↦
          regains b back x is held (rb.transmit_returns b' len x back e ∙ eb) (ground arith)
            (ground arith)
    ]

NetworkState-cases : (s : NetworkState) → (s ≡ idle) ⊎ ((q : ProcessId) × (s ≡ requesting q))
NetworkState-cases idle = inl refl
NetworkState-cases (requesting q) = inr (q, refl)

module _ (k : Kernel) (n : Network) (r2 : ℕ) (p : ProcessId) {m : Network} {ret : CommandReturn}
    (rb : ReturnsBuffers k) (is : n.state ≡ idle) where
  with_address-Calls :
      (address : List ℕ)
      → (with_address k n r2 p address >>= λ reply. done (returned reply)) ≡ done (m, ret)
      → Calls n p m ret
  unfolding with_address
  with_address-Calls address h = elim (Option-cases n.buffer) [
    | inl empty ↦ stays (ground arith)
    | inr (b, held) ↦
        let (reply, e, r) =
          >>=-eq-done (with_buffer k (record n { buffer = none }) r2 p address b)
            (λ reply. done (returned reply)) (rw (held, with_address) at h) in
        answered k n p b rb is held
          (with_buffer-Answers k (record n { buffer = none }) r2 p address b e) (cc)
  ]

  with_storage-Calls :
      (with_storage k n r2 p >>= λ reply. done (returned reply)) ≡ done (m, ret) → Calls n p m ret
  unfolding with_storage
  with_storage-Calls h = elim (Result-cases (k.read ((n.grant_access p).address))) [
    | inl (address, e) ↦ with_address-Calls address (rw (e, with_storage) at h)
    | inr (bad, e) ↦ stays (ground arith)
  ]

request-Calls :
    (k : Kernel) (n : Network) (r2 : ℕ) (p : ProcessId) {m : Network} {ret : CommandReturn}
    → ReturnsBuffers k
    → request k n r2 p ≡ done (m, ret)
    → Calls n p m ret
unfolding request
request-Calls k n r2 p rb h = elim (NetworkState-cases n.state) [
  | inr (q, e) ↦ stays (ground arith)
  | inl is ↦ elim (Option-cases (k.grant_error p)) [
    | inr (x, e) ↦ stays (ground arith)
    | inl granted ↦ with_storage-Calls k n r2 p rb is (rw (is, granted, request) at h)
  ]
]

-- Whatever a process asks, the driver is left alone, or, if it was idle, loses its buffer or has it
-- handed back with an error, or begins a request with it.
pub command-Calls :
    (k : Kernel) (n : Network) (command_num r2 r3 : ℕ) (p : ProcessId) {m : Network}
    {ret : CommandReturn}
    → ReturnsBuffers k
    → command k n command_num r2 r3 p ≡ done (m, ret)
    → Calls n p m ret
unfolding command
command-Calls k n command_num r2 r3 p rb h = elim (Bool-cases (command_num == 0)) [
  | inl zeroth ↦ stays (ground arith)
  | inr more ↦ elim (Bool-cases (command_num == 1)) [
    | inl first ↦ request-Calls k n r2 p rb (rw (more, first) at h)
    | inr other ↦ stays (ground arith)
  ]
]
