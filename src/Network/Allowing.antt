-- ===== src/Network/Allowing.antt =====
-- The contract of the allow calls of kernel/drivers/src/network.rs: a process swaps its own buffers.
use micro_morse_chat.Prelude.{ℕ, ◌≡◌, ◌≢◌, none, some, ok, err, ltb, if◌then◌else◌, ◌<◌, arith}
use micro_morse_chat.Kernel.{
  ProcessId, nosupport, Error, ReadOnlyProcessBuffer, ReadWriteProcessBuffer, Kernel,
}
use micro_morse_chat.Network.{Network}
use micro_morse_chat.Network.Allow.{allow_readonly, allow_readwrite}

module _ (k : Kernel) (n : Network) (p : ProcessId) (granted : k.grant_error p ≡ none) where
  -- Of two calls on one of the two read-only slots, the second hands back what the first put there.
  pub allow_readonly_twice :
      (allow_num : ℕ) (b b' : ReadOnlyProcessBuffer)
      → allow_num < 2
      → (allow_readonly k (allow_readonly k n p allow_num b).0 p allow_num b').1 ≡ ok b
  unfolding allow_readonly
  allow_readonly_twice allow_num b b' h = ground arith

  -- The address, the payload and the reply buffer are three slots: each call changes its own, and
  -- gives back what stood there.
  pub allow_slots :
      (a d : ReadOnlyProcessBuffer) (w : ReadWriteProcessBuffer)
      → let first = allow_readonly k n p 0 a in
        let second = allow_readonly k first.0 p 1 d in
        let third = allow_readwrite k second.0 p 0 w in
        (third.0.grant_access p ≡ record { address = a; data_out = d; data_in = w })
        × (first.1 ≡ ok ((n.grant_access p).address))
        × (second.1 ≡ ok ((n.grant_access p).data_out))
        × (third.1 ≡ ok ((n.grant_access p).data_in))
  unfolding allow_readonly allow_readwrite
  allow_slots a d w = ground arith

-- No allow call of one process changes what another has allowed.
pub allow_others :
    (k : Kernel) (n : Network) (p q : ProcessId) (allow_num : ℕ) (b : ReadOnlyProcessBuffer)
    (w : ReadWriteProcessBuffer)
    → p ≢ q
    → ((allow_readonly k n p allow_num b).0.grant_access q ≡ n.grant_access q)
      × ((allow_readwrite k n p allow_num w).0.grant_access q ≡ n.grant_access q)
unfolding allow_readonly allow_readwrite
allow_others k n p q allow_num b w ne = ground arith

-- For a process whose grant cannot be entered both allow calls change nothing and hand back the buffer
-- that they were given, with the kernel's error on a slot that exists and NOSUPPORT on any other.
pub allow_refused :
    (k : Kernel) (n : Network) (p : ProcessId) (allow_num : ℕ) (b : ReadOnlyProcessBuffer)
    (w : ReadWriteProcessBuffer) (e : Error)
    → k.grant_error p ≡ some e
    → (allow_readonly k n p allow_num b
        ≡ (n, err (b, if ltb allow_num 2 then k.into_error_code e else nosupport)))
      × (allow_readwrite k n p allow_num w
          ≡ (n, err (w, if ltb allow_num 1 then k.into_error_code e else nosupport)))
unfolding allow_readonly allow_readwrite
allow_refused k n p allow_num b w e refused = ground arith
