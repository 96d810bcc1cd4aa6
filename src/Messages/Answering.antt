-- ===== src/Messages/Answering.antt =====
-- The steps of a GET between applications/drivers/network.c and kernel/drivers/src/network.rs: sharing the
-- buffers, the answer of the UART, and withdrawing the buffers.
use micro_morse_chat.Prelude.{
  ℕ, ◌≤◌, ◌<◌, ◌≡◌, ap, true, List, [], ◌∷◌, ◌++◌, Option, none, some, ok, done, length, overlay,
  drop, length-append, take-append, lt→ltb, arith,
}
use micro_morse_chat.Kernel.{ProcessId, ReadOnlyProcessBuffer, ReadWriteProcessBuffer, Kernel}
use micro_morse_chat.Network.{Network, idle, requesting, sending, receiving, upcall, wrote}
use micro_morse_chat.Network.Allow.{swap_address, swap_data_in, allow_readonly, allow_readwrite}
use micro_morse_chat.Network.Clients.{receive_len, transmitted_buffer, received_buffer}
use micro_morse_chat.Network.Commands.{IsReady}
use micro_morse_chat.Network.Delivery.{received_buffer-delivers}
use micro_morse_chat.UserDriver.{Libtock, unallow_ro, unallow_rw}
use micro_morse_chat.Messages.Wiring.{
  Board, allowed, on_capsule, with_arrays, Undisturbed, Undisturbed-trans, allowed-some,
  allow_readonly-Undisturbed, allow_readwrite-Undisturbed,
}

-- The kernel around the capsule: `calloc` has memory for the array `a`, the kernel takes the upcall, and
-- a wait ends once the UART has transmitted its buffer and received `answer`, which is no longer than
-- what the capsule asks the UART for.
pub record Responds (k : Kernel) (a : ℕ) (answer : List ℕ) (base : Libtock Board) : Type 0 where
  pub is_short : length answer ≤ receive_len
  pub allocates : (n : Network) (len : ℕ) → base.calloc (some n) len ≡ (some n, some a)
  pub subscribes :
      (n : Network) → base.subscribe (some n) 0 (some base.done_address) ≡ (some n, true)
  pub waits :
      (m m' : Network) (b : List ℕ) (len : ℕ)
      → m.uart ≡ sending b len
      → received_buffer k
          (transmitted_buffer k m b len (ok tt))
          (overlay answer b)
          (length answer)
          (ok tt)
        ≡ done m'
      → base.yield_for (some m) ≡ some (some m')

module _ (k : Kernel) (p : ProcessId) (handle : Option (List ℕ) → ReadOnlyProcessBuffer)
    (slot : Option ℕ → ReadWriteProcessBuffer) (base : Libtock Board) where
  abbrev pub wired : Libtock Board
  wired = with_arrays k p slot (on_capsule k p handle base)

  pub unallow_rw-Undisturbed :
      (a : ℕ) (n : Network)
      → (n' : Network) × (unallow_rw wired a (some n) ≡ some (some n', some a)) × Undisturbed n n'
  unfolding unallow_rw unallow_ro
  unallow_rw-Undisturbed a n =
      let first = allow_readwrite k n p 0 (slot none) in
      let second = allow_readonly k first.0 p 0 (handle none) in
      (
        second.0,
        rw (allowed-some first) (ap (λ w. some (w, some a)) (allowed-some second)),
        Undisturbed-trans (allow_readwrite-Undisturbed k p n 0 (slot none))
            (allow_readonly-Undisturbed k p first.0 0 (handle none)),
      )

  -- Both buffers are shared, and the capsule is ready for the GET.
  pub shares_get :
      (n : Network) (a : ℕ) (url buffer : List ℕ)
      → n.state ≡ idle
      → n.buffer ≡ some buffer
      → k.grant_error p ≡ none
      → k.read (handle (some url)) ≡ ok url
      → let first = allow_readonly k n p 0 (handle (some url)) in
        let second = allow_readwrite k first.0 p 0 (slot (some a)) in
        (allowed first ≡ (some (first.0), true))
        × (allowed second ≡ (some (second.0), true))
        × IsReady k (second.0) p url buffer
        × ((second.0.grant_access p).data_in ≡ slot (some a))
        × (second.0.effects ≡ n.effects)
  unfolding allow_readonly swap_address allow_readwrite swap_data_in
  shares_get n a url buffer resting held granted read_url = (
    ground arith,
    ground arith,
    record {
      is_idle = ground arith;
      granted = granted;
      addressed = ground arith;
      held = ground arith;
    },
    ground arith,
    ground arith,
  )

  -- The end of the transmission and the reception of `answer`.
  pub reception :
      (m : Network) (b answer data_in : List ℕ) (tx_len : ℕ)
      → m.state ≡ requesting p
      → k.grant_error p ≡ none
      → k.receive_buffer b receive_len ≡ ok tt
      → k.writable ((m.grant_access p).data_in) ≡ ok data_in
      → length answer < length data_in
      → received_buffer k
          (transmitted_buffer k m b tx_len (ok tt))
          (overlay answer b)
          (length answer)
          (ok tt)
        ≡ done (record m {
          state = idle;
          buffer = some (overlay answer b);
          uart = receiving b receive_len;
          effects =
              upcall p 0 (k.into_statuscode (ok tt)) (length answer)
              ∷ wrote ((m.grant_access p).data_in) (overlay (answer ++ 0 ∷ []) data_in)
              ∷ m.effects;
        })
  unfolding transmitted_buffer
  reception m b answer data_in tx_len asked granted receives writes short =
      let n4 : Network = record m { uart = receiving b receive_len } in
      let whole : length answer ≤ length (overlay answer b) =
        omega (arith, length-append answer (drop (length answer) b)) in
      let received =
        received_buffer-delivers k n4 p (overlay answer b) (length answer) asked granted whole
          data_in writes in
      let listens : transmitted_buffer k m b tx_len (ok tt) ≡ n4 =
        rw (transmitted_buffer, receives) in
      rw (listens, received, lt→ltb _ _ short, take-append answer (drop (length answer) b))
