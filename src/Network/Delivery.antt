-- ===== src/Network/Delivery.antt =====
-- The reply: what `received_buffer` and `transmitted_buffer` of kernel/drivers/src/network.rs hand to
-- the process that asked.
use mathlib.Core.List.{append_assoc}
use native.Mathlib.Decide.{dec_lt}
use micro_morse_chat.Prelude.{
  ℕ, ◌+◌, ◌≤◌, ◌<◌, ◌≡◌, refl, List, [], ◌∷◌, ◌++◌, none, some, ok, err, done, length, take,
  length-take, length-append, overlay, cut_at, copy_at_lem, store_lem, prefix_lem, lt→ltb, le→ltb,
  arith, drop_third, ltb, if◌then◌else◌,
}
use micro_morse_chat.Kernel.{ProcessId, Error, ReadWriteProcessBuffer, Kernel}
use micro_morse_chat.Network.{idle, requesting, Effect, upcall, wrote, Network}
use micro_morse_chat.Network.Clients.{received_buffer, fill_data_in}

-- The bytes of a reply with the closing 0.
abbrev pub text : List ℕ → ℕ → List ℕ
text rx_buffer rx_len = take rx_len rx_buffer ++ 0 ∷ []

fill_parts :
    (n : Network) (handle : ReadWriteProcessBuffer) (p : List ℕ) (y : ℕ) (r rx_buffer : List ℕ)
    (rx_len : ℕ)
    → length p ≡ rx_len
    → rx_len ≤ length rx_buffer
    → fill_data_in n handle (p ++ y ∷ r) rx_buffer rx_len
      ≡ done (record n { effects = wrote handle (take rx_len rx_buffer ++ 0 ∷ r) ∷ n.effects })
unfolding fill_data_in
fill_parts n handle p y r rx_buffer rx_len e le =
    let same : length p ≡ length (take rx_len rx_buffer) =
      omega (arith, length-take rx_len rx_buffer) in
    rw (
      lt→ltb rx_len (length (p ++ y ∷ r)) (omega (arith, length-append p (y ∷ r))),
      prefix_lem rx_len rx_buffer le,
      copy_at_lem 0 [] p (y ∷ r) (take rx_len rx_buffer) refl same,
      store_lem rx_len (take rx_len rx_buffer) y r 0 (omega arith),
    )

text-overlay :
    (p : List ℕ) (y : ℕ) (r rx_buffer : List ℕ) (rx_len : ℕ)
    → length p ≡ rx_len
    → rx_len ≤ length rx_buffer
    → overlay (text rx_buffer rx_len) (p ++ y ∷ r) ≡ take rx_len rx_buffer ++ 0 ∷ r
text-overlay p y r rx_buffer rx_len e le =
    let size : length (text rx_buffer rx_len) ≡ 0 + length p + 1 =
      omega (arith, length-append (take rx_len rx_buffer) (0 ∷ []), length-take rx_len rx_buffer) in
    rw (drop_third (length (text rx_buffer rx_len)) [] p y r size) (simp append_assoc)

-- A reply that fits is written with its closing 0, over the first bytes of the buffer.
fill_data_in-fits :
    (n : Network) (handle : ReadWriteProcessBuffer) (data_in rx_buffer : List ℕ) (rx_len : ℕ)
    → rx_len < length data_in
    → rx_len ≤ length rx_buffer
    → fill_data_in n handle data_in rx_buffer rx_len
      ≡ done (record n {
        effects = wrote handle (overlay (text rx_buffer rx_len) data_in) ∷ n.effects;
      })
fill_data_in-fits n handle data_in rx_buffer rx_len lt le =
    let (p, y, r, e, l) = cut_at rx_len data_in lt in
    rw (e, text-overlay p y r rx_buffer rx_len l le)
      (fill_parts n handle p y r rx_buffer rx_len l le)

-- One that does not is not written at all.
fill_data_in-skips :
    (n : Network) (handle : ReadWriteProcessBuffer) (data_in rx_buffer : List ℕ) (rx_len : ℕ)
    → length data_in ≤ rx_len
    → fill_data_in n handle data_in rx_buffer rx_len ≡ done n
unfolding fill_data_in
fill_data_in-skips n handle data_in rx_buffer rx_len h = rw (le→ltb _ _ h)

-- What a reply of `rx_len` bytes leaves in the effects: the bytes, if they and a closing 0 fit, and
-- the upcall.
abbrev pub delivered :
    Kernel → ProcessId → ReadWriteProcessBuffer → List ℕ → List ℕ → ℕ → List Effect → List Effect
delivered k p handle data_in rx_buffer rx_len effects =
    upcall p 0 (k.into_statuscode (ok tt)) rx_len
    ∷ (if ltb rx_len (length data_in)
        then wrote handle (overlay (text rx_buffer rx_len) data_in) ∷ effects
        else effects)

module _ (k : Kernel) (n : Network) (p : ProcessId) (rx_buffer : List ℕ) (rx_len : ℕ)
    (asked : n.state ≡ requesting p) (granted : k.grant_error p ≡ none)
    (whole : rx_len ≤ length rx_buffer) where
  -- A reply to a process whose buffer can be written is copied there with a closing 0 if that fits,
  -- and is dropped if not; either way the process gets one upcall, of success and with the length
  -- received, and the driver is idle again with its buffer.
  pub received_buffer-delivers :
      (data_in : List ℕ)
      → k.writable ((n.grant_access p).data_in) ≡ ok data_in
      → received_buffer k n rx_buffer rx_len (ok tt)
        ≡ done (record n {
          state = idle;
          buffer = some rx_buffer;
          effects = delivered k p ((n.grant_access p).data_in) data_in rx_buffer rx_len n.effects;
        })
  unfolding received_buffer
  received_buffer-delivers data_in writes = elim (dec_lt rx_len (length data_in)) [
    | yes fits ↦ ground (
      arith,
      fill_data_in-fits n ((n.grant_access p).data_in) data_in rx_buffer rx_len fits whole,
    )
    | no over ↦
        ground (arith, fill_data_in-skips n ((n.grant_access p).data_in) data_in rx_buffer rx_len)
  ]

  -- Where the buffer cannot be written, the upcall carries the kernel's error.
  pub received_buffer-unwritable :
      (e : Error)
      → k.writable ((n.grant_access p).data_in) ≡ err e
      → received_buffer k n rx_buffer rx_len (ok tt)
        ≡ done (record n {
          state = idle;
          buffer = some rx_buffer;
          effects = upcall p 0 (k.into_statuscode (err (k.into_error_code e))) rx_len ∷ n.effects;
        })
  unfolding received_buffer
  received_buffer-unwritable e bad = ground arith
