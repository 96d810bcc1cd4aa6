-- ===== src/Network/Answers.antt =====
-- The answer to the process at the end of its request, in the UART's callbacks of
-- kernel/drivers/src/network.rs.
use micro_morse_chat.Prelude.{
  ℕ, ◌≤◌, ◌≡◌, inl, inr, refl, List, ◌∷◌, ltb, overlay, if◌then◌else◌, none, some, Result, ok, err,
  done, length, Result-cases, arith,
}
use micro_morse_chat.Kernel.{ProcessId, Error, ErrorCode, Kernel}
use micro_morse_chat.Network.{idle, requesting, receiving, Effect, upcall, wrote, Network}
use micro_morse_chat.Network.Clients.{receive_len, transmitted_buffer, received_buffer, abort}
use micro_morse_chat.Network.Delivery.{
  text, delivered, received_buffer-delivers, received_buffer-unwritable,
}
use micro_morse_chat.Network.Accounting.{upcalls}

-- The end of a request of `p`, seen by the process: the driver is idle and holds the buffer, and one
-- more upcall has been scheduled, for `p`, with the status and the length.
pub record IsAnswered (n : Network) (p status len : ℕ) (buffer : List ℕ) (m : Network)
    : Type 0 where
  pub answered_idle : m.state ≡ idle
  pub answered_buffer : m.buffer ≡ some buffer
  pub earlier : List Effect
  pub answered_last : m.effects ≡ upcall p 0 status len ∷ earlier
  pub answered_once : upcalls earlier ≡ upcalls n.effects

abort-IsAnswered :
    (k : Kernel) (n : Network) (p : ProcessId) (b : List ℕ) (e : ErrorCode)
    → n.state ≡ requesting p
    → k.grant_error p ≡ none
    → IsAnswered n p (k.into_statuscode (err e)) 0 b (abort k n b e)
unfolding abort
abort-IsAnswered k n p b e asked granted = record {
  answered_idle = ground arith;
  answered_buffer = ground arith;
  earlier = n.effects;
  answered_last = ground arith;
  answered_once = refl;
}

-- What follows a transmission: after an error, the answer with that error; else the wait for the reply,
-- or, where the UART refuses that, the answer with its error and the buffer it hands back.
abbrev pub Followed :
    Kernel
    → Network
    → ProcessId
    → List ℕ
    → Result (Unit {0}) ErrorCode
    → Result (Unit {0}) (ErrorCode × List ℕ)
    → Network
    → Type 0
Followed k n p b (err e) r m = IsAnswered n p (k.into_statuscode (err e)) 0 b m
Followed k n p b (ok u) (ok v) m = m ≡ record n { uart = receiving b receive_len }
Followed k n p b (ok u) (err (e, back)) m = IsAnswered n p (k.into_statuscode (err e)) 0 back m

-- The end of a transmission for a process whose grant can be entered. After an error, the process gets
-- one upcall with that error and the driver is idle with its buffer. Else the same buffer is put on the
-- line for a reply of 128 bytes and nothing else changes, if the UART accepts that; if it refuses, the
-- process gets one upcall with the UART's error and the driver is idle with the buffer handed back.
pub transmitted_buffer-answers :
    (k : Kernel) (n : Network) (p : ProcessId) (b : List ℕ) (tx_len : ℕ)
    (rval : Result (Unit {0}) ErrorCode)
    → n.state ≡ requesting p
    → k.grant_error p ≡ none
    → Followed k n p b rval (k.receive_buffer b receive_len) (transmitted_buffer k n b tx_len rval)
unfolding transmitted_buffer
transmitted_buffer-answers k n p b tx_len (err e) asked granted =
    abort-IsAnswered k n p b e asked granted
transmitted_buffer-answers k n p b tx_len (ok u) asked granted =
    elim (Result-cases (k.receive_buffer b receive_len)) [
      | inl (v, e) ↦ rw (e, transmitted_buffer) refl
      | inr ((x, back), e) ↦
          rw (e, transmitted_buffer) (abort-IsAnswered k n p back x asked granted)
    ]

-- What the upcall reports: an error of the UART with no bytes, else the bytes received, with the
-- kernel's error if the process's buffer cannot be written.
abbrev pub reported : Kernel → Result (Unit {0}) ErrorCode → Result (List ℕ) Error → ℕ → ℕ × ℕ
reported k (err e) r rx_len = (k.into_statuscode (err e), 0)
reported k (ok u) (ok data_in) rx_len = (k.into_statuscode (ok tt), rx_len)
reported k (ok u) (err e) rx_len = (k.into_statuscode (err (k.into_error_code e)), rx_len)

-- The end of a reception no longer than the buffer, with or without an error, for a waiting process whose
-- grant can be entered, does not panic: the driver is idle with the buffer, and the process gets exactly
-- one upcall, with the UART's error and 0, or else with the number of bytes received and success or the
-- kernel's error for a buffer that cannot be written.
pub received_buffer-answers :
    (k : Kernel) (n : Network) (p : ProcessId) (b : List ℕ) (rx_len : ℕ)
    (rval : Result (Unit {0}) ErrorCode)
    → n.state ≡ requesting p
    → k.grant_error p ≡ none
    → rx_len ≤ length b
    → let said = reported k rval (k.writable ((n.grant_access p).data_in)) rx_len in
      (m : Network) × (received_buffer k n b rx_len rval ≡ done m)
      × IsAnswered n p (said.0) (said.1) b m
unfolding received_buffer
received_buffer-answers k n p b rx_len (err e) asked granted h =
    let m : Network = record n {
      state = idle;
      buffer = some b;
      effects = upcall p 0 (k.into_statuscode (err e)) 0 ∷ n.effects;
    } in
    let answered : IsAnswered n p (k.into_statuscode (err e)) 0 b m = record {
      answered_idle = refl;
      answered_buffer = refl;
      earlier = n.effects;
      answered_last = refl;
      answered_once = refl;
    } in
    (m, ground arith, answered)
received_buffer-answers k n p b rx_len (ok u) asked granted h =
    let handle = (n.grant_access p).data_in in
    elim (Result-cases (k.writable handle)) [
      | inl (data_in, e) ↦
          let m : Network = record n {
            state = idle;
            buffer = some b;
            effects = delivered k p handle data_in b rx_len n.effects;
          } in
          let answered : IsAnswered n p (k.into_statuscode (ok tt)) rx_len b m = record {
            answered_idle = refl;
            answered_buffer = refl;
            earlier =
                if ltb rx_len (length data_in)
                then wrote handle (overlay (text b rx_len) data_in) ∷ n.effects
                else n.effects;
            answered_last = refl;
            answered_once = ground arith;
          } in
          rw e (m, received_buffer-delivers k n p b rx_len asked granted h data_in e, answered)
      | inr (x, e) ↦
          let m : Network = record n {
            state = idle;
            buffer = some b;
            effects = upcall p 0 (k.into_statuscode (err (k.into_error_code x))) rx_len ∷ n.effects;
          } in
          let answered : IsAnswered n p (k.into_statuscode (err (k.into_error_code x))) rx_len b m =
            record {
              answered_idle = refl;
              answered_buffer = refl;
              earlier = n.effects;
              answered_last = refl;
              answered_once = refl;
            } in
          rw e (m, received_buffer-unwritable k n p b rx_len asked granted h x e, answered)
    ]
