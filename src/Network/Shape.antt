-- ===== src/Network/Shape.antt =====
-- What an arbitrary call of `command` can do: it leaves the driver as it was, loses the buffer, or
-- hands the UART a buffer of the old length.
use micro_morse_chat.Prelude.{
  ℕ, ◌+◌, ◌≤◌, ◌≡◌, List, err, done, length, copy_at, store, copy_at-length, store-length,
  >>=-eq-done, ltb, Result-cases, Bool-cases, inl, inr, arith,
}
use micro_morse_chat.Kernel.{ProcessId, ErrorCode, inval, size, Kernel}
use micro_morse_chat.Network.{
  method_size, get_method, post_method, Network, Reply, transmit, send_get, send_post, fill_post,
  with_buffer,
}

-- The answer of the innermost closure, which was given a buffer of so many bytes.
pub data Answers (k : Kernel) (n : Network) (p : ProcessId) (bytes : ℕ) (reply : Reply)
    : Type 0 where
  sends :
      (b : List ℕ) (len : ℕ)
      → length b ≡ bytes
      → len ≤ bytes
      → reply ≡ transmit k n p b len
      → Answers k n p bytes reply
  drops : (e : ErrorCode) → reply ≡ (n, err e) → Answers k n p bytes reply

resized :
    {k : Kernel} {n : Network} {p : ProcessId} {i j : ℕ} {reply : Reply}
    → i ≡ j
    → Answers k n p i reply
    → Answers k n p j reply
resized e (sends b len eb el r) = sends b len (omega arith) (omega arith) r
resized e (drops c r) = drops c r

send_get-Answers :
    (k : Kernel) (n : Network) (p : ProcessId) (address buffer : List ℕ) {reply : Reply}
    → send_get k n p address buffer ≡ done reply
    → Answers k n p (length buffer) reply
unfolding send_get
send_get-Answers k n p address buffer h =
    let (b, e, h') = >>=-eq-done (copy_at buffer 0 get_method) _ h in
    let (b', e', h'') = >>=-eq-done (store b (method_size + length address) b'\n') _ h' in
    let stored = store-length b (method_size + length address) b'\n' e' in
    let copied = copy_at-length buffer 0 get_method e in
    sends b' (method_size + length address + 1) (omega arith) (omega arith) (cc)

fill_post-Answers :
    (k : Kernel) (n : Network) (p : ProcessId) (address buffer data_out : List ℕ) {reply : Reply}
    → fill_post k n p address buffer data_out ≡ done reply
    → Answers k n p (length buffer) reply
unfolding fill_post
fill_post-Answers k n p address buffer data_out h =
    let start = method_size + length address + 1 in
    elim (Bool-cases (ltb (length buffer + 1) (start + length data_out))) [
      | inl long ↦ drops inval (cc (rw long at h))
      | inr fits ↦
          let (b, e, h') = >>=-eq-done (copy_at buffer start data_out) _ (rw fits at h) in
          let (b', e', h'') = >>=-eq-done (copy_at b 0 post_method) _ h' in
          let (b'', e'', g) = >>=-eq-done (store b' (start + length data_out) b'\n') _ h'' in
          let first = copy_at-length buffer start data_out e in
          let second = copy_at-length b 0 post_method e' in
          let third = store-length b' (start + length data_out) b'\n' e'' in
          sends b'' (start + length data_out + 1) (omega arith) (omega arith) (cc)
    ]

send_post-Answers :
    (k : Kernel) (n : Network) (p : ProcessId) (address buffer : List ℕ) {reply : Reply}
    → send_post k n p address buffer ≡ done reply
    → Answers k n p (length buffer) reply
unfolding send_post
send_post-Answers k n p address buffer h =
    elim (Result-cases (k.read ((n.grant_access p).data_out))) [
      | inl (data_out, e) ↦ fill_post-Answers k n p address buffer data_out (rw (e, send_post) at h)
      | inr (bad, e) ↦ drops (k.into_error_code bad) (cc (rw (e, send_post) at h))
    ]

pub with_buffer-Answers :
    (k : Kernel) (n : Network) (r2 : ℕ) (p : ProcessId) (address buffer : List ℕ) {reply : Reply}
    → with_buffer k n r2 p address buffer ≡ done reply
    → Answers k n p (length buffer) reply
unfolding with_buffer
with_buffer-Answers k n r2 p address buffer h =
    elim (Bool-cases (ltb (length buffer) (length address + method_size))) [
      | inl long ↦ drops size (cc (rw long at h))
      | inr fits ↦
          let (b, e, h') = >>=-eq-done (copy_at buffer method_size address) _ (rw fits at h) in
          let (b', e', g) = >>=-eq-done (store b (method_size + length address) b' ') _ h' in
          let first = copy_at-length buffer method_size address e in
          let second = store-length b (method_size + length address) b' ' e' in
          resized (omega arith) (elim (Bool-cases (ltb 0 r2)) [
            | inl post ↦ send_post-Answers k n p address b' (rw post at g)
            | inr get ↦ send_get-Answers k n p address b' (rw get at g)
          ])
    ]
