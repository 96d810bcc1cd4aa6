-- ===== src/Network/Limits.antt =====
-- The guards of `command` in kernel/drivers/src/network.rs: which lengths are refused, and which
-- reach an index past the end of the buffer.
use mathlib.Core.List.{append-nil}
use micro_morse_chat.Prelude.{
  ℕ, ◌+◌, ◌<◌, ◌≤◌, ◌≡◌, refl, ap, ◌∙◌, List, [], ◌∷◌, ◌++◌, ok, err, done, panic, length,
  length-append, cut, cut_at, copy_at_lem, copy_third, copy_at_panics, store_panics, ◌⊎◌, inl, inr,
  le→ltb, lt→ltb, arith,
}
use micro_morse_chat.Kernel.{ProcessId, size, inval, Error, Kernel}
use micro_morse_chat.Network.{method_size, post_method, Network, send_post, fill_post, with_buffer}
use micro_morse_chat.Network.Frames.{post_starts, send_post_reads}

-- An address that is too long is refused.
pub with_buffer-size :
    (k : Kernel) (n : Network) (r2 : ℕ) (p : ProcessId) (address buffer : List ℕ)
    → length buffer < length address + method_size
    → with_buffer k n r2 p address buffer ≡ done (n, err size)
unfolding with_buffer
with_buffer-size k n r2 p address buffer h = rw (lt→ltb _ _ h)

-- An address that fills the buffer leaves no room for the byte behind it.
pub with_buffer-full :
    (k : Kernel) (n : Network) (r2 : ℕ) (p : ProcessId) (address buffer : List ℕ)
    → length buffer ≡ length address + method_size
    → with_buffer k n r2 p address buffer ≡ panic
unfolding with_buffer
with_buffer-full k n r2 p address buffer h =
    let (m, q, e, em) = cut method_size buffer (omega arith) in
    let eq : length q ≡ length address = omega (arith, ap length e, length-append m q) in
    let whole : buffer ≡ m ++ (q ++ []) = e ∙ ap (λ s. m ++ s) (rw append-nil) in
    rw (
      le→ltb (length buffer) (length address + method_size) (omega arith),
      whole,
      copy_at_lem method_size m q [] address em eq,
      store_panics (method_size + length address) (m ++ (address ++ [])) b' '
          (omega (arith, length-append m (address ++ []), length-append address [])),
    )

-- A payload that fills the buffer leaves no room for the newline.
fill_post-full :
    (k : Kernel) (n : Network) (p : ProcessId) (address data_out m r : List ℕ) (y : ℕ)
    → length m ≡ method_size
    → length r ≡ length data_out
    → fill_post k n p address (m ++ (address ++ y ∷ r)) data_out ≡ panic
unfolding fill_post
fill_post-full k n p address data_out m r y em er =
    let all : length (m ++ (address ++ y ∷ r)) ≡ length m + length address + 1 + length r =
      omega (arith, length-append m (address ++ y ∷ r), length-append address (y ∷ r)) in
    let out : length (post_method ++ (address ++ y ∷ (data_out ++ [])))
        ≤ method_size + length address + 1 + length data_out =
      omega (arith, length-append address (y ∷ (data_out ++ [])), length-append data_out []) in
    let padded : m ++ (address ++ y ∷ r) ≡ m ++ (address ++ y ∷ (r ++ [])) =
      ap (λ s. m ++ (address ++ y ∷ s)) (rw append-nil) in
    rw (
      le→ltb (length (m ++ (address ++ y ∷ r)) + 1)
          (method_size + length address + 1 + length data_out) (omega arith),
      padded,
      copy_third (method_size + length address + 1) m address y r [] data_out (omega arith) er,
      copy_at_lem 0 [] m (address ++ y ∷ (data_out ++ [])) post_method refl em,
      store_panics (method_size + length address + 1 + length data_out)
          (post_method ++ (address ++ y ∷ (data_out ++ []))) b'\n' out,
    )

-- A payload one byte longer passes the guard and cannot be copied.
fill_post-over :
    (k : Kernel) (n : Network) (p : ProcessId) (address data_out buffer : List ℕ)
    → length buffer + 1 ≡ method_size + length address + 1 + length data_out
    → fill_post k n p address buffer data_out ≡ panic
unfolding fill_post
fill_post-over k n p address data_out buffer h = rw (
  le→ltb (length buffer + 1) (method_size + length address + 1 + length data_out) (omega arith),
  copy_at_panics (method_size + length address + 1) buffer data_out (omega arith),
)

fill_post-inval :
    (k : Kernel) (n : Network) (p : ProcessId) (address data_out buffer : List ℕ)
    → length buffer + 1 < method_size + length address + 1 + length data_out
    → fill_post k n p address buffer data_out ≡ done (n, err inval)
unfolding fill_post
fill_post-inval k n p address data_out buffer h = rw (lt→ltb _ _ h)

-- A buffer with room for the address is cut around it.
parts :
    (address buffer : List ℕ)
    → method_size + length address < length buffer
    → (m : List ℕ) × (a : List ℕ) × (y : ℕ) × (r : List ℕ) × (buffer ≡ m ++ (a ++ y ∷ r))
      × (length m ≡ method_size)
      × (length a ≡ length address)
parts address buffer h =
    let (m, q, e, em) = cut method_size buffer (omega arith) in
    let (a, y, r, e', ea) =
      cut_at (length address) q (omega (arith, ap length e, length-append m q)) in
    (m, a, y, r, e ∙ ap (λ s. m ++ s) e', em, ea)

length-parts :
    (m a r : List ℕ) (y : ℕ) → length (m ++ (a ++ y ∷ r)) ≡ length m + length a + 1 + length r
length-parts m a r y = omega (arith, length-append m (a ++ y ∷ r), length-append a (y ∷ r))

module _ (k : Kernel) (n : Network) (r2 : ℕ) (p : ProcessId) (address buffer data_out : List ℕ)
    (post : 0 < r2) (reads : k.read ((n.grant_access p).data_out) ≡ ok data_out)
    (room : method_size + length address < length buffer) where
  -- A payload longer than the guard allows is refused.
  pub with_buffer-inval :
      length buffer + 1 < method_size + length address + 1 + length data_out
      → with_buffer k n r2 p address buffer ≡ done (n, err inval)
  with_buffer-inval h =
      let (m, a, y, r, e, em, ea) = parts address buffer room in
      let size : length buffer ≡ length (m ++ (address ++ b' ' ∷ r)) =
        omega (arith, ap length e, length-parts m a r y, length-parts m address r b' ') in
      ap (with_buffer k n r2 p address) e
      ∙ post_starts k n r2 p address m a r y post em ea
      ∙ send_post_reads k n p address (m ++ (address ++ b' ' ∷ r)) data_out reads
      ∙ fill_post-inval k n p address data_out (m ++ (address ++ b' ' ∷ r)) (omega arith)

  -- The two payload lengths that pass the guard and do not fit.
  pub with_buffer-panics :
      (method_size + length address + 1 + length data_out ≡ length buffer)
        ⊎ (method_size + length address + 1 + length data_out ≡ length buffer + 1)
      → with_buffer k n r2 p address buffer ≡ panic
  with_buffer-panics h =
      let (m, a, y, r, e, em, ea) = parts address buffer room in
      let size : length buffer ≡ length m + length address + 1 + length r =
        omega (arith, ap length e, length-parts m a r y) in
      ap (with_buffer k n r2 p address) e
      ∙ post_starts k n r2 p address m a r y post em ea
      ∙ send_post_reads k n p address (m ++ (address ++ b' ' ∷ r)) data_out reads
      ∙ elim h [
        | inl full ↦ fill_post-full k n p address data_out m r b' ' em (omega arith)
        | inr over ↦
            fill_post-over k n p address data_out (m ++ (address ++ b' ' ∷ r))
              (omega (arith, length-parts m address r b' '))
      ]

-- An unreadable payload is reported with the kernel's error.
pub with_buffer-unreadable :
    (k : Kernel) (n : Network) (r2 : ℕ) (p : ProcessId) (address buffer : List ℕ)
    → 0 < r2
    → method_size + length address < length buffer
    → (e : Error) → k.read ((n.grant_access p).data_out) ≡ err e
    → with_buffer k n r2 p address buffer ≡ done (n, err (k.into_error_code e))
unfolding send_post
with_buffer-unreadable k n r2 p address buffer post room e bad =
    let (m, a, y, r, whole, em, ea) = parts address buffer room in
    ap (with_buffer k n r2 p address) whole
    ∙ post_starts k n r2 p address m a r y post em ea
    ∙ rw (send_post, bad)
