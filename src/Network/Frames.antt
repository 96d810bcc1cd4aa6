-- ===== src/Network/Frames.antt =====
-- What a request puts on the line: the framing of kernel/drivers/src/network.rs, proved of the
-- indexed writes of `command`.
use mathlib.Core.List.{append_assoc}
use micro_morse_chat.Prelude.{
  ℕ, ◌+◌, ◌<◌, ◌≡◌, refl, ap, ◌∙◌, List, [], ◌∷◌, ◌++◌, ok, done, length, length-append, cut,
  cut_at, overlay, copy_at_lem, store_second, copy_third, store_fourth, drop_third, regroup,
  length-regroup, le→ltb, lt→ltb, arith,
}
use micro_morse_chat.Kernel.{ProcessId, Kernel}
use micro_morse_chat.Network.{
  method_size, get_method, post_method, Network, transmit, send_get, send_post, fill_post,
  with_buffer,
}

-- `GET  address\n`.
abbrev pub get_frame : List ℕ → List ℕ
get_frame address = get_method ++ (address ++ b'\n' ∷ [])

-- `POST address data\n`.
abbrev pub post_frame : List ℕ → List ℕ → List ℕ
post_frame address data_out = post_method ++ (address ++ b' ' ∷ (data_out ++ b'\n' ∷ []))

pub length-get_frame :
    (address : List ℕ) → length (get_frame address) ≡ method_size + length address + 1
length-get_frame address = omega (arith, length-append address (b'\n' ∷ []))

pub length-post_frame :
    (address data_out : List ℕ)
    → length (post_frame address data_out) ≡ method_size + length address + length data_out + 2
length-post_frame address data_out = omega (
  arith,
  length-append address (b' ' ∷ (data_out ++ b'\n' ∷ [])),
  length-append data_out (b'\n' ∷ []),
)

-- The writes of the GET branch, on a buffer that is cut where they go.
get_parts :
    (k : Kernel) (n : Network) (p : ProcessId) (address m a r : List ℕ) (y : ℕ)
    → length m ≡ method_size
    → length a ≡ length address
    → with_buffer k n 0 p address (m ++ (a ++ y ∷ r))
      ≡ done
          (transmit k n p (get_method ++ (address ++ b'\n' ∷ r)) (method_size + length address + 1))
unfolding with_buffer send_get
get_parts k n p address m a r y em ea = rw (
  le→ltb (length (m ++ (a ++ y ∷ r))) (length address + method_size)
      (omega (arith, length-append m (a ++ y ∷ r), length-append a (y ∷ r))),
  copy_at_lem method_size m a (y ∷ r) address em ea,
  store_second (method_size + length address) m address y r b' ' (omega arith),
  copy_at_lem 0 [] m (address ++ b' ' ∷ r) get_method refl em,
  store_second (method_size + length address) get_method address b' ' r b'\n' (omega arith),
)

-- The writes of the POST branch, likewise.
post_parts :
    (k : Kernel) (n : Network) (p : ProcessId) (address m d r data_out : List ℕ) (y z : ℕ)
    → length m ≡ method_size
    → length d ≡ length data_out
    → fill_post k n p address (m ++ (address ++ y ∷ (d ++ z ∷ r))) data_out
      ≡ done (
          transmit k n p
            (post_method ++ (address ++ y ∷ (data_out ++ b'\n' ∷ r)))
            (method_size + length address + 1 + length data_out + 1))
unfolding fill_post
post_parts k n p address m d r data_out y z em ed = rw (
  le→ltb (length (m ++ (address ++ y ∷ (d ++ z ∷ r))) + 1)
      (method_size + length address + 1 + length data_out)
      (omega (
        arith,
        length-append m (address ++ y ∷ (d ++ z ∷ r)),
        length-append address (y ∷ (d ++ z ∷ r)),
        length-append d (z ∷ r),
      )),
  copy_third (method_size + length address + 1) m address y d (z ∷ r) data_out (omega arith) ed,
  copy_at_lem 0 [] m (address ++ y ∷ (data_out ++ z ∷ r)) post_method refl em,
  store_fourth (method_size + length address + 1 + length data_out) post_method address y data_out z
      r b'\n' (omega arith),
)

-- The buffer of a GET that fits is the frame, and what the buffer held behind it.
pub with_buffer-get :
    (k : Kernel) (n : Network) (p : ProcessId) (address buffer : List ℕ)
    → method_size + length address < length buffer
    → with_buffer k n 0 p address buffer
      ≡ done (transmit k n p (overlay (get_frame address) buffer) (length (get_frame address)))
with_buffer-get k n p address buffer h =
    let (m, q, e, em) = cut method_size buffer (omega arith) in
    let (a, y, r, e', ea) =
      cut_at (length address) q (omega (arith, ap length e, length-append m q)) in
    rw
      (
        e,
        e',
        drop_third (length (get_frame address)) m a y r (omega (arith, length-get_frame address)),
        regroup get_method address b'\n' r,
        length-get_frame address,
      )
      (get_parts k n p address m a r y em ea)

-- The common start of the POST branch: the address and a space are in the buffer.
pub post_starts :
    (k : Kernel) (n : Network) (r2 : ℕ) (p : ProcessId) (address m a r : List ℕ) (y : ℕ)
    → 0 < r2
    → length m ≡ method_size
    → length a ≡ length address
    → with_buffer k n r2 p address (m ++ (a ++ y ∷ r))
      ≡ send_post k n p address (m ++ (address ++ b' ' ∷ r))
unfolding with_buffer
post_starts k n r2 p address m a r y post em ea = rw (
  le→ltb (length (m ++ (a ++ y ∷ r))) (length address + method_size)
      (omega (arith, length-append m (a ++ y ∷ r), length-append a (y ∷ r))),
  copy_at_lem method_size m a (y ∷ r) address em ea,
  store_second (method_size + length address) m address y r b' ' (omega arith),
  lt→ltb 0 r2 post,
)

-- With the payload at hand, the closure of `data_out.enter` runs on it.
pub send_post_reads :
    (k : Kernel) (n : Network) (p : ProcessId) (address buffer data_out : List ℕ)
    → k.read ((n.grant_access p).data_out) ≡ ok data_out
    → send_post k n p address buffer ≡ fill_post k n p address buffer data_out
unfolding send_post
send_post_reads k n p address buffer data_out reads = ground arith

post_overlay :
    (address data_out m a d r : List ℕ) (y z : ℕ)
    → length m ≡ method_size
    → length a ≡ length address
    → length d ≡ length data_out
    → overlay (post_frame address data_out) (m ++ (a ++ y ∷ (d ++ z ∷ r)))
      ≡ post_method ++ (address ++ b' ' ∷ (data_out ++ b'\n' ∷ r))
post_overlay address data_out m a d r y z em ea ed =
    rw
      (
        ← regroup m a y (d ++ z ∷ r),
        drop_third (length (post_frame address data_out)) (m ++ (a ++ y ∷ [])) d z r
            (omega (arith, length-regroup m a y, length-post_frame address data_out)),
      )
      (simp append_assoc)

post_whole :
    (k : Kernel) (n : Network) (r2 : ℕ) (p : ProcessId) (address data_out m a d r : List ℕ)
    (y z : ℕ)
    → 0 < r2
    → k.read ((n.grant_access p).data_out) ≡ ok data_out
    → length m ≡ method_size
    → length a ≡ length address
    → length d ≡ length data_out
    → with_buffer k n r2 p address (m ++ (a ++ y ∷ (d ++ z ∷ r)))
      ≡ done (
          transmit k n p
            (overlay (post_frame address data_out) (m ++ (a ++ y ∷ (d ++ z ∷ r))))
            (length (post_frame address data_out)))
post_whole k n r2 p address data_out m a d r y z post reads em ea ed =
    let sized : method_size + length address + 1 + length data_out + 1
        ≡ length (post_frame address data_out) =
      omega (arith, length-post_frame address data_out) in
    post_starts k n r2 p address m a (d ++ z ∷ r) y post em ea
    ∙ send_post_reads k n p address (m ++ (address ++ b' ' ∷ (d ++ z ∷ r))) data_out reads
    ∙ post_parts k n p address m d r data_out b' ' z em ed
    ∙ rw (post_overlay address data_out m a d r y z em ea ed, sized)

-- The buffer of a POST that fits is the frame, and what the buffer held behind it.
pub with_buffer-post :
    (k : Kernel) (n : Network) (r2 : ℕ) (p : ProcessId) (address buffer data_out : List ℕ)
    → 0 < r2
    → k.read ((n.grant_access p).data_out) ≡ ok data_out
    → method_size + length address + 1 + length data_out < length buffer
    → with_buffer k n r2 p address buffer
      ≡ done (
          transmit k n p
            (overlay (post_frame address data_out) buffer)
            (length (post_frame address data_out)))
with_buffer-post k n r2 p address buffer data_out post reads h =
    let (m, q, e, em) = cut method_size buffer (omega arith) in
    let (a, y, t, e', ea) =
      cut_at (length address) q (omega (arith, ap length e, length-append m q)) in
    let (d, z, r, e'', ed) =
      cut_at (length data_out) t
        (omega (arith, ap length e, length-append m q, ap length e', length-append a (y ∷ t))) in
    let whole : buffer ≡ m ++ (a ++ y ∷ (d ++ z ∷ r)) =
      e ∙ ap (λ s. m ++ s) e' ∙ ap (λ s. m ++ (a ++ y ∷ s)) e'' in
    rw whole (post_whole k n r2 p address data_out m a d r y z post reads em ea ed)
