-- ===== src/Network/Wire.antt =====
-- The lines of kernel/drivers/src/network.rs tell their parts: what the gateway at the other end of
-- the UART can read back.
use micro_morse_chat.Prelude.{
  ℕ, ◌≤◌, ◌<◌, ◌≡◌, ◌≢◌, refl, sym, ap, ◌∙◌, List, [], ◌∷◌, ◌++◌, ok, done, length, take, drop,
  take-append, overlay, Avoids, arith,
}
use micro_morse_chat.Kernel.{ProcessId, success, Kernel}
use micro_morse_chat.Network.{Line, quiet, sending, receiving, Network, transmit, command, returned}
use micro_morse_chat.Network.Commands.{post, IsReady, taken}
use micro_morse_chat.Network.Overruns.{command-fits}
use micro_morse_chat.Network.Frames.{get_frame, post_frame}

split_unique :
    (c : ℕ) (a a' d d' : List ℕ)
    → Avoids c a
    → Avoids c a'
    → a ++ c ∷ d ≡ a' ++ c ∷ d'
    → (a ≡ a') × (d ≡ d')
split_unique c [] [] d d' h h' e = (refl, cc)
split_unique c [] (y ∷ a') d d' h h' e = absurd (ground arith)
split_unique c (x ∷ a) [] d d' h h' e = absurd (ground arith)
split_unique c (x ∷ a) (y ∷ a') d d' h h' e =
    let both = split_unique c a a' d d' h.1 h'.1 (cc) in (cc, both.1)

pub append-cancel_last : (c : ℕ) (d d' : List ℕ) → d ++ c ∷ [] ≡ d' ++ c ∷ [] → d ≡ d'
append-cancel_last c [] [] e = refl
append-cancel_last c [] (y ∷ []) e = absurd (ground arith)
append-cancel_last c [] (y ∷ z ∷ d') e = absurd (ground arith)
append-cancel_last c (x ∷ []) [] e = absurd (ground arith)
append-cancel_last c (x ∷ z ∷ d) [] e = absurd (ground arith)
append-cancel_last c (x ∷ d) (y ∷ d') e = let rest = append-cancel_last c d d' (cc) in cc

-- Of POST lines whose addresses have no space, equal ones have equal addresses and payloads.
pub post_frame-injective :
    (a a' d d' : List ℕ)
    → Avoids b' ' a
    → Avoids b' ' a'
    → post_frame a d ≡ post_frame a' d'
    → (a ≡ a') × (d ≡ d')
post_frame-injective a a' d d' h h' e =
    let both = split_unique b' ' a a' (d ++ b'\n' ∷ []) (d' ++ b'\n' ∷ []) h h' (ap (drop 5) e) in
    (both.0, append-cancel_last b'\n' d d' both.1)

-- Equal GET lines have equal addresses.
pub get_frame-injective : (a a' : List ℕ) → get_frame a ≡ get_frame a' → a ≡ a'
get_frame-injective a a' e = append-cancel_last b'\n' a a' (ap (drop 5) e)

-- No GET line is a POST line.
pub get_frame-ne-post_frame : (a a' d : List ℕ) → get_frame a ≢ post_frame a' d
get_frame-ne-post_frame a a' d e = ground arith

-- A POST that the driver accepted, leaving it in state `m`.
pub record Posts (k : Kernel) (n : Network) (r2 r3 : ℕ) (p : ProcessId)
    (address data_out buffer : List ℕ) (m : Network) : Type 0 where
  pub ready : IsReady k n p address buffer
  pub payload : k.read ((n.grant_access p).data_out) ≡ ok data_out
  pub is_post : 0 < r2
  pub room : length (post_frame address data_out) ≤ length buffer
  pub accepted : command k n 1 r2 r3 p ≡ done (m, success)

-- The bytes that go out: as many of the buffer as the UART was told.
abbrev pub line_of : Line → List ℕ
line_of quiet = []
line_of (sending b len) = take len b
line_of (receiving b len) = []

transmit-line :
    (k : Kernel) (n m : Network) (p : ProcessId) (frame buffer : List ℕ)
    → done (returned (transmit k n p (overlay frame buffer) (length frame))) ≡ done (m, success)
    → line_of m.uart ≡ frame
unfolding transmit
transmit-line k n m p frame buffer h =
    ground (arith, take-append frame (drop (length frame) buffer))

Posts-line :
    (k : Kernel) (n : Network) (r2 r3 : ℕ) (p : ProcessId) (address data_out buffer : List ℕ)
    (m : Network)
    → Posts k n r2 r3 p address data_out buffer m
    → line_of m.uart ≡ post_frame address data_out
Posts-line k n r2 r3 p address data_out buffer m h =
    transmit-line k (taken n) m p (post_frame address data_out) buffer (
      sym (
        command-fits k n r2 r3 p address (post_frame address data_out) buffer h.ready
          (post data_out h.is_post h.payload refl) h.room)
      ∙ h.accepted)

-- Two accepted POSTs, whose addresses have no space, that put the same bytes on the line have the
-- same address and the same payload, whatever the buffers, the kernels and the processes.
pub Posts-injective :
    (k k' : Kernel) (n n' : Network) (r2 r3 r2' r3' : ℕ) (p p' : ProcessId)
    (a d b a' d' b' : List ℕ) (m m' : Network)
    → Posts k n r2 r3 p a d b m
    → Posts k' n' r2' r3' p' a' d' b' m'
    → Avoids b' ' a
    → Avoids b' ' a'
    → line_of m.uart ≡ line_of m'.uart
    → (a ≡ a') × (d ≡ d')
Posts-injective k k' n n' r2 r3 r2' r3' p p' a d b a' d' b' m m' h h' s s' e =
    post_frame-injective a a' d d' s s'
      (sym (Posts-line k n r2 r3 p a d b m h) ∙ e ∙ Posts-line k' n' r2' r3' p' a' d' b' m' h')
