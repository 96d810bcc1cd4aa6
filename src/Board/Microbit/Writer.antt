-- ===== src/Board/Microbit/Writer.antt =====
-- The panic writer of kernel/microbit_v2/src/io.rs, against the UART device that it drives. The device
-- is the nrf52833 crate's: here, a record of the calls made on it, and the answers of `tx_ready`, one
-- for each time that it is asked.
use mathlib.Core.List.{append_assoc, append-nil, map-append}
use native.Mathlib.Nat.{add-zero}
use micro_morse_chat.Prelude.{
  ℕ, zero, suc, ◌+◌, ◌<◌, ◌≡◌, ap, sym, ◌∙◌, inl, inr, Bool, true, false, List, [], ◌∷◌, ◌++◌, map,
  Option, none, some, if◌then◌else◌, Bool-cases, arith,
}
use micro_morse_chat.Board.Uart.{Parameters, panic_parameters, concat}

pub data UartCall : Type 0 where
  configure : Parameters → UartCall
  send_byte : ℕ → UartCall

-- The calls made so far, in order, and how often `tx_ready` has been asked.
pub record Device : Type 0 where
  pub calls : List UartCall
  pub polls : ℕ

pub record Writer : Type 0 where
  pub initialized : Bool

pub set_initialized : Writer → Writer
set_initialized w = record w { initialized = true }

-- The global `WRITER`.
abbrev pub start : Writer
start = record { initialized = false }

-- `while !uart.tx_ready() {}`, with fuel for the times it is asked; `none` is fuel that ran out.
unfoldable pub wait : (ℕ → Bool) → ℕ → ℕ → Option ℕ
wait tx_ready zero polls = none
wait tx_ready (suc fuel) polls =
    let rest = wait tx_ready fuel (polls + 1) in if tx_ready polls then some (polls + 1) else rest

abbrev pub and_then {ℓ} : {A B : Type ℓ} → Option A → (A → Option B) → Option B
and_then none f = none
and_then (some a) f = f a

-- The loop over the bytes.
pub send_all : (ℕ → Bool) → ℕ → List ℕ → Device → Option Device
send_all tx_ready fuel [] d = some d
send_all tx_ready fuel (c ∷ buf) d = and_then (wait tx_ready fuel d.polls) (λ polls.
    send_all tx_ready fuel buf (record { calls = d.calls ++ send_byte c ∷ []; polls = polls }))

-- The configuration before the first byte.
pub set_up : Writer → Device → Device
set_up w d =
    if w.initialized then d else record d { calls = d.calls ++ configure panic_parameters ∷ [] }

-- `IoWrite::write`; `write_str` calls it with the bytes of the text.
pub write : (ℕ → Bool) → ℕ → Writer → List ℕ → Device → Option (Writer × Device)
write tx_ready fuel w buf d =
    and_then (send_all tx_ready fuel buf (set_up w d)) (λ d'. some (set_initialized w, d'))

-- Several writes one after another.
pub write_each : (ℕ → Bool) → ℕ → Writer → List (List ℕ) → Device → Option (Writer × Device)
write_each tx_ready fuel w [] d = some (w, d)
write_each tx_ready fuel w (buf ∷ bufs) d =
    and_then (write tx_ready fuel w buf d) (λ r. write_each tx_ready fuel r.0 bufs r.1)

-- Asked often enough, the device is ready: of any `fuel` questions in a row one is answered with yes.
abbrev pub IsResponsive : (ℕ → Bool) → ℕ → Type 0
IsResponsive tx_ready fuel = (i : ℕ) → (j : ℕ) × (j < fuel) × (tx_ready (i + j) ≡ true)

wait_ends :
    (tx_ready : ℕ → Bool) (fuel polls j : ℕ)
    → j < fuel
    → tx_ready (polls + j) ≡ true
    → (n : ℕ) × (wait tx_ready fuel polls ≡ some n)
unfolding wait
wait_ends tx_ready zero polls j h e = absurd (omega arith)
wait_ends tx_ready (suc fuel) polls zero h e =
    let ready : tx_ready polls ≡ true = ap tx_ready (sym (add-zero polls)) ∙ e in
    (polls + 1, rw ready)
wait_ends tx_ready (suc fuel) polls (suc j) h e = elim (Bool-cases (tx_ready polls)) [
  | inl ready ↦ (polls + 1, rw ready)
  | inr busy ↦
      let later : tx_ready (polls + 1 + j) ≡ true = ap tx_ready (omega arith) ∙ e in
      rw busy (wait_ends tx_ready fuel (polls + 1) j (omega arith) later)
]

module _ (tx_ready : ℕ → Bool) (fuel : ℕ) (responds : IsResponsive tx_ready fuel) where
  pub wait_returns : (polls : ℕ) → (n : ℕ) × (wait tx_ready fuel polls ≡ some n)
  wait_returns polls = let (j, h, e) = responds polls in wait_ends tx_ready fuel polls j h e

  send_all-sends :
      (buf : List ℕ) (d : Device)
      → (n : ℕ) × (send_all tx_ready fuel buf d
          ≡ some (record { calls = d.calls ++ map send_byte buf; polls = n }))
  unfolding send_all
  send_all-sends [] d = (d.polls, rw append-nil)
  send_all-sends (c ∷ buf) d =
      let (n, e) = wait_returns d.polls in
      let (m, rest) =
        send_all-sends buf (record { calls = d.calls ++ send_byte c ∷ []; polls = n }) in
      (m, rw (e, rest, append_assoc d.calls (send_byte c ∷ []) (map send_byte buf)))

-- The configuration call, unless it was made.
abbrev pub configuration : Bool → List UartCall
configuration true = []
configuration false = configure panic_parameters ∷ []

set_up_calls :
    (w : Writer) (d : Device)
    → set_up w d ≡ record { calls = d.calls ++ configuration w.initialized; polls = d.polls }
unfolding set_up
set_up_calls w d = elim (Bool-cases w.initialized) [
  | inl done ↦ rw (done, append-nil)
  | inr first ↦ rw first
]

module _ (tx_ready : ℕ → Bool) (fuel : ℕ) (responds : IsResponsive tx_ready fuel) where
  -- On a device that becomes ready within `fuel` questions each time, a write returns: it has
  -- configured the UART unless that was done before, then sent its bytes in order and nothing else.
  pub write-sends :
      (w : Writer) (buf : List ℕ) (d : Device)
      → (n : ℕ) × (write tx_ready fuel w buf d
          ≡ some (
            record { initialized = true },
            record {
              calls = d.calls ++ (configuration w.initialized ++ map send_byte buf);
              polls = n;
            },
          ))
  unfolding write set_initialized
  write-sends w buf d =
      let (n, e) = send_all-sends tx_ready fuel responds buf (set_up w d) in
      (
        n,
        rw (
          e,
          set_up_calls w d,
          append_assoc d.calls (configuration w.initialized) (map send_byte buf),
        ),
      )

  more_writes :
      (bufs : List (List ℕ)) (d : Device)
      → (n : ℕ) × (write_each tx_ready fuel (record { initialized = true }) bufs d
          ≡ some (
            record { initialized = true },
            record { calls = d.calls ++ map send_byte (concat bufs); polls = n },
          ))
  unfolding write_each
  more_writes [] d = (d.polls, rw append-nil)
  more_writes (buf ∷ bufs) d =
      let (n, e) = write-sends (record { initialized = true }) buf d in
      let (m, rest) =
        more_writes bufs (record { calls = d.calls ++ map send_byte buf; polls = n }) in
      (
        m,
        rw (
          e,
          rest,
          append_assoc d.calls (map send_byte buf) (map send_byte (concat bufs)),
          map-append send_byte buf (concat bufs),
        ),
      )

  -- Over any number of writes the device sees the configuration at most once, before the first byte
  -- and only if nobody claimed it done, and then the bytes of all writes in order.
  pub write_each-sends :
      (w : Writer) (buf : List ℕ) (bufs : List (List ℕ)) (d : Device)
      → (n : ℕ) × (write_each tx_ready fuel w (buf ∷ bufs) d
          ≡ some (
            record { initialized = true },
            record {
              calls =
                  d.calls ++ (configuration w.initialized ++ map send_byte (concat (buf ∷ bufs)));
              polls = n;
            },
          ))
  unfolding write_each
  write_each-sends w buf bufs d =
      let (n, e) = write-sends w buf d in
      let first = configuration w.initialized ++ map send_byte buf in
      let (m, rest) = more_writes bufs (record { calls = d.calls ++ first; polls = n }) in
      (
        m,
        rw (
          e,
          rest,
          append_assoc d.calls first (map send_byte (concat bufs)),
          append_assoc (configuration w.initialized) (map send_byte buf)
              (map send_byte (concat bufs)),
          map-append send_byte buf (concat bufs),
        ),
      )
