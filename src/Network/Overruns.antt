-- ===== src/Network/Overruns.antt =====
-- When `command` of kernel/drivers/src/network.rs panics: its two guards are off by one and by two.
use native.Mathlib.Decide.{dec_lt, dec_le}
use micro_morse_chat.Prelude.{
  ℕ, ◌+◌, ◌<◌, ◌≤◌, ◌≡◌, ◌∙◌, ap, ◌⊎◌, ◌↔◌, inl, inr, List, done, panic, ◌>>=◌, length, overlay,
  arith,
}
use micro_morse_chat.Kernel.{ProcessId, CommandReturn, Kernel}
use micro_morse_chat.Network.{method_size, Network, transmit, with_buffer, command, returned}
use micro_morse_chat.Network.Frames.{length-get_frame, length-post_frame}
use micro_morse_chat.Network.Limits.{with_buffer-full, with_buffer-panics}
use micro_morse_chat.Network.Commands.{
  Composes, get, post, IsReady, taken, long_address, long_data, command-IsReady, taken-Composes,
  with_buffer-Composes, command-Drops,
}

-- The lengths that pass the guards and do not fit: the address fills the buffer behind the method,
-- or the line is one or two bytes longer than the buffer.
abbrev pub Overruns : List ℕ → List ℕ → List ℕ → Type 0
Overruns address frame buffer =
    (length address + method_size ≡ length buffer)
    ⊎ ((length address + method_size < length buffer)
        × (length buffer < length frame)
        × (length frame ≤ length buffer + 2))

module _ (k : Kernel) (n : Network) (r2 r3 : ℕ) (p : ProcessId) (address frame buffer : List ℕ)
    (ready : IsReady k n p address buffer) where
  done-not-panic :
      {m : Network × CommandReturn}
      → command k n 1 r2 r3 p ≡ done m
      → command k n 1 r2 r3 p ≡ panic
      → Overruns address frame buffer
  done-not-panic e h = cc

  -- The two ways for the line to be too long for the guards.
  long_line :
      Composes k n r2 p address frame
      → length address + method_size < length buffer
      → length buffer + 2 < length frame
      → command k n 1 r2 r3 p ≡ panic
      → Overruns address frame buffer
  long_line (get e f) room long = absurd (omega (arith, ap length f, length-get_frame address))
  long_line (post d pos reads f) room long = done-not-panic (
      command-Drops k n r2 r3 p address buffer ready (
        long_data d pos (omega arith) reads
          (omega (arith, ap length f, length-post_frame address d))))

  pub command-fits :
      Composes k n r2 p address frame
      → length frame ≤ length buffer
      → command k n 1 r2 r3 p
        ≡ done (returned (transmit k (taken n) p (overlay frame buffer) (length frame)))
  command-fits line fits =
      command-IsReady k n r2 r3 p address buffer ready
      ∙ ap (λ o. o >>= λ reply. done (returned reply))
          (with_buffer-Composes k (taken n) r2 p address frame buffer
            (taken-Composes k n r2 p address frame line) fits)

  panic-Overruns :
      Composes k n r2 p address frame
      → command k n 1 r2 r3 p ≡ panic
      → Overruns address frame buffer
  panic-Overruns line h = elim (dec_lt (length buffer) (length address + method_size)) [
    | yes long ↦
        done-not-panic (command-Drops k n r2 r3 p address buffer ready (long_address long)) h
    | no short ↦ elim (dec_lt (length address + method_size) (length buffer)) [
      | no full ↦ inl (omega arith)
      | yes room ↦ elim (dec_le (length frame) (length buffer)) [
        | yes fits ↦ done-not-panic (command-fits line fits) h
        | no over ↦ elim (dec_le (length frame) (length buffer + 2)) [
          | yes near ↦ inr (omega arith)
          | no long ↦ long_line line room (omega arith) h
        ]
      ]
    ]
  ]

  Overruns-with_buffer :
      Composes k n r2 p address frame
      → Overruns address frame buffer
      → with_buffer k (taken n) r2 p address buffer ≡ panic
  Overruns-with_buffer line (inl full) =
      with_buffer-full k (taken n) r2 p address buffer (omega arith)
  Overruns-with_buffer (get e f) (inr over) =
      absurd (omega (arith, ap length f, length-get_frame address))
  Overruns-with_buffer (post d pos reads f) (inr over) =
      with_buffer-panics k (taken n) r2 p address buffer d pos reads (omega arith)
        (grind (arith, ap length f, length-post_frame address d))

  -- A request of a ready driver panics exactly when its lengths overrun the buffer in the way that
  -- the guards let through.
  pub command_panics_iff :
      Composes k n r2 p address frame
      → (command k n 1 r2 r3 p ≡ panic) ↔ Overruns address frame buffer
  command_panics_iff line = (
    panic-Overruns line,
    λ over.
        command-IsReady k n r2 r3 p address buffer ready
        ∙ ap (λ o. o >>= λ reply. done (returned reply)) (Overruns-with_buffer line over),
  )
