-- ===== src/Board/Pico/Writer.antt =====
-- The panic writer of kernel/raspberry_pi_pico/src/io.rs. The UARTs and pins are the rp2040 crate's:
-- here, the list of the calls made on them, in order, and the answer of `is_configured` to any such
-- list.
use mathlib.Core.List.{append_assoc, append-nil, map-append}
use micro_morse_chat.Prelude.{
  ℕ, ◌≡◌, Bool, true, false, List, [], ◌∷◌, ◌++◌, map, Option, none, some, if◌then◌else◌,
}
use micro_morse_chat.Board.Uart.{Parameters, panic_parameters, concat}
use micro_morse_chat.Board.Resources.{led_high, Panic}

-- UART0 is number 0; GPIO pins by their number.
pub data Call : Type 0 where
  configure : ℕ → Parameters → Call
  set_uart_function : ℕ → Call
  send_byte : ℕ → ℕ → Call

pub record Writer : Type 0 where
  pub uart : Option ℕ

-- The global `WRITER`.
abbrev pub start : Writer
start = record { uart = none }

unfoldable pub set_uart : ℕ → Writer → Writer
set_uart u w = record { uart = some u }

pub write_to_uart : ℕ → List ℕ → List Call → List Call
write_to_uart u [] calls = calls
write_to_uart u (c ∷ buf) calls = write_to_uart u buf (calls ++ send_byte u c ∷ [])

abbrev pub uart0_set_up : List Call
uart0_set_up = configure 0 panic_parameters ∷ set_uart_function 1 ∷ set_uart_function 0 ∷ []

-- `IoWrite::write`; `write_str` calls it with the bytes of the text.
pub write : (List Call → Bool) → Writer → List ℕ → List Call → List Call
write is_configured w buf calls = elim (w.uart) [
  | none ↦ write_to_uart 0 buf (if is_configured calls then calls else calls ++ uart0_set_up)
  | some u ↦ write_to_uart u buf calls
]

-- `panic_fmt`: the LED of the board, and the global writer.
abbrev pub panic_fmt : Writer → Panic Writer
panic_fmt writer = record { leds = led_high 25 ∷ []; writer = writer }

-- Several writes one after another.
pub write_each : (List Call → Bool) → Writer → List (List ℕ) → List Call → List Call
write_each is_configured w [] calls = calls
write_each is_configured w (buf ∷ bufs) calls =
    write_each is_configured w bufs (write is_configured w buf calls)

write_to_uart-sends :
    (u : ℕ) (buf : List ℕ) (calls : List Call)
    → write_to_uart u buf calls ≡ calls ++ map (send_byte u) buf
unfolding write_to_uart
write_to_uart-sends u [] calls = rw append-nil
write_to_uart-sends u (c ∷ buf) calls = rw (
  write_to_uart-sends u buf (calls ++ send_byte u c ∷ []),
  append_assoc calls (send_byte u c ∷ []) (map (send_byte u) buf),
)

-- With a UART set, every byte of every write goes to it, in order, and nothing is configured.
pub write_each-uart :
    (is_configured : List Call → Bool) (w : Writer) (u : ℕ) (bufs : List (List ℕ))
    (calls : List Call)
    → write_each is_configured (set_uart u w) bufs calls ≡ calls ++ map (send_byte u) (concat bufs)
unfolding write_each write set_uart
write_each-uart is_configured w u [] calls = rw append-nil
write_each-uart is_configured w u (buf ∷ bufs) calls = rw (
  write_to_uart-sends u buf calls,
  write_each-uart is_configured w u bufs (calls ++ map (send_byte u) buf),
  append_assoc calls (map (send_byte u) buf) (map (send_byte u) (concat bufs)),
  map-append (send_byte u) buf (concat bufs),
)

-- Once UART0 has been configured, it says so, whatever is sent later.
abbrev pub Remembers : (List Call → Bool) → Type 0
Remembers is_configured =
    (before after : List Call) → is_configured ((before ++ uart0_set_up) ++ after) ≡ true

module _ (is_configured : List Call → Bool) (remembers : Remembers is_configured) where
  write_configured :
      (buf : List ℕ) (calls : List Call)
      → is_configured calls ≡ true
      → write is_configured start buf calls ≡ calls ++ map (send_byte 0) buf
  unfolding write
  write_configured buf calls e = rw e (write_to_uart-sends 0 buf calls)

  -- After the set-up, all later writes only send.
  later_writes :
      (bufs : List (List ℕ)) (before after : List Call)
      → write_each is_configured start bufs ((before ++ uart0_set_up) ++ after)
        ≡ (before ++ uart0_set_up) ++ (after ++ map (send_byte 0) (concat bufs))
  unfolding write_each
  later_writes [] before after = simp (append-nil)
  later_writes (buf ∷ bufs) before after =
      let sent = after ++ map (send_byte 0) buf in
      rw (
        write_configured buf ((before ++ uart0_set_up) ++ after) (remembers before after),
        append_assoc (before ++ uart0_set_up) after (map (send_byte 0) buf),
        later_writes bufs before sent,
        append_assoc after (map (send_byte 0) buf) (map (send_byte 0) (concat bufs)),
        map-append (send_byte 0) buf (concat bufs),
      )

  -- With no UART set and UART0 not yet configured, any writes set UART0 up exactly once, before the
  -- first byte, and then send all bytes to it in order.
  pub write_each-uart0 :
      (buf : List ℕ) (bufs : List (List ℕ)) (calls : List Call)
      → is_configured calls ≡ false
      → write_each is_configured start (buf ∷ bufs) calls
        ≡ (calls ++ uart0_set_up) ++ map (send_byte 0) (concat (buf ∷ bufs))
  unfolding write_each write
  write_each-uart0 buf bufs calls e = rw (
    e,
    write_to_uart-sends 0 buf (calls ++ uart0_set_up),
    later_writes bufs calls (map (send_byte 0) buf),
    map-append (send_byte 0) buf (concat bufs),
  )
