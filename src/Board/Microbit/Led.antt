-- ===== src/Board/Microbit/Led.antt =====
-- The LEDs of kernel/microbit_v2/src/io.rs: what `panic_fmt` hands to the kernel, and `MatrixLed`, an LED
-- between two pins. The pins are the nrf52833 crate's: here, operations on any state `W`, and a record of
-- what they do to the levels.
use micro_morse_chat.Prelude.{ℕ, ◌≡◌, ◌≢◌, ap, ◌∙◌, Bool, true, false, not, List, [], ◌∷◌}
use micro_morse_chat.Board.Resources.{led_low, Panic}
use micro_morse_chat.Board.Microbit.{p0}
use micro_morse_chat.Board.Microbit.Writer.{Writer}

-- The LED of `panic_fmt`; the writer is the global one.
abbrev pub panic_fmt : Writer → Panic Writer
panic_fmt writer = record { leds = led_low (p0 20) ∷ []; writer = writer }

pub record Pins (W : Type 0) : Type 0 where
  pub make_output : ℕ → W → W
  pub set : ℕ → W → W
  pub clear : ℕ → W → W
  pub toggle : ℕ → W → W
  pub read : ℕ → W → Bool

-- Which pins are outputs is told by `output`. On an output, what is written is read back, and no
-- operation on one pin has an effect on another.
pub record IsPins {W : Type 0} (pins : Pins W) (output : ℕ → W → Bool) : Type 0 where
  pub output-make_output : (p : ℕ) (w : W) → output p (pins.make_output p w) ≡ true
  pub output-make_other :
      (p q : ℕ) (w : W) → output q w ≡ true → output q (pins.make_output p w) ≡ true
  pub output-set : (p q : ℕ) (w : W) → output q (pins.set p w) ≡ output q w
  pub output-clear : (p q : ℕ) (w : W) → output q (pins.clear p w) ≡ output q w
  pub output-toggle : (p q : ℕ) (w : W) → output q (pins.toggle p w) ≡ output q w
  pub read-set : (p : ℕ) (w : W) → output p w ≡ true → pins.read p (pins.set p w) ≡ true
  pub read-clear : (p : ℕ) (w : W) → output p w ≡ true → pins.read p (pins.clear p w) ≡ false
  pub read-toggle :
      (p : ℕ) (w : W) → output p w ≡ true → pins.read p (pins.toggle p w) ≡ not (pins.read p w)
  pub read-make_other :
      (p q : ℕ) (w : W) → q ≢ p → pins.read q (pins.make_output p w) ≡ pins.read q w
  pub read-set_other : (p q : ℕ) (w : W) → q ≢ p → pins.read q (pins.set p w) ≡ pins.read q w
  pub read-clear_other : (p q : ℕ) (w : W) → q ≢ p → pins.read q (pins.clear p w) ≡ pins.read q w
  pub read-toggle_other : (p q : ℕ) (w : W) → q ≢ p → pins.read q (pins.toggle p w) ≡ pins.read q w

-- The two fields.
pub record MatrixLed : Type 0 where
  pub first : ℕ
  pub second : ℕ

module _ {W : Type 0} (pins : Pins W) (led : MatrixLed) where
  pub init : W → W
  init w = pins.clear led.second (pins.make_output led.second (pins.make_output led.first w))

  pub on : W → W
  on w = pins.set led.second w

  pub off : W → W
  off w = pins.clear led.second w

  pub toggle : W → W
  toggle w = pins.toggle led.second w

  pub read : W → Bool
  read w = pins.read led.second w

-- What a driver does with an LED, and an LED that is nothing but its state.
pub data Switch : Type 0 where
  turn_on turn_off flip : Switch

abbrev pub lit_by : List Switch → Bool → Bool
lit_by [] lit = lit
lit_by (turn_on ∷ ss) lit = lit_by ss true
lit_by (turn_off ∷ ss) lit = lit_by ss false
lit_by (flip ∷ ss) lit = lit_by ss (not lit)

pub run : {W : Type 0} → Pins W → MatrixLed → List Switch → W → W
unfolding on off toggle
run pins led [] w = w
run pins led (turn_on ∷ ss) w = run pins led ss (on pins led w)
run pins led (turn_off ∷ ss) w = run pins led ss (off pins led w)
run pins led (flip ∷ ss) w = run pins led ss (toggle pins led w)

module _ {W : Type 0} (pins : Pins W) (output : ℕ → W → Bool) (laws : IsPins pins output)
    (led : MatrixLed) (apart : led.first ≢ led.second) where
  -- The state of the LED, and the level of the first pin.
  record Shows (w : W) (lit level : Bool) : Type 0 where
    is_output : output led.second w ≡ true
    is_lit : pins.read led.second w ≡ lit
    kept : pins.read led.first w ≡ level

  run-Shows :
      (ss : List Switch) (w : W) (lit level : Bool)
      → Shows w lit level
      → Shows (run pins led ss w) (lit_by ss lit) level
  unfolding run
  run-Shows [] w lit level h = h
  run-Shows (turn_on ∷ ss) w lit level h = run-Shows ss (pins.set led.second w) true level (record {
    is_output = laws.output-set led.second led.second w ∙ h.is_output;
    is_lit = laws.read-set led.second w h.is_output;
    kept = laws.read-set_other led.second led.first w apart ∙ h.kept;
  })
  run-Shows (turn_off ∷ ss) w lit level h =
      run-Shows ss (pins.clear led.second w) false level (record {
        is_output = laws.output-clear led.second led.second w ∙ h.is_output;
        is_lit = laws.read-clear led.second w h.is_output;
        kept = laws.read-clear_other led.second led.first w apart ∙ h.kept;
      })
  run-Shows (flip ∷ ss) w lit level h =
      run-Shows ss (pins.toggle led.second w) (not lit) level (record {
        is_output = laws.output-toggle led.second led.second w ∙ h.is_output;
        is_lit = laws.read-toggle led.second w h.is_output ∙ ap not h.is_lit;
        kept = laws.read-toggle_other led.second led.first w apart ∙ h.kept;
      })

  -- On pins that keep what is written to them and do not disturb each other, a `MatrixLed` of two pins
  -- that differ, once initialised, is an LED that begins dark, through any switching: what it reads is
  -- the state of that LED. Its first pin keeps the level that `make_output` gave it.
  pub run-lit_by :
      (ss : List Switch) (w : W)
      → let w' = run pins led ss (init pins led w) in
        (read pins led w' ≡ lit_by ss false)
        × (pins.read led.first w' ≡ pins.read led.first (pins.make_output led.first w))
  unfolding init read
  run-lit_by ss w =
      let w1 = pins.make_output led.first w in
      let w2 = pins.make_output led.second w1 in
      let out = laws.output-make_output led.second w1 in
      let begun : Shows (pins.clear led.second w2) false (pins.read led.first w1) = record {
        is_output = laws.output-clear led.second led.second w2 ∙ out;
        is_lit = laws.read-clear led.second w2 out;
        kept =
            laws.read-clear_other led.second led.first w2 apart
            ∙ laws.read-make_other led.second led.first w1 apart;
      } in
      let ended = run-Shows ss (pins.clear led.second w2) false (pins.read led.first w1) begun in
      (ended.is_lit, ended.kept)
