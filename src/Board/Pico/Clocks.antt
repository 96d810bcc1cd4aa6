-- ===== src/Board/Pico/Clocks.antt =====
-- `init_clocks` of kernel/raspberry_pi_pico/src/main.rs: the calls that it makes, in order, and the
-- frequencies that they set up and declare. The clock hardware is the rp2040 crate's, which is not
-- in the repository: it is any state that the calls change by the documented formula of the PLLs.
use micro_morse_chat.Prelude.{
  ℕ, ◌*◌, ◌/◌, ◌≡◌, ◌∙◌, refl, Bool, true, false, List, [], ◌∷◌, Option, none, some, ◌==◌,
  if◌then◌else◌, arith,
}

pub data PllClock : Type 0 where
  sys usb : PllClock

-- The peripherals that the reset controller is asked for, here and in `main`.
pub data Peripheral : Type 0 where
  pll_sys pll_usb io_qspi pads_qspi adc rtc spi0 spi1 uart0 uart1 usb_ctrl : Peripheral

-- The sources that `init_clocks` names, of the enumerations of all clocks.
pub data Source : Type 0 where
  xosc auxiliary : Source

pub data Auxiliary : Type 0 where
  from_pll_sys from_pll_usb from_system : Auxiliary

pub data Call : Type 0 where
  start_tick : ℕ → Call
  disable_resus init_xosc disable_sys_aux disable_ref_aux : Call
  reset : List Peripheral → Call
  unreset : List Peripheral → Bool → Call
  pll_init : PllClock → ℕ → ℕ → ℕ → ℕ → ℕ → Call
  configure_reference configure_system : Source → Auxiliary → ℕ → ℕ → Call
  configure_usb configure_adc configure_rtc : Auxiliary → ℕ → ℕ → Call
  configure_peripheral : Auxiliary → ℕ → Call

unfoldable pub init_clocks : List Call
init_clocks =
    start_tick 12
    ∷ disable_resus
    ∷ init_xosc
    ∷ disable_sys_aux
    ∷ disable_ref_aux
    ∷ reset (pll_sys ∷ pll_usb ∷ [])
    ∷ unreset (pll_sys ∷ pll_usb ∷ []) true
    ∷ pll_init sys 12 1 (1500 * 1000000) 6 2
    ∷ pll_init usb 12 1 (480 * 1000000) 5 2
    ∷ configure_reference xosc from_pll_usb 12000000 12000000
    ∷ configure_system auxiliary from_pll_sys 125000000 125000000
    ∷ configure_usb from_pll_sys 48000000 48000000
    ∷ configure_adc from_pll_usb 48000000 48000000
    ∷ configure_rtc from_pll_sys 48000000 46875
    ∷ configure_peripheral from_system 125000000
    ∷ []

-- The PLL that a call selects as the source, with the frequency that it declares for it.
abbrev from_pll : Auxiliary → ℕ → Option (PllClock × ℕ)
from_pll from_pll_sys f = some (sys, f)
from_pll from_pll_usb f = some (usb, f)
from_pll from_system f = none

abbrev pub declared : Call → Option (PllClock × ℕ)
declared (configure_reference auxiliary a f g) = from_pll a f
declared (configure_system auxiliary a f g) = from_pll a f
declared (configure_usb a f g) = from_pll a f
declared (configure_adc a f g) = from_pll a f
declared (configure_rtc a f g) = from_pll a f
declared _ = none

-- The calls whose declared source frequency is not the PLL's.
abbrev agrees : (PllClock → ℕ) → Option (PllClock × ℕ) → Bool
agrees pll none = true
agrees pll (some (c, f)) = pll c == f

abbrev pub mismatches : (PllClock → ℕ) → List Call → List Call
mismatches pll [] = []
mismatches pll (c ∷ cs) =
    if agrees pll (declared c) then mismatches pll cs else c ∷ mismatches pll cs

-- A call other than `pll_init` and `reset` does not touch the PLLs.
abbrev pub spares : Call → Bool
spares (pll_init c f d v p q) = false
spares (reset ps) = false
spares _ = true

abbrev pub run_calls {ℓ} : {S : Type ℓ} → (Call → S → S) → List Call → S → S
run_calls apply [] s = s
run_calls apply (c ∷ cs) s = run_calls apply cs (apply c s)

-- The clock hardware: a PLL runs at its VCO frequency over both post dividers.
pub record IsPlls {S : Type 0} (apply : Call → S → S) (pll : PllClock → S → ℕ) : Type 0 where
  pub sets :
      (c : PllClock) (f d v p q : ℕ) (s : S) → pll c (apply (pll_init c f d v p q) s) ≡ v / (p * q)
  pub keeps_sys : (f d v p q : ℕ) (s : S) → pll sys (apply (pll_init usb f d v p q) s) ≡ pll sys s
  pub spared : (c : PllClock) (x : Call) (s : S) → spares x ≡ true → pll c (apply x s) ≡ pll c s

abbrev all_spare : List Call → Bool
all_spare [] = true
all_spare (x ∷ xs) = if spares x then all_spare xs else false

spared_run :
    {S : Type 0} (apply : Call → S → S) (pll : PllClock → S → ℕ)
    → IsPlls apply pll
    → (c : PllClock) (xs : List Call) (s : S) → all_spare xs ≡ true
    → pll c (run_calls apply xs s) ≡ pll c s
spared_run apply pll h c [] s e = refl
spared_run apply pll h c (x ∷ xs) s e =
    spared_run apply pll h c xs (apply x s) (ground arith) ∙ h.spared c x s (ground arith)

-- The calls behind the two PLL setups.
abbrev configures : List Call
configures =
    configure_reference xosc from_pll_usb 12000000 12000000
    ∷ configure_system auxiliary from_pll_sys 125000000 125000000
    ∷ configure_usb from_pll_sys 48000000 48000000
    ∷ configure_adc from_pll_usb 48000000 48000000
    ∷ configure_rtc from_pll_sys 48000000 46875
    ∷ configure_peripheral from_system 125000000
    ∷ []

module _ {S : Type 0} (apply : Call → S → S) (pll : PllClock → S → ℕ) (h : IsPlls apply pll)
    (s : S) where
  -- The state before the PLLs are set up.
  abbrev before : S
  before =
      run_calls apply
        (start_tick 12
          ∷ disable_resus
          ∷ init_xosc
          ∷ disable_sys_aux
          ∷ disable_ref_aux
          ∷ reset (pll_sys ∷ pll_usb ∷ [])
          ∷ unreset (pll_sys ∷ pll_usb ∷ []) true
          ∷ [])
        s

  sys_frequency : pll sys (run_calls apply init_clocks s) ≡ 125000000
  unfolding init_clocks
  sys_frequency =
      let u = apply (pll_init sys 12 1 1500000000 6 2) before in
      spared_run apply pll h sys configures (apply (pll_init usb 12 1 480000000 5 2) u) refl
      ∙ h.keeps_sys 12 1 480000000 5 2 u
      ∙ h.sets sys 12 1 1500000000 6 2 before

  usb_frequency : pll usb (run_calls apply init_clocks s) ≡ 48000000
  unfolding init_clocks
  usb_frequency =
      let u = apply (pll_init sys 12 1 1500000000 6 2) before in
      spared_run apply pll h usb configures (apply (pll_init usb 12 1 480000000 5 2) u) refl
      ∙ h.sets usb 12 1 480000000 5 2 u

two_mismatches :
    (pll : PllClock → ℕ)
    → pll sys ≡ 125000000
    → pll usb ≡ 48000000
    → mismatches pll init_clocks
      ≡ configure_usb from_pll_sys 48000000 48000000
        ∷ configure_rtc from_pll_sys 48000000 46875
        ∷ []
unfolding init_clocks
two_mismatches pll e f = rw (e, f)

-- On such hardware, in any state, `init_clocks` leaves the system PLL at 125 MHz and the USB PLL at
-- 48 MHz, and declares the right frequency for the PLL it selects for every clock but two: the USB
-- clock and the RTC select the system PLL and declare 48 MHz.
pub init_clocks-frequencies :
    {S : Type 0} (apply : Call → S → S) (pll : PllClock → S → ℕ)
    → IsPlls apply pll
    → (s : S)
    → let t = run_calls apply init_clocks s in
      (pll sys t ≡ 125000000)
      × (pll usb t ≡ 48000000)
      × (mismatches (λ c. pll c t) init_clocks
          ≡ configure_usb from_pll_sys 48000000 48000000
            ∷ configure_rtc from_pll_sys 48000000 46875
            ∷ [])
init_clocks-frequencies apply pll h s =
    let a = sys_frequency apply pll h s in
    let b = usb_frequency apply pll h s in
    (a, b, two_mismatches (λ c. pll c (run_calls apply init_clocks s)) a b)
