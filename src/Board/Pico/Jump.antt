-- ===== src/Board/Pico/Jump.antt =====
-- `jump_to_bootloader` of kernel/raspberry_pi_pico/src/main.rs: its instructions, on a Cortex-M0+ as the
-- ARMv6-M architecture describes it, as far as they go. Addresses are those of aligned words.
use micro_morse_chat.Prelude.{
  ℕ, ◌+◌, ◌-◌, ◌%◌, ◌^◌, ◌≡◌, ◌≢◌, Bool, true, false, List, [], ◌∷◌, ◌==◌, if◌then◌else◌, arith,
}

pub data Register : Type 0 where
  r0 r1 r2 : Register

-- Where the processor is: at the next instruction, at an address it has branched to, or in a fault.
pub data Place : Type 0 where
  inside : Place
  branched : ℕ → Place
  faulted : Place

pub record Cpu : Type 0 where
  pub register : Register → ℕ
  pub msp : ℕ
  pub memory : ℕ → ℕ
  pub place : Place

pub data Instruction : Type 0 where
  movs ldr_literal : Register → ℕ → Instruction
  str : Register → Register → Instruction
  ldmia_two : Register → Register → Register → Instruction
  msr_msp bx : Register → Instruction

abbrev same : Register → Register → Bool
same r0 r0 = true
same r1 r1 = true
same r2 r2 = true
same _ _ = false

abbrev put : Register → ℕ → (Register → ℕ) → Register → ℕ
put r x f q = if same r q then x else f q

-- The vector table offset register.
abbrev pub vtor : ℕ
vtor = 0xe000ed08

-- A word is 32 bits. The stack pointer ignores the lowest two bits, and a branch needs the lowest bit
-- of its address, which says that the code is Thumb.
pub step : Instruction → Cpu → Cpu
step (movs r n) c = record c { register = put r n c.register }
step (ldr_literal r n) c = record c { register = put r (n % 2 ^ 32) c.register }
step (str r a) c = record c { memory = λ i. if i == c.register a then c.register r else c.memory i }
step (ldmia_two a r q) c =
    let at = c.register a in
    record c {
      register =
          put q (c.memory ((at + 4) % 2 ^ 32))
            (put r (c.memory at) (put a ((at + 8) % 2 ^ 32) c.register));
    }
step (msr_msp r) c = record c { msp = c.register r - c.register r % 4 }
step (bx r) c = record c {
  place = if c.register r % 2 == 1 then branched (c.register r - 1) else faulted;
}

-- A processor that has left the code does none of it.
pub run : List Instruction → Cpu → Cpu
unfolding step
run [] c = c
run (i ∷ is) c = elim (c.place) [ inside ↦ run is (step i c) | branched a ↦ c | faulted ↦ c ]

unfoldable pub jump_to_bootloader : List Instruction
jump_to_bootloader =
    movs r0 0
    ∷ ldr_literal r1 (0xe0000000 + 0x0000ed08)
    ∷ str r0 r1
    ∷ ldmia_two r0 r1 r2
    ∷ msr_msp r1
    ∷ bx r2
    ∷ []

-- From any state, `jump_to_bootloader` ends where a reset begins: the vector table is at 0, and no other
-- word of the memory is changed; the main stack pointer is the word at 0, its lowest two bits cleared;
-- and the processor has branched to the address in the word at 4, if that word has the Thumb bit, and
-- faulted if not.
pub jump_to_bootloader_resets :
    (c : Cpu)
    → c.place ≡ inside
    → let c' = run jump_to_bootloader c in
      (c'.memory vtor ≡ 0)
      × ((i : ℕ) → i ≢ vtor → c'.memory i ≡ c.memory i)
      × (c'.msp ≡ c.memory 0 - c.memory 0 % 4)
      × (c'.place ≡ (if c.memory 4 % 2 == 1 then branched (c.memory 4 - 1) else faulted))
unfolding run step jump_to_bootloader
jump_to_bootloader_resets c h = (ground arith, (λ i ne. ground arith), ground arith, ground arith)
