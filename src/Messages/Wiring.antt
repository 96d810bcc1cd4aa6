-- ===== src/Messages/Wiring.antt =====
-- The system calls of applications/drivers/network.c on the capsule of kernel/drivers/src/network.rs: the
-- kernel between them is reduced to the handles of the shared buffers.
use micro_morse_chat.Prelude.{
  ℕ, ◌≡◌, refl, ◌⊎◌, inl, inr, arith, Bool, true, false, List, Option, none, some, ok, err, done,
  panic, Outcome,
}
use micro_morse_chat.Kernel.{
  ProcessId, ReadOnlyProcessBuffer, ReadWriteProcessBuffer, CommandReturn, success, failure, Kernel,
}
use micro_morse_chat.Network.{Network, command}
use micro_morse_chat.Network.Allow.{
  Swapped, swap_address, swap_data_out, swap_data_in, allow_readonly, allow_readwrite,
}
use micro_morse_chat.UserDriver.{Libtock}

-- The capsule, or nothing where the board has stopped.
abbrev pub Board : Type 0
Board = Option Network

-- The answer to an allow call, as libtock passes it on.
abbrev pub allowed : {B : Type 0} → Swapped B → Board × Bool
allowed (n, ok old) = (some n, true)
allowed (n, err e) = (some n, false)

abbrev pub answered : Outcome (Network × CommandReturn) → Board × Bool
answered (done (n, success)) = (some n, true)
answered (done (n, failure e)) = (some n, false)
answered panic = (none, false)

-- The calls of process `p` on the capsule under the kernel `k`, where `handle` is the buffer that the
-- kernel makes of the bytes that a process shares. The calls that `network_post` does not make are
-- those of `base`.
abbrev pub on_capsule :
    Kernel → ProcessId → (Option (List ℕ) → ReadOnlyProcessBuffer) → Libtock Board → Libtock Board
on_capsule k p handle base = record base {
  allow_readonly = λ w num bytes. elim w [
    | none ↦ (none, false)
    | some n ↦ allowed (allow_readonly k n p num (handle bytes))
  ];
  command =
      λ w num r2 r3. elim w [ none ↦ (none, false) | some n ↦ answered (command k n num r2 r3 p) ];
}

-- The same with `allow_readwrite`, where `slot` is the buffer that the kernel makes of an array.
abbrev pub with_arrays :
    Kernel → ProcessId → (Option ℕ → ReadWriteProcessBuffer) → Libtock Board → Libtock Board
with_arrays k p slot base = record base {
  allow_readwrite = λ w num array. elim w [
    | none ↦ (none, false)
    | some n ↦ allowed (allow_readwrite k n p num (slot array))
  ];
}

-- The driver of the capsule is as it was, but for the grants.
pub record Undisturbed (n n' : Network) : Type 0 where
  pub same_state : n'.state ≡ n.state
  pub same_buffer : n'.buffer ≡ n.buffer
  pub same_uart : n'.uart ≡ n.uart
  pub same_effects : n'.effects ≡ n.effects

pub Undisturbed-trans : {a b c : Network} → Undisturbed a b → Undisturbed b c → Undisturbed a c
Undisturbed-trans {a} {b} {c} h h' = ground arith

pub allowed-some : {B : Type 0} (r : Swapped B) → (allowed r).0 ≡ some (r.0)
allowed-some (n, ok old) = refl
allowed-some (n, err e) = refl

pub allowed-cases :
    {B : Type 0} (r : Swapped B)
    → (allowed r ≡ (some (r.0), false)) ⊎ (allowed r ≡ (some (r.0), true))
allowed-cases (n, ok old) = inr refl
allowed-cases (n, err e) = inl refl

pub allow_readonly-Undisturbed :
    (k : Kernel) (p : ProcessId) (n : Network) (num : ℕ) (b : ReadOnlyProcessBuffer)
    → Undisturbed n (allow_readonly k n p num b).0
unfolding allow_readonly swap_address swap_data_out
allow_readonly-Undisturbed k p n num b = ground arith

pub allow_readwrite-Undisturbed :
    (k : Kernel) (p : ProcessId) (n : Network) (num : ℕ) (b : ReadWriteProcessBuffer)
    → Undisturbed n (allow_readwrite k n p num b).0
unfolding allow_readwrite swap_data_in
allow_readwrite-Undisturbed k p n num b = ground arith
