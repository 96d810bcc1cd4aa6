-- ===== src/Prelude/Rust.antt =====
-- Results and panics as values. A panic of the kernel stops the board, so it keeps no state.
use Prim.Native.Nat.{ℕ, ◌+◌}
use mathlib.Core.Path.{◌≡◌, refl}
use mathlib.Core.Logic.{◌⊎◌, inl, inr}
use mathlib.Core.List.{List, ◌++◌}
use micro_morse_chat.Prelude.Tests.{ltb, leb, if◌then◌else◌}
use micro_morse_chat.Prelude.Lists.{length, set, take, drop}

-- Rust's `Result`.
pub data Result {ℓ κ} (A : Type ℓ) (E : Type κ) : Type (ℓ ⊔ κ) where
  ok : A → Result A E
  err : E → Result A E

pub Result-cases {ℓ κ} :
    {A : Type ℓ} {E : Type κ} (r : Result A E) → ((a : A) × (r ≡ ok a)) ⊎ ((e : E) × (r ≡ err e))
Result-cases (ok a) = inl (a, refl)
Result-cases (err e) = inr (e, refl)

pub data Outcome {ℓ} (A : Type ℓ) : Type ℓ where
  done : A → Outcome A
  panic : Outcome A

infixl 5 ◌>>=◌
abbrev pub ◌>>=◌ {ℓ κ} : {A : Type ℓ} {B : Type κ} → Outcome A → (A → Outcome B) → Outcome B
done a >>= f = f a
panic >>= f = panic

-- `buffer[i] = v`, which panics out of bounds.
unfoldable pub store : List ℕ → ℕ → ℕ → Outcome (List ℕ)
store buffer i v = if ltb i (length buffer) then done (set buffer i v) else panic

-- `&buffer[..end]`, which panics past the end.
unfoldable pub prefix : List ℕ → ℕ → Outcome (List ℕ)
prefix buffer end = if leb end (length buffer) then done (take end buffer) else panic

-- The bytes of `source` put over those of `buffer` from `start` on.
abbrev pub splice : List ℕ → ℕ → List ℕ → List ℕ
splice buffer start source = take start buffer ++ (source ++ drop (start + length source) buffer)

-- A copy of `source` into `buffer[start .. start + source.len()]`, which panics past the end.
unfoldable pub copy_at : List ℕ → ℕ → List ℕ → Outcome (List ℕ)
copy_at buffer start source =
    if leb (start + length source) (length buffer) then done (splice buffer start source) else panic
