-- ===== src/Prelude/Slices.antt =====
-- How indexing and slice copies act on a buffer that is written as a concatenation.
use Prim.Native.Nat.{ℕ, zero, suc, ◌+◌, ◌≤◌, ◌<◌}
use mathlib.Core.Path.{◌≡◌, refl, ap, ◌∙◌}
use mathlib.Core.List.{List, [], ◌∷◌, ◌++◌, append_assoc}
use native.Mathlib.Nat.{suc-add}
use native.Mathlib.Omega.{arith}
use micro_morse_chat.Prelude.Tests.{lt→ltb, le→ltb, le→leb, lt→leb}
use micro_morse_chat.Prelude.Lists.{
  length, set, take, drop, length-set, length-take, length-drop, length-append, take-append,
  drop-append,
}
use micro_morse_chat.Prelude.Rust.{Outcome, done, panic, ◌>>=◌, store, copy_at, prefix}

module _ {ℓ} {A : Type ℓ} where
  pub set-append :
      (p : List A) (y : A) (r : List A) (v : A) → set (p ++ y ∷ r) (length p) v ≡ p ++ v ∷ r
  set-append [] y r v = refl
  set-append (x ∷ p) y r v = ap (λ t. x ∷ t) (set-append p y r v)

  pub drop-append_add : (p q : List A) (n : ℕ) → drop (length p + n) (p ++ q) ≡ drop n q
  drop-append_add [] q n = ground arith
  drop-append_add (x ∷ p) q n = rw suc-add (drop-append_add p q n)

  -- A list is cut at any place within it.
  pub cut :
      (n : ℕ) (b : List A)
      → n ≤ length b
      → (p : List A) × (q : List A) × (b ≡ p ++ q) × (length p ≡ n)
  cut zero b h = ([], b, refl, refl)
  cut (suc n) [] h = absurd (omega arith)
  cut (suc n) (x ∷ b) h =
      let (p, q, e, l) = cut n b (omega arith) in (x ∷ p, q, ap (λ t. x ∷ t) e, ap suc l)

-- A list longer than `n` is cut before and after its element at `n`.
pub cut_at {ℓ} :
    {A : Type ℓ} (n : ℕ) (b : List A)
    → n < length b
    → (p : List A) × (y : A) × (r : List A) × (b ≡ p ++ y ∷ r) × (length p ≡ n)
cut_at n [] h = absurd (omega arith)
cut_at zero (x ∷ b) h = ([], x, b, refl, refl)
cut_at (suc n) (x ∷ b) h =
    let (p, y, r, e, l) = cut_at n b (omega arith) in (x ∷ p, y, r, ap (λ t. x ∷ t) e, ap suc l)

-- A buffer starts with the bytes `frame`, and keeps its own behind them.
abbrev pub overlay : List ℕ → List ℕ → List ℕ
overlay frame buffer = frame ++ drop (length frame) buffer

pub copy_at_lem :
    (start : ℕ) (p q r source : List ℕ)
    → length p ≡ start
    → length q ≡ length source
    → copy_at (p ++ (q ++ r)) start source ≡ done (p ++ (source ++ r))
unfolding copy_at
copy_at_lem start p q r source ep eq =
    let fits : start + length source ≤ length (p ++ (q ++ r)) =
      omega (arith, length-append p (q ++ r), length-append q r) in
    let kept : take start (p ++ (q ++ r)) ≡ p = rw (← ep) (take-append p (q ++ r)) in
    let rest : drop (start + length source) (p ++ (q ++ r)) ≡ r =
      rw (← ep, ← eq, drop-append_add p (q ++ r) (length q)) (drop-append q r) in
    rw (le→leb _ _ fits, kept, rest)

pub copy_at_panics :
    (start : ℕ) (buffer source : List ℕ)
    → length buffer < start + length source
    → copy_at buffer start source ≡ panic
unfolding copy_at
copy_at_panics start buffer source h = rw (lt→leb _ _ h)

pub store_lem :
    (i : ℕ) (p : List ℕ) (y : ℕ) (r : List ℕ) (v : ℕ)
    → length p ≡ i
    → store (p ++ y ∷ r) i v ≡ done (p ++ v ∷ r)
unfolding store
store_lem i p y r v e =
    let inside : i < length (p ++ y ∷ r) = omega (arith, length-append p (y ∷ r)) in
    rw (lt→ltb _ _ inside, ← e, set-append p y r v)

pub store_panics : (i : ℕ) (buffer : List ℕ) (v : ℕ) → length buffer ≤ i → store buffer i v ≡ panic
unfolding store
store_panics i buffer v h = rw (le→ltb _ _ h)

pub prefix_lem :
    (end : ℕ) (buffer : List ℕ) → end ≤ length buffer → prefix buffer end ≡ done (take end buffer)
unfolding prefix
prefix_lem end buffer h = rw (le→leb _ _ h)

pub prefix_panics : (end : ℕ) (buffer : List ℕ) → length buffer < end → prefix buffer end ≡ panic
unfolding prefix
prefix_panics end buffer h = rw (lt→leb _ _ h)

-- The same behind two and more parts.
pub store_second :
    (i : ℕ) (m a : List ℕ) (y : ℕ) (r : List ℕ) (v : ℕ)
    → length m + length a ≡ i
    → store (m ++ (a ++ y ∷ r)) i v ≡ done (m ++ (a ++ v ∷ r))
store_second i m a y r v e = rw (
  ← append_assoc m a (y ∷ r),
  store_lem i (m ++ a) y r v (omega (arith, length-append m a)),
  append_assoc m a (v ∷ r),
)

pub regroup : (m a : List ℕ) (y : ℕ) (t : List ℕ) → (m ++ (a ++ y ∷ [])) ++ t ≡ m ++ (a ++ y ∷ t)
regroup m a y t = simp append_assoc

pub length-regroup : (m a : List ℕ) (y : ℕ) → length (m ++ (a ++ y ∷ [])) ≡ length m + length a + 1
length-regroup m a y = omega (arith, length-append m (a ++ y ∷ []), length-append a (y ∷ []))

pub drop_third :
    (i : ℕ) (m a : List ℕ) (y : ℕ) (t : List ℕ)
    → i ≡ length m + length a + 1
    → drop i (m ++ (a ++ y ∷ t)) ≡ t
drop_third i m a y t e =
    rw (e, ← length-regroup m a y, ← regroup m a y t) (drop-append (m ++ (a ++ y ∷ [])) t)

pub copy_third :
    (i : ℕ) (m a : List ℕ) (y : ℕ) (d t source : List ℕ)
    → length m + length a + 1 ≡ i
    → length d ≡ length source
    → copy_at (m ++ (a ++ y ∷ (d ++ t))) i source ≡ done (m ++ (a ++ y ∷ (source ++ t)))
copy_third i m a y d t source e l = rw (
  ← regroup m a y (d ++ t),
  copy_at_lem i (m ++ (a ++ y ∷ [])) d t source (length-regroup m a y ∙ e) l,
  regroup m a y (source ++ t),
)

pub store_fourth :
    (i : ℕ) (m a : List ℕ) (y : ℕ) (d : List ℕ) (z : ℕ) (r : List ℕ) (v : ℕ)
    → length m + length a + 1 + length d ≡ i
    → store (m ++ (a ++ y ∷ (d ++ z ∷ r))) i v ≡ done (m ++ (a ++ y ∷ (d ++ v ∷ r)))
store_fourth i m a y d z r v e = rw (
  ← regroup m a y (d ++ z ∷ r),
  store_second i (m ++ (a ++ y ∷ [])) d z r v (omega (arith, length-regroup m a y)),
  regroup m a y (d ++ v ∷ r),
)

-- Neither kind of write changes the length of a buffer.
pub copy_at-length :
    (buffer : List ℕ) (start : ℕ) (source : List ℕ) {b : List ℕ}
    → copy_at buffer start source ≡ done b
    → length b ≡ length buffer
unfolding copy_at
copy_at-length buffer start source {b} h = ground (
  arith,
  length-append (take start buffer) (source ++ drop (start + length source) buffer),
  length-append source (drop (start + length source) buffer),
  length-take start buffer,
  length-drop (start + length source) buffer,
)

pub store-length :
    (buffer : List ℕ) (i v : ℕ) {b : List ℕ}
    → store buffer i v ≡ done b
    → (length b ≡ length buffer) × (i < length buffer)
unfolding store
store-length buffer i v h = ground (arith, length-set buffer i v)

-- Inversion of a bind that did not panic.
pub >>=-eq-done {ℓ κ} :
    {A : Type ℓ} {B : Type κ} (m : Outcome A) (f : A → Outcome B) {b : B}
    → (m >>= f) ≡ done b
    → (a : A) × (m ≡ done a) × (f a ≡ done b)
>>=-eq-done (done a) f h = (a, refl, h)
>>=-eq-done panic f h = cc
