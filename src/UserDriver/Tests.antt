-- ===== src/UserDriver/Tests.antt =====
-- applications/drivers/network.c over a small libtock, and each theorem at one of its states.
use micro_morse_chat.Prelude.{
  ℕ, ◌+◌, ◌≡◌, ◌≢◌, refl, Bool, true, false, List, [], ◌∷◌, Option, none, some, ◌==◌, if◌then◌else◌,
  replicate, arith,
}
use micro_morse_chat.Stdio.{pos}
use micro_morse_chat.Chat.{parse_data}
use micro_morse_chat.Chat.Blank.{zeros, blank}
use micro_morse_chat.UserDriver.{Libtock, network_get}
use micro_morse_chat.UserDriver.Cleanup.{Views, IsLibtock}
use micro_morse_chat.UserDriver.Refusals.{IsPrepared, refused_get_makes_up, subscription_outlives}

-- The arrays of a process, the first free address, and what the kernel holds of it.
record Process : Type 0 where
  arrays : ℕ → List ℕ
  free : ℕ
  read : ℕ → Option (List ℕ)
  written : ℕ → Option ℕ
  upcall : ℕ → Option ℕ

module _ {A : Type 0} where
  abbrev update : (ℕ → A) → ℕ → A → ℕ → A
  update f n x m = if n == m then x else f m

  update_same : (f : ℕ → A) (n : ℕ) (x : A) → update f n x n ≡ x
  update_same f n x = ground arith

  update_other : (f : ℕ → A) (n m : ℕ) (x : A) → n ≢ m → update f n x m ≡ f m
  update_other f n m x h = ground arith

abbrev views : Views Process
views = record {
  contents = λ w. w.arrays;
  readonly = λ w. w.read;
  readwrite = λ w. w.written;
  subscribed = λ w. w.upcall;
}

-- Arrays are shared or refused, commands accepted or refused; every other call succeeds, and every wait
-- ends.
abbrev libtock : Bool → Bool → Libtock Process
libtock shares accepts = record {
  calloc = λ w len. (
    record w { arrays = update w.arrays w.free (replicate len 0); free = w.free + 1 },
    some w.free,
  );
  allow_readonly = λ w n t. (record w { read = update w.read n t }, true);
  allow_readwrite = λ w n t. elim t [
    | none ↦ (record w { written = update w.written n none }, true)
    | some a ↦
        if shares then (record w { written = update w.written n (some a) }, true) else (w, false)
  ];
  done_address = 4000;
  subscribe = λ w n u. (record w { upcall = update w.upcall n u }, true);
  command = λ w a r2 r3. (w, accepts);
  yield_for = λ w. some w;
}

abbrev new_process : Process
new_process = record {
  arrays = λ n. [];
  free = 1;
  read = λ n. none;
  written = λ n. none;
  upcall = λ n. none;
}

readwrite_failed :
    (shares accepts : Bool) (w : Process) (n : ℕ) (t : Option ℕ)
    → ((libtock shares accepts).allow_readwrite w n t).1 ≡ false
    → views.readwrite ((libtock shares accepts).allow_readwrite w n t).0 n ≡ views.readwrite w n
readwrite_failed shares accepts w n none e = absurd (ground arith)
readwrite_failed true accepts w n (some a) e = absurd (ground arith)
readwrite_failed false accepts w n (some a) e = refl

readwrite_contents :
    (shares accepts : Bool) (w : Process) (n b : ℕ) (t : Option ℕ)
    → views.contents ((libtock shares accepts).allow_readwrite w n t).0 b ≡ views.contents w b
readwrite_contents shares accepts w n b none = refl
readwrite_contents true accepts w n b (some a) = refl
readwrite_contents false accepts w n b (some a) = refl

readwrite_subscribed :
    (shares accepts : Bool) (w : Process) (n m : ℕ) (t : Option ℕ)
    → views.subscribed ((libtock shares accepts).allow_readwrite w n t).0 m ≡ views.subscribed w m
readwrite_subscribed shares accepts w n m none = refl
readwrite_subscribed true accepts w n m (some a) = refl
readwrite_subscribed false accepts w n m (some a) = refl

libtock-IsLibtock : (shares accepts : Bool) → IsLibtock (libtock shares accepts) views
libtock-IsLibtock shares accepts = record {
  calloc_zeros = λ w len b e. ground arith;
  calloc_readwrite = λ w len n. refl;
  readonly_withdrawn = λ w n e. update_same w.read n none;
  readonly_failed = λ w n t e. absurd (ground arith);
  readonly_held = λ w n h. refl;
  readonly_other = λ w n m t h. update_other w.read n m t h;
  readonly_contents = λ w n b t. refl;
  readonly_readwrite = λ w n m t. refl;
  readonly_subscribed = λ w n m t. refl;
  readwrite_withdrawn = λ w n e. update_same w.written n none;
  readwrite_failed = readwrite_failed shares accepts;
  readwrite_held = λ w n h. refl;
  readwrite_contents = readwrite_contents shares accepts;
  readwrite_subscribed = readwrite_subscribed shares accepts;
  subscribe_succeeds = λ w n u e. update_same w.upcall n u;
  subscribe_contents = λ w n b u. refl;
  command_subscribed = λ w a r2 r3 n. refl;
  command_refused = λ w a r2 r3 b e. refl;
  yield_subscribed = λ w w' n e. ground arith;
}

waits_end : (w : Process) → (w' : Process) × (some w ≡ some w')
waits_end w = (w, refl)

abbrev address : List ℕ
address = b'u' ∷ b'r' ∷ b'l' ∷ []

new_process-IsPrepared :
    (accepts : Bool) → IsPrepared (libtock true accepts) address 1024 1 new_process
new_process-IsPrepared accepts = record {
  has_array = refl;
  has_address = refl;
  has_buffer = refl;
  has_upcall = refl;
}

refused_get_makes_up_example :
    (w' : Process) × (network_get (libtock true false) address 1024 new_process ≡ some (w', some 1))
    × (w'.arrays 1 ≡ zeros 1024)
    × (parse_data (w'.arrays 1) (pos 2) ≡ some (pos 2, replicate 2 blank))
refused_get_makes_up_example =
    refused_get_makes_up (libtock true false) address 1024 1 new_process views
      (libtock-IsLibtock true false) 2 (new_process-IsPrepared false) refl (omega arith)
      (omega arith)

subscription_outlives_example :
    (w' : Process) × (network_get (libtock true true) address 1024 new_process ≡ some (w', some 1))
    × (w'.upcall 0 ≡ some 4000)
subscription_outlives_example =
    subscription_outlives (libtock true true) address 1024 1 new_process views
      (libtock-IsLibtock true true) (new_process-IsPrepared true) waits_end
