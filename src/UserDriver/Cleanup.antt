-- ===== src/UserDriver/Cleanup.antt =====
-- What applications/drivers/network.c leaves behind: the buffers that it shared with the kernel are
-- withdrawn on every path, its subscription is not.
use micro_morse_chat.Prelude.{
  ℕ, ◌≡◌, ◌≢◌, ◌∙◌, inl, inr, Bool, true, false, List, Option, none, some, Bool-cases, Option-cases,
  replicate, arith,
}
use micro_morse_chat.UserDriver.{Libtock, command_post, unallow_post, send_payload, network_post}

-- What can be seen of a state: the bytes of an array, and, for each number of the driver, the buffers
-- shared with it and the variable that the upcall subscribed is given.
pub record Views (W : Type 0) : Type 0 where
  pub contents : W → ℕ → List ℕ
  pub readonly : W → ℕ → Option (List ℕ)
  pub readwrite : W → ℕ → Option ℕ
  pub subscribed : W → ℕ → Option ℕ

-- The documented behaviour of the calls, as far as it is used: a call changes what it is about and
-- nothing else, and only if it succeeds; a null buffer withdraws the one shared before, and succeeds
-- where one is shared, since the process then has its grant; a refused command writes nothing.
pub record IsLibtock {W : Type 0} (lib : Libtock W) (v : Views W) : Type 0 where
  pub calloc_zeros :
      (w : W) (len b : ℕ)
      → (lib.calloc w len).1 ≡ some b
      → v.contents (lib.calloc w len).0 b ≡ replicate len 0
  pub calloc_readwrite : (w : W) (len n : ℕ) → v.readwrite (lib.calloc w len).0 n ≡ v.readwrite w n
  pub readonly_withdrawn :
      (w : W) (n : ℕ)
      → (lib.allow_readonly w n none).1 ≡ true
      → v.readonly (lib.allow_readonly w n none).0 n ≡ none
  pub readonly_failed :
      (w : W) (n : ℕ) (t : Option (List ℕ))
      → (lib.allow_readonly w n t).1 ≡ false
      → v.readonly (lib.allow_readonly w n t).0 n ≡ v.readonly w n
  pub readonly_held :
      (w : W) (n : ℕ) → v.readonly w n ≢ none → (lib.allow_readonly w n none).1 ≡ true
  pub readonly_other :
      (w : W) (n m : ℕ) (t : Option (List ℕ))
      → n ≢ m
      → v.readonly (lib.allow_readonly w n t).0 m ≡ v.readonly w m
  pub readonly_contents :
      (w : W) (n b : ℕ) (t : Option (List ℕ))
      → v.contents (lib.allow_readonly w n t).0 b ≡ v.contents w b
  pub readonly_readwrite :
      (w : W) (n m : ℕ) (t : Option (List ℕ))
      → v.readwrite (lib.allow_readonly w n t).0 m ≡ v.readwrite w m
  pub readonly_subscribed :
      (w : W) (n m : ℕ) (t : Option (List ℕ))
      → v.subscribed (lib.allow_readonly w n t).0 m ≡ v.subscribed w m
  pub readwrite_withdrawn :
      (w : W) (n : ℕ)
      → (lib.allow_readwrite w n none).1 ≡ true
      → v.readwrite (lib.allow_readwrite w n none).0 n ≡ none
  pub readwrite_failed :
      (w : W) (n : ℕ) (t : Option ℕ)
      → (lib.allow_readwrite w n t).1 ≡ false
      → v.readwrite (lib.allow_readwrite w n t).0 n ≡ v.readwrite w n
  pub readwrite_held :
      (w : W) (n : ℕ) → v.readwrite w n ≢ none → (lib.allow_readwrite w n none).1 ≡ true
  pub readwrite_contents :
      (w : W) (n b : ℕ) (t : Option ℕ) → v.contents (lib.allow_readwrite w n t).0 b ≡ v.contents w b
  pub readwrite_subscribed :
      (w : W) (n m : ℕ) (t : Option ℕ)
      → v.subscribed (lib.allow_readwrite w n t).0 m ≡ v.subscribed w m
  pub subscribe_succeeds :
      (w : W) (n : ℕ) (u : Option ℕ)
      → (lib.subscribe w n u).1 ≡ true
      → v.subscribed (lib.subscribe w n u).0 n ≡ u
  pub subscribe_contents :
      (w : W) (n b : ℕ) (u : Option ℕ) → v.contents (lib.subscribe w n u).0 b ≡ v.contents w b
  pub command_subscribed :
      (w : W) (a r2 r3 n : ℕ) → v.subscribed (lib.command w a r2 r3).0 n ≡ v.subscribed w n
  pub command_refused :
      (w : W) (a r2 r3 b : ℕ)
      → (lib.command w a r2 r3).1 ≡ false
      → v.contents (lib.command w a r2 r3).0 b ≡ v.contents w b
  pub yield_subscribed :
      (w w' : W) (n : ℕ) → lib.yield_for w ≡ some w' → v.subscribed w' n ≡ v.subscribed w n

module _ {W : Type 0} (lib : Libtock W) (v : Views W) (laws : IsLibtock lib v) where
  -- Whether it succeeds or not: a slot is empty behind a null buffer.
  readonly_null : (w : W) (n : ℕ) → v.readonly (lib.allow_readonly w n none).0 n ≡ none
  readonly_null w n = elim (Bool-cases (lib.allow_readonly w n none).1) [
    | inl done ↦ laws.readonly_withdrawn w n done
    | inr failed ↦ elim (Option-cases (v.readonly w n)) [
      | inl empty ↦ laws.readonly_failed w n none failed ∙ empty
      | inr (t, held) ↦
          let shared : v.readonly w n ≢ none = ground (arith, held) in
          let done = laws.readonly_held w n shared in absurd (ground (arith, done, failed))
    ]
  ]

  -- The call returns `b`, with both slots empty.
  pub record Ends (b : ℕ) (r : Option (W × Option ℕ)) : Type 0 where
    pub final : W
    pub final_eq : r ≡ some (final, some b)
    pub no_readonly : v.readonly final 0 ≡ none
    pub no_readwrite : v.readwrite final 0 ≡ none

  unallow_post-clean :
      (w : W)
      → (v.readonly (unallow_post lib w) 0 ≡ none) × (v.readonly (unallow_post lib w) 1 ≡ none)
  unfolding unallow_post
  unallow_post-clean w =
      let w' = (lib.allow_readonly w 1 none).0 in
      (readonly_null w' 0, laws.readonly_other w' 0 1 none (omega arith) ∙ readonly_null w 1)

  send_payload-clean :
      (r : W × Bool)
      → (v.readonly (send_payload lib r) 0 ≡ none) × (v.readonly (send_payload lib r) 1 ≡ none)
  unfolding send_payload
  send_payload-clean (w, true) = unallow_post-clean (lib.command w 1 command_post 0).0
  send_payload-clean (w, false) = unallow_post-clean w

  -- If no payload is shared before, `network_post` returns with neither the address nor the payload
  -- shared. Each of its calls may fail, but for the withdrawal of a buffer that is shared.
  pub network_post-clean :
      (url payload : List ℕ) (w : W)
      → v.readonly w 1 ≡ none
      → let w' = network_post lib url payload w in
        (v.readonly w' 0 ≡ none) × (v.readonly w' 1 ≡ none)
  unfolding network_post
  network_post-clean url payload w h =
      let w1 = (lib.allow_readonly w 0 (some url)).0 in
      elim (Bool-cases (lib.allow_readonly w 0 (some url)).1) [
        | inl addressed ↦ rw addressed (send_payload-clean (lib.allow_readonly w1 1 (some payload)))
        | inr refused ↦ rw refused (
          readonly_null w1 0,
          laws.readonly_other w1 0 1 none (omega arith)
              ∙ laws.readonly_other w 0 1 (some url) (omega arith)
              ∙ h,
        )
      ]
