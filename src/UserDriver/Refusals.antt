-- ===== src/UserDriver/Refusals.antt =====
-- `network_get` of applications/drivers/network.c where the kernel refuses its request or accepts it.
use micro_morse_chat.Prelude.{
  ℕ, ◌+◌, ◌*◌, ◌<◌, Bool-cases, ◌≡◌, refl, ◌∙◌, inl, inr, true, false, List, none, some, replicate,
  arith,
}
use micro_morse_chat.Stdio.{pos}
use micro_morse_chat.Chat.{parse_data}
use micro_morse_chat.Chat.Blank.{zeros, blank, parse_data-zeros}
use micro_morse_chat.UserDriver.{Libtock, command_get, unallow_rw, await, network_get}
use micro_morse_chat.UserDriver.Cleanup.{Views, IsLibtock}

-- The states that `network_get` goes through while its calls succeed.
module _ {W : Type 0} (lib : Libtock W) (url : List ℕ) (len b : ℕ) (w : W) where
  abbrev pub allocated : W
  allocated = (lib.calloc w len).0

  abbrev pub addressed : W
  addressed = (lib.allow_readonly allocated 0 (some url)).0

  abbrev pub shared : W
  shared = (lib.allow_readwrite addressed 0 (some b)).0

  abbrev pub awaited : W
  awaited = (lib.subscribe shared 0 (some lib.done_address)).0

  -- The calls before the command succeed, with the array `b`.
  pub record IsPrepared : Type 0 where
    pub has_array : (lib.calloc w len).1 ≡ some b
    pub has_address : (lib.allow_readonly allocated 0 (some url)).1 ≡ true
    pub has_buffer : (lib.allow_readwrite addressed 0 (some b)).1 ≡ true
    pub has_upcall : (lib.subscribe shared 0 (some lib.done_address)).1 ≡ true

  network_get-IsPrepared :
      IsPrepared → network_get lib url len w ≡ await lib b (lib.command awaited 1 command_get 0)
  unfolding network_get
  network_get-IsPrepared h = ground arith

  module _ (v : Views W) (laws : IsLibtock lib v) where
    -- The array is still zeroed when the command is given.
    awaited_zeros : IsPrepared → v.contents awaited b ≡ replicate len 0
    awaited_zeros h =
        laws.subscribe_contents shared 0 b (some lib.done_address)
        ∙ laws.readwrite_contents addressed 0 b (some b)
        ∙ laws.readonly_contents allocated 0 b (some url)
        ∙ laws.calloc_zeros w len b h.has_array

    unallow_rw-keeps :
        (w1 : W)
        → (w' : W) × (unallow_rw lib b w1 ≡ some (w', some b))
          × (v.contents w' b ≡ v.contents w1 b)
          × (v.subscribed w' 0 ≡ v.subscribed w1 0)
    unfolding unallow_rw
    unallow_rw-keeps w1 =
        let w2 = (lib.allow_readwrite w1 0 none).0 in
        (
          (lib.allow_readonly w2 0 none).0,
          refl,
          laws.readonly_contents w2 0 b none ∙ laws.readwrite_contents w1 0 b none,
          laws.readonly_subscribed w2 0 0 none ∙ laws.readwrite_subscribed w1 0 0 none,
        )

    -- If the calls before the command succeed and the command is refused, as for a driver that is
    -- busy: `network_get` returns its array all the same, full of zeros. The chat application, which
    -- tests only for a null pointer, then makes up as many messages as it held before, `k`, each of
    -- user 0 and without a word, if `k` is below 10000 and 3 * `k` + 5 below the length of the array.
    pub refused_get_makes_up :
        (k : ℕ)
        → IsPrepared
        → (lib.command awaited 1 command_get 0).1 ≡ false
        → k < 10000
        → 3 * k + 5 < len
        → (w' : W) × (network_get lib url len w ≡ some (w', some b))
          × (v.contents w' b ≡ zeros len)
          × (parse_data (v.contents w' b) (pos k) ≡ some (pos k, replicate k blank))
    unfolding await
    refused_get_makes_up k h refused small room =
        let w1 = (lib.command awaited 1 command_get 0).0 in
        let (w', ended, kept, _) = unallow_rw-keeps w1 in
        let empty : v.contents w' b ≡ zeros len =
          kept ∙ laws.command_refused awaited 1 command_get 0 b refused ∙ awaited_zeros h in
        let returned : network_get lib url len w ≡ some (w', some b) =
          network_get-IsPrepared h ∙ rw refused ended in
        (w', returned, empty, rw empty (parse_data-zeros len k small room))

    -- If the calls before the command succeed and the wait ends, then whether the command was accepted
    -- or not, the upcall is still subscribed when `network_get` has returned, with the address of its
    -- local variable `done`.
    pub subscription_outlives :
        IsPrepared
        → ((w : W) → (w' : W) × (lib.yield_for w ≡ some w'))
        → (w' : W) × (network_get lib url len w ≡ some (w', some b))
          × (v.subscribed w' 0 ≡ some lib.done_address)
    unfolding await
    subscription_outlives h returns =
        let w1 = (lib.command awaited 1 command_get 0).0 in
        let held : v.subscribed w1 0 ≡ some lib.done_address =
          laws.command_subscribed awaited 1 command_get 0 0
          ∙ laws.subscribe_succeeds shared 0 (some lib.done_address) h.has_upcall in
        elim (Bool-cases (lib.command awaited 1 command_get 0).1) [
          | inl accepted ↦
              let (w2, waited) = returns w1 in
              let (w', ended, _, kept) = unallow_rw-keeps w2 in
              (
                w',
                network_get-IsPrepared h ∙ rw (accepted, waited) ended,
                kept ∙ laws.yield_subscribed w1 w2 0 waited ∙ held,
              )
          | inr refused ↦
              let (w', ended, _, kept) = unallow_rw-keeps w1 in
              (w', network_get-IsPrepared h ∙ rw refused ended, kept ∙ held)
        ]
