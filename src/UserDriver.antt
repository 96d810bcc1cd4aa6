-- ===== src/UserDriver.antt =====
-- The user-space network driver, applications/drivers/network.c: `network_get` and `network_post`. The
-- system calls and `calloc` are libtock-c's, which is not in the repository: a record `Libtock` of
-- functions on the state of the process and the kernel, whatever that is.
pub mod Cleanup
pub mod Refusals
mod Tests
use micro_morse_chat.Prelude.{ℕ, Bool, List, Option, none, some, if◌then◌else◌}
use micro_morse_chat.Stdio.{◌>>=◌}

-- The system calls of the driver of number `DRIVER_NUM_NETWORK`. A call returns the new state and
-- whether it succeeded; a null buffer is `none`. An array is known by its address, and so is the variable
-- that an upcall of `request_done` is given: a null upcall is `none`. `done_address` is that of the local
-- variable `done` of `network_get`. `yield_for` is `none` where its wait never ends.
pub record Libtock (W : Type 0) : Type 0 where
  pub calloc : W → ℕ → W × Option ℕ
  pub allow_readonly : W → ℕ → Option (List ℕ) → W × Bool
  pub allow_readwrite : W → ℕ → Option ℕ → W × Bool
  pub done_address : ℕ
  pub subscribe : W → ℕ → Option ℕ → W × Bool
  pub command : W → ℕ → ℕ → ℕ → W × Bool
  pub yield_for : W → Option W

abbrev pub command_get : ℕ
command_get = 0

abbrev pub command_post : ℕ
command_post = 1

module _ {W : Type 0} (lib : Libtock W) where
  -- The label `unallow_ro` and what follows it.
  unfoldable pub unallow_ro : ℕ → W → Option (W × Option ℕ)
  unallow_ro data_buffer w =
      let (w', _) = lib.allow_readonly w 0 none in some (w', some data_buffer)

  -- The label `unallow_rw` and what follows it.
  unfoldable pub unallow_rw : ℕ → W → Option (W × Option ℕ)
  unfolding unallow_ro
  unallow_rw data_buffer w = let (w', _) = lib.allow_readwrite w 0 none in unallow_ro data_buffer w'

  -- The wait, if the request was accepted.
  unfoldable pub await : ℕ → W × Bool → Option (W × Option ℕ)
  unfolding unallow_rw
  await data_buffer (w, started) =
      if started
      then (do w' ← lib.yield_for w; unallow_rw data_buffer w')
      else unallow_rw data_buffer w

  unfoldable pub request_get : ℕ → W × Bool → Option (W × Option ℕ)
  unfolding await
  request_get data_buffer (w, subscribed) =
      if subscribed
      then await data_buffer (lib.command w 1 command_get 0)
      else unallow_rw data_buffer w

  unfoldable pub subscribe_get : ℕ → W × Bool → Option (W × Option ℕ)
  unfolding request_get
  subscribe_get data_buffer (w, shared) =
      if shared
      then request_get data_buffer (lib.subscribe w 0 (some lib.done_address))
      else unallow_rw data_buffer w

  unfoldable pub share_get : ℕ → W × Bool → Option (W × Option ℕ)
  unfolding subscribe_get unallow_ro
  share_get data_buffer (w, addressed) =
      if addressed
      then subscribe_get data_buffer (lib.allow_readwrite w 0 (some data_buffer))
      else unallow_ro data_buffer w

  unfoldable pub address_get : List ℕ → W × Option ℕ → Option (W × Option ℕ)
  unfolding share_get
  address_get url (w, none) = some (w, none)
  address_get url (w, some data_buffer) = share_get data_buffer (lib.allow_readonly w 0 (some url))

  -- The string behind `url` is its bytes.
  unfoldable pub network_get : List ℕ → ℕ → W → Option (W × Option ℕ)
  unfolding address_get
  network_get url len w = address_get url (lib.calloc w len)

  -- The labels `unallow_ro1` and `unallow_ro0`.
  unfoldable pub unallow_post : W → W
  unallow_post w =
      let (w', _) = lib.allow_readonly w 1 none in
      let (w'', _) = lib.allow_readonly w' 0 none in w''

  unfoldable pub send_payload : W × Bool → W
  unfolding unallow_post
  send_payload (w, shared) =
      if shared
      then (let (w', _) = lib.command w 1 command_post 0 in unallow_post w')
      else unallow_post w

  unfoldable pub network_post : List ℕ → List ℕ → W → W
  unfolding send_payload
  network_post url payload w =
      let (w', addressed) = lib.allow_readonly w 0 (some url) in
      if addressed
      then send_payload (lib.allow_readonly w' 1 (some payload))
      else (let (w'', _) = lib.allow_readonly w' 0 none in w'')
