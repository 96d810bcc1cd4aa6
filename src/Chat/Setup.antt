-- ===== src/Chat/Setup.antt =====
-- The set-up of applications/morse_chat/morse_chat.c: `setup_display_ipc`, and `main` up to the request of
-- `register_user`, from where Chat/Service.antt goes on.
use micro_morse_chat.Prelude.{◌≡◌, Bool, true, false, Option, none, some, if◌then◌else◌}
use micro_morse_chat.Stdio.{ℤ, pos, negsuc}
use micro_morse_chat.Chat.Service.{Chat, start}

-- What the system answers: whether there is a network driver, and the return codes of the three IPC
-- calls, where `none` is RETURNCODE_SUCCESS.
pub record System : Type 0 where
  pub driver_exists : Bool
  pub ipc_discover : Option ℤ
  pub ipc_register_client_callback : Option ℤ
  pub ipc_share : Option ℤ

pub setup_display_ipc : System → ℤ
setup_display_ipc sys = elim (sys.ipc_discover) [
  | some ret ↦ ret
  | none ↦ elim (sys.ipc_register_client_callback) [
    | some ret ↦ ret
    | none ↦ elim (sys.ipc_share) [ some ret ↦ ret | none ↦ pos 0 ]
  ]
]

-- `main` has returned, or waits for its user number.
pub data Started : Type 0 where
  stopped : ℤ → Started
  running : Chat → Started

abbrev pub is_negative : ℤ → Bool
is_negative (pos n) = false
is_negative (negsuc n) = true

pub set_up : System → ℤ → Started
unfolding setup_display_ipc
set_up sys num_messages =
    if sys.driver_exists
    then (let ret = setup_display_ipc sys in
        if is_negative ret then stopped ret else running (start num_messages))
    else stopped (negsuc 0)

-- A code that is not negative does not stop the set-up, whether it reports success or not: the
-- application starts without a display that it can call.
pub set_up_positive :
    (sys : System) (num : ℤ) (ret : ℤ)
    → sys.driver_exists ≡ true
    → sys.ipc_discover ≡ some ret
    → is_negative ret ≡ false
    → set_up sys num ≡ running (start num)
unfolding set_up
set_up_positive sys num ret has_driver refused positive = rw (has_driver, refused, positive)
