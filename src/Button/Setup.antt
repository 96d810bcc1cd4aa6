-- ===== src/Button/Setup.antt =====
-- The set-up of applications/morse_button/morse_button.c: `setup_main_ipc` and `main`, as the calls on the
-- buttons and the value returned. `initial` of Button.antt has the zeroed message.
use micro_morse_chat.Prelude.{
  ℕ, zero, ◌≡◌, Bool, true, false, List, [], ◌∷◌, Option, none, some, ltb, if◌then◌else◌, arith,
}
use micro_morse_chat.Stdio.{ℤ, pos, negsuc}
use micro_morse_chat.Button.{left_button, right_button}

-- What the system answers: the number of buttons, and the return codes of the three IPC calls, where
-- `none` is RETURNCODE_SUCCESS.
pub record System : Type 0 where
  pub btn_count : ℕ
  pub ipc_discover : Option ℤ
  pub ipc_register_client_callback : Option ℤ
  pub ipc_share : Option ℤ

pub data Call : Type 0 where
  button_subscribe : Call
  button_enable_interrupt : ℕ → Call

pub setup_main_ipc : System → ℤ
setup_main_ipc sys = elim (sys.ipc_discover) [
  | some ret ↦ ret
  | none ↦ elim (sys.ipc_register_client_callback) [
    | some ret ↦ ret
    | none ↦ elim (sys.ipc_share) [ some ret ↦ ret | none ↦ pos 0 ]
  ]
]

abbrev is_zero : ℤ → Bool
is_zero (pos zero) = true
is_zero _ = false

pub main : System → List Call × ℤ
unfolding setup_main_ipc
main sys =
    if ltb sys.btn_count 1
    then (button_subscribe ∷ [], negsuc 0)
    else (let ret = setup_main_ipc sys in
        if is_zero ret
        then (
          button_subscribe
              ∷ button_enable_interrupt left_button
              ∷ button_enable_interrupt right_button
              ∷ [],
          pos 0,
        )
        else (button_subscribe ∷ [], ret))

-- The calls behind a value returned: the buttons are enabled where it is 0.
abbrev pub calls_for : ℤ → List Call
calls_for ret =
    if is_zero ret
    then button_subscribe ∷ button_enable_interrupt 0 ∷ button_enable_interrupt 1 ∷ []
    else button_subscribe ∷ []

-- Both buttons are enabled exactly in the runs of `main` that return 0.
pub main_enables : (sys : System) → (main sys).0 ≡ calls_for (main sys).1
unfolding main
main_enables sys = ground arith
