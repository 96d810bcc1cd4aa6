-- ===== src/Network/Allow.antt =====
-- The allow calls and the grant allocation of kernel/drivers/src/network.rs.
use micro_morse_chat.Prelude.{ℕ, none, some, Result, ok, err, ◌==◌, if◌then◌else◌}
use micro_morse_chat.Kernel.{
  ProcessId, ErrorCode, nosupport, Error, ReadOnlyProcessBuffer, ReadWriteProcessBuffer, Kernel,
}
use micro_morse_chat.Network.{AppStorage, Network}

-- The storage of one process changes, all others stay.
abbrev pub update : (ProcessId → AppStorage) → ProcessId → AppStorage → ProcessId → AppStorage
update f p v q = if p == q then v else f q

-- The two forms of the answer: the buffer that was swapped out, or the one given and an error.
abbrev pub Swapped : Type 0 → Type 0
Swapped B = Network × Result B (B × ErrorCode)

-- The first arm of `allow_readonly`: the buffer is swapped into `address`.
unfoldable pub swap_address :
    Kernel → Network → ProcessId → ReadOnlyProcessBuffer → Swapped ReadOnlyProcessBuffer
swap_address k n process_id buffer = elim (k.grant_error process_id) [
  | some e ↦ (n, err (buffer, k.into_error_code e))
  | none ↦
      let old = n.grant_access process_id in
      (
        record n {
          grant_access = update n.grant_access process_id (record old { address = buffer });
        },
        ok old.address,
      )
]

-- The second arm: the buffer is swapped into `data_out`.
unfoldable pub swap_data_out :
    Kernel → Network → ProcessId → ReadOnlyProcessBuffer → Swapped ReadOnlyProcessBuffer
swap_data_out k n process_id buffer = elim (k.grant_error process_id) [
  | some e ↦ (n, err (buffer, k.into_error_code e))
  | none ↦
      let old = n.grant_access process_id in
      (
        record n {
          grant_access = update n.grant_access process_id (record old { data_out = buffer });
        },
        ok old.data_out,
      )
]

unfoldable pub allow_readonly :
    Kernel → Network → ProcessId → ℕ → ReadOnlyProcessBuffer → Swapped ReadOnlyProcessBuffer
unfolding swap_address swap_data_out
allow_readonly k n process_id allow_num buffer =
    if allow_num == 0
    then swap_address k n process_id buffer
    else if allow_num == 1
    then swap_data_out k n process_id buffer
    else (n, err (buffer, nosupport))

-- The arm of `allow_readwrite`: the buffer is swapped into `data_in`.
unfoldable pub swap_data_in :
    Kernel → Network → ProcessId → ReadWriteProcessBuffer → Swapped ReadWriteProcessBuffer
swap_data_in k n process_id buffer = elim (k.grant_error process_id) [
  | some e ↦ (n, err (buffer, k.into_error_code e))
  | none ↦
      let old = n.grant_access process_id in
      (
        record n {
          grant_access = update n.grant_access process_id (record old { data_in = buffer });
        },
        ok old.data_in,
      )
]

unfoldable pub allow_readwrite :
    Kernel → Network → ProcessId → ℕ → ReadWriteProcessBuffer → Swapped ReadWriteProcessBuffer
unfolding swap_data_in
allow_readwrite k n process_id allow_num buffer =
    if allow_num == 0 then swap_data_in k n process_id buffer else (n, err (buffer, nosupport))

-- Entering the grant allocates it; the closure does nothing.
unfoldable pub allocate_grant : Kernel → Network → ProcessId → Network × Result (Unit {0}) Error
allocate_grant k n process_id = elim (k.grant_error process_id) [
  | some e ↦ (n, err e)
  | none ↦ (n, ok tt)
]
