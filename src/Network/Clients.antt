-- ===== src/Network/Clients.antt =====
-- The UART's callbacks of kernel/drivers/src/network.rs: `TransmitClient` and `ReceiveClient`. Each
-- begins when the UART has handed the buffer back, so the line is quiet again.
use micro_morse_chat.Prelude.{
  ℕ, List, ◌∷◌, none, some, Result, ok, err, Outcome, done, ◌>>=◌, ltb, if◌then◌else◌, length,
  store, prefix, copy_at,
}
use micro_morse_chat.Kernel.{ProcessId, ErrorCode, ReadWriteProcessBuffer, Kernel}
use micro_morse_chat.Network.{idle, requesting, receiving, upcall, wrote, Network, Reply}

-- `grant_access.enter` with a closure that only schedules upcall 0 with the status and 0.
unfoldable pub notify : Kernel → Network → ProcessId → ErrorCode → Network
notify k n process_id error = elim (k.grant_error process_id) [
  | some _ ↦ n
  | none ↦ record n { effects = upcall process_id 0 (k.into_statuscode (err error)) 0 ∷ n.effects }
]

-- `if let NetworkState::Requesting(process_id) = self.state.get()` around it.
unfoldable pub notify_requester : Kernel → Network → ErrorCode → Network
unfolding notify
notify_requester k n error = elim (n.state) [
  | idle ↦ n
  | requesting process_id ↦ notify k n process_id error
]

-- The recovery of both error paths of `transmitted_buffer`.
unfoldable pub abort : Kernel → Network → List ℕ → ErrorCode → Network
unfolding notify_requester
abort k n buffer error =
    let n' = notify_requester k (record n { buffer = some buffer }) error in
    record n' { state = idle }

abbrev pub receive_len : ℕ
receive_len = 128

unfoldable pub transmitted_buffer :
    Kernel → Network → List ℕ → ℕ → Result (Unit {0}) ErrorCode → Network
unfolding abort
transmitted_buffer k n tx_buffer tx_len (ok _) = elim (k.receive_buffer tx_buffer receive_len) [
  | ok _ ↦ record n { uart = receiving tx_buffer receive_len }
  | err (error, buffer) ↦ abort k n buffer error
]
transmitted_buffer k n tx_buffer tx_len (err error) = abort k n tx_buffer error

-- The closure of `data_in.mut_enter`: what fits, with its closing 0, goes to the process.
unfoldable pub fill_data_in :
    Network → ReadWriteProcessBuffer → List ℕ → List ℕ → ℕ → Outcome Network
fill_data_in n handle data_in rx_buffer rx_len =
    if ltb rx_len (length data_in)
    then (do
      received ← prefix rx_buffer rx_len
      filled ← copy_at data_in 0 received
      closed ← store filled rx_len 0
      done (record n { effects = wrote handle closed ∷ n.effects }))
    else done n

-- `app_storage.data_in.mut_enter(…)` with its errors converted.
unfoldable pub write_data_in : Kernel → Network → ProcessId → List ℕ → ℕ → Outcome Reply
unfolding fill_data_in
write_data_in k n process_id rx_buffer rx_len =
    let handle = (n.grant_access process_id).data_in in
    elim (k.writable handle) [
      | err e ↦ done (n, err (k.into_error_code e))
      | ok data_in ↦ do n' ← fill_data_in n handle data_in rx_buffer rx_len; done (n', ok tt)
    ]

-- The upcall that reports the result and the number of bytes received.
unfoldable pub report : Kernel → ProcessId → ℕ → Reply → Network
report k process_id rx_len (n, res) = record n {
  effects = upcall process_id 0 (k.into_statuscode res) rx_len ∷ n.effects;
}

-- The closure of `grant_access.enter` on success.
unfoldable pub deliver : Kernel → Network → ProcessId → List ℕ → ℕ → Outcome Network
unfolding write_data_in report
deliver k n process_id rx_buffer rx_len = elim (k.grant_error process_id) [
  | some _ ↦ done n
  | none ↦ do
    reply ← write_data_in k n process_id rx_buffer rx_len
    done (report k process_id rx_len reply)
]

-- The match on `rval`.
unfoldable pub hand_over :
    Kernel → Network → List ℕ → ℕ → Result (Unit {0}) ErrorCode → Outcome Network
unfolding deliver notify_requester
hand_over k n rx_buffer rx_len (ok _) = elim (n.state) [
  | idle ↦ done n
  | requesting process_id ↦ deliver k n process_id rx_buffer rx_len
]
hand_over k n rx_buffer rx_len (err error) = done (notify_requester k n error)

unfoldable pub received_buffer :
    Kernel → Network → List ℕ → ℕ → Result (Unit {0}) ErrorCode → Outcome Network
unfolding hand_over
received_buffer k n rx_buffer rx_len rval = do
  n' ← hand_over k n rx_buffer rx_len rval
  done (record n' { buffer = some rx_buffer; state = idle })
