-- ===== src/Chat/Service.antt =====
-- The running chat application of applications/morse_chat/morse_chat.c: its globals, `main_ipc_callback`,
-- `display_ipc_callback`, `register_user`, and the loop of `main`. `none` is an access outside an array.
-- Delays are the event `resumed`.
pub mod Lock
pub mod Answers
pub mod Senders
pub mod Round
pub mod Early
mod Tests
use micro_morse_chat.Prelude.{
  ℕ, Bool, true, false, not, List, [], ◌∷◌, ◌++◌, Option, none, some, ◌==◌, if◌then◌else◌,
  replicate,
}
use micro_morse_chat.Stdio.{ℤ, pos, ◌>>=◌, itoa, c_string, snprintf}
use micro_morse_chat.Chat.{Message, scan_count, parse_data}
use micro_morse_chat.Chat.Addresses.{users_url, endpoint}

-- Where `main` is: in the `network_get` of `register_user` or behind it with the reply; at the head of
-- its loop, in the `network_get` of `get_messages`, behind it with the reply, in the wait for the
-- display, in the delay behind a message or a round; with the messages left. It may also have returned.
pub data Main : Type 0 where
  registering : Main
  registered : Option (List ℕ) → Main
  looping fetching : Main
  fetched : Option (List ℕ) → Main
  showing delaying : List Message → Main
  returned : Main

-- What is left of a callback behind its wait: nothing, or the notice to the client.
pub data Rest : Type 0 where
  nothing : Rest
  then_notify : ℕ → Rest

-- The globals, and `num_messages` of `main`. The last six fields are no variables: where the program
-- is, and what it did, newest first: the addresses of its requests, the payloads posted, the contents of the
-- display's buffer at each notification, the clients notified.
pub record Chat : Type 0 where
  pub display_buff : List ℕ
  pub display_done : Bool
  pub user_id : ℤ
  pub network_lock : Bool
  pub num_messages : ℤ
  pub main : Main
  pub callbacks : List Rest
  pub requests : List (List ℕ)
  pub posts : List (List ℕ)
  pub shown : List (List ℕ)
  pub notified : List ℕ

-- The application where `register_user` has begun its request. `num_messages` is not initialised: the
-- argument is what it happens to hold.
abbrev pub start : ℤ → Chat
start num_messages = record {
  display_buff = replicate 64 0;
  display_done = false;
  user_id = pos 0;
  network_lock = false;
  num_messages = num_messages;
  main = registering;
  callbacks = [];
  requests = users_url ∷ [];
  posts = [];
  shown = [];
  notified = [];
}

-- The text of the format `%d %d %s`.
abbrev pub display_text : ℤ → ℤ → List ℕ → List ℕ
display_text recording uid morse = itoa recording ++ b' ' ∷ (itoa uid ++ b' ' ∷ morse)

-- `display_done = false; snprintf(display_buff, 64, …); ipc_notify_service(display_service);`
pub call_display : List ℕ → Chat → Chat
call_display text c =
    let buffer = snprintf c.display_buff 64 text in
    record c { display_done = false; display_buff = buffer; shown = buffer ∷ c.shown }

-- The text of the format `{"uid": "%d", "message": "%s"}`, and its three fixed parts.
abbrev pub uid_key : List ℕ
uid_key = b'{' ∷ b'"' ∷ b'u' ∷ b'i' ∷ b'd' ∷ b'"' ∷ b':' ∷ b' ' ∷ b'"' ∷ []

abbrev pub message_key : List ℕ
message_key =
    b'"' ∷ b',' ∷ b' ' ∷ b'"' ∷ b'm' ∷ b'e' ∷ b's' ∷ b's' ∷ b'a' ∷ b'g' ∷ b'e' ∷ b'"' ∷ b':' ∷ b' '
    ∷ b'"' ∷ []

abbrev pub closing : List ℕ
closing = b'"' ∷ b'}' ∷ []

abbrev pub payload_text : ℤ → List ℕ → List ℕ
payload_text uid message = uid_key ++ (itoa uid ++ (message_key ++ (message ++ closing)))

-- `payload`, 128 bytes from `calloc`, behind its `snprintf`.
pub payload : ℤ → List ℕ → List ℕ
payload uid message = snprintf (replicate 128 0) 128 (payload_text uid message)

-- The branch of the byte 0xff.
unfoldable pub lock_network : Chat → Chat
unfolding call_display
lock_network c =
    let c' = call_display (display_text (pos 1) (pos 0) []) (record c { network_lock = true }) in
    record c' { callbacks = nothing ∷ c'.callbacks }

-- Behind the payload: it is posted, the network unlocked, and the display called.
pub finish_post : ℕ → List ℕ → Chat → Chat
unfolding call_display
finish_post pid posted c =
    let c' = record c { posts = posted ∷ c.posts; network_lock = false } in
    let c'' = call_display (display_text (pos 0) (pos 0) []) c' in
    record c'' { callbacks = then_notify pid ∷ c''.callbacks }

-- The rest of `main_ipc_callback`, up to its wait.
pub post_message : ℕ → List ℕ → Chat → Option Chat
unfolding payload finish_post
post_message pid buf c = do
  message ← c_string buf
  posted ← c_string (payload c.user_id message)
  some (finish_post pid posted c)

pub main_ipc_callback : ℕ → ℕ → List ℕ → Chat → Option Chat
unfolding lock_network post_message
main_ipc_callback pid len [] c = none
main_ipc_callback pid len (lock ∷ buf) c =
    if lock == 0xff
    then some (lock_network c)
    else if len == 0
    then some c
    else post_message pid (lock ∷ buf) c

-- The loop over the messages in `main`.
pub show_next : List Message → Chat → Chat
unfolding call_display
show_next [] c = record c { main = looping }
show_next (m ∷ ms) c = record (call_display (display_text (pos 0) m.uid m.morse) c) {
  main = showing ms;
}

-- `main` behind `get_messages`.
pub take_reply : Option (List ℕ) → Chat → Option Chat
unfolding show_next
take_reply none c = some (record c { main = returned })
take_reply (some buffer) c = do
  parsed ← parse_data buffer c.num_messages
  some (show_next parsed.1 (record c { num_messages = parsed.0 }))

-- `register_user` behind its request, and the end of the set-up in `main`.
pub take_user : Option (List ℕ) → Chat → Option Chat
take_user none c = some (record c { main = returned })
take_user (some text) c = do
  s ← c_string text
  some (record c { user_id = scan_count s c.user_id; main = looping })

-- `main`, once no callback waits above it.
pub go_on : Main → Chat → Option Chat
unfolding take_user take_reply
go_on (registered r) c = take_user r c
go_on (showing ms) c = some (record c { main = delaying ms })
go_on (fetched r) c = take_reply r c
go_on _ c = some c

-- Every wait of a callback ends, the innermost first; none of them clears `display_done` again.
pub unwind : List Rest → Chat → Chat
unwind [] c = c
unwind (nothing ∷ rs) c = unwind rs c
unwind (then_notify pid ∷ rs) c = unwind rs (record c { notified = pid ∷ c.notified })

-- `display_ipc_callback`, and the returns of the waits.
pub display_ipc_callback : Chat → Option Chat
unfolding unwind go_on
display_ipc_callback c =
    go_on c.main (unwind c.callbacks (record c { display_done = true; callbacks = [] }))

-- The end of the wait in `network_get`: `main` goes on at once, or behind the callbacks above it.
pub network_reply : Option (List ℕ) → List Rest → Main → Chat → Option Chat
unfolding take_user take_reply
network_reply r [] registering c = take_user r c
network_reply r (_ ∷ _) registering c = some (record c { main = registered r })
network_reply r [] fetching c = take_reply r c
network_reply r (_ ∷ _) fetching c = some (record c { main = fetched r })
network_reply r _ _ c = some c

-- `main` gets the processor at the head of its loop or at the end of a delay.
pub tick : List Rest → Main → Chat → Chat
unfolding show_next
tick [] looping c =
    if c.network_lock
    then c
    else record c { main = fetching; requests = endpoint c.user_id ∷ c.requests }
tick [] (delaying ms) c = show_next ms c
tick _ _ c = c

-- What happens to the application, in the order of the deliveries.
pub data Event : Type 0 where
  from_button : ℕ → ℕ → List ℕ → Event
  displayed : Event
  replied : Option (List ℕ) → Event
  resumed : Event

unfoldable pub handle : Chat → Event → Option Chat
unfolding main_ipc_callback display_ipc_callback network_reply tick
handle c (from_button pid len buf) = main_ipc_callback pid len buf c
handle c displayed = display_ipc_callback c
handle c (replied r) = network_reply r c.callbacks c.main c
handle c resumed = some (tick c.callbacks c.main c)

unfoldable pub run : Chat → List Event → Option Chat
run c [] = some c
run c (e ∷ es) = do c' ← handle c e; run c' es
