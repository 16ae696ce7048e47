-- ===== src/Tools/ResilientClient/Events.antt =====
-- What happens to a resilient client, and what it still has to deliver. `close` ends the process.
use nimbus_io.Prelude.{
  ℕ, ◌≡◌, Bool, true, false, Option, none, some, List, [], ◌∷◌, ◌++◌, if◌then◌else◌, Text, text_eq,
  All,
}
use nimbus_io.Prelude.Exec.{Exec, pure, ◌>>◌}
use nimbus_io.Tools.ResilientClient.{
  Status, handshaking, connected, disconnected, Message, is_handshake, Client, run,
  queue_message_for_send, pollster_callback,
}

-- What the process does to its client, with the clock's reading: a message is queued, the time
-- queue runs the client, or the socket is readable.
pub data Event : Type 0 where
  queued : ℕ → Message → Event
  timer : ℕ → Text → Event
  readable : ℕ → Option Text → Event

unfoldable pub handle : Event → Exec Client (Unit {0})
handle (queued now m) = queue_message_for_send now m
handle (timer now id) = run now id
handle (readable now received) = pollster_callback now received

-- A handshake is the client's own message, not one that was queued.
abbrev pub user_message : Message → List Message
user_message m = if is_handshake m then [] else m ∷ []

abbrev pub user_pending : Option Message → List Message
user_pending none = []
user_pending (some m) = user_message m

-- the messages that are not acknowledged yet
abbrev pub outstanding : Client → List Message
outstanding c = user_pending c.pending_message ++ c.send_queue

abbrev pub queued_by : Event → List Message
queued_by (queued now m) = m ∷ []
queued_by (timer now id) = []
queued_by (readable now received) = []

abbrev pub acked : Option Text → Option Message → List Message
acked none pending = []
acked (some id) none = []
acked (some id) (some m) = if text_eq id m.message_id then user_message m else []

-- the message that an event acknowledges
abbrev pub acked_by : Event → Client → List Message
acked_by (queued now m) c = []
acked_by (timer now id) c = []
acked_by (readable now received) c = acked received c.pending_message

abbrev pub Answers : Option Text → Option Message → Type 0
Answers none pending = Unit
Answers (some id) none = ⊥
Answers (some id) (some m) = text_eq id m.message_id ≡ true

-- An ack that is read is that of the pending message.
abbrev pub IsExpected : Event → Client → Type 0
IsExpected (queued now m) c = Unit
IsExpected (timer now id) c = Unit
IsExpected (readable now received) c = Answers received c.pending_message

-- By status: whether there is a socket, and what is pending. While the client is connected a
-- message waits only behind a pending one.
abbrev pub Fits : Status → Option Message → Bool → List Message → Type 0
Fits disconnected none has_socket send_queue = has_socket ≡ false
Fits disconnected (some m) has_socket send_queue = ⊥
Fits handshaking none has_socket send_queue = ⊥
Fits handshaking (some m) has_socket send_queue = (has_socket ≡ true) × (is_handshake m ≡ true)
Fits connected none has_socket send_queue = (has_socket ≡ true) × (send_queue ≡ [])
Fits connected (some m) has_socket send_queue = (has_socket ≡ true) × (is_handshake m ≡ false)

pub record IsValid (c : Client) : Type 0 where
  pub fitting : Fits c.status c.pending_message c.has_socket c.send_queue
  pub users : All (λ m. is_handshake m ≡ false) c.send_queue

-- Events in turn; an exception ends the run.
unfoldable pub handle_all : List Event → Exec Client (Unit {0})
handle_all [] = pure tt
handle_all (e ∷ es) = handle e >> handle_all es

-- each when it is its turn
unfoldable pub AreExpected : List Event → Client → Type 0
AreExpected [] c = Unit
AreExpected (e ∷ es) c = IsExpected e c × AreExpected es (handle e c).1

abbrev pub queued_in : List Event → List Message
queued_in [] = []
queued_in (e ∷ es) = queued_by e ++ queued_in es

unfoldable pub acked_in : List Event → Client → List Message
acked_in [] c = []
acked_in (e ∷ es) c = acked_by e c ++ acked_in es (handle e c).1
