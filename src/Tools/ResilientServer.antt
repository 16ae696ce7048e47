-- ===== src/Tools/ResilientServer.antt =====
-- tools/resilient_server.py: the server of resilient clients. A message that is received is a value of
-- `Incoming`; a key that a message does not have is nothing. A socket to a client has a number; what is
-- pushed over it, and the acknowledgements over the router socket, are lists.
pub mod Table
pub mod Step
pub mod History
use nimbus_io.Prelude.{
  ℕ, ◌+◌, Bool, true, false, Option, none, some, List, [], ◌∷◌, ◌++◌, if◌then◌else◌, Text, Bytes,
  codes, text_eq, map,
}
use nimbus_io.Prelude.Exec.{Exec, ok, err, pure, modify, or_raise, key_error, ◌>>=◌, ◌>>◌}
use nimbus_io.Prelude.Dicts.{lookup, alter, remove}

pub record Incoming : Type 0 where
  pub ident : Text
  pub message_type : Text
  pub message_id : Text
  pub client_tag : Option Text
  pub client_address : Option Text
  pub body : Option Bytes

-- tools/push_client.py
pub record PushClient : Type 0 where
  pub socket : ℕ
  pub address : Text

pub record Ack : Type 0 where
  pub ident : Text
  pub message_id : Text
  pub incoming_type : Text

-- a reply and the address it is pushed to
pub record Pushed : Type 0 where
  pub address : Text
  pub message_id : Text

pub record Server : Type 0 where
  pub active_clients : List (Text × PushClient)
  pub receive_queue : List Incoming
  pub acks : List Ack
  pub pushed : List Pushed
  pub next_socket : ℕ
  pub closed : List ℕ

abbrev pub new_server : Server
new_server = record {
  active_clients = [];
  receive_queue = [];
  acks = [];
  pushed = [];
  next_socket = 0;
  closed = [];
}

abbrev pub handshake_type : Text
handshake_type = codes "resilient-server-handshake"

abbrev pub signoff_type : Text
signoff_type = codes "resilient-server-signoff"

-- the client of a tag
abbrev pub find_client : Text → Server → Option PushClient
find_client tag s = lookup text_eq tag s.active_clients

abbrev pub close_client : PushClient → Server → Server
close_client client s = record s { closed = s.closed ++ client.socket ∷ [] }

abbrev pub close_existing : Text → Server → Server
close_existing tag s = elim (find_client tag s) [ none ↦ s | some client ↦ close_client client s ]

-- a new PUSHClient under a tag
abbrev pub connect : Text → Text → Server → Server
connect tag address s =
    let client : PushClient = record { socket = s.next_socket; address = address } in
    record s {
      active_clients = alter text_eq tag client (λ c. client) s.active_clients;
      next_socket = s.next_socket + 1;
    }

-- The first log line reads the tag and the address, so a message that lacks one raises before
-- anything is closed.
unfoldable pub handle_resilient_server_handshake : Incoming → Exec Server (Unit {0})
handle_resilient_server_handshake m = do
  tag ← or_raise m.client_tag key_error
  address ← or_raise m.client_address key_error
  modify (close_existing tag)
  modify (connect tag address)

-- `message["client-tag"]` stands in the `try` too, and in the log of its handler.
unfoldable pub handle_resilient_server_signoff : Incoming → Exec Server (Unit {0})
handle_resilient_server_signoff m = do
  tag ← or_raise m.client_tag key_error
  λ s. elim (find_client tag s) [
    | none ↦ (ok tt, s)
    | some client ↦ (
      ok tt,
      close_client client (record s { active_clients = remove text_eq tag s.active_clients }),
    )
  ]

abbrev pub send_ack : Incoming → Exec Server (Unit {0})
send_ack m s = (
  ok tt,
  record s {
    acks =
        s.acks
        ++ (record { ident = m.ident; message_id = m.message_id; incoming_type = m.message_type })
          ∷ [];
  },
)

-- any other message, by the tag that it has
unfoldable pub receive_from : Option Text → Incoming → Exec Server (Unit {0})
receive_from none m s = (ok tt, s)
receive_from (some tag) m s = elim (find_client tag s) [
  | none ↦ (ok tt, s)
  | some client ↦ send_ack m (record s { receive_queue = s.receive_queue ++ m ∷ [] })
]

abbrev pub receive_message : Incoming → Exec Server (Unit {0})
receive_message m = receive_from m.client_tag m

-- nothing is a socket that would have blocked
unfoldable pub pollster_callback : Option Incoming → Exec Server (Unit {0})
pollster_callback none = pure tt
pollster_callback (some m) =
    if text_eq m.message_type handshake_type
    then handle_resilient_server_handshake m >> send_ack m
    else if text_eq m.message_type signoff_type
    then handle_resilient_server_signoff m >> send_ack m
    else receive_message m

-- the messages that the pollster finds, in turn
unfoldable pub receive_all : List Incoming → Exec Server (Unit {0})
receive_all [] = pure tt
receive_all (m ∷ messages) = pollster_callback (some m) >> receive_all messages

-- `message` tells its client by the tag.
unfoldable pub send_reply : Text → Text → Exec Server (Unit {0})
send_reply tag message_id s = elim (find_client tag s) [
  | none ↦ (ok tt, s)
  | some client ↦ (
    ok tt,
    record s {
      pushed = s.pushed ++ (record { address = client.address; message_id = message_id }) ∷ [];
    },
  )
]

abbrev pub close : Server → Server
close s = record s { closed = s.closed ++ map (λ e. e.1.socket) s.active_clients }
