-- ===== src/Tools/ResilientClient.antt =====
-- tools/resilient_client.py: the client of a resilient server. Times are in seconds; `now` is the
-- clock's reading during a call, and a message without an id has been given one. What goes to the
-- socket is appended to `sent`, and the start time of a pending message is read only while it is
-- pending.
pub mod Events
pub mod Steps
pub mod Delivery
pub mod Progress
use nimbus_io.Prelude.{
  ℕ, ◌+◌, Bool, true, false, not, ◌&&◌, Option, none, some, List, [], ◌∷◌, ◌++◌, ltb, leb,
  if◌then◌else◌, Text, Bytes, codes, text_eq, is_none,
}
use nimbus_io.Prelude.Exec.{
  Exec, Result, ok, err, pure, gets, modify, raise_if, assertion_error, attribute_error, ◌>>=◌,
  ◌>>◌,
}

abbrev pub ack_timeout : ℕ
ack_timeout = 600

abbrev pub handshake_retry_interval : ℕ
handshake_retry_interval = 60

abbrev pub max_idle_time : ℕ
max_idle_time = 1800

pub data Status : Type 0 where
  handshaking connected disconnected : Status

abbrev pub is_connected : Status → Bool
is_connected connected = true
is_connected _ = false

abbrev pub is_handshaking : Status → Bool
is_handshaking handshaking = true
is_handshaking _ = false

pub record Message : Type 0 where
  pub message_type : Text
  pub message_id : Text
  pub body : Option Bytes

abbrev pub is_handshake : Message → Bool
is_handshake m = text_eq m.message_type (codes "resilient-server-handshake")

-- `has_socket` tells whether `_dealer_socket` is there, and registered with the pollster.
pub record Client : Type 0 where
  pub has_socket : Bool
  pub send_queue : List Message
  pub pending_message : Option Message
  pub pending_message_start_time : ℕ
  pub status : Status
  pub status_time : ℕ
  pub last_successful_ack_time : ℕ
  pub sent : List Message

abbrev pub new_client : Client
new_client = record {
  has_socket = false;
  send_queue = [];
  pending_message = none;
  pending_message_start_time = 0;
  status = disconnected;
  status_time = 0;
  last_successful_ack_time = 0;
  sent = [];
}

abbrev pub handshake : Text → Message
handshake id = record {
  message_type = codes "resilient-server-handshake";
  message_id = id;
  body = none;
}

-- A message becomes the pending one, and is sent.
abbrev pub send_pending : ℕ → Message → Client → Client
send_pending now m c = record c {
  pending_message = some m;
  pending_message_start_time = now;
  sent = c.sent ++ m ∷ [];
}

abbrev pub disconnect : ℕ → Exec Client (Unit {0})
disconnect now c =
    if c.has_socket
    then (ok tt, record c { has_socket = false; status = disconnected; status_time = now })
    else (err assertion_error, c)

-- `id` is the id of a handshake that is sent now.
unfoldable pub handle_status_disconnected : ℕ → Text → Exec Client (Unit {0})
handle_status_disconnected now id c =
    if ltb now (c.status_time + handshake_retry_interval)
    then (ok tt, c)
    else if c.has_socket
    then (err assertion_error, c)
    else (
      ok tt,
      send_pending now (handshake id)
          (record c { has_socket = true; status = handshaking; status_time = now }),
    )

unfoldable pub handle_status_connected : ℕ → Exec Client (Unit {0})
handle_status_connected now c = elim c.pending_message [
  | none ↦
      if leb (c.last_successful_ack_time + max_idle_time) now then disconnect now c else (ok tt, c)
  | some m ↦
      if ltb now (c.pending_message_start_time + ack_timeout)
      then (ok tt, c)
      else (disconnect now
            >> modify (λ c'. record c' { send_queue = m ∷ c'.send_queue; pending_message = none }))
          c
]

unfoldable pub handle_status_handshaking : ℕ → Exec Client (Unit {0})
handle_status_handshaking now c = elim c.pending_message [
  | none ↦ (err assertion_error, c)
  | some m ↦
      if ltb now (c.pending_message_start_time + ack_timeout)
      then (ok tt, c)
      else (disconnect now >> modify (λ c'. record c' { pending_message = none })) c
]

-- the dispatch table of `run`
unfoldable pub run : ℕ → Text → Exec Client (Unit {0})
run now id c = elim c.status [
  | disconnected ↦ handle_status_disconnected now id c
  | connected ↦ handle_status_connected now c
  | handshaking ↦ handle_status_handshaking now c
]

unfoldable pub close : ℕ → Exec Client (Unit {0})
close now c = if c.has_socket then disconnect now c else (ok tt, c)

unfoldable pub queue_message_for_send : ℕ → Message → Exec Client (Unit {0})
queue_message_for_send now m c =
    if is_connected c.status && is_none c.pending_message
    then (ok tt, send_pending now m c)
    else (ok tt, record c { send_queue = c.send_queue ++ m ∷ [] })

-- The acknowledgement of the pending message: then the next one of the queue is sent.
abbrev pub send_next : ℕ → Client → Client
send_next now c = elim c.send_queue [
  | [] ↦ record c { pending_message = none }
  | m ∷ rest ↦ send_pending now m (record c { send_queue = rest })
]

unfoldable pub acknowledged : ℕ → Message → Exec Client (Unit {0})
acknowledged now m c =
    if is_handshake m
    then (if is_handshaking c.status
        then (
          ok tt,
          send_next now
              (record c { last_successful_ack_time = now; status = connected; status_time = now }),
        )
        else (err assertion_error, record c { last_successful_ack_time = now }))
    else (ok tt, send_next now (record c { last_successful_ack_time = now }))

-- What was read from the socket: nothing, if it would have blocked, or the id of an ack. The log lines
-- for an ack that nothing waits for, or with another id, read `control` of a dict.
unfoldable pub pollster_callback : ℕ → Option Text → Exec Client (Unit {0})
pollster_callback now received c = elim received [
  | none ↦ (ok tt, c)
  | some id ↦ elim c.pending_message [
    | none ↦ (err attribute_error, c)
    | some m ↦
        if not (text_eq id m.message_id) then (err attribute_error, c) else acknowledged now m c
  ]
]
