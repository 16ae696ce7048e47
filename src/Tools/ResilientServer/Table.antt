-- ===== src/Tools/ResilientServer/Table.antt =====
-- What a message is meant to do: the table of clients as a function, what is queued and what is
-- acknowledged.
use nimbus_io.Prelude.{
  ◌+◌, ◌≡◌, Bool, true, false, Option, none, some, List, [], ◌∷◌, ◌++◌, if◌then◌else◌, Text,
  text_eq, ltb, ◌==◌, ℕ,
}
use nimbus_io.Prelude.Exec.{Exec, ok}
use nimbus_io.Prelude.Dicts.{HasDistinctKeys, sum_of}
use nimbus_io.Tools.ResilientServer.{
  Incoming, PushClient, Ack, Server, handshake_type, signoff_type, find_client,
}

-- the address of a client
abbrev pub Addresses : Type 0
Addresses = Text → Option Text

abbrev pub address : Option PushClient → Option Text
address none = none
address (some client) = some client.address

abbrev pub addresses : Server → Addresses
addresses s tag = address (find_client tag s)

-- how often a socket was closed
unfoldable pub times_closed : ℕ → List ℕ → ℕ
times_closed n [] = 0
times_closed n (socket ∷ closed) = (if socket == n then 1 else 0) + times_closed n closed

abbrev pub times_of : ℕ → PushClient → ℕ
times_of n client = if client.socket == n then 1 else 0

-- One entry for a tag; every socket that was opened is once in the table and never closed, or not in
-- the table and closed once.
pub record IsValid (s : Server) : Type 0 where
  pub distinct : HasDistinctKeys text_eq s.active_clients
  pub sockets :
      (n : ℕ)
      → sum_of text_eq (times_of n) s.active_clients + times_closed n s.closed
        ≡ (if ltb n s.next_socket then 1 else 0)

abbrev pub is_handshake : Incoming → Bool
is_handshake m = text_eq m.message_type handshake_type

abbrev pub is_signoff : Incoming → Bool
is_signoff m = text_eq m.message_type signoff_type

abbrev pub set_address : Option Text → Option Text → Addresses → Addresses
set_address none value f tag = f tag
set_address (some t) value f tag = if text_eq t tag then value else f tag

-- The specification: the addresses after a message, whether it is queued, and whether acknowledged.
unfoldable pub after : Incoming → Addresses → Addresses
after m f =
    if is_handshake m
    then set_address m.client_tag m.client_address f
    else if is_signoff m
    then set_address m.client_tag none f
    else f

abbrev pub is_some : Option Text → Bool
is_some none = false
is_some (some t) = true

abbrev pub is_known : Option Text → Addresses → Bool
is_known none f = false
is_known (some tag) f = is_some (f tag)

abbrev pub queued : Incoming → Addresses → List Incoming
queued m f =
    if is_handshake m
    then []
    else if is_signoff m
    then []
    else if is_known m.client_tag f
    then m ∷ []
    else []

abbrev pub ack_of : Incoming → Ack
ack_of m = record { ident = m.ident; message_id = m.message_id; incoming_type = m.message_type }

abbrev pub acks_for : Incoming → Addresses → List Ack
acks_for m f =
    if is_handshake m
    then ack_of m ∷ []
    else if is_signoff m
    then ack_of m ∷ []
    else if is_known m.client_tag f
    then ack_of m ∷ []
    else []

-- A handshake has a tag and an address, a signoff has a tag.
pub record IsFormed (m : Incoming) : Type 0 where
  pub tagged : is_handshake m ≡ true → (tag : Text) × (m.client_tag ≡ some tag)
  pub addressed : is_handshake m ≡ true → (a : Text) × (m.client_address ≡ some a)
  pub named : is_signoff m ≡ true → (tag : Text) × (m.client_tag ≡ some tag)

-- what a message does to a server
abbrev pub Refines : Incoming → Server → Exec Server (Unit {0}) → Type 0
Refines m s run =
    (s' : Server) × (run s ≡ (ok tt, s'))
    × IsValid s'
    × ((tag : Text) → addresses s' tag ≡ after m (addresses s) tag)
    × (s'.receive_queue ≡ s.receive_queue ++ queued m (addresses s))
    × (s'.acks ≡ s.acks ++ acks_for m (addresses s))
