-- ===== src/WebServer/DataWriters.antt =====
-- The choice of the data writers of an archive, `_create_data_writers` of web_server/application.py, and
-- the client that writes to two nodes for one that is not connected (its constructor in
-- web_server/data_writer_handoff_client.py). `random.sample` is an argument, by the number of its call.
pub mod Slots
use nimbus_io.Prelude.{
  ℕ, ◌+◌, Bool, true, false, not, ◌&&◌, Option, none, some, List, [], ◌∷◌, ◌++◌, ltb, if◌then◌else◌,
  Text, text_eq, length, map,
}
use nimbus_io.Prelude.Dicts.{lookup}
use nimbus_io.Prelude.Tables.{select_where, delete_where, all_where}
use nimbus_io.Prelude.Exec.{Result, Error, ok, err, assertion_error, key_error, index_error}

-- a GreenletResilientClient, by its node
pub record Client : Type 0 where
  pub server_node_name : Text
  pub connected : Bool

-- The client of a DataWriter: the node's own, or a DataWriterHandoffClient.
pub data Slot : Type 0 where
  direct : Client → Slot
  handoff : (dest_node_name : Text) → (backup_clients : List Client) → Slot

-- HTTPServiceUnavailable, or another exception
pub data Choice : Type 0 where
  unavailable : Choice
  raised : Error → Choice
  chosen : List Slot → Choice

abbrev pub min_connected_clients : ℕ
min_connected_clients = 8

abbrev pub handoff_count : ℕ
handoff_count = 2

abbrev pub Node : Type 0
Node = Text × Client

abbrev pub is_connected : Node → Bool
is_connected (node_name, client) = client.connected

-- `backup_clients[0] != backup_clients[1]`, of clients that differ by their nodes
abbrev pub handoff_slot : Client → List Client → Result Slot
handoff_slot client [] = err index_error
handoff_slot client (a ∷ []) = err index_error
handoff_slot client (a ∷ b ∷ rest) =
    if text_eq a.server_node_name b.server_node_name
    then err assertion_error
    else ok (handoff client.server_node_name (a ∷ b ∷ rest))

-- an entry that is not there yet
abbrev pub added :
    Text → Option Slot → Result Slot → List (Text × Slot) → Result (List (Text × Slot))
added name old (err e) slots = err e
added name none (ok slot) slots = ok (slots ++ (name, slot) ∷ [])
added name (some old) (ok slot) slots = err assertion_error

abbrev pub and_then :
    Result (List (Text × Slot))
    → (List (Text × Slot) → Result (List (Text × Slot)))
    → Result (List (Text × Slot))
and_then (ok slots) f = f slots
and_then (err e) f = err e

-- the loops over the nodes
unfoldable pub add_all :
    (ℕ → Client → Result Slot) → ℕ → List Node → List (Text × Slot) → Result (List (Text × Slot))
add_all make k [] slots = ok slots
add_all make k ((name, client) ∷ nodes) slots =
    and_then (added name (lookup text_eq name slots) (make k client) slots)
      (add_all make (k + 1) nodes)

abbrev pub read_slot : Option Slot → Choice → Choice
read_slot none rest = raised key_error
read_slot (some slot) (chosen slots) = chosen (slot ∷ slots)
read_slot (some slot) unavailable = unavailable
read_slot (some slot) (raised e) = raised e

-- in the order of the segment numbers
unfoldable pub read_all : List (Text × Slot) → List Text → Choice
read_all slots [] = chosen []
read_all slots (name ∷ names) = read_slot (lookup text_eq name slots) (read_all slots names)

abbrev pub choice_of : Result (List (Text × Slot)) → List Text → Choice
choice_of (ok slots) names = read_all slots names
choice_of (err e) names = raised e

abbrev pub names_of : List Node → List Text
names_of nodes = map (λ n. n.0) nodes

abbrev pub clients_of : List Node → List Client
clients_of nodes = map (λ n. n.1) nodes

-- `nodes` is the zip of the names and the clients
unfoldable pub create_data_writers : (ℕ → List Client → List Client) → List Node → Choice
create_data_writers sample nodes =
    let connected_clients_by_node = select_where is_connected nodes in
    if ltb (length connected_clients_by_node) min_connected_clients
    then unavailable
    else choice_of
        (and_then (add_all (λ k client. ok (direct client)) 0 connected_clients_by_node []) (
          add_all
            (λ k client. handoff_slot client (sample k (clients_of connected_clients_by_node))) 0
            (delete_where is_connected nodes)))
        (names_of nodes)
