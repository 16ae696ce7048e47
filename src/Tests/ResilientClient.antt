-- ===== src/Tests/ResilientClient.antt =====
-- A resilient client that connects, sends and loses its connection.
use nimbus_io.Prelude.{ℕ, ◌≡◌, refl, none, some, List, [], ◌∷◌, ◌++◌, map, codes, arith, text_eq}
use nimbus_io.Prelude.Exec.{ok}
use nimbus_io.Tools.ResilientClient.{
  Message, Client, disconnected, new_client, handshake, handle_status_disconnected,
  handle_status_connected, handle_status_handshaking, run, queue_message_for_send, acknowledged,
  pollster_callback,
}
use nimbus_io.Tools.ResilientClient.Events.{
  Event, queued, timer, readable, handle, handle_all, outstanding, acked_in, IsValid, AreExpected,
}
use nimbus_io.Tools.ResilientClient.Delivery.{handle_all-delivers}
use nimbus_io.Tools.ResilientClient.Progress.{ack, Connected, handle_all-drains}

abbrev message : ℕ → Message
message n = record { message_type = codes "ping"; message_id = n ∷ []; body = none }

-- Two messages are queued before the handshake; the first is acknowledged, and the second waits
-- until its ack is overdue and goes back into the queue.
abbrev events : List Event
events =
    queued 1 (message 1)
    ∷ timer 100 (codes "h")
    ∷ queued 101 (message 2)
    ∷ readable 102 (some (codes "h"))
    ∷ readable 103 none
    ∷ readable 104 (some (1 ∷ []))
    ∷ timer 800 (codes "i")
    ∷ []

abbrev lost : Client
lost = (handle_all events new_client).1

lost_waits : (lost.status ≡ disconnected) × (lost.send_queue ≡ message 2 ∷ [])
unfolding handle_all handle run handle_status_disconnected handle_status_connected
    handle_status_handshaking queue_message_for_send pollster_callback acknowledged text_eq
lost_waits = (refl, refl)

handle_all-delivers_example :
    acked_in events new_client ++ outstanding lost ≡ message 1 ∷ message 2 ∷ []
unfolding text_eq AreExpected handle run handle_status_disconnected handle_status_connected
    handle_status_handshaking queue_message_for_send pollster_callback acknowledged
handle_all-delivers_example =
    (handle_all-delivers events (refl, (refl, tt))
      (tt, (tt, (tt, (refl, (tt, (refl, (tt, tt)))))))).2

-- a client that waits to connect
abbrev waiting : Client
waiting = record new_client { send_queue = message 1 ∷ message 2 ∷ [] }

waiting-IsValid : IsValid waiting
unfolding text_eq
waiting-IsValid = record { fitting = refl; users = (refl, (refl, tt)) }

handle_all-drains_example :
    let (r, c) =
      handle_all
        (timer 100 (codes "h") ∷ map (ack 100) (handshake (codes "h") ∷ message 1 ∷ message 2 ∷ []))
        waiting in
    (r ≡ ok tt) × Connected c (handshake (codes "h") ∷ message 1 ∷ message 2 ∷ [])
handle_all-drains_example =
    handle_all-drains 100 (codes "h") waiting waiting-IsValid refl (omega arith)
