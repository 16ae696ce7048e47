-- ===== src/Tests/ResilientServer.antt =====
-- A server and two clients: one that shakes hands twice, and one that is not known.
use nimbus_io.Prelude.{◌≡◌, refl, none, some, List, [], ◌∷◌, codes, text_eq, Text, arith}
use nimbus_io.Prelude.Exec.{ok}
use nimbus_io.Prelude.Dicts.{lookup, alter, sum_of}
use nimbus_io.Tools.ResilientServer.{
  Incoming, Server, new_server, handshake_type, receive_all, send_reply, pollster_callback,
  handle_resilient_server_handshake, receive_from,
}
use nimbus_io.Tools.ResilientServer.Table.{IsFormed, IsValid, addresses, times_closed}
use nimbus_io.Tools.ResilientServer.History.{table, all_queued, all_acks, receive_all-refines}

abbrev shake : Text → Incoming
shake address = record {
  ident = codes "i";
  message_type = handshake_type;
  message_id = codes "h";
  client_tag = some (codes "web01");
  client_address = some address;
  body = none;
}

abbrev request : Text → Incoming
request tag = record {
  ident = codes "i";
  message_type = codes "archive-key-start";
  message_id = codes "r";
  client_tag = some tag;
  client_address = none;
  body = none;
}

abbrev messages : List Incoming
messages =
    shake (codes "a") ∷ request (codes "web01") ∷ request (codes "web02") ∷ shake (codes "b") ∷ []

shake-IsFormed : (address : Text) → IsFormed (shake address)
unfolding text_eq
shake-IsFormed address = record {
  tagged = λ h. (codes "web01", refl);
  addressed = λ h. (address, refl);
  named = λ h. (codes "web01", refl);
}

request-IsFormed : (tag : Text) → IsFormed (request tag)
unfolding text_eq
request-IsFormed tag = record {
  tagged = λ h. (tag, refl);
  addressed = λ h. absurd (ground (arith, h));
  named = λ h. (tag, refl);
}

receive_all-refines_example :
    (s : Server) × (receive_all messages new_server ≡ (ok tt, s))
    × IsValid s
    × ((tag : Text) → addresses s tag ≡ table messages (addresses new_server) tag)
    × (s.receive_queue ≡ all_queued messages (addresses new_server))
    × (s.acks ≡ all_acks messages (addresses new_server))
unfolding sum_of times_closed
receive_all-refines_example =
    receive_all-refines messages new_server
      (
        shake-IsFormed (codes "a"),
        (
          request-IsFormed (codes "web01"),
          (request-IsFormed (codes "web02"), (shake-IsFormed (codes "b"), tt)),
        ),
      )
      (record { distinct = tt; sockets = λ n. ground arith })

abbrev after_messages : Server
after_messages = (receive_all messages new_server).1

one_queued : after_messages.receive_queue ≡ request (codes "web01") ∷ []
unfolding receive_all pollster_callback handle_resilient_server_handshake receive_from lookup alter
    text_eq
one_queued = refl

reply_pushed :
    (send_reply (codes "web01") (codes "q") after_messages).1.pushed
    ≡ (record { address = codes "b"; message_id = codes "q" }) ∷ []
unfolding receive_all pollster_callback handle_resilient_server_handshake receive_from lookup alter
    text_eq send_reply
reply_pushed = refl
