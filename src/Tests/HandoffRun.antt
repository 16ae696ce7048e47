-- ===== src/Tests/HandoffRun.antt =====
-- A handoff of three sequences, which one other node keeps.
use nimbus_io.Prelude.{true, none, some, [], ◌∷◌, codes}
use nimbus_io.HandoffServer.PendingHandoffs.{no_handoffs, pop, push}
use nimbus_io.HandoffServer.Forwarder.{archiving, new_forwarder}
use nimbus_io.HandoffServer.Server.{Env, State}
use nimbus_io.HandoffServer.Server.Completion.{purge_for, sent_for}
use nimbus_io.Tests.HandoffServer.{row}
use nimbus_io.Tests.Forwarder.{one, two, three}

abbrev env : Env
env = record {
  local_node_name = codes "node01";
  node_id_of = λ name. some 1;
  node_name_of = λ id. some (codes "node02");
  handoff_server_clients = codes "node02" ∷ [];
  has_clients = λ name. true;
  repr = λ t. codes "now";
  b64encode = λ bytes. bytes;
}

abbrev state : State
state = record {
  segment = [];
  pending_handoffs = (push (row 10) (codes "node02") no_handoffs).1;
  forwarder = none;
  requested = [];
  replies = [];
  purges = [];
  handed_off = [];
}

abbrev after : State
after = record state {
  pending_handoffs = (pop state.pending_handoffs).1;
  purges = purge_for (row 10) (codes "node02") ∷ [];
  handed_off = (row 10, sent_for env [] (codes "node02") (row 10) one two (three ∷ [])) ∷ [];
}

-- a handoff of which the last message has been sent
abbrev at_last : State
at_last = record state {
  forwarder = some (record {
    segment_row = row 10;
    source_node_names = codes "node02" ∷ [];
    coroutine = record (new_forwarder) { phase = archiving 3 true };
  });
}
