-- ===== src/HandoffServer/Server/Purges.antt =====
-- When the server tells a source to purge a segment.
use nimbus_io.Prelude.{◌≡◌, ◌++◌, map, true, Option, some, List, Text}
use nimbus_io.Prelude.Exec.{Result}
use nimbus_io.HandoffServer.PendingHandoffs.{PendingHandoffs}
use nimbus_io.HandoffServer.Forwarder.{
  Reply, Outgoing, continue_at, Phase, archiving_first, archiving, reading, reading_first, finished,
  Forwarder,
}
use nimbus_io.HandoffServer.Server.{
  Env, Running, State, success, segment_of, after_writer, Event, key_archived,
}
use nimbus_io.HandoffServer.Server.Completion.{purge_for}

-- The phase after the last message was sent, where the destination's reply to it is waited for.
abbrev pub IsLast : Phase → Type 0
IsLast (archiving_first completed) = completed ≡ true
IsLast (archiving sequence completed) = completed ≡ true
IsLast reading_first = ⊥
IsLast (reading sequence) = ⊥
IsLast finished = ⊥

-- The sources, or the first of them, are told to purge the segment.
abbrev pub IsPurged : Running → State → Result (Unit {0}) × State → Type 0
IsPurged run s (r, s') =
    (told : List Text) × (rest : List Text) × (told ++ rest ≡ run.source_node_names)
    × (s'.purges ≡ s.purges ++ map (purge_for run.segment_row) told)

-- The event is a successful reply of the writer while the coroutine waits for the one to its last
-- message.
abbrev pub Acknowledges : Event → Option Running → State → Result (Unit {0}) × State → Type 0
Acknowledges (key_archived success reply) (some run) s ended =
    IsLast run.coroutine.phase × IsPurged run s ended
Acknowledges event run s ended = ⊥

abbrev Keeps : State → Result (Unit {0}) × State → Type 0
Keeps s (r, s') = s'.purges ≡ s.purges

module _ (env : Env) where
  abbrev resumed : Running → Reply → Phase → List Outgoing → State → Result (Unit {0}) × State
  resumed run reply phase outgoing s =
      after_writer env run
        (continue_at (segment_of env run.segment_row) phase reply
          (record { phase = phase; outgoing = outgoing }))
        s
