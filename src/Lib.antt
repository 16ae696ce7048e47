-- ===== src/Lib.antt =====
-- A verification of nimbus.io, a distributed object store: what a storage node does with the
-- segments that it is sent.
--
-- The program. A web server cuts an uploaded file into slices, encodes each as ten segments with
-- zfec, and sends every storage node its segments as a chain of messages (archive-key-start, -next,
-- -final, or -entire). On the node the data writer appends the bytes to value files and keeps rows
-- about them in a PostgreSQL database; the data reader answers retrievals from both; the garbage
-- collector moves the rows that no version needs any more to an archive table.
--
-- The files.
--   Prelude: the shared names, Boolean tests, lists, texts, tables of rows, and the monad `Exec` of
--     code that changes a state and may raise.
--   Tools/Timestamp: `parse_timestamp_repr` (tools/data_definitions.py).
--   Tools/ResilientClient: tools/resilient_client.py, which sends messages to another process one at a
--     time; Events (what may happen), Steps, Delivery and Progress prove what becomes of messages.
--   Tools/ResilientServer: tools/resilient_server.py, which the clients send to; Table is what it is meant
--     to do, Step and History prove it of a message and of any sequence of them.
--   Tools/PriorityQueue: tools/priority_queue.py, the receive queue of the data writer; Order.
--   Tools/IdTranslator: tools/id_translator.py, over hmac, AES and base64 as parameters; Compare and
--     RoundTrip are its theorems.
--   Database, Database/Rows: the rows (tools/data_definitions.py), the constraints of
--     sql/nimbusio_node.sql, and a connection with its open and its committed tables
--     (tools/database_connection.py).
--   Repository: the value files, by their id.
--   DataWriter/Sql: the SQL statements of data_writer/writer.py.
--   DataWriter/ValueFile: data_writer/output_value_file.py.
--   DataWriter/Writer: the class `Writer`; its children prove what each operation does: Sound (the
--     invariant of rows and bytes), Store, Segments (start, finish, cancel), Limits.
--   DataWriter/Message, DataWriter/Handlers: data_writer/data_writer_main.py, and the dispatch of
--     messages in turn (tools/deque_dispatcher.py); its children: Open and OneMessage (a segment under
--     way), Archive (a whole archive), ReadBack (against the reader), Errors (refused messages),
--     Restart (a web server that starts again).
--   DataReader/Reader: data_reader/reader.py.
--   DataReader/Handlers: data_reader/data_reader_main.py and state_cleaner.py; its children: Retrieve (a
--     whole retrieval), Valid (the table of active requests).
--   GarbageCollector/Evaluate, Partitions, Archiver: garbage_collector_main.py,
--     candidate_partition_generator.py and archiver.py of garbage_collector/.
--   Defragger: a transaction of defragger/defragger_main.py with input_value_file.py, over
--     Tools/OutputValueFile (tools/output_value_file.py); its children: Rows (what a row reads), Output (the
--     files that are written), Work (the loop), References (the query), Removal and Reads (a whole pass).
--   HandoffServer/PendingHandoffs: handoff_server/pending_handoffs.py; Valid has its invariant, Order
--     what push and pop do.
--   HandoffServer/Forwarder: handoff_server/forwarder_coroutine.py; Protocol says what it sends.
--   HandoffServer/Server: handoff_server/handoff_server_main.py, handoff_starter.py and handoff_requestor.py;
--     Completion (a whole handoff), Purges (when a source is purged).
--   WebServer/Listmatcher: web_server/listmatcher.py over the rows that its queries give; Keys and
--     Versions say what is shown.
--   WebServer/Pieces: bytes in pieces of one size, the description of what the two that follow yield.
--   WebServer/DataSlicer: web_server/data_slicer.py; Slices says what it yields.
--   WebServer/ZfecSegmenter: web_server/zfec_segmenter.py over the zfec library; Slices, Shares, RoundTrip.
--   WebServer/Archiver: the messages of web_server/data_writer.py, web_server/archiver.py and the loop of
--     `_archive_key` of web_server/application.py; its children: Protocol (what a data writer is sent),
--     Storage (with the data writer's handlers), Failure.
--   WebServer/LocalDatabaseUtil: the status queries of web_server/local_database_util.py.
--   WebServer/Retriever: web_server/retriever.py over the waits for its tasks, and the part of `_retrieve_key`
--     of web_server/application.py that decodes what it yields; its children: Waits (what a round is given),
--     Rounds, Decoding, Delivery (the rounds of a row), Answers (the request).
--   WebServer/DataWriters: `_create_data_writers` of web_server/application.py with the clients of
--     web_server/data_writer_handoff_client.py; its child Slots says which client writes for a node.
--   SpaceAccountingServer: the handlers, the state cleaner and the table of space_accounting_server/;
--     Conservation says what a request is answered.
--   Tests: concrete runs, and the theorems at concrete inputs.
--
-- Conventions. A method is a function to `Exec S A`: from a state to a result and the new state, so
-- that what was written before an exception stays written. An exception that leaves a handler ends
-- its process. A handler's log lines are left out, but for those that raise. Numbers are unbounded, as
-- Python's are; a machine checksum is an integer. The size of a translator's hmac is a natural number
-- (the code does not refuse a negative one). md5, base64, zfec,
-- the limit of value files and the clock are arguments, with what is used of them as hypotheses (a
-- digest has 16 bytes). A database query is a recursion over the rows; `order by` is a stable
-- insertion sort.
--
-- Loops that read a file or generate slices run on fuel: a round takes a byte at least, so more rounds
-- than bytes are enough, as Slices shows. A round of a retrieval that is not the last takes a task,
-- so one more round than waits is enough, as Retriever/Answers shows.
--
-- Not modelled: sockets, the event loop, logs, statistics, the widths of columns, short writes of
-- the operating system, and the other processes (the rest of the web server, which are its other
-- actions; anti entropy; the rewriting of value files). LRUCache.py and gprof2dot.py are copies of
-- other projects' code. The data reader of a handoff is a source of replies: the reader of this
-- repository raises on the first message of a handoff, which lacks segment-conjoined-part.
pub mod Prelude
pub mod Tools
pub mod Database
pub mod Repository
pub mod DataReader
pub mod DataWriter
pub mod GarbageCollector
pub mod HandoffServer
pub mod WebServer
pub mod SpaceAccountingServer
pub mod Defragger
pub mod Tests
