-- ===== src/WebServer/Archiver.antt =====
-- The archive of a file by the web server: the messages of web_server/data_writer.py, the class
-- Archiver of web_server/archiver.py, and the loop of `_archive_key` in web_server/application.py that
-- feeds it with the segments of the slices. The tag of the client and the id of a message are the
-- resilient client's.
pub mod Protocol
pub mod Storage
pub mod Failure
use nimbus_io.Prelude.{
  ℕ, zero, suc, ◌+◌, Bool, true, false, Option, none, some, List, [], ◌∷◌, ◌++◌, ◌==◌,
  if◌then◌else◌, Text, Bytes, length,
}
use nimbus_io.Prelude.Exec.{
  Exec, Result, Error, ok, err, pure, raise, modify, type_error, already_in_progress,
  archive_failed_error, ◌>>=◌, ◌>>◌,
}
use nimbus_io.Database.{ℤ, pos}
use nimbus_io.DataWriter.Message.{Message}
use nimbus_io.DataWriter.Handlers.{
  MessageType, archive_key_entire, archive_key_start, archive_key_next, archive_key_final,
  archive_key_cancel,
}
use nimbus_io.WebServer.ZfecSegmenter.{Zfec, ZfecSegmenter, encode, padding_size}

-- The libraries' digests. `adler32` goes on from a checksum.
pub record Digests : Type 0 where
  pub md5 : Bytes → Bytes
  pub b64encode : Bytes → Text
  pub adler32 : ℤ → Bytes → ℤ

-- what the constructor of Archiver keeps, and the name of the web server's node
pub record Upload : Type 0 where
  pub collection_id : ℕ
  pub key : Text
  pub unified_id : ℕ
  pub timestamp_repr : Text
  pub meta_dict : List (Text × Text)
  pub conjoined_part : ℕ
  pub local_node_name : Text

abbrev pub Sent : Type 0
Sent = MessageType × Message × Bytes

-- `Archiver`: what went to each data writer, and whether tasks are pending
pub record Archiver : Type 0 where
  pub sequence_num : ℕ
  pub pending : Bool
  pub sent : List (ℕ × Sent)

abbrev pub new_archiver : Archiver
new_archiver = record { sequence_num = 0; pending = false; sent = [] }

-- The file so far: `file_adler32`, what `file_md5` has read, `file_size`, and the segments and the
-- padding of the slice that is not sent yet.
pub record Progress : Type 0 where
  pub file_adler32 : ℤ
  pub file_md5 : Bytes
  pub file_size : ℕ
  pub segments : Option (List Bytes)
  pub zfec_padding_size : ℕ

-- a message for each segment, to the data writers in turn
unfoldable pub batch : (ℕ → Bytes → Sent) → ℕ → List Bytes → List (ℕ × Sent)
batch make n [] = []
batch make n (segment ∷ segments) = (n, make (n + 1) segment) ∷ batch make (n + 1) segments

-- zlib's adler32 of nothing
abbrev pub one : ℤ
one = pos 1

-- The end of a batch: its tasks all succeed within the timeout, or a task raises an exception, which
-- `join` raises again, or the time is over, which is an ArchiveFailedError; and then tasks may be left.
pub data Join : Type 0 where
  finished : Join
  failed : Error → (tasks_left : Bool) → Join

-- before the first slice
abbrev pub no_progress : Progress
no_progress = record {
  file_adler32 = one;
  file_md5 = [];
  file_size = 0;
  segments = none;
  zfec_padding_size = 0;
}

-- a round of the loop over the slices, after what it sends
abbrev pub advance : Digests → Zfec → ZfecSegmenter → Progress → Bytes → Progress
advance digests zfec segmenter p slice = record {
  file_adler32 = digests.adler32 p.file_adler32 slice;
  file_md5 = p.file_md5 ++ slice;
  file_size = p.file_size + length slice;
  segments = some (encode zfec segmenter slice);
  zfec_padding_size = padding_size segmenter slice;
}

abbrev pub end_batch : Join → Exec Archiver (Unit {0})
end_batch finished a = (ok tt, a)
end_batch (failed e tasks_left) a = (err e, record a { pending = tasks_left })

module _ (digests : Digests) (u : Upload) where
  -- `archive_key_start` and `archive_key_next` of DataWriter
  abbrev pub slice_message : ℕ → ℕ → ℕ → Bytes → Message
  slice_message sequence_num padding segment_num segment = record {
    client_tag = [];
    message_id = [];
    collection_id = u.collection_id;
    key = u.key;
    unified_id = u.unified_id;
    unified_id_to_delete = none;
    timestamp_repr = u.timestamp_repr;
    conjoined_part = u.conjoined_part;
    segment_num = segment_num;
    segment_size = length segment;
    zfec_padding_size = padding;
    segment_md5_digest = digests.b64encode (digests.md5 segment);
    segment_adler32 = digests.adler32 one segment;
    sequence_num = sequence_num;
    file_size = 0;
    file_adler32 = one;
    file_hash = [];
    source_node_name = u.local_node_name;
    handoff_node_name = none;
    handoff_node_id = 0;
    entries = [];
  }

  -- `archive_key_final` and, without a sequence number, `archive_key_entire`
  abbrev pub final_message : ℕ → Progress → ℕ → Bytes → Message
  final_message sequence_num p segment_num segment =
      record (slice_message sequence_num p.zfec_padding_size segment_num segment) {
        file_size = p.file_size;
        file_adler32 = p.file_adler32;
        file_hash = digests.b64encode (digests.md5 p.file_md5);
        entries = u.meta_dict;
      }

  abbrev pub send_slice : ℕ → ℕ → ℕ → Bytes → Sent
  send_slice sequence_num padding segment_num segment = (
    if sequence_num == 0 then archive_key_start else archive_key_next,
    slice_message sequence_num padding segment_num segment,
    segment,
  )

  abbrev pub send_final : ℕ → Progress → ℕ → Bytes → Sent
  send_final sequence_num p segment_num segment = (
    if sequence_num == 0 then archive_key_entire else archive_key_final,
    final_message sequence_num p segment_num segment,
    segment,
  )

  -- the ends of the batches, by their sequence numbers
  module _ (ends : ℕ → Join) where
    -- `_join`
    abbrev pub join : Exec Archiver (Unit {0})
    join a = end_batch (ends a.sequence_num) a

    abbrev pub advance_sequence : Exec Archiver (Unit {0})
    advance_sequence a = (ok tt, record a { sequence_num = a.sequence_num + 1 })

    unfoldable pub archive_slice : List Bytes → ℕ → Exec Archiver (Unit {0})
    archive_slice segments padding a =
        if a.pending
        then (err already_in_progress, a)
        else (join >> advance_sequence)
            (record a { sent = a.sent ++ batch (send_slice a.sequence_num padding) 0 segments })

    unfoldable pub archive_final : Progress → List Bytes → Exec Archiver (Unit {0})
    archive_final p segments a =
        if a.pending
        then (err already_in_progress, a)
        else join (record a { sent = a.sent ++ batch (send_final a.sequence_num p) 0 segments })

    module _ (zfec : Zfec) (segmenter : ZfecSegmenter) where
      -- `if segments:` is false for None and for an empty list
      unfoldable pub archive_previous : Progress → Exec Archiver (Unit {0})
      archive_previous p = elim p.segments [
        | none ↦ pure tt
        | some [] ↦ pure tt
        | some (segment ∷ segments) ↦ archive_slice (segment ∷ segments) p.zfec_padding_size
      ]

      -- the loop over the slices, and what follows it
      unfoldable pub archive_rest : Progress → List Bytes → Exec Archiver (Unit {0})
      archive_rest p [] = elim p.segments [
        | none ↦ raise type_error
        | some segments ↦ archive_final p segments
      ]
      archive_rest p (slice ∷ slices) = do
        archive_previous p
        archive_rest (advance digests zfec segmenter p slice) slices

      abbrev pub archive_slices : List Bytes → Exec Archiver (Unit {0})
      archive_slices slices = archive_rest no_progress slices

-- `_send_archive_cancel`
abbrev pub cancel_message : Upload → ℕ → Message
cancel_message u segment_num = record {
  client_tag = [];
  message_id = [];
  collection_id = 0;
  key = [];
  unified_id = u.unified_id;
  unified_id_to_delete = none;
  timestamp_repr = [];
  conjoined_part = u.conjoined_part;
  segment_num = segment_num;
  segment_size = 0;
  zfec_padding_size = 0;
  segment_md5_digest = [];
  segment_adler32 = one;
  sequence_num = 0;
  file_size = 0;
  file_adler32 = one;
  file_hash = [];
  source_node_name = [];
  handoff_node_name = none;
  handoff_node_id = 0;
  entries = [];
}

-- to the clients in turn, those that are connected
unfoldable pub cancels : Upload → ℕ → List Bool → List (ℕ × Sent)
cancels u n [] = []
cancels u n (connected ∷ clients) =
    let rest = cancels u (n + 1) clients in
    if connected then (n, (archive_key_cancel, cancel_message u (n + 1), [])) ∷ rest else rest

pub data Response : Type 0 where
  archived : Response
  retry_later : Response
  server_error : Response

-- The status of an answer to an exception: 503 for ArchiveFailedError, 500 for another one.
abbrev pub answer_to : Error → Response
answer_to archive_failed_error = retry_later
answer_to e = server_error

-- The part of `_archive_key` from the first slice on: the answer, and the messages that cancel.
unfoldable pub archive_key :
    Digests
    → Upload
    → (ℕ → Join)
    → Zfec
    → ZfecSegmenter
    → List Bool
    → List Bytes
    → Response × List (ℕ × Sent) × Archiver
archive_key digests u ends zfec segmenter clients slices =
    let (result, a) = archive_slices digests u ends zfec segmenter slices new_archiver in
    elim result [ ok done ↦ (archived, [], a) | err e ↦ (answer_to e, cancels u 0 clients, a) ]
