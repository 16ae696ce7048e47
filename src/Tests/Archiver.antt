-- ===== src/Tests/Archiver.antt =====
-- Uploads of three slices to ten data writers: one that succeeds, and one whose second batch fails.
use nimbus_io.Prelude.{
  ℕ, ◌≡◌, refl, true, false, none, List, [], ◌∷◌, ◌++◌, Bool, Bytes, codes, take, map, arith,
  length-take, length-append, text_eq, if◌then◌else◌, ltb,
}
use nimbus_io.Prelude.Exec.{ok, archive_failed_error}
use nimbus_io.Tools.Timestamp.{parse_timestamp_repr}
use nimbus_io.Database.{pos}
use nimbus_io.DataWriter.Writer.{find_segment}
use nimbus_io.DataWriter.Writer.Store.{stored}
use nimbus_io.DataWriter.Handlers.{
  find_node, handoff_id, dispatch_all, archive_key_start, archive_key_final,
}
use nimbus_io.DataWriter.Handlers.Archive.{nexts}
use nimbus_io.DataWriter.Handlers.Open.{IsFirst}
use nimbus_io.WebServer.ZfecSegmenter.RoundTrip.{eight_of}
use nimbus_io.WebServer.Archiver.{
  Digests, Upload, Archiver, Join, finished, failed, new_archiver, archive_slices, advance,
  no_progress,
}
use nimbus_io.WebServer.Archiver.Protocol.{
  sent_to, share_of, slice_message_of, middle, last_message, archive_slices-protocol,
}
use nimbus_io.WebServer.Archiver.Storage.{AreAgreed, numbered, archive_slices-stores}
use nimbus_io.Tests.DataWriter.{env, now, node, new_writer-IsSound}
use nimbus_io.Tests.ZfecSegmenter.{striped}

abbrev digests : Digests
digests = record {
  md5 = λ content. take 16 (content ++ codes "................");
  b64encode = λ content. content;
  adler32 = λ sum content. pos 1;
}

agreed : AreAgreed digests env
agreed = record {
  same = λ content. refl;
  decoded = λ content. refl;
  sixteen = λ content. omega (
    arith,
    length-take 16 (content ++ codes "................"),
    length-append content (codes "................"),
  );
}

abbrev upload : Upload
upload = record {
  collection_id = 1001;
  key = codes "a";
  unified_id = 55;
  timestamp_repr = codes "datetime.datetime(2012, 3, 1, 9, 0, 0, 5)";
  meta_dict = [];
  conjoined_part = 0;
  local_node_name = codes "node01";
}

abbrev one : Bytes
one = codes "xy"

abbrev two : Bytes
two = codes "zz"

abbrev three : Bytes
three = codes "w"

abbrev all_finish : ℕ → Join
all_finish n = finished

archive_slices-protocol_example :
    (a : Archiver) × (archive_slices digests upload all_finish striped
        (eight_of 10)
        (one ∷ two ∷ three ∷ [])
        new_archiver
      ≡ (ok tt, a))
    × (sent_to 3 a.sent
        ≡ (
          archive_key_start,
          slice_message_of digests upload striped (eight_of 10) 3 0 one,
          share_of digests upload striped (eight_of 10) 3 one,
        )
          ∷ (nexts (middle digests upload striped (eight_of 10) 3 1 two (three ∷ []))
              ++ (
                archive_key_final,
                last_message digests upload striped
                    (eight_of 10)
                    3
                    (advance digests striped (eight_of 10) no_progress one)
                    1
                    two
                    (three ∷ []),
                share_of digests upload striped (eight_of 10) 3 three,
              )
                ∷ []))
archive_slices-protocol_example =
    archive_slices-protocol digests upload all_finish striped (eight_of 10) (λ n. refl) 3
      (omega arith) one two (three ∷ [])

starting-IsFirst :
    IsFirst (slice_message_of digests upload striped (eight_of 10) 3 0 one) node now 7 none
unfolding find_segment parse_timestamp_repr find_node text_eq handoff_id
starting-IsFirst = record {
  sound = new_writer-IsSound;
  numbered = record { segments = tt; sequences = tt };
  unknown = refl;
  unread = tt;
  parsed = refl;
  sender = refl;
  receiver = refl;
}

archive_slices-stores_example :
    (a : Archiver) × (stored (dispatch_all env now (sent_to 3 a.sent) node).1.writer 1
      ≡ numbered 0 (map (share_of digests upload striped (eight_of 10) 3) (one ∷ two ∷ three ∷ [])))
archive_slices-stores_example =
    let (a, ran, (done, rows, sequences)) =
      archive_slices-stores digests env upload all_finish striped (eight_of 10) 3 now now node 7
        none one two (three ∷ []) agreed (λ n. refl) (omega arith) (omega arith) starting-IsFirst in
    (a, sequences)

abbrev second_fails : ℕ → Join
second_fails n = if ltb n 1 then finished else failed archive_failed_error true

abbrev clients : List Bool
clients = true ∷ false ∷ true ∷ []
