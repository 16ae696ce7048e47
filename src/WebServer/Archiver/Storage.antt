-- ===== src/WebServer/Archiver/Storage.antt =====
-- The web server's archive and a data writer together: what the node of a data writer holds when it has
-- handled what it was sent.
use nimbus_io.Prelude.{
  ℕ, ◌+◌, ◌<◌, ◌≡◌, refl, sym, ap, ◌∙◌, Option, some, List, [], ◌∷◌, ◌++◌, Bytes, length, map,
  arith, append_assoc, append-nil, length-append,
}
use nimbus_io.Prelude.Exec.{ok}
use nimbus_io.Tools.Timestamp.{Timestamp}
use nimbus_io.DataWriter.Sql.{finalized}
use nimbus_io.DataWriter.Writer.{Env}
use nimbus_io.DataWriter.Writer.Store.{stored}
use nimbus_io.DataWriter.Writer.Segments.{rows_with}
use nimbus_io.DataWriter.Handlers.{State, dispatch_all}
use nimbus_io.DataWriter.Handlers.Open.{segment_key, IsIntact, IsFirst, next_id, first_row}
use nimbus_io.DataWriter.Handlers.Archive.{sequences_of, AreNexts, archive-stores}
use nimbus_io.WebServer.Pieces.{concat}
use nimbus_io.WebServer.ZfecSegmenter.{Zfec, ZfecSegmenter, padding_size}
use nimbus_io.WebServer.Archiver.{
  Digests, Upload, Archiver, new_archiver, Progress, Join, finished, slice_message, final_message,
  no_progress, archive_slices, advance,
}
use nimbus_io.WebServer.Archiver.Protocol.{
  sent_to, share_of, slice_message_of, middle, last, complete, last_message,
  archive_slices-protocol,
}

-- The web server and the node use the same digests and base64.
pub record AreAgreed (digests : Digests) (env : Env) : Type 0 where
  pub same : (content : Bytes) → env.md5 content ≡ digests.md5 content
  pub decoded : (content : Bytes) → env.b64decode (digests.b64encode content) ≡ some content
  pub sixteen : (content : Bytes) → length (digests.md5 content) ≡ 16

-- contents with their sequence numbers
abbrev pub numbered : ℕ → List Bytes → List (ℕ × Option Bytes)
numbered n [] = []
numbered n (content ∷ contents) = (n, some content) ∷ numbered (n + 1) contents

module _ (digests : Digests) (env : Env) (agreed : AreAgreed digests env) (u : Upload) where
  slice_message-IsIntact :
      (n padding segment_num : ℕ) (segment : Bytes)
      → IsIntact env (slice_message digests u n padding segment_num segment) segment
  slice_message-IsIntact n padding segment_num segment = record {
    size = refl;
    digest = agreed.decoded (digests.md5 segment) ∙ ap some (sym (agreed.same segment));
    sixteen = ap length (agreed.same segment) ∙ agreed.sixteen segment;
  }

  final_message-IsIntact :
      (n : ℕ) (p : Progress) (segment_num : ℕ) (segment : Bytes)
      → IsIntact env (final_message digests u n p segment_num segment) segment
  final_message-IsIntact n p segment_num segment =
      let intact = slice_message-IsIntact n p.zfec_padding_size segment_num segment in
      record { size = intact.size; digest = intact.digest; sixteen = intact.sixteen }

  module _ (zfec : Zfec) (segmenter : ZfecSegmenter) (i : ℕ) where
    abbrev share : Bytes → Bytes
    share slice = share_of digests u zfec segmenter i slice

    abbrev whole : Progress → Bytes → List Bytes → Progress
    whole p slice slices = complete digests u zfec segmenter i p slice slices

    whole-size :
        (p : Progress) (slice : Bytes) (slices : List Bytes)
        → (whole p slice slices).file_size ≡ p.file_size + length (concat (slice ∷ slices))
    whole-size p slice [] = ap (λ l. p.file_size + length l) (sym (append-nil slice))
    whole-size p slice (next ∷ slices) = omega (
      arith,
      whole-size (advance digests zfec segmenter p slice) next slices,
      length-append slice (concat (next ∷ slices)),
    )

    whole-md5 :
        (p : Progress) (slice : Bytes) (slices : List Bytes)
        → (whole p slice slices).file_md5 ≡ p.file_md5 ++ concat (slice ∷ slices)
    whole-md5 p slice [] = ap (λ l. p.file_md5 ++ l) (sym (append-nil slice))
    whole-md5 p slice (next ∷ slices) =
        whole-md5 (advance digests zfec segmenter p slice) next slices
        ∙ append_assoc p.file_md5 slice (concat (next ∷ slices))

    middle-AreNexts :
        (n : ℕ) (slice : Bytes) (slices : List Bytes)
        → AreNexts env
            (segment_key (slice_message_of digests u zfec segmenter i 0 slice))
            (middle digests u zfec segmenter i n slice slices)
    middle-AreNexts n slice [] = tt
    middle-AreNexts n slice (next ∷ slices) = (
      (refl, slice_message-IsIntact n (padding_size segmenter slice) (i + 1) (share slice)),
      middle-AreNexts (n + 1) next slices,
    )

    sequences_of-middle :
        (n m : ℕ) (slice : Bytes) (slices : List Bytes)
        → m ≡ n + length slices
        → sequences_of (middle digests u zfec segmenter i n slice slices)
            ++ (m, some (share (last digests u zfec segmenter i slice slices))) ∷ []
          ≡ numbered n (map share (slice ∷ slices))
    sequences_of-middle n m slice [] e = λ k. (same k, some (share slice)) ∷ []
      where
        same : m ≡ n
        same = omega arith
    sequences_of-middle n m slice (next ∷ slices) e =
        ap (λ l. (n, some (share slice)) ∷ l)
          (sequences_of-middle (n + 1) m next slices (omega arith))

-- When every batch succeeds, the file has two slices or more and is not empty, and the node can start
-- the segment and agrees with the web server on digests and base64: the archive raises nothing; the
-- node of data writer `i` handles what it was sent without an exception; the row of the segment is
-- final, with the size of the file, its checksum and its md5; and what the value files hold for
-- the segment is the data writer's segment of each slice, numbered from 0.
pub archive_slices-stores :
    (digests : Digests) (env : Env) (u : Upload) (ends : ℕ → Join) (zfec : Zfec)
    (segmenter : ZfecSegmenter) (i : ℕ) (now timestamp : Timestamp) (s : State) (source : ℕ)
    (handoff : Option ℕ) (first second : Bytes) (slices : List Bytes)
    → AreAgreed digests env
    → ((n : ℕ) → ends n ≡ finished)
    → i < segmenter.num_segments
    → 0 < length (concat (first ∷ second ∷ slices))
    → IsFirst (slice_message_of digests u zfec segmenter i 0 first) s timestamp source handoff
    → (a : Archiver) × (archive_slices digests u ends zfec segmenter
          (first ∷ second ∷ slices)
          new_archiver
        ≡ (ok tt, a))
      × let (r, s') = dispatch_all env now (sent_to i a.sent) s in
        (r ≡ ok tt)
        × (rows_with s'.writer (next_id s)
            ≡ finalized
                (length (concat (first ∷ second ∷ slices)))
                (complete digests u zfec segmenter i no_progress first
                  (second ∷ slices)).file_adler32
                (digests.md5 (concat (first ∷ second ∷ slices)))
                (first_row
                  (slice_message_of digests u zfec segmenter i 0 first)
                  s
                  timestamp
                  source
                  handoff)
              ∷ [])
        × (stored s'.writer (next_id s)
            ≡ numbered 0 (map (share_of digests u zfec segmenter i) (first ∷ second ∷ slices)))
archive_slices-stores digests env u ends zfec segmenter i now timestamp s source handoff first
      second slices agreed all below some_bytes can_start =
    let (a, ran, sent) =
      archive_slices-protocol digests u ends zfec segmenter all i below first second slices in
    let start = advance digests zfec segmenter no_progress first in
    let p = complete digests u zfec segmenter i start second slices in
    let total : p.file_size ≡ length (concat (first ∷ second ∷ slices)) = omega (
      arith,
      whole-size digests env agreed u zfec segmenter i no_progress first (second ∷ slices),
    ) in
    let content =
      whole-md5 digests env agreed u zfec segmenter i no_progress first (second ∷ slices) in
    let (r, sound, gone, rows, sequences, durable, visible) =
      archive-stores env now (slice_message_of digests u zfec segmenter i 0 first)
        (last_message digests u zfec segmenter i start 1 second slices)
        (middle digests u zfec segmenter i 1 second slices)
        (share_of digests u zfec segmenter i first)
        (share_of digests u zfec segmenter i (last digests u zfec segmenter i second slices))
        (digests.md5 p.file_md5) s timestamp source handoff can_start
        (slice_message-IsIntact digests env agreed u 0 (padding_size segmenter first) (i + 1)
          (share_of digests u zfec segmenter i first))
        (middle-AreNexts digests env agreed u zfec segmenter i 1 second slices) refl
        (final_message-IsIntact digests env agreed u (1 + length slices) p (i + 1)
          (share_of digests u zfec segmenter i (last digests u zfec segmenter i second slices)))
        (record {
          timestamp = timestamp;
          parsed = can_start.parsed;
          positive = omega (arith, total, some_bytes);
          decoded = agreed.decoded (digests.md5 p.file_md5);
          sixteen = agreed.sixteen p.file_md5;
        }) in
    (
      a,
      ran,
      rw sent (
        r,
        rows ∙ (λ k.
            finalized (total k) p.file_adler32 (digests.md5 (content k)) (
              first_row (slice_message_of digests u zfec segmenter i 0 first) s timestamp source
                handoff)
            ∷ []),
        sequences
            ∙ ap (λ l. (0, some (share_of digests u zfec segmenter i first)) ∷ l)
                (sequences_of-middle digests env agreed u zfec segmenter i 1 (1 + length slices)
                  second slices refl),
      ),
    )
