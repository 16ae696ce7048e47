-- ===== src/WebServer/Archiver/Protocol.antt =====
-- What a data writer is sent: the protocol of an archive, with its segment of each slice.
use nimbus_io.Prelude.{
  ℕ, zero, suc, ◌+◌, ◌<◌, ◌≡◌, refl, ap, ◌∙◌, true, false, some, List, [], ◌∷◌, ◌++◌, ◌==◌,
  if◌then◌else◌, Bytes, length, arith, append_assoc,
}
use nimbus_io.Prelude.Exec.{ok, continue, ◌>>◌}
use nimbus_io.DataWriter.Message.{Message}
use nimbus_io.DataWriter.Handlers.{
  archive_key_entire, archive_key_start, archive_key_next, archive_key_final,
}
use nimbus_io.DataWriter.Handlers.Archive.{nexts}
use nimbus_io.WebServer.ZfecSegmenter.{Zfec, ZfecSegmenter, encode, padding_size}
use nimbus_io.WebServer.ZfecSegmenter.Shares.{nth, length-encode}
use nimbus_io.WebServer.Archiver.{
  Digests, Upload, Sent, Archiver, new_archiver, Progress, batch, Join, finished, end_batch,
  advance_sequence, slice_message, final_message, send_slice, send_final, archive_slice,
  archive_final, archive_previous, advance, archive_rest, no_progress, archive_slices,
}

-- what went to a data writer
unfoldable pub sent_to : ℕ → List (ℕ × Sent) → List Sent
sent_to i [] = []
sent_to i ((j, message) ∷ sent) =
    let rest = sent_to i sent in if j == i then message ∷ rest else rest

sent_to-append :
    (i : ℕ) (sent more : List (ℕ × Sent))
    → sent_to i (sent ++ more) ≡ sent_to i sent ++ sent_to i more
unfolding sent_to
sent_to-append i [] more = refl
sent_to-append i ((j, message) ∷ sent) more = ground (arith, sent_to-append i sent more)

sent_to-later :
    (make : ℕ → Bytes → Sent) (i n : ℕ) (segments : List Bytes)
    → i < n
    → sent_to i (batch make n segments) ≡ []
unfolding sent_to batch
sent_to-later make i n [] h = refl
sent_to-later make i n (segment ∷ segments) h =
    ground (arith, sent_to-later make i (n + 1) segments (omega (arith, h)))

sent_to-batch :
    (make : ℕ → Bytes → Sent) (i j n : ℕ) (segments : List Bytes)
    → i ≡ n + j
    → j < length segments
    → sent_to i (batch make n segments) ≡ make (i + 1) (nth segments j) ∷ []
unfolding sent_to batch
sent_to-batch make i j n [] e h = absurd (omega arith)
sent_to-batch make i zero n (segment ∷ segments) e h =
    rw here
      (λ k. make (same k + 1) segment ∷ sent_to-later make i (n + 1) segments (omega (arith, e)) k)
  where
    here : (n == i) ≡ true
    here = ground arith

    same : n ≡ i
    same = omega arith
sent_to-batch make i (suc j) n (segment ∷ segments) e h =
    rw not_here (sent_to-batch make i j (n + 1) segments (omega arith) (omega arith))
  where
    not_here : (n == i) ≡ false
    not_here = ground arith

-- The share of data writer `i` of a file, and its messages.
module _ (digests : Digests) (u : Upload) (zfec : Zfec) (segmenter : ZfecSegmenter) (i : ℕ) where
  abbrev pub share_of : Bytes → Bytes
  share_of slice = nth (encode zfec segmenter slice) i

  abbrev pub slice_message_of : ℕ → Bytes → Message
  slice_message_of n slice =
      slice_message digests u n (padding_size segmenter slice) (i + 1) (share_of slice)

  -- the messages `next` of the slices before the last one
  abbrev pub middle : ℕ → Bytes → List Bytes → List (Message × Bytes)
  middle n slice [] = []
  middle n slice (next ∷ slices) =
      (slice_message_of n slice, share_of slice) ∷ middle (n + 1) next slices

  abbrev pub last : Bytes → List Bytes → Bytes
  last slice [] = slice
  last slice (next ∷ slices) = last next slices

  -- the progress when the last slice has been read
  abbrev pub complete : Progress → Bytes → List Bytes → Progress
  complete p slice [] = advance digests zfec segmenter p slice
  complete p slice (next ∷ slices) = complete (advance digests zfec segmenter p slice) next slices

  abbrev pub last_message : Progress → ℕ → Bytes → List Bytes → Message
  last_message p n slice slices =
      final_message digests u (n + length slices) (complete p slice slices) (i + 1)
        (share_of (last slice slices))

-- an archiver whose last batch has succeeded
abbrev pub idle : ℕ → List (ℕ × Sent) → Archiver
idle n sent = record { sequence_num = n; pending = false; sent = sent }

module _ (digests : Digests) (u : Upload) (ends : ℕ → Join) (zfec : Zfec)
    (segmenter : ZfecSegmenter) where
  archive_slice-sends :
      (n padding : ℕ) (segments : List Bytes) (sent : List (ℕ × Sent))
      → ends n ≡ finished
      → archive_slice digests u ends segments padding (idle n sent)
        ≡ (ok tt, idle (n + 1) (sent ++ batch (send_slice digests u n padding) 0 segments))
  unfolding archive_slice
  archive_slice-sends n padding segments sent succeeds =
      ap (λ e. (end_batch e >> advance_sequence digests u ends) (idle n sent')) succeeds
    where
      sent' : List (ℕ × Sent)
      sent' = sent ++ batch (send_slice digests u n padding) 0 segments

  pub archive_previous-sends :
      (n : ℕ) (p : Progress) (segments : List Bytes) (sent : List (ℕ × Sent))
      → p.segments ≡ some segments
      → 0 < length segments
      → ends n ≡ finished
      → archive_previous digests u ends zfec segmenter p (idle n sent) ≡ (
        ok tt,
        idle (n + 1) (sent ++ batch (send_slice digests u n p.zfec_padding_size) 0 segments),
      )
  unfolding archive_previous
  archive_previous-sends n p [] sent e h succeeds = absurd (omega arith)
  archive_previous-sends n p (segment ∷ segments) sent e h succeeds =
      rw (e, archive_previous)
        (archive_slice-sends n p.zfec_padding_size (segment ∷ segments) sent succeeds)

module _ (digests : Digests) (u : Upload) (ends : ℕ → Join) (zfec : Zfec)
    (segmenter : ZfecSegmenter) (all : (n : ℕ) → ends n ≡ finished) where
  archive_final-sends :
      (n : ℕ) (p : Progress) (segments : List Bytes) (sent : List (ℕ × Sent))
      → archive_final digests u ends p segments (idle n sent)
        ≡ (ok tt, idle n (sent ++ batch (send_final digests u n p) 0 segments))
  unfolding archive_final
  archive_final-sends n p segments sent =
      ap (λ e. end_batch e (idle n (sent ++ batch (send_final digests u n p) 0 segments))) (all n)

  abbrev grow : Progress → Bytes → Progress
  grow p slice = advance digests zfec segmenter p slice

  -- the batches from the slice `slice` on
  abbrev batches : ℕ → Progress → Bytes → List Bytes → List (ℕ × Sent)
  batches n p slice [] =
      batch (send_final digests u n (grow p slice)) 0 (encode zfec segmenter slice)
  batches n p slice (next ∷ slices) =
      batch (send_slice digests u n (padding_size segmenter slice)) 0 (encode zfec segmenter slice)
      ++ batches (n + 1) (grow p slice) next slices

  archive_rest-sends :
      (n : ℕ) (p : Progress) (slice : Bytes) (slices : List Bytes) (sent : List (ℕ × Sent))
      → 0 < segmenter.num_segments
      → (s : Archiver) × (archive_rest digests u ends zfec segmenter
            (grow p slice)
            slices
            (idle n sent)
          ≡ (ok tt, s))
        × (s.sent ≡ sent ++ batches n p slice slices)
  unfolding archive_rest
  archive_rest-sends n p slice [] sent some_segments = (
    idle n (sent ++ batches n p slice []),
    archive_final-sends n (grow p slice) (encode zfec segmenter slice) sent,
    refl,
  )
  archive_rest-sends n p slice (next ∷ slices) sent some_segments =
      let sent' =
        sent
        ++ batch (send_slice digests u n (padding_size segmenter slice)) 0
            (encode zfec segmenter slice) in
      let (s, ran, e) = archive_rest-sends (n + 1) (grow p slice) next slices sent' some_segments in
      (
        s,
        ap
              (λ r.
                continue r.0
                  (λ x.
                    archive_rest digests u ends zfec segmenter (grow (grow p slice) next) slices)
                  r.1)
              (archive_previous-sends digests u ends zfec segmenter n (grow p slice)
                (encode zfec segmenter slice) sent refl
                (omega (arith, length-encode zfec segmenter slice, some_segments)) (all n))
            ∙ ran,
        e
            ∙ append_assoc sent
                (batch (send_slice digests u n (padding_size segmenter slice)) 0
                  (encode zfec segmenter slice))
                (batches (n + 1) (grow p slice) next slices),
      )

  module _ (i : ℕ) (below : i < segmenter.num_segments) where
    abbrev share : Bytes → Bytes
    share slice = share_of digests u zfec segmenter i slice

    abbrev message_of : ℕ → Bytes → Message
    message_of n slice = slice_message_of digests u zfec segmenter i n slice

    sent_to-encode :
        (make : ℕ → Bytes → Sent) (slice : Bytes)
        → sent_to i (batch make 0 (encode zfec segmenter slice)) ≡ make (i + 1) (share slice) ∷ []
    sent_to-encode make slice =
        sent_to-batch make i i 0 (encode zfec segmenter slice) (omega arith)
          (omega (arith, below, length-encode zfec segmenter slice))

    sent_to-batches :
        (n : ℕ) (p : Progress) (slice : Bytes) (slices : List Bytes)
        → 0 < n
        → sent_to i (batches n p slice slices)
          ≡ nexts (middle digests u zfec segmenter i n slice slices)
            ++ (
              archive_key_final,
              last_message digests u zfec segmenter i p n slice slices,
              share (last digests u zfec segmenter i slice slices),
            )
              ∷ []
    sent_to-batches n p slice [] h =
        sent_to-encode (send_final digests u n (grow p slice)) slice ∙ λ k.
        (
          if started k then archive_key_entire else archive_key_final,
          final_message digests u (same k) (grow p slice) (i + 1) (share slice),
          share slice,
        )
        ∷ []
      where
        started : (n == 0) ≡ false
        started = ground arith

        same : n ≡ n + 0
        same = omega arith
    sent_to-batches n p slice (next ∷ slices) h =
        sent_to-append i
          (batch (send_slice digests u n (padding_size segmenter slice)) 0
            (encode zfec segmenter slice))
          (batches (n + 1) (grow p slice) next slices)
        ∙ (λ k.
            (sent_to-encode (send_slice digests u n (padding_size segmenter slice)) slice k)
            ++ sent_to-batches (n + 1) (grow p slice) next slices (omega arith) k)
        ∙ λ k.
            (
              if started k then archive_key_start else archive_key_next,
              message_of n slice,
              share slice,
            )
            ∷ (nexts (middle digests u zfec segmenter i (n + 1) next slices)
                ++ (
                  archive_key_final,
                  final_message digests u (same k)
                      (complete digests u zfec segmenter i (grow p slice) next slices) (i + 1)
                      (share (last digests u zfec segmenter i next slices)),
                  share (last digests u zfec segmenter i next slices),
                )
                  ∷ [])
      where
        started : (n == 0) ≡ false
        started = ground arith

        same : n + 1 + length slices ≡ n + suc (length slices)
        same = omega arith

    -- When every batch succeeds, a file of two slices or more is archived without an exception, and
    -- each data writer is sent a start, a next for each slice but the first and the last one, and a
    -- final, which carry its segment of each slice, numbered from 0 in the order of the file.
    pub archive_slices-protocol :
        (first second : Bytes) (slices : List Bytes)
        → (s : Archiver) × (archive_slices digests u ends zfec segmenter
              (first ∷ second ∷ slices)
              new_archiver
            ≡ (ok tt, s))
          × (sent_to i s.sent
              ≡ (archive_key_start, message_of 0 first, share first)
                ∷ (nexts (middle digests u zfec segmenter i 1 second slices)
                    ++ (
                      archive_key_final,
                      last_message digests u zfec segmenter i
                          (grow no_progress first)
                          1
                          second
                          slices,
                      share (last digests u zfec segmenter i second slices),
                    )
                      ∷ []))
    unfolding archive_rest archive_previous
    archive_slices-protocol first second slices =
        let start = no_progress in
        let (s, ran, sent) =
          archive_rest-sends 0 start first (second ∷ slices) [] (omega (arith, below)) in
        (
          s,
          ran,
          ap (sent_to i) sent
              ∙ sent_to-append i
                  (batch (send_slice digests u 0 (padding_size segmenter first)) 0
                    (encode zfec segmenter first))
                  (batches 1 (grow start first) second slices)
              ∙ (λ k.
                  (sent_to-encode (send_slice digests u 0 (padding_size segmenter first)) first k)
                  ++ sent_to-batches 1 (grow start first) second slices (omega arith) k),
        )
