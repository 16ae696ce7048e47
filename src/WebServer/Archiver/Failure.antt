-- ===== src/WebServer/Archiver/Failure.antt =====
-- An archive that fails: no data writer is told that the file is complete, and all are told to cancel.
use nimbus_io.Prelude.{ℕ, zero, suc, ◌<◌, ◌≡◌, Bool, true, false, List, [], ◌∷◌, Bytes, All}
use nimbus_io.Prelude.Exec.{Exec, err, archive_failed_error, Error}
use nimbus_io.DataWriter.Handlers.{MessageType, archive_key_entire, archive_key_final}
use nimbus_io.WebServer.ZfecSegmenter.{Zfec, ZfecSegmenter}
use nimbus_io.WebServer.Archiver.{
  Digests, Upload, Sent, Archiver, Progress, Join, finished, failed, advance, retry_later, Response,
  server_error,
}

-- a message that completes an archive
abbrev pub completes : MessageType → Bool
completes archive_key_entire = true
completes archive_key_final = true
completes t = false

abbrev pub AreIncomplete : List (ℕ × Sent) → Type 0
AreIncomplete sent = All (λ e. completes e.1.0 ≡ false) sent

module _ (digests : Digests) (u : Upload) (ends : ℕ → Join) (zfec : Zfec)
    (segmenter : ZfecSegmenter) (some_segments : 0 < segmenter.num_segments) (n : ℕ) (e : Error)
    (tasks_left : Bool) (earlier : (j : ℕ) → j < n → ends j ≡ finished)
    (broken : ends n ≡ failed e tasks_left) where
  abbrev grow : Progress → Bytes → Progress
  grow p slice = advance digests zfec segmenter p slice

  abbrev Fails : Exec Archiver (Unit {0}) → Archiver → Type 0
  Fails m a = (s : Archiver) × (m a ≡ (err e, s)) × AreIncomplete s.sent

-- the connection of a client
abbrev pub client : ℕ → List Bool → Bool
client i [] = false
client zero (connected ∷ clients) = connected
client (suc i) (connected ∷ clients) = client i clients

-- The answer to an ArchiveFailedError, and to another exception.
abbrev pub Answers : Error → Response → Type 0
Answers e response =
    (e ≡ archive_failed_error → response ≡ retry_later)
    × ((¬ (e ≡ archive_failed_error)) → response ≡ server_error)
