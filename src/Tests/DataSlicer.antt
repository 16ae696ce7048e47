-- ===== src/Tests/DataSlicer.antt =====
-- Two files of an upload, one of which is read in short chunks.
use nimbus_io.Prelude.{◌≡◌, refl, none, some, [], ◌∷◌, arith}
use nimbus_io.WebServer.Pieces.{pieces, concat}
use nimbus_io.WebServer.DataSlicer.{File, new_slicer, iterate, next, fill, read, read_more}
use nimbus_io.WebServer.DataSlicer.Slices.{new_slicer-pieces}

abbrev short_reads : File
short_reads = (1 ∷ 2 ∷ 3 ∷ []) ∷ (4 ∷ 5 ∷ 6 ∷ []) ∷ []

new_slicer-pieces_example :
    iterate 9 9 (new_slicer short_reads 4 none) ≡ pieces 4 (concat short_reads)
new_slicer-pieces_example =
    new_slicer-pieces 4 (ground arith) 9 9 short_reads (ground arith, (ground arith, tt))
      (ground arith) (ground arith)

slices : iterate 9 9 (new_slicer short_reads 4 none) ≡ (1 ∷ 2 ∷ 3 ∷ 4 ∷ []) ∷ (5 ∷ 6 ∷ []) ∷ []
unfolding iterate next fill read read_more
slices = refl

-- With the size of the file as the total, the bytes of the last short read are lost.
lost_bytes : iterate 9 9 (new_slicer short_reads 4 (some 6)) ≡ (1 ∷ 2 ∷ 3 ∷ 4 ∷ []) ∷ []
unfolding iterate next fill read read_more
lost_bytes = refl
