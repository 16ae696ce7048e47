-- ===== src/Tests/Versions.antt =====
-- A listing of the versions of a key, one of them deleted by its id.
use nimbus_io.Prelude.{◌≡◌, refl, false, List, [], ◌∷◌, codes}
use nimbus_io.Tools.Timestamp.{Timestamp}
use nimbus_io.WebServer.Listmatcher.{key_data, listed_version, list_versions}
use nimbus_io.WebServer.Listmatcher.Versions.{
  key_deleted, version_deleted, kept, Group, row_of, all_rows, shown_versions, list_versions-shows,
}

abbrev date : Timestamp
date = record { year = 2012; month = 3; day = 1; hour = 9; minute = 0; second = 0; microsecond = 0 }

abbrev groups : List Group
groups =
    (codes "a", version_deleted 4 3 date ∷ kept 3 date ∷ key_deleted 2 date ∷ kept 1 date ∷ []) ∷ []

-- Version 3 was deleted by its id, and is shown.
deleted_version_is_listed :
    shown_versions groups ≡ listed_version (row_of (codes "a") (kept 3 date)) ∷ []
deleted_version_is_listed = refl

list_versions-shows_example :
    list_versions [] 10 [] (all_rows groups) ≡ key_data (shown_versions groups) false
list_versions-shows_example = list_versions-shows [] 10 (all_rows groups) groups refl (tt, tt)
