-- ===== src/Tests/WebServer.antt =====
-- A listing of three keys.
use nimbus_io.Prelude.{ℕ, ◌≡◌, refl, false, List, [], ◌∷◌, codes, text_eq}
use nimbus_io.Prelude.Tables.{any_where}
use nimbus_io.Tools.Timestamp.{Timestamp}
use nimbus_io.Database.{Status, active, cancelled, final, tombstone}
use nimbus_io.WebServer.Listmatcher.{
  key_data, prefixes, list_rows, starts_with, find, prefix_set, list_keys,
}
use nimbus_io.WebServer.Listmatcher.Keys.{Version, Group, all_rows, shown_keys, list_keys-shows}

abbrev date : Timestamp
date = record { year = 2012; month = 3; day = 1; hour = 9; minute = 0; second = 0; microsecond = 0 }

abbrev version : ℕ → Status → Version
version n status = record { unified_id = n; status = status; timestamp = date }

-- an upload over an older version, a key that was deleted, and a key that was written again
abbrev groups : List Group
groups =
    (codes "a/x", version 5 active ∷ version 2 final ∷ [])
    ∷ (codes "b", version 6 tombstone ∷ version 1 final ∷ [])
    ∷ (codes "c", version 9 cancelled ∷ version 8 final ∷ version 7 tombstone ∷ [])
    ∷ []

list_keys-shows_example : list_keys [] 10 [] (all_rows groups) ≡ key_data (shown_keys groups) false
unfolding text_eq
list_keys-shows_example =
    list_keys-shows [] 10 (all_rows groups) groups refl ((refl, (refl, tt)), ((refl, tt), (tt, tt)))

delimited_sample : list_keys [] 10 (codes "/") (all_rows groups) ≡ prefixes (codes "a/" ∷ []) false
unfolding list_keys list_rows find starts_with prefix_set text_eq any_where
delimited_sample = refl
