-- ===== src/WebServer/Listmatcher/Versions.antt =====
-- What `list_versions` shows of each key.
use nimbus_io.Prelude.{
  ℕ, ◌+◌, ◌≡◌, refl, false, Option, none, some, List, [], ◌∷◌, ◌++◌, ◌==◌, Text, text_eq,
  text_eq_refl, length, take, All, arith,
}
use nimbus_io.Tools.Timestamp.{Timestamp}
use nimbus_io.Database.{active, cancelled, final, tombstone}
use nimbus_io.WebServer.Listmatcher.{
  VersionsEntry, ListedKey, listed_version, is_prev, list_version_rows, key_data, list_versions,
}

-- A row for a key: a deletion of all versions or of one, an upload under way or given up, or a
-- version that is stored.
pub data Version : Type 0 where
  key_deleted : ℕ → Timestamp → Version
  version_deleted : ℕ → ℕ → Timestamp → Version
  under_way given_up kept : ℕ → Timestamp → Version

abbrev pub row_of : Text → Version → VersionsEntry
row_of key (key_deleted id time) = record {
  key = key;
  unified_id = id;
  status = tombstone;
  timestamp = time;
  file_tombstone_unified_id = none;
}
row_of key (version_deleted id named time) = record {
  key = key;
  unified_id = id;
  status = tombstone;
  timestamp = time;
  file_tombstone_unified_id = some named;
}
row_of key (under_way id time) = record {
  key = key;
  unified_id = id;
  status = active;
  timestamp = time;
  file_tombstone_unified_id = none;
}
row_of key (given_up id time) = record {
  key = key;
  unified_id = id;
  status = cancelled;
  timestamp = time;
  file_tombstone_unified_id = none;
}
row_of key (kept id time) = record {
  key = key;
  unified_id = id;
  status = final;
  timestamp = time;
  file_tombstone_unified_id = none;
}

abbrev pub Group : Type 0
Group = Text × List Version

abbrev pub rows_of : Text → List Version → List VersionsEntry
rows_of key [] = []
rows_of key (v ∷ versions) = row_of key v ∷ rows_of key versions

abbrev pub all_rows : List Group → List VersionsEntry
all_rows [] = []
all_rows ((key, versions) ∷ groups) = rows_of key versions ++ all_rows groups

-- The versions that are kept and newer than every deletion of the key.
abbrev pub shown : Text → List Version → List ListedKey
shown key [] = []
shown key (key_deleted id time ∷ versions) = []
shown key (version_deleted id named time ∷ versions) = shown key versions
shown key (under_way id time ∷ versions) = shown key versions
shown key (given_up id time ∷ versions) = shown key versions
shown key (kept id time ∷ versions) =
    listed_version (row_of key (kept id time)) ∷ shown key versions

abbrev pub shown_versions : List Group → List ListedKey
shown_versions [] = []
shown_versions ((key, versions) ∷ groups) = shown key versions ++ shown_versions groups

abbrev pub AreDistinct : List Group → Type 0
AreDistinct [] = Unit
AreDistinct ((key, versions) ∷ groups) =
    All (λ g. text_eq g.0 key ≡ false) groups × AreDistinct groups

abbrev AreNew : Option Text → List Group → Type 0
AreNew tombstone_key groups = All (λ g. is_prev tombstone_key g.0 ≡ false) groups

row_of-key : (key : Text) (v : Version) → (row_of key v).key ≡ key
row_of-key key (key_deleted id time) = refl
row_of-key key (version_deleted id named time) = refl
row_of-key key (under_way id time) = refl
row_of-key key (given_up id time) = refl
row_of-key key (kept id time) = refl

-- the rows of a key that was deleted
rows_of_deleted :
    (key : Text) (id : Option ℕ) (versions : List Version) (rest : List VersionsEntry)
    → list_version_rows (some key) id (rows_of key versions ++ rest)
      ≡ list_version_rows (some key) id rest
unfolding list_version_rows
rows_of_deleted key id [] rest = refl
rows_of_deleted key id (v ∷ versions) rest =
    rw (row_of-key key v, text_eq_refl key) (rows_of_deleted key id versions rest)

none_new : (groups : List Group) → AreNew none groups
none_new [] = tt
none_new (g ∷ groups) = (refl, none_new groups)

module _ (key : Text) (groups : List Group) (others : All (λ g. text_eq g.0 key ≡ false) groups)
    (rest : List VersionsEntry) (shown_rest : List ListedKey)
    (go_on : (k : Option Text) (id : Option ℕ)
      → AreNew k groups
      → list_version_rows k id rest ≡ shown_rest) where
  rows_of-shown :
      (k : Option Text) (id : Option ℕ) (versions : List Version)
      → is_prev k key ≡ false
      → AreNew k groups
      → list_version_rows k id (rows_of key versions ++ rest) ≡ shown key versions ++ shown_rest
  unfolding list_version_rows
  rows_of-shown k id [] new news = go_on k id news
  rows_of-shown k none (key_deleted i time ∷ versions) new news =
      rw (new, rows_of_deleted key none versions rest) (go_on (some key) none others)
  rows_of-shown k (some id) (key_deleted i time ∷ versions) new news =
      rw (new, rows_of_deleted key none versions rest) (go_on (some key) none others)
  rows_of-shown k none (version_deleted i named time ∷ versions) new news =
      rw new (rows_of-shown none (some named) versions refl (none_new groups))
  rows_of-shown k (some id) (version_deleted i named time ∷ versions) new news = ground (
    arith,
    new,
    rows_of-shown none (some named) versions refl (none_new groups),
    rows_of-shown k none versions new news,
  )
  rows_of-shown k none (under_way i time ∷ versions) new news =
      rw new (rows_of-shown k none versions new news)
  rows_of-shown k (some id) (under_way i time ∷ versions) new news =
      rw new (rows_of-shown k (some id) versions new news)
  rows_of-shown k none (given_up i time ∷ versions) new news =
      rw new (rows_of-shown k none versions new news)
  rows_of-shown k (some id) (given_up i time ∷ versions) new news =
      rw new (rows_of-shown k (some id) versions new news)
  rows_of-shown k none (kept i time ∷ versions) new news =
      rw (new, rows_of-shown k none versions new news) refl
  rows_of-shown k (some id) (kept i time ∷ versions) new news =
      rw (new, rows_of-shown k (some id) versions new news) refl

all_rows-shown :
    (k : Option Text) (id : Option ℕ) (groups : List Group)
    → AreNew k groups
    → AreDistinct groups
    → list_version_rows k id (all_rows groups) ≡ shown_versions groups
unfolding list_version_rows
all_rows-shown k id [] new distinct = refl
all_rows-shown k id ((key, versions) ∷ groups) new distinct =
    rows_of-shown key groups distinct.0 (all_rows groups) (shown_versions groups)
      (λ k' id' new'. all_rows-shown k' id' groups new' distinct.1) k id versions new.0 new.1

-- Without a delimiter, and if the first `max_keys` rows of the result are the versions of distinct
-- keys, key by key, `list_versions` shows of each key the final versions that stand before the
-- first deletion of the whole key, in the order of the rows, those that a deletion names by their
-- id included; and it tells that the listing is truncated where the query gave a row more than
-- `max_keys`.
pub list_versions-shows :
    (prefix : Text) (max_keys : ℕ) (result : List VersionsEntry) (groups : List Group)
    → take max_keys result ≡ all_rows groups
    → AreDistinct groups
    → list_versions prefix max_keys [] result
      ≡ key_data (shown_versions groups) (length result == (max_keys + 1))
unfolding list_versions text_eq
list_versions-shows prefix max_keys result groups h distinct =
    rw (h, all_rows-shown none none groups (none_new groups) distinct) refl
