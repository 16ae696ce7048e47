-- ===== src/WebServer/Listmatcher.antt =====
-- `list_keys` and `list_versions` of web_server/listmatcher.py. The rows that the query of the database gives, `limit`
-- included, are an argument; `repr` of a timestamp is left to the reply. The set of prefixes is a
-- list without duplicates.
pub mod Keys
pub mod Versions
use nimbus_io.Prelude.{
  ℕ, ◌+◌, Bool, true, false, not, ◌&&◌, ◌||◌, Option, none, some, List, [], ◌∷◌, ltb, leb, ◌==◌,
  if◌then◌else◌, is_none, opt_eq, Text, text_eq, length, take,
}
use nimbus_io.Prelude.Tables.{any_where}
use nimbus_io.Tools.Timestamp.{Timestamp}
use nimbus_io.Database.{Status, is_active, is_cancelled, is_tombstone}

pub record KeysEntry : Type 0 where
  pub key : Text
  pub unified_id : ℕ
  pub status : Status
  pub timestamp : Timestamp

-- an element of `key_list`
pub record ListedKey : Type 0 where
  pub key : Text
  pub version_identifier : ℕ
  pub timestamp : Timestamp

abbrev pub listed : KeysEntry → ListedKey
listed row = record {
  key = row.key;
  version_identifier = row.unified_id;
  timestamp = row.timestamp;
}

-- `row.key == prev_key`
abbrev pub is_prev : Option Text → Text → Bool
is_prev none key = false
is_prev (some prev) key = text_eq key prev

-- the loop over the rows
unfoldable pub list_rows : Option Text → List KeysEntry → List ListedKey
list_rows prev_key [] = []
list_rows prev_key (row ∷ rows) =
    let rest = list_rows prev_key rows in
    let rest_of_other = list_rows (some row.key) rows in
    if is_prev prev_key row.key
    then rest
    else if is_active row.status || is_cancelled row.status
    then rest
    else if is_tombstone row.status
    then rest_of_other
    else listed row ∷ rest_of_other

unfoldable pub starts_with : Text → Text → Bool
starts_with [] key = true
starts_with (a ∷ prefix) [] = false
starts_with (a ∷ prefix) (b ∷ key) = (a == b) && starts_with prefix key

-- `key.find(delimiter, start)`, where `position` is that of the rest of the key
unfoldable pub find : Text → ℕ → ℕ → Text → Option ℕ
find delimiter start position [] = none
find delimiter start position (c ∷ key) =
    let rest = find delimiter start (position + 1) key in
    if leb start position && starts_with delimiter (c ∷ key) then some position else rest

abbrev pub add_prefix : Text → List Text → List Text
add_prefix prefix prefixes =
    if any_where (λ p. text_eq p prefix) prefixes then prefixes else prefix ∷ prefixes

unfoldable pub prefix_set : Text → Text → List ListedKey → List Text
prefix_set prefix delimiter [] = []
prefix_set prefix delimiter (entry ∷ entries) =
    let prefixes = prefix_set prefix delimiter entries in
    elim (find delimiter (length prefix) 0 entry.key) [
      | none ↦ prefixes
      | some position ↦
          if ltb 0 position then add_prefix (take (position + 1) entry.key) prefixes else prefixes
    ]

pub data Listing : Type 0 where
  key_data : List ListedKey → Bool → Listing
  prefixes : List Text → Bool → Listing

-- `request_count` is one more than `max_keys`.
unfoldable pub list_keys : Text → ℕ → Text → List KeysEntry → Listing
list_keys prefix max_keys delimiter result =
    let truncated = length result == (max_keys + 1) in
    let key_list = list_rows none (take max_keys result) in
    if text_eq delimiter []
    then key_data key_list truncated
    else prefixes (prefix_set prefix delimiter key_list) truncated

pub record VersionsEntry : Type 0 where
  pub key : Text
  pub unified_id : ℕ
  pub status : Status
  pub timestamp : Timestamp
  pub file_tombstone_unified_id : Option ℕ

abbrev pub listed_version : VersionsEntry → ListedKey
listed_version row = record {
  key = row.key;
  version_identifier = row.unified_id;
  timestamp = row.timestamp;
}

-- the loop of `list_versions`, with `tombstone_key` and `tombstone_unified_id`
unfoldable pub list_version_rows : Option Text → Option ℕ → List VersionsEntry → List ListedKey
list_version_rows tombstone_key tombstone_unified_id [] = []
list_version_rows tombstone_key tombstone_unified_id (row ∷ rows) =
    let rest = list_version_rows tombstone_key tombstone_unified_id rows in
    let after_match = list_version_rows tombstone_key none rows in
    let after_key = list_version_rows (some row.key) none rows in
    let after_version = list_version_rows none row.file_tombstone_unified_id rows in
    if is_prev tombstone_key row.key
    then rest
    else if not (is_none tombstone_unified_id)
        && opt_eq row.file_tombstone_unified_id tombstone_unified_id
    then after_match
    else if is_tombstone row.status
    then (if is_none row.file_tombstone_unified_id then after_key else after_version)
    else if is_active row.status || is_cancelled row.status
    then rest
    else listed_version row ∷ rest

unfoldable pub list_versions : Text → ℕ → Text → List VersionsEntry → Listing
list_versions prefix max_keys delimiter result =
    let truncated = length result == (max_keys + 1) in
    let key_list = list_version_rows none none (take max_keys result) in
    if text_eq delimiter []
    then key_data key_list truncated
    else prefixes (prefix_set prefix delimiter key_list) truncated
