-- ===== src/WebServer/Listmatcher/Keys.antt =====
-- What `list_keys` shows of each key.
use nimbus_io.Prelude.{
  ℕ, ◌+◌, ◌≡◌, refl, false, ◌||◌, Option, none, some, List, [], ◌∷◌, ◌++◌, ◌==◌, if◌then◌else◌,
  Text, text_eq, text_eq_refl, length, take, All, arith, ap, ◌∙◌,
}
use nimbus_io.Tools.Timestamp.{Timestamp}
use nimbus_io.Database.{Status, is_active, is_cancelled, is_tombstone}
use nimbus_io.WebServer.Listmatcher.{
  KeysEntry, ListedKey, listed, is_prev, list_rows, key_data, list_keys,
}

pub record Version : Type 0 where
  pub unified_id : ℕ
  pub status : Status
  pub timestamp : Timestamp

-- A key with its versions, the newest first.
abbrev pub Group : Type 0
Group = Text × List Version

abbrev pub row_of : Text → Version → KeysEntry
row_of key v = record {
  key = key;
  unified_id = v.unified_id;
  status = v.status;
  timestamp = v.timestamp;
}

abbrev pub rows_of : Text → List Version → List KeysEntry
rows_of key [] = []
rows_of key (v ∷ versions) = row_of key v ∷ rows_of key versions

-- the rows by key, as `order by` gives them
abbrev pub all_rows : List Group → List KeysEntry
all_rows [] = []
all_rows ((key, versions) ∷ groups) = rows_of key versions ++ all_rows groups

-- The newest version that is neither active nor cancelled.
unfoldable pub newest_settled : List Version → Option Version
newest_settled [] = none
newest_settled (v ∷ versions) =
    let rest = newest_settled versions in
    if is_active v.status || is_cancelled v.status then rest else some v

-- A key is shown with this version, unless it is a tombstone.
abbrev pub shown : Text → Option Version → List ListedKey
shown key none = []
shown key (some v) = if is_tombstone v.status then [] else listed (row_of key v) ∷ []

abbrev pub shown_keys : List Group → List ListedKey
shown_keys [] = []
shown_keys ((key, versions) ∷ groups) = shown key (newest_settled versions) ++ shown_keys groups

abbrev pub AreDistinct : List Group → Type 0
AreDistinct [] = Unit
AreDistinct ((key, versions) ∷ groups) =
    All (λ g. text_eq g.0 key ≡ false) groups × AreDistinct groups

-- the rows of a key that is done
rows_of_done :
    (key : Text) (versions : List Version) (rest : List KeysEntry)
    → list_rows (some key) (rows_of key versions ++ rest) ≡ list_rows (some key) rest
unfolding list_rows
rows_of_done key [] rest = refl
rows_of_done key (v ∷ versions) rest = rw (text_eq_refl key) (rows_of_done key versions rest)

abbrev prev_after : Option Text → Text → Option Version → Option Text
prev_after prev key none = prev
prev_after prev key (some v) = some key

rows_of_new :
    (prev : Option Text) (key : Text) (versions : List Version) (rest : List KeysEntry)
    → is_prev prev key ≡ false
    → list_rows prev (rows_of key versions ++ rest)
      ≡ shown key (newest_settled versions)
        ++ list_rows (prev_after prev key (newest_settled versions)) rest
unfolding list_rows newest_settled
rows_of_new prev key [] rest new = refl
rows_of_new prev key (v ∷ versions) rest new =
    ground (arith, new, rows_of_new prev key versions rest new, rows_of_done key versions rest)

others_new :
    (prev : Option Text) (key : Text) (settled : Option Version) (groups : List Group)
    → All (λ g. is_prev prev g.0 ≡ false) groups
    → All (λ g. text_eq g.0 key ≡ false) groups
    → All (λ g. is_prev (prev_after prev key settled) g.0 ≡ false) groups
others_new prev key none groups new other = new
others_new prev key (some v) groups new other = other

all_rows_shown :
    (prev : Option Text) (groups : List Group)
    → All (λ g. is_prev prev g.0 ≡ false) groups
    → AreDistinct groups
    → list_rows prev (all_rows groups) ≡ shown_keys groups
unfolding list_rows
all_rows_shown prev [] new distinct = refl
all_rows_shown prev ((key, versions) ∷ groups) new distinct =
    rows_of_new prev key versions (all_rows groups) new.0
    ∙ ap (λ l. shown key (newest_settled versions) ++ l)
        (all_rows_shown (prev_after prev key (newest_settled versions)) groups
          (others_new prev key (newest_settled versions) groups new.1 distinct.0) distinct.1)

none_prev : (groups : List Group) → All (λ g. is_prev none g.0 ≡ false) groups
none_prev [] = tt
none_prev (g ∷ groups) = (refl, none_prev groups)

-- Without a delimiter, and if the first `max_keys` rows of the result are the versions of distinct
-- keys, key by key, `list_keys` shows of each key the newest version that is neither active nor
-- cancelled, unless that is a tombstone, in the order of the rows; and it tells that the listing is
-- truncated where the query gave a row more than `max_keys`.
pub list_keys-shows :
    (prefix : Text) (max_keys : ℕ) (result : List KeysEntry) (groups : List Group)
    → take max_keys result ≡ all_rows groups
    → AreDistinct groups
    → list_keys prefix max_keys [] result
      ≡ key_data (shown_keys groups) (length result == (max_keys + 1))
unfolding list_keys text_eq
list_keys-shows prefix max_keys result groups h distinct =
    rw (h, all_rows_shown none groups (none_prev groups) distinct) refl
