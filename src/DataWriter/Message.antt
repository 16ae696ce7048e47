-- ===== src/DataWriter/Message.antt =====
-- What data_writer_main.py reads of a message, and what it sends. A handler reads only the fields
-- that its kind of message has; the others stand for nothing. `entries` are the items of the
-- message's dictionary whose values are texts.
use nimbus_io.Prelude.{
  ℕ, Bool, true, false, Option, List, [], ◌∷◌, ◌==◌, if◌then◌else◌, Text, codes, length, drop,
}
use nimbus_io.Database.{ℤ}

pub record Message : Type 0 where
  pub client_tag : Text
  pub message_id : Text
  pub collection_id : ℕ
  pub key : Text
  pub unified_id : ℕ
  pub unified_id_to_delete : Option ℕ
  pub timestamp_repr : Text
  pub conjoined_part : ℕ
  pub segment_num : ℕ
  pub segment_size : ℕ
  pub zfec_padding_size : ℕ
  pub segment_md5_digest : Text
  pub segment_adler32 : ℤ
  pub sequence_num : ℕ
  pub file_size : ℕ
  pub file_adler32 : ℤ
  pub file_hash : Text
  pub source_node_name : Text
  pub handoff_node_name : Option Text
  pub handoff_node_id : ℕ
  pub entries : List (Text × Text)

pub data ReplyType : Type 0 where
  archive_key_start_reply archive_key_next_reply archive_key_final_reply : ReplyType
  destroy_key_reply start_conjoined_archive_reply abort_conjoined_archive_reply : ReplyType
  finish_conjoined_archive_reply : ReplyType

pub data Outcome : Type 0 where
  success size_mismatch md5_mismatch : Outcome

-- The error text of a reply follows from its outcome.
pub record Reply : Type 0 where
  pub message_type : ReplyType
  pub client_tag : Text
  pub message_id : Text
  pub result : Outcome

-- "__nimbus_io__"
abbrev pub nimbus_meta_prefix : Text
nimbus_meta_prefix = codes "__nimbus_io__"

unfoldable pub starts_with : Text → Text → Bool
starts_with [] s = true
starts_with (c ∷ p) [] = false
starts_with (c ∷ p) (d ∷ s) = if c == d then starts_with p s else false

-- `_extract_meta`
unfoldable pub extract_meta : List (Text × Text) → List (Text × Text)
extract_meta [] = []
extract_meta ((key, value) ∷ entries) =
    let rest = extract_meta entries in
    if starts_with nimbus_meta_prefix key
    then (drop (length nimbus_meta_prefix) key, value) ∷ rest
    else rest
