-- ===== src/DataReader/Handlers.antt =====
-- The message handlers and the state cleaner of data_reader/: data_reader_main.py and
-- state_cleaner.py. A generator is the list of the rows that it has not read yet; each is read from
-- the value files when it is asked for. `web-server-start` is only logged.
pub mod Retrieve
pub mod Valid
use nimbus_io.Prelude.{
  ℕ, ◌+◌, Bool, true, false, not, ◌&&◌, Option, none, some, List, [], ◌∷◌, ◌++◌, ltb, ◌==◌,
  if◌then◌else◌, Text, Bytes, text_eq, length,
}
use nimbus_io.Prelude.Tables.{delete_where}
use nimbus_io.Prelude.Exec.{Exec, ok, modify, or_raise, pure, ◌>>=◌, ◌>>◌}
use nimbus_io.Database.{ℤ, SequenceRow, Tables}
use nimbus_io.Repository.{Disk}
use nimbus_io.DataReader.Reader.{all_sequence_rows_for_segment, read_sequence}

-- `retrieve-key-next` has no conjoined part.
pub record Message : Type 0 where
  pub client_tag : Text
  pub message_id : Text
  pub unified_id : ℕ
  pub conjoined_part : ℕ
  pub segment_num : ℕ

-- `_compute_state_key`
pub record StateKey : Type 0 where
  pub client_tag : Text
  pub unified_id : ℕ
  pub segment_num : ℕ

abbrev pub state_key : Message → StateKey
state_key m = record {
  client_tag = m.client_tag;
  unified_id = m.unified_id;
  segment_num = m.segment_num;
}

abbrev pub key_eq : StateKey → StateKey → Bool
key_eq a b =
    text_eq a.client_tag b.client_tag
    && (a.unified_id == b.unified_id)
    && (a.segment_num == b.segment_num)

-- `_retrieve_state_tuple`
pub record RetrieveState : Type 0 where
  pub generator : List SequenceRow
  pub sequence_row_count : ℕ
  pub sequence_read_count : ℕ
  pub timeout : ℕ

pub data Refusal : Type 0 where
  invalid_duplicate no_sequence_rows exception md5_mismatch unknown_request : Refusal

-- The part of a reply that is not copied from its message.
pub record Sequence : Type 0 where
  pub completed : Bool
  pub sequence_num : ℕ
  pub segment_size : ℕ
  pub zfec_padding_size : ℕ
  pub segment_adler32 : ℤ
  pub segment_md5_digest : Text
  pub content : Bytes

pub data Answer : Type 0 where
  refused : Refusal → Answer
  success : Sequence → Answer

pub record Reply : Type 0 where
  pub client_tag : Text
  pub message_id : Text
  pub unified_id : ℕ
  pub segment_num : ℕ
  pub answer : Answer

abbrev pub Requests : Type 0
Requests = List (StateKey × RetrieveState)

-- `tables` is what the database connection sees.
pub record State : Type 0 where
  pub active_requests : Requests
  pub tables : Tables
  pub disk : Disk
  pub replies : List Reply
  pub md5_mismatches : ℕ

unfoldable pub find_request : StateKey → Requests → Option RetrieveState
find_request k [] = none
find_request k ((j, entry) ∷ requests) =
    let rest = find_request k requests in if key_eq j k then some entry else rest

abbrev pub remove_request : StateKey → Requests → Requests
remove_request k = delete_where (λ e. key_eq e.0 k)

-- thirty minutes, in seconds
abbrev pub retrieve_timeout : ℕ
retrieve_timeout = 1800

abbrev pub reply_to : Message → Answer → Reply
reply_to m answer = record {
  client_tag = m.client_tag;
  message_id = m.message_id;
  unified_id = m.unified_id;
  segment_num = m.segment_num;
  answer = answer;
}

abbrev pub send_reply : Message → Answer → Exec State (Unit {0})
send_reply m answer = modify (λ s. record s { replies = s.replies ++ reply_to m answer ∷ [] })

-- What the generator gives next: nothing where it is at its end, or a file cannot be opened.
abbrev pub next_sequence : Disk → List SequenceRow → Option (SequenceRow × Bytes)
next_sequence disk [] = none
next_sequence disk (q ∷ rows) = elim (read_sequence disk q) [
  | none ↦ none
  | some content ↦ some (q, content)
]

abbrev pub rest_of : List SequenceRow → List SequenceRow
rest_of [] = []
rest_of (q ∷ rows) = rows

-- the libraries' md5 and base64
module _ (md5 : Bytes → Bytes) (b64encode : Bytes → Text) where
  abbrev pub sequence_of : SequenceRow → Bytes → ℕ → Bool → Sequence
  sequence_of q content sequence_num completed = record {
    completed = completed;
    sequence_num = sequence_num;
    segment_size = q.size;
    zfec_padding_size = q.zfec_padding_size;
    segment_adler32 = q.adler32;
    segment_md5_digest = b64encode q.hash;
    content = content;
  }

  -- The end of both handlers: the answer for a sequence that was read, with the entry to keep if
  -- more sequences follow.
  unfoldable pub answer_sequence :
      Message → SequenceRow → Bytes → RetrieveState → Exec State (Unit {0})
  answer_sequence m q content entry =
      if not (text_eq (md5 content) q.hash)
      then modify (λ s. record s { md5_mismatches = s.md5_mismatches + 1 })
        >> send_reply m (refused md5_mismatch)
      else if entry.sequence_read_count == entry.sequence_row_count
      then send_reply m (success (sequence_of q content entry.sequence_read_count true))
      else modify (λ s. record s { active_requests = (state_key m, entry) ∷ s.active_requests })
        >> send_reply m (success (sequence_of q content entry.sequence_read_count false))

  -- the handler from the first sequence on
  unfoldable pub start_with : ℕ → Message → List SequenceRow → Exec State (Unit {0})
  start_with now m rows s =
      if length rows == 0
      then send_reply m (refused no_sequence_rows) s
      else elim (next_sequence s.disk rows) [
        | none ↦ send_reply m (refused exception) s
        | some (q, content) ↦
            answer_sequence m q content
              (record {
                generator = rest_of rows;
                sequence_row_count = length rows;
                sequence_read_count = 1;
                timeout = now + retrieve_timeout;
              })
              s
      ]

  unfoldable pub handle_retrieve_key_start : ℕ → Message → Exec State (Unit {0})
  handle_retrieve_key_start now m s = elim (find_request (state_key m) s.active_requests) [
    | some _ ↦ send_reply m (refused invalid_duplicate) s
    | none ↦
        ((λ s'. (
          all_sequence_rows_for_segment s'.tables m.unified_id m.conjoined_part m.segment_num,
          s',
        ))
            >>= start_with now m)
          s
  ]

  unfoldable pub handle_retrieve_key_next : Message → Exec State (Unit {0})
  handle_retrieve_key_next m s = elim (find_request (state_key m) s.active_requests) [
    | none ↦ send_reply m (refused unknown_request) s
    | some entry ↦
        let s' = record s { active_requests = remove_request (state_key m) s.active_requests } in
        elim (next_sequence s.disk entry.generator) [
          | none ↦ send_reply m (refused exception) s'
          | some (q, content) ↦
              answer_sequence m q content
                (record entry {
                  generator = rest_of entry.generator;
                  sequence_read_count = entry.sequence_read_count + 1;
                })
                s'
        ]
  ]

-- `StateCleaner.run`, where the process is not halted
unfoldable pub clean_state : ℕ → Exec State (Unit {0})
clean_state now =
    modify (λ s. record s {
      active_requests = delete_where (λ e. ltb e.1.timeout now) s.active_requests;
    })
