-- ===== src/WebServer/Retriever.antt =====
-- web_server/retriever.py, and the part of `_retrieve_key` of web_server/application.py that answers with
-- what it yields. gevent is a list of what the waits for a finished task give in turn, over all the
-- rounds: a task of any round, in any order, or Empty. `join` after the loop only waits.
pub mod Waits
pub mod Rounds
pub mod Decoding
pub mod Delivery
pub mod Answers
use nimbus_io.Prelude.{
  ℕ, zero, suc, ◌+◌, Bool, true, false, not, ◌&&◌, Option, none, some, List, [], ◌∷◌, ◌++◌, ltb,
  leb, ◌==◌, if◌then◌else◌, Bytes, length, is_none, map,
}
use nimbus_io.Prelude.Dicts.{lookup, alter}
use nimbus_io.Prelude.Tables.{all_where, any_where}
use nimbus_io.Database.{is_final}
use nimbus_io.WebServer.LocalDatabaseUtil.{StatusRow}
use nimbus_io.WebServer.Pieces.{concat}
use nimbus_io.WebServer.ZfecSegmenter.{Zfec, ZfecSegmenter, decode}

-- The value of a task that is over: GreenletExit, an exception, or what the data reader returned, a
-- segment with its padding and whether it is the last one.
pub data Outcome : Type 0 where
  killed unsuccessful : Outcome
  returned : Option (Bytes × ℕ × Bool) → Outcome

pub record Task : Type 0 where
  pub sequence : ℕ
  pub segment_number : ℕ
  pub outcome : Outcome

-- `_finished_tasks.get`: a task, or Empty with the time since the start of the round
pub data Wait : Type 0 where
  got : Task → Wait
  empty : ℕ → Wait

abbrev pub Segments : Type 0
Segments = List (ℕ × (Bytes × ℕ))

-- the constructor's arguments that are used, and the number of data readers
pub record Retriever : Type 0 where
  pub reader_count : ℕ
  pub segments_needed : ℕ

-- the variables of `_process_node_replies`
pub record Replies : Type 0 where
  pub finished_task_count : ℕ
  pub result_dict : Segments
  pub completed_list : List Bool

abbrev pub no_replies : Replies
no_replies = record { finished_task_count = 0; result_dict = []; completed_list = [] }

-- How `_process_node_replies` ends: it blocks, it raises RetrieveFailedError, or it returns, with the
-- waits that are left.
pub data Ended : Type 0 where
  waiting : Ended
  failed : Ended
  replied : Segments → Bool → List Wait → Ended

abbrev pub same_number : ℕ → ℕ → Bool
same_number a b = a == b

-- `result_dict[segment_number] = ...`
abbrev pub set_item : ℕ → Bytes × ℕ → Segments → Segments
set_item n v segments = alter same_number n v (λ _. v) segments

abbrev pub result_of : Outcome → Option (Bytes × ℕ × Bool)
result_of killed = none
result_of unsuccessful = none
result_of (returned value) = value

abbrev pub process_finished_task : Task → Option (Bytes × ℕ × Bool)
process_finished_task task = result_of task.outcome

abbrev pub add_result : ℕ → Option (Bytes × ℕ × Bool) → Replies → Replies
add_result n none replies = record replies { finished_task_count = replies.finished_task_count + 1 }
add_result n (some (content, padding, completed)) replies = record {
  finished_task_count = replies.finished_task_count + 1;
  result_dict = set_item n (content, padding) replies.result_dict;
  completed_list = replies.completed_list ++ completed ∷ [];
}

module _ (r : Retriever) where
  -- what follows the loop
  unfoldable pub end_replies : Replies → List Wait → Ended
  end_replies replies waits =
      if ltb (length replies.result_dict) r.segments_needed
      then failed
      else if all_where (λ c. c) replies.completed_list
      then replied replies.result_dict true waits
      else if any_where (λ c. c) replies.completed_list
      then failed
      else replied replies.result_dict false waits

  module _ (timeout sequence : ℕ) where
    -- one round of the loop for a task, a stale one or one of this sequence
    abbrev pub receive : Task → Replies → Replies
    receive task replies =
        if task.sequence == sequence
        then add_result task.segment_number (process_finished_task task) replies
        else replies

    -- whether the round ends in `break`
    abbrev pub is_enough : Task → Replies → Bool
    is_enough task replies =
        (task.sequence == sequence)
        && not (is_none (process_finished_task task))
        && leb r.segments_needed (length replies.result_dict)

    unfoldable pub process_node_replies : Replies → List Wait → Ended
    process_node_replies replies [] =
        if ltb replies.finished_task_count r.reader_count then waiting else end_replies replies []
    process_node_replies replies (empty elapsed ∷ waits) =
        let rest = process_node_replies replies waits in
        if ltb replies.finished_task_count r.reader_count
        then if ltb timeout elapsed then failed else rest
        else end_replies replies (empty elapsed ∷ waits)
    process_node_replies replies (got task ∷ waits) =
        let rest = process_node_replies (receive task replies) waits in
        if ltb replies.finished_task_count r.reader_count
        then if is_enough task (receive task replies)
          then end_replies (receive task replies) waits
          else rest
        else end_replies replies (got task ∷ waits)

-- A request to a data reader: `retrieve_key_start` or `retrieve_key_next`.
pub record Request : Type 0 where
  pub start : Bool
  pub unified_id : ℕ
  pub conjoined_part : ℕ
  pub segment_num : ℕ

-- The generator: its sequence, the waits to come, what it has asked for and what it has yielded.
pub record Run : Type 0 where
  pub sequence : ℕ
  pub waits : List Wait
  pub requests : List Request
  pub yielded : List Segments

pub data Finish : Type 0 where
  exhausted : Finish
  retrieve_failed : Finish
  blocked : Finish

-- one request for each data reader that is connected, from the number `n` on
abbrev pub requests_of : Bool → StatusRow → ℕ → List Bool → List Request
requests_of start row n [] = []
requests_of start row n (true ∷ connected) =
    record {
      start = start;
      unified_id = row.seg_unified_id;
      conjoined_part = row.seg_conjoined_part;
      segment_num = n + 1;
    }
    ∷ requests_of start row (n + 1) connected
requests_of start row n (false ∷ connected) = requests_of start row (n + 1) connected

abbrev pub is_available : StatusRow → Bool
is_available row = elim row.con_create_timestamp [
  | none ↦ is_final row.seg_status
  | some _ ↦ not (is_none row.con_complete_timestamp)
]

-- `connected`: the data readers at a sequence
module _ (r : Retriever) (timeout : ℕ) (connected : ℕ → List Bool) where
  -- a round up to its wait
  abbrev pub ask : Bool → StatusRow → Run → Run
  ask start row run = record run {
    sequence = run.sequence + 1;
    requests = run.requests ++ requests_of start row 0 (connected (run.sequence + 1));
  }

  abbrev pub replies_of : Run → Ended
  replies_of run = process_node_replies r timeout run.sequence no_replies run.waits

  abbrev pub yield_segments : Segments → List Wait → Run → Run
  yield_segments segments waits run = record run {
    waits = waits;
    yielded = run.yielded ++ segments ∷ [];
  }

  -- the rest of a round, and the rounds that follow it
  abbrev pub after_replies : (Run → Finish × Run) → Run → Ended → Finish × Run
  after_replies more run waiting = (blocked, run)
  after_replies more run failed = (retrieve_failed, run)
  after_replies more run (replied segments true waits) =
      (exhausted, yield_segments segments waits run)
  after_replies more run (replied segments false waits) = more (yield_segments segments waits run)

  -- The rounds for a row, on fuel. A round that is not the last one takes a task at least.
  unfoldable pub retrieve_row : ℕ → Bool → StatusRow → Run → Finish × Run
  retrieve_row zero start row run = (blocked, run)
  retrieve_row (suc n) start row run =
      after_replies (retrieve_row n false row) (ask start row run) (replies_of (ask start row run))

  abbrev pub then_rows : (Run → Finish × Run) → Finish × Run → Finish × Run
  then_rows rest (exhausted, run) = rest run
  then_rows rest (retrieve_failed, run) = (retrieve_failed, run)
  then_rows rest (blocked, run) = (blocked, run)

  unfoldable pub retrieve_rows : ℕ → List StatusRow → Run → Finish × Run
  retrieve_rows fuel [] run = (exhausted, run)
  retrieve_rows fuel (row ∷ rows) run =
      then_rows (retrieve_rows fuel rows) (retrieve_row fuel true row run)

  abbrev pub start_run : List Wait → Run
  start_run waits = record { sequence = 0; waits = waits; requests = []; yielded = [] }

  -- `retrieve`, from the rows of the status query on
  unfoldable pub retrieve : List StatusRow → List Wait → Finish × Run
  retrieve [] waits = (retrieve_failed, start_run waits)
  retrieve (row ∷ rows) waits =
      if is_available row
      then retrieve_rows (suc (length waits)) (row ∷ rows) (start_run waits)
      else (retrieve_failed, start_run waits)

-- `segments[n]` for the numbers in turn, with the padding of the last one; nothing for a KeyError
abbrev pub join_segment : Option (Bytes × ℕ) → Option (List Bytes × ℕ) → Option (List Bytes × ℕ)
join_segment none rest = none
join_segment (some (content, padding)) none = none
join_segment (some (content, padding)) (some ([], _)) = some (content ∷ [], padding)
join_segment (some (content, padding)) (some (next ∷ contents, last)) =
    some (content ∷ next ∷ contents, last)

unfoldable pub encoded_segments : Segments → List ℕ → Option (List Bytes × ℕ)
encoded_segments segments [] = some ([], 0)
encoded_segments segments (n ∷ numbers) =
    join_segment (lookup same_number n segments) (encoded_segments segments numbers)

-- What the request is answered: 404, 503 after some of the body, the whole body with the number of
-- bytes for the space accounting, or nothing for a decoder that raises or an answer under way.
pub data Answer : Type 0 where
  not_found : Answer
  broken_off : List Bytes → Answer
  delivered : List Bytes → ℕ → Answer
  unanswered : Answer

abbrev pub decoded_then : Option Bytes → Option (List Bytes) → Option (List Bytes)
decoded_then none rest = none
decoded_then (some content) none = none
decoded_then (some content) (some contents) = some (content ∷ contents)

-- `keys` is the order of the keys of a dictionary
module _ (zfec : Zfec) (segmenter : ZfecSegmenter) (keys : Segments → List ℕ) where
  unfoldable pub decode_segments : Segments → Option Bytes
  decode_segments segments = elim (encoded_segments segments (keys segments)) [
    | none ↦ none
    | some (contents, padding) ↦ decode zfec segmenter contents (keys segments) padding
  ]

  -- the loop of `app_iterator`
  unfoldable pub decode_all : List Segments → Option (List Bytes)
  decode_all [] = some []
  decode_all (segments ∷ rest) = decoded_then (decode_segments segments) (decode_all rest)

  unfoldable pub answer_of : Finish × Run → Answer
  answer_of (finish, run) = elim run.yielded [
    | [] ↦ elim finish [ retrieve_failed ↦ not_found | _ ↦ unanswered ]
    | segments ∷ rest ↦ elim (decode_all (segments ∷ rest)) [
      | none ↦ unanswered
      | some contents ↦ elim finish [
        | exhausted ↦ delivered contents (length (concat contents))
        | retrieve_failed ↦ broken_off contents
        | blocked ↦ unanswered
      ]
    ]
  ]
