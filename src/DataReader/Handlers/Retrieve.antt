-- ===== src/DataReader/Handlers/Retrieve.antt =====
-- A retrieval: `retrieve-key-start` and then `retrieve-key-next` for each sequence that is left.
use nimbus_io.Prelude.{
  ℕ, suc, ◌+◌, ◌≡◌, ◌<◌, refl, ap, ◌∙◌, Bool, true, false, none, some, List, [], ◌∷◌, ◌++◌, ◌==◌,
  Text, Bytes, text_eq_refl, ==-refl, length, arith, append_assoc,
}
use nimbus_io.Prelude.Tables.{delete_where}
use nimbus_io.Prelude.Exec.{Exec, Result, ok, pure, ◌>>◌}
use nimbus_io.Database.{SequenceRow}
use nimbus_io.Repository.{Disk}
use nimbus_io.DataReader.Reader.{read_sequence, all_sequence_rows_for_segment}
use nimbus_io.DataReader.Handlers.{
  Message, StateKey, state_key, key_eq, RetrieveState, success, Reply, reply_to, Requests, State,
  find_request, remove_request, retrieve_timeout, sequence_of, answer_sequence, start_with,
  handle_retrieve_key_start, handle_retrieve_key_next,
}

key_eq_refl : (k : StateKey) → key_eq k k ≡ true
key_eq_refl k = rw (text_eq_refl k.client_tag, ==-refl k.unified_id, ==-refl k.segment_num)

pub remove_absent :
    (k : StateKey) (requests : Requests)
    → find_request k requests ≡ none
    → remove_request k requests ≡ requests
unfolding find_request delete_where
remove_absent k [] h = refl
remove_absent k ((j, entry) ∷ requests) h = ground (arith, h, remove_absent k requests)

find_first :
    (k : StateKey) (entry : RetrieveState) (requests : Requests)
    → find_request k ((k, entry) ∷ requests) ≡ some entry
unfolding find_request
find_first k entry requests = rw (key_eq_refl k)

remove_first :
    (k : StateKey) (entry : RetrieveState) (requests : Requests)
    → find_request k requests ≡ none
    → remove_request k ((k, entry) ∷ requests) ≡ requests
unfolding delete_where
remove_first k entry requests h = rw (key_eq_refl k) (remove_absent k requests h)

test_true : (a b : ℕ) → a ≡ b → (a == b) ≡ true
test_true a b h = ground arith

test_false : (a b n : ℕ) → a + suc n ≡ b → (a == b) ≡ false
test_false a b n h = ground arith

suc_not_zero : (n : ℕ) → (suc n == 0) ≡ false
suc_not_zero n = ground arith

-- The value files hold the contents for the rows, with the digests of the rows.
abbrev pub AreWhole : (Bytes → Bytes) → Disk → List SequenceRow → List Bytes → Type 0
AreWhole md5 disk [] [] = Unit
AreWhole md5 disk [] (c ∷ contents) = ⊥
AreWhole md5 disk (q ∷ rows) [] = ⊥
AreWhole md5 disk (q ∷ rows) (c ∷ contents) =
    (read_sequence disk q ≡ some c) × (md5 c ≡ q.hash) × AreWhole md5 disk rows contents

-- the request for the next sequence, with a message id of its own
abbrev pub with_id : Message → Text → Message
with_id m id = record m { message_id = id }

module _ (md5 : Bytes → Bytes) (b64encode : Bytes → Text) where
  unfoldable pub handle_nexts : Message → List Text → Exec State (Unit {0})
  handle_nexts m [] = pure tt
  handle_nexts m (id ∷ ids) =
      handle_retrieve_key_next md5 b64encode (with_id m id) >> handle_nexts m ids

  -- The replies to requests for the sequences `number`, `number + 1`, ... of `count`: the last is
  -- the one that tells that the retrieval is completed.
  abbrev pub delivered : Message → ℕ → ℕ → List Text → List SequenceRow → List Bytes → List Reply
  delivered m count number [] rows contents = []
  delivered m count number (id ∷ ids) [] contents = []
  delivered m count number (id ∷ ids) (q ∷ rows) [] = []
  delivered m count number (id ∷ ids) (q ∷ rows) (c ∷ contents) =
      record {
        client_tag = m.client_tag;
        message_id = id;
        unified_id = m.unified_id;
        segment_num = m.segment_num;
        answer = success (record {
          completed = number == count;
          sequence_num = number;
          segment_size = q.size;
          zfec_padding_size = q.zfec_padding_size;
          segment_adler32 = q.adler32;
          segment_md5_digest = b64encode q.hash;
          content = c;
        });
      }
      ∷ delivered m count (number + 1) ids rows contents

  module _ (m : Message) (base : Requests) (absent : find_request (state_key m) base ≡ none) where
    abbrev entry_of : List SequenceRow → ℕ → ℕ → ℕ → RetrieveState
    entry_of rows count read timeout = record {
      generator = rows;
      sequence_row_count = count;
      sequence_read_count = read;
      timeout = timeout;
    }

    abbrev waiting : State → List SequenceRow → ℕ → ℕ → ℕ → State
    waiting s rows count read timeout = record s {
      active_requests = (state_key m, entry_of rows count read timeout) ∷ base;
    }

    abbrev answered : State → Reply → State
    answered s reply = record s { active_requests = base; replies = s.replies ++ reply ∷ [] }

    module _ (id : Text) (q : SequenceRow) (c : Bytes) (rows : List SequenceRow) (s : State)
        (count read timeout : ℕ) (stored : read_sequence s.disk q ≡ some c)
        (whole : md5 c ≡ q.hash) where
      abbrev asked : Result (Unit {0}) × State
      asked =
          handle_retrieve_key_next md5 b64encode (with_id m id)
            (waiting s (q ∷ rows) count read timeout)

      abbrev after_answer : Bool → State
      after_answer last =
          answered s
            (reply_to (with_id m id) (success (sequence_of md5 b64encode q c (read + 1) last)))

      next-last : ((read + 1) == count) ≡ true → asked ≡ (ok tt, after_answer true)
      unfolding handle_retrieve_key_next answer_sequence
      next-last last =
          rw
            (
              find_first (state_key m) (entry_of (q ∷ rows) count read timeout) base,
              handle_retrieve_key_next,
              stored,
              remove_first (state_key m) (entry_of (q ∷ rows) count read timeout) base absent,
              whole,
              text_eq_refl q.hash,
              last,
            )
            refl

      next-more :
          ((read + 1) == count) ≡ false
          → asked ≡ (ok tt, waiting (after_answer false) rows count (read + 1) timeout)
      unfolding handle_retrieve_key_next answer_sequence
      next-more more =
          rw
            (
              find_first (state_key m) (entry_of (q ∷ rows) count read timeout) base,
              handle_retrieve_key_next,
              stored,
              remove_first (state_key m) (entry_of (q ∷ rows) count read timeout) base absent,
              whole,
              text_eq_refl q.hash,
              more,
            )
            refl

    -- The rest of a retrieval, if there is one request for each row that is left.
    nexts-deliver :
        (ids : List Text) (rows : List SequenceRow) (contents : List Bytes) (s : State)
        (count read timeout : ℕ)
        → AreWhole md5 s.disk rows contents
        → length rows ≡ length ids
        → 0 < length ids
        → read + length ids ≡ count
        → let (r, s') = handle_nexts m ids (waiting s rows count read timeout) in
          (r ≡ ok tt)
          × (s' ≡ record s {
            active_requests = base;
            replies = s.replies ++ delivered m count (read + 1) ids rows contents;
          })
    unfolding handle_nexts
    nexts-deliver [] rows contents s count read timeout whole same pos all = absurd (omega arith)
    nexts-deliver (id ∷ ids) [] contents s count read timeout whole same pos all =
        absurd (omega arith)
    nexts-deliver (id ∷ ids) (q ∷ rows) [] s count read timeout whole same pos all = elim whole [ ]
    nexts-deliver (id ∷ []) (q ∷ r ∷ rows) (c ∷ contents) s count read timeout whole same pos all =
        absurd (omega arith)
    nexts-deliver (id ∷ []) (q ∷ []) (c ∷ contents) s count read timeout (stored, whole, others)
          same pos all =
        rw
          (
            next-last id q c [] s count read timeout stored whole (test_true (read + 1) count all),
            test_true (read + 1) count all,
          )
          (refl, refl)
    nexts-deliver (id ∷ id' ∷ ids) (q ∷ rows) (c ∷ contents) s count read timeout
          (stored, whole, others) same pos all =
        let more = test_false (read + 1) count (length ids) (omega arith) in
        let s' = after_answer id q c rows s count read timeout stored whole false in
        let (r, eq) =
          nexts-deliver (id' ∷ ids) rows contents s' count (read + 1) timeout others (omega arith)
            (omega arith) (omega arith) in
        rw (next-more id q c rows s count read timeout stored whole more, more)
          (
            r,
            eq
                ∙ ap (λ l. record s { active_requests = base; replies = l })
                    (append_assoc s.replies _ _),
          )

  module _ (now : ℕ) (m : Message) (q : SequenceRow) (rows : List SequenceRow) (c : Bytes)
      (s : State) (absent : find_request (state_key m) s.active_requests ≡ none)
      (found : all_sequence_rows_for_segment s.tables m.unified_id m.conjoined_part m.segment_num
        ≡ ok (q ∷ rows))
      (stored : read_sequence s.disk q ≡ some c) (whole : md5 c ≡ q.hash) where
    abbrev started : Bool → State
    started last = record s {
      replies = s.replies ++ reply_to m (success (sequence_of md5 b64encode q c 1 last)) ∷ [];
    }

    start-last :
        (1 == length (q ∷ rows)) ≡ true
        → handle_retrieve_key_start md5 b64encode now m s ≡ (ok tt, started true)
    unfolding handle_retrieve_key_start start_with answer_sequence
    start-last last =
        rw
          (
            absent,
            handle_retrieve_key_start,
            found,
            start_with,
            suc_not_zero (length rows),
            stored,
            whole,
            text_eq_refl q.hash,
            last,
          )
          refl

    start-more :
        (1 == length (q ∷ rows)) ≡ false
        → handle_retrieve_key_start md5 b64encode now m s ≡ (
          ok tt,
          waiting m s.active_requests absent
              (started false)
              rows
              (length (q ∷ rows))
              1
              (now + retrieve_timeout),
        )
    unfolding handle_retrieve_key_start start_with answer_sequence
    start-more more =
        rw
          (
            absent,
            handle_retrieve_key_start,
            found,
            start_with,
            suc_not_zero (length rows),
            stored,
            whole,
            text_eq_refl q.hash,
            more,
          )
          refl

  -- A retrieval that is asked for sequence by sequence. If the client has no retrieval of this
  -- segment under way, the query finds a row or more, the value files hold the contents with the
  -- digests of the rows, and there is one message for each row, then every message is answered by
  -- the row and the content whose turn it is, numbered from 1; only the last answer tells that the
  -- retrieval is completed; and nothing else of the state changes.
  pub retrieve-delivers :
      (now : ℕ) (m : Message) (ids : List Text) (rows : List SequenceRow) (contents : List Bytes)
      (s : State)
      → find_request (state_key m) s.active_requests ≡ none
      → all_sequence_rows_for_segment s.tables m.unified_id m.conjoined_part m.segment_num ≡ ok rows
      → AreWhole md5 s.disk rows contents
      → length rows ≡ suc (length ids)
      → (handle_retrieve_key_start md5 b64encode now m >> handle_nexts m ids) s ≡ (
        ok tt,
        record s {
          replies = s.replies ++ delivered m (length rows) 1 (m.message_id ∷ ids) rows contents;
        },
      )
  unfolding handle_nexts
  retrieve-delivers now m ids [] contents s absent found whole same = absurd (omega arith)
  retrieve-delivers now m ids (q ∷ rows) [] s absent found whole same = elim whole [ ]
  retrieve-delivers now m [] (q ∷ r ∷ rows) (c ∷ contents) s absent found whole same =
      absurd (omega arith)
  retrieve-delivers now m [] (q ∷ []) (c ∷ contents) s absent found (stored, whole, others) same =
      rw (start-last now m q [] c s absent found stored whole refl) refl
  retrieve-delivers now m (id ∷ ids) (q ∷ rows) (c ∷ contents) s absent found
        (stored, whole, others) same =
      let more = test_false 1 (length (q ∷ rows)) (length ids) (omega arith) in
      let s' = started now m q rows c s absent found stored whole false in
      let (r, eq) =
        nexts-deliver m s.active_requests absent (id ∷ ids) rows contents s' (length (q ∷ rows)) 1
          (now + retrieve_timeout) others (omega arith) (omega arith) (omega arith) in
      rw (start-more now m q rows c s absent found stored whole more, more)
        (λ i. (r i, (eq ∙ ap (λ l. record s { replies = l }) (append_assoc s.replies _ _)) i))
