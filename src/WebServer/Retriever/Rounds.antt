-- ===== src/WebServer/Retriever/Rounds.antt =====
-- One round of a retrieval: what is left of the waits, and what it replies.
use nimbus_io.Prelude.{
  ℕ, suc, ◌+◌, ◌≤◌, ◌<◌, ◌≡◌, refl, sym, ap, ◌∙◌, subst, Bool, true, false, inl, inr, none, some,
  List, [], ◌∷◌, ◌++◌, ltb, leb, ◌==◌, if◌then◌else◌, Bytes, length, take, arith, Bool-cases,
  Option-cases, lt→ltb, All, All-append, append_assoc, take_exact, length-append,
}
use nimbus_io.Prelude.Dicts.{HasDistinctKeys}
use nimbus_io.WebServer.Retriever.{
  Wait, got, empty, Retriever, Replies, Ended, replied, same_number, process_finished_task,
  add_result, end_replies, process_node_replies,
}
use nimbus_io.WebServer.Retriever.Waits.{
  answers, ends_of, IsRight, IsFair, set_item-new, lookup-new, length-answers, end_replies-replied,
}

module _ (r : Retriever) (timeout s : ℕ) (share : ℕ → Bytes) (m padding : ℕ) (completed : Bool)
    (after : List Wait) where
  abbrev Fair : Wait → Type 0
  Fair wait = IsFair timeout s share m padding completed wait

  abbrev InRound : Replies → List Wait → Type 0
  InRound replies waits =
      (length replies.result_dict < r.segments_needed)
      × HasDistinctKeys same_number (replies.result_dict ++ answers s waits)
      × (r.segments_needed ≤ length replies.result_dict + length (answers s waits))
      × (replies.finished_task_count + ends_of s waits ≤ r.reader_count)
      × All (λ c. c ≡ completed) replies.completed_list

  abbrev Yields : Replies → List Wait → Ended → Type 0
  Yields replies waits ended =
      (rest : List Wait) × (ended
        ≡ replied (take r.segments_needed (replies.result_dict ++ answers s waits)) completed
            (rest ++ after))
      × All Fair rest

  abbrev with_answer : ℕ → Bytes → ℕ → Replies → Replies
  with_answer n content pad replies = record {
    finished_task_count = replies.finished_task_count + 1;
    result_dict = replies.result_dict ++ (n, (content, pad)) ∷ [];
    completed_list = replies.completed_list ++ completed ∷ [];
  }

  -- The end of the step for an answer: the round is over, or it goes on.
  found-replied :
      (n : ℕ) (content : Bytes) (pad : ℕ) (replies : Replies) (waits : List Wait) (later : Ended)
      → All Fair waits
      → length replies.result_dict < r.segments_needed
      → All (λ c. c ≡ completed) replies.completed_list
      → (length (with_answer n content pad replies).result_dict < r.segments_needed
          → Yields (with_answer n content pad replies) waits later)
      → let replies' = with_answer n content pad replies in
        Yields replies' waits (
          if leb r.segments_needed (length replies'.result_dict)
          then end_replies r replies' (waits ++ after)
          else later)
  found-replied n content pad replies waits later fair short agree go_on =
      let replies' = with_answer n content pad replies in
      let size : length replies'.result_dict ≡ length replies.result_dict + 1 =
        length-append replies.result_dict _ in
      elim (Bool-cases (leb r.segments_needed (length replies'.result_dict))) [
        | inl done ↦
            let full : length replies'.result_dict ≡ r.segments_needed =
              ground (arith, done, size, short) in
            rw done (
              waits,
              end_replies-replied r _ replies'.result_dict completed replies.completed_list
                    (waits ++ after) full agree
                  ∙ ap (λ l. replied l completed (waits ++ after))
                      (sym
                        (take_exact r.segments_needed replies'.result_dict (answers s waits) full)),
              fair,
            )
        | inr more ↦ rw more (go_on (ground (arith, more)))
      ]

  -- The step for an answer, with what `go` makes of the waits after it.
  answer-replied :
      (n : ℕ) (content : Bytes) (pad : ℕ) (c : Bool) (replies : Replies) (waits : List Wait)
      (go : Replies → Ended)
      → All Fair waits
      → (length replies.result_dict < r.segments_needed)
        × HasDistinctKeys same_number (replies.result_dict ++ (n, (content, pad)) ∷ answers s waits)
        × (r.segments_needed ≤ length replies.result_dict + suc (length (answers s waits)))
        × (replies.finished_task_count + suc (ends_of s waits) ≤ r.reader_count)
        × All (λ c. c ≡ completed) replies.completed_list
      → c ≡ completed
      → ((replies' : Replies) → InRound replies' waits → Yields replies' waits (go replies'))
      → let replies' = add_result n (some (content, pad, c)) replies in
        (rest : List Wait) × ((if leb r.segments_needed (length replies'.result_dict)
            then end_replies r replies' (waits ++ after)
            else go replies')
          ≡ replied
              (take r.segments_needed
                (replies.result_dict ++ (n, (content, pad)) ∷ answers s waits))
              completed
              (rest ++ after))
        × All Fair rest
  answer-replied n content pad c replies waits go fair (short, distinct, enough, bounded, agree)
        flag rest_replied =
      subst
        (λ replies'.
          (rest : List Wait) × ((if leb r.segments_needed (length replies'.result_dict)
              then end_replies r replies' (waits ++ after)
              else go replies')
            ≡ replied
                (take r.segments_needed
                  (replies.result_dict ++ (n, (content, pad)) ∷ answers s waits))
                completed (rest ++ after))
          × All Fair rest)
        (sym added)
        (rw whole at (
          found-replied n content pad replies waits (go replies') fair short agree (λ short'.
            rest_replied replies' (
              short',
              rw whole distinct,
              omega (arith, enough, size),
              omega (arith, bounded),
              All-append (λ c. c ≡ completed) replies.completed_list (completed ∷ []) agree
                  (refl, tt),
            ))))
    where
      replies' : Replies
      replies' = with_answer n content pad replies

      size : length replies'.result_dict ≡ length replies.result_dict + 1
      size = length-append replies.result_dict _

      whole :
          (replies.result_dict ++ (n, (content, pad)) ∷ []) ++ answers s waits
          ≡ replies.result_dict ++ (n, (content, pad)) ∷ answers s waits
      whole = append_assoc replies.result_dict _ _

      added : add_result n (some (content, pad, c)) replies ≡ replies'
      added i = record {
        finished_task_count = replies.finished_task_count + 1;
        result_dict =
            set_item-new n (content, pad) replies.result_dict
              (lookup-new n (content, pad) replies.result_dict (answers s waits) distinct) i;
        completed_list = replies.completed_list ++ flag i ∷ [];
      }

  -- From the middle of a round on.
  pub process-replied :
      (replies : Replies) (waits : List Wait)
      → All Fair waits
      → InRound replies waits
      → Yields replies waits (process_node_replies r timeout s replies (waits ++ after))
  unfolding process_node_replies answers ends_of
  process-replied replies [] fair (short, distinct, enough, bounded, agree) = absurd (omega arith)
  process-replied replies (empty elapsed ∷ waits) (h, fair) p =
      let (short, distinct, enough, bounded, agree) = p in
      rw (under_way, in_time) (process-replied replies waits fair p)
    where
      under_way : ltb replies.finished_task_count r.reader_count ≡ true
      under_way =
          lt→ltb replies.finished_task_count r.reader_count
            (omega (arith, p, length-answers s waits))

      in_time : ltb timeout elapsed ≡ false
      in_time = ground (arith, h)
  process-replied replies (got task ∷ waits) (h, fair) p =
      let (short, distinct, enough, bounded, agree) = p in
      elim h [
        | inl stale ↦
            rw (under_way, other stale) (process-replied replies waits fair (rw (other stale) at p))
        | inr (same, right) ↦
            elim (Option-cases (process_finished_task task))
              as (λ _.
                Yields replies (got task ∷ waits)
                  (process_node_replies r timeout s replies ((got task ∷ waits) ++ after))) [
                    | inl e ↦
                        rw (under_way, current same, e)
                          (process-replied (add_result task.segment_number none replies) waits fair
                            (later (rw (current same, e) at p)))
                    | inr ((content, pad, c), e) ↦
                        let (low, high, here, padded, ends) : IsRight share m padding completed
                            task.segment_number (some (content, pad, c)) =
                          rw e at right in
                        rw (under_way, current same, e)
                          (answer-replied task.segment_number content pad c replies waits
                            (λ replies'. process_node_replies r timeout s replies' (waits ++ after))
                            fair (rw (current same, e) at p) ends
                            (λ replies' p'. process-replied replies' waits fair p'))
                  ]
      ]
    where
      under_way : ltb replies.finished_task_count r.reader_count ≡ true
      under_way =
          lt→ltb replies.finished_task_count r.reader_count
            (omega (arith, p, length-answers s (got task ∷ waits)))

      current : task.sequence ≡ s → (task.sequence == s) ≡ true
      current same = ground (arith, same)

      later :
          (short : length replies.result_dict < r.segments_needed) × HasDistinctKeys same_number
              (replies.result_dict ++ answers s waits)
            × (r.segments_needed ≤ length replies.result_dict + length (answers s waits))
            × (replies.finished_task_count + suc (ends_of s waits) ≤ r.reader_count)
            × All (λ c. c ≡ completed) replies.completed_list
          → InRound (add_result task.segment_number none replies) waits
      later (short, distinct, enough, bounded, agree) =
          (short, distinct, enough, omega (arith, bounded), agree)

      other : task.sequence < s → (task.sequence == s) ≡ false
      other stale = ground (arith, stale)
