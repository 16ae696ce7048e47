-- ===== src/Tools/ResilientClient/Progress.antt =====
-- A resilient client that lost its connection sends what waits once the server answers again.
use nimbus_io.Prelude.{
  ℕ, ◌+◌, ◌≤◌, ◌≡◌, refl, Bool, true, false, Option, none, some, List, [], ◌∷◌, ◌++◌, map, ltb,
  Text, text_eq_refl, sym, append-nil, append_assoc, ◌∙◌, arith, All,
}
use nimbus_io.Prelude.Exec.{ok}
use nimbus_io.Tools.ResilientClient.{
  Status, handshaking, connected, disconnected, Message, is_handshake, Client, handshake,
  handshake_retry_interval, acknowledged, handle_status_disconnected, run, pollster_callback,
}
use nimbus_io.Tools.ResilientClient.Events.{
  Event, timer, readable, handle, handle_all, IsValid, Fits,
}
use nimbus_io.Tools.ResilientClient.Steps.{handshake-is_handshake}

-- the ack of a message
abbrev pub ack : ℕ → Message → Event
ack now m = readable now (some m.message_id)

abbrev pub Connected : Client → List Message → Type 0
Connected c sent =
    (c.status ≡ connected) × (c.pending_message ≡ none) × (c.send_queue ≡ []) × (c.sent ≡ sent)

module _ (now : ℕ) (has_socket : Bool) (time : ℕ) where
  abbrev sending : ℕ → ℕ → Message → List Message → List Message → Client
  sending start last m send_queue sent = record {
    has_socket = has_socket;
    send_queue = send_queue;
    pending_message = some m;
    pending_message_start_time = start;
    status = connected;
    status_time = time;
    last_successful_ack_time = last;
    sent = sent;
  }

  handle_all-acks :
      (start last : ℕ) (m : Message) (send_queue sent : List Message)
      → is_handshake m ≡ false
      → All (λ m. is_handshake m ≡ false) send_queue
      → let (r, c') =
          handle_all (map (ack now) (m ∷ send_queue)) (sending start last m send_queue sent) in
        (r ≡ ok tt) × Connected c' (sent ++ send_queue)
  unfolding handle_all handle pollster_callback acknowledged
  handle_all-acks start last m [] sent u users =
      rw (text_eq_refl m.message_id, u) (refl, (refl, refl, refl, sym (append-nil sent)))
  handle_all-acks start last m (n ∷ rest) sent u (un, users) =
      let (r, c) = handle_all-acks now now n rest (sent ++ n ∷ []) un users in
      rw (text_eq_refl m.message_id, u) (r, (c.0, c.1, c.2, c.3 ∙ append_assoc sent (n ∷ []) rest))

module _ (now : ℕ) (id : Text) (has_socket : Bool) (start time last : ℕ) (sent : List Message) where
  abbrev idle : Status → Option Message → List Message → Client
  idle status pending send_queue = record {
    has_socket = has_socket;
    send_queue = send_queue;
    pending_message = pending;
    pending_message_start_time = start;
    status = status;
    status_time = time;
    last_successful_ack_time = last;
    sent = sent;
  }

  abbrev Drains : Client → List Message → Type 0
  Drains c send_queue =
      let (r, c') = handle_all (timer now id ∷ map (ack now) (handshake id ∷ send_queue)) c in
      (r ≡ ok tt) × Connected c' (sent ++ handshake id ∷ send_queue)

  reconnects_idle :
      (send_queue : List Message)
      → has_socket ≡ false
      → ltb now (time + handshake_retry_interval) ≡ false
      → All (λ m. is_handshake m ≡ false) send_queue
      → Drains (idle disconnected none send_queue) send_queue
  unfolding handle_all handle run handle_status_disconnected pollster_callback acknowledged
  reconnects_idle [] off late users =
      rw (late, off, text_eq_refl id, handshake-is_handshake id) (refl, (refl, refl, refl, refl))
  reconnects_idle (m ∷ rest) off late (u, users) =
      let (r, c) =
        handle_all-acks now true now now now m rest ((sent ++ handshake id ∷ []) ++ m ∷ []) u
          users in
      rw (late, off, text_eq_refl id, handshake-is_handshake id)
        (
          r,
          (
            c.0,
            c.1,
            c.2,
            c.3
                ∙ append_assoc (sent ++ handshake id ∷ []) (m ∷ []) rest
                ∙ append_assoc sent (handshake id ∷ []) (m ∷ rest),
          ),
        )

  reconnects :
      (status : Status) (pending : Option Message) (send_queue : List Message)
      → Fits status pending has_socket send_queue
      → status ≡ disconnected
      → ltb now (time + handshake_retry_interval) ≡ false
      → All (λ m. is_handshake m ≡ false) send_queue
      → Drains (idle status pending send_queue) send_queue
  reconnects disconnected none send_queue f off late users = reconnects_idle send_queue f late users
  reconnects disconnected (some m) send_queue f off late users = elim f [ ]
  reconnects handshaking pending send_queue f off late users = absurd (ground arith)
  reconnects connected pending send_queue f off late users = absurd (ground arith)

-- Progress: a valid client without a connection, whose interval between handshakes has passed,
-- handshakes and sends what waits, in turn, if the server acknowledges the handshake and each
-- message; then it is connected and nothing waits.
pub handle_all-drains :
    (now : ℕ) (id : Text) (c : Client)
    → IsValid c
    → c.status ≡ disconnected
    → c.status_time + handshake_retry_interval ≤ now
    → let (r, c') = handle_all (timer now id ∷ map (ack now) (handshake id ∷ c.send_queue)) c in
      (r ≡ ok tt) × Connected c' (c.sent ++ handshake id ∷ c.send_queue)
handle_all-drains now id c v off late =
    reconnects now id c.has_socket c.pending_message_start_time c.status_time
      c.last_successful_ack_time c.sent c.status c.pending_message c.send_queue v.fitting off
      (ground arith) v.users
