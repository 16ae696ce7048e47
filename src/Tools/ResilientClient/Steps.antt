-- ===== src/Tools/ResilientClient/Steps.antt =====
-- One event at a resilient client keeps its invariant and its messages.
use nimbus_io.Prelude.{
  ℕ, ◌≡◌, refl, Bool, true, false, Option, none, some, List, [], ◌∷◌, ◌++◌, Text, text_eq,
  text_eq_refl, codes, sym, append-nil, append_assoc, All-append, All, Bool-cases, inl, inr, ltb,
  leb, ◌+◌, ◌⊎◌, ◌∙◌, arith,
}
use nimbus_io.Prelude.Exec.{Result, ok, err, attribute_error}
use nimbus_io.Tools.ResilientClient.{
  Status, handshaking, connected, disconnected, Message, is_handshake, Client, new_client,
  ack_timeout, handshake_retry_interval, max_idle_time, handshake, send_next, acknowledged,
  handle_status_disconnected, handle_status_connected, handle_status_handshaking, run,
  queue_message_for_send, pollster_callback,
}
use nimbus_io.Tools.ResilientClient.Events.{
  Event, queued, timer, readable, handle, user_message, outstanding, queued_by, acked_by, Fits,
  Answers, IsExpected, IsValid,
}

abbrev pub Preserves : Client → Event → Result (Unit {0}) × Client → Type 0
Preserves c e (r, c') =
    (r ≡ ok tt) × IsValid c' × (acked_by e c ++ outstanding c' ≡ outstanding c ++ queued_by e)

pub handshake-is_handshake : (id : Text) → is_handshake (handshake id) ≡ true
handshake-is_handshake id = text_eq_refl (codes "resilient-server-handshake")

-- `send_next` on the fields
module _ (now start time last : ℕ) (sent : List Message) (has_socket : Bool) where
  abbrev waiting : List Message → Option Message → Client
  waiting send_queue pending = record {
    has_socket = has_socket;
    send_queue = send_queue;
    pending_message = pending;
    pending_message_start_time = start;
    status = connected;
    status_time = time;
    last_successful_ack_time = last;
    sent = sent;
  }

  send_next-IsValid :
      (send_queue : List Message) (pending : Option Message)
      → has_socket ≡ true
      → All (λ m. is_handshake m ≡ false) send_queue
      → IsValid (send_next now (waiting send_queue pending))
  send_next-IsValid [] pending f users = record { fitting = (f, refl); users = tt }
  send_next-IsValid (m ∷ rest) pending f (u, users) = record { fitting = (f, u); users = users }

  outstanding-send_next :
      (send_queue : List Message) (pending : Option Message)
      → All (λ m. is_handshake m ≡ false) send_queue
      → outstanding (send_next now (waiting send_queue pending)) ≡ send_queue
  outstanding-send_next [] pending users = refl
  outstanding-send_next (m ∷ rest) pending (u, users) = rw u refl

module _ (now : ℕ) (send_queue : List Message) (start time last : ℕ) (sent : List Message)
    (has_socket : Bool) where
  abbrev with_status : Status → Option Message → Client
  with_status status pending = record {
    has_socket = has_socket;
    send_queue = send_queue;
    pending_message = pending;
    pending_message_start_time = start;
    status = status;
    status_time = time;
    last_successful_ack_time = last;
    sent = sent;
  }

  timer-Preserves :
      (id : Text) (status : Status) (pending : Option Message)
      → Fits status pending has_socket send_queue
      → All (λ m. is_handshake m ≡ false) send_queue
      → Preserves
          (with_status status pending)
          (timer now id)
          (handle (timer now id) (with_status status pending))
  unfolding handle run handle_status_disconnected handle_status_connected handle_status_handshaking
  timer-Preserves id handshaking none f users = elim f [ ]
  timer-Preserves id disconnected (some m) f users = elim f [ ]
  timer-Preserves id disconnected none f users =
      elim (Bool-cases (ltb now (time + handshake_retry_interval))) [
        | inl early ↦
            rw early (refl, record { fitting = f; users = users }, sym (append-nil send_queue))
        | inr late ↦
            rw (late, f)
              (
                refl,
                record { fitting = (refl, handshake-is_handshake id); users = users },
                rw (handshake-is_handshake id) (sym (append-nil send_queue)),
              )
      ]
  timer-Preserves id handshaking (some m) (f, h) users =
      elim (Bool-cases (ltb now (start + ack_timeout))) [
        | inl early ↦ rw early (
          refl,
          record { fitting = (f, h); users = users },
          sym (append-nil (user_message m ++ send_queue)),
        )
        | inr late ↦
            rw (late, f)
              (refl, record { fitting = refl; users = users }, rw h (sym (append-nil send_queue)))
      ]
  timer-Preserves id connected none (f, h) users =
      elim (Bool-cases (leb (last + max_idle_time) now)) [
        | inl idle ↦
            rw (idle, f)
              (refl, record { fitting = refl; users = users }, sym (append-nil send_queue))
        | inr busy ↦
            rw busy (refl, record { fitting = (f, h); users = users }, sym (append-nil send_queue))
      ]
  timer-Preserves id connected (some m) (f, h) users =
      elim (Bool-cases (ltb now (start + ack_timeout))) [
        | inl early ↦ rw early (
          refl,
          record { fitting = (f, h); users = users },
          sym (append-nil (user_message m ++ send_queue)),
        )
        | inr late ↦
            rw (late, f)
              (
                refl,
                record { fitting = refl; users = (h, users) },
                rw h (sym (append-nil (m ∷ send_queue))),
              )
      ]

  queued-Preserves :
      (m : Message) (status : Status) (pending : Option Message)
      → is_handshake m ≡ false
      → Fits status pending has_socket send_queue
      → All (λ m. is_handshake m ≡ false) send_queue
      → Preserves
          (with_status status pending)
          (queued now m)
          (handle (queued now m) (with_status status pending))
  unfolding handle queue_message_for_send
  queued-Preserves m handshaking none u f users = elim f [ ]
  queued-Preserves m disconnected (some p) u f users = elim f [ ]
  queued-Preserves m disconnected none u f users = (
    refl,
    record {
      fitting = f;
      users = All-append (λ m. is_handshake m ≡ false) send_queue (m ∷ []) users (u, tt);
    },
    refl,
  )
  queued-Preserves m handshaking (some p) u f users = (
    refl,
    record {
      fitting = f;
      users = All-append (λ m. is_handshake m ≡ false) send_queue (m ∷ []) users (u, tt);
    },
    sym (append_assoc (user_message p) send_queue (m ∷ [])),
  )
  queued-Preserves m connected none u (f, h) users =
      rw u (refl, record { fitting = (f, u); users = users }, rw h refl)
  queued-Preserves m connected (some p) u f users = (
    refl,
    record {
      fitting = f;
      users = All-append (λ m. is_handshake m ≡ false) send_queue (m ∷ []) users (u, tt);
    },
    sym (append_assoc (user_message p) send_queue (m ∷ [])),
  )

  readable-Preserves :
      (received : Option Text) (status : Status) (pending : Option Message)
      → Answers received pending
      → Fits status pending has_socket send_queue
      → All (λ m. is_handshake m ≡ false) send_queue
      → Preserves
          (with_status status pending)
          (readable now received)
          (handle (readable now received) (with_status status pending))
  unfolding handle pollster_callback acknowledged
  readable-Preserves received handshaking none x f users = elim f [ ]
  readable-Preserves received disconnected (some p) x f users = elim f [ ]
  readable-Preserves none disconnected none x f users =
      (refl, record { fitting = f; users = users }, sym (append-nil send_queue))
  readable-Preserves (some id) disconnected none x f users = elim x [ ]
  readable-Preserves none connected none x f users =
      (refl, record { fitting = f; users = users }, sym (append-nil send_queue))
  readable-Preserves (some id) connected none x f users = elim x [ ]
  readable-Preserves none handshaking (some p) x f users =
      (refl, record { fitting = f; users = users }, sym (append-nil (user_message p ++ send_queue)))
  readable-Preserves none connected (some p) x f users =
      (refl, record { fitting = f; users = users }, sym (append-nil (user_message p ++ send_queue)))
  readable-Preserves (some id) handshaking (some p) mine (f, h) users =
      rw (mine, h)
        (
          refl,
          send_next-IsValid now start now now sent has_socket send_queue (some p) f users,
          rw (outstanding-send_next now start now now sent has_socket send_queue (some p) users)
              (sym (append-nil send_queue)),
        )
  readable-Preserves (some id) connected (some p) mine (f, h) users =
      rw (mine, h)
        (
          refl,
          send_next-IsValid now start time now sent has_socket send_queue (some p) f users,
          rw (outstanding-send_next now start time now sent has_socket send_queue (some p) users)
              (sym (append-nil (p ∷ send_queue))),
        )

  readable-outcome :
      (id : Text) (status : Status) (pending : Option Message)
      → Answers (some id) pending
        ⊎ ((¬ Answers (some id) pending)
            × (handle (readable now (some id)) (with_status status pending)
                ≡ (err attribute_error, with_status status pending)))
  unfolding handle pollster_callback
  readable-outcome id status none = inr ((λ x. x), refl)
  readable-outcome id status (some p) = elim (Bool-cases (text_eq id p.message_id)) [
    | inl mine ↦ inl mine
    | inr other ↦ inr (
      (λ x. let both : true ≡ false = sym x ∙ other in absurd (ground (arith, both))),
      rw other refl,
    )
  ]

pub handle-Preserves :
    (e : Event) (c : Client)
    → All (λ m. is_handshake m ≡ false) (queued_by e)
    → IsExpected e c
    → IsValid c
    → Preserves c e (handle e c)
handle-Preserves (queued now m) c (u, us) x v =
    queued-Preserves now c.send_queue c.pending_message_start_time c.status_time
      c.last_successful_ack_time c.sent c.has_socket m c.status c.pending_message u v.fitting
      v.users
handle-Preserves (timer now id) c us x v =
    timer-Preserves now c.send_queue c.pending_message_start_time c.status_time
      c.last_successful_ack_time c.sent c.has_socket id c.status c.pending_message v.fitting v.users
handle-Preserves (readable now received) c us x v =
    readable-Preserves now c.send_queue c.pending_message_start_time c.status_time
      c.last_successful_ack_time c.sent c.has_socket received c.status c.pending_message x v.fitting
      v.users

pub new_client-IsValid : IsValid new_client
new_client-IsValid = record { fitting = refl; users = tt }

-- An event that a valid client handles, or an ack that it does not wait for.
pub handle-outcome :
    (e : Event) (c : Client)
    → All (λ m. is_handshake m ≡ false) (queued_by e)
    → IsValid c
    → (IsExpected e c × ((handle e c).0 ≡ ok tt))
      ⊎ ((¬ IsExpected e c) × (handle e c ≡ (err attribute_error, c)))
unfolding handle pollster_callback
handle-outcome (queued now m) c us v = inl (tt, (handle-Preserves (queued now m) c us tt v).0)
handle-outcome (timer now id) c us v = inl (tt, (handle-Preserves (timer now id) c us tt v).0)
handle-outcome (readable now none) c us v = inl (tt, refl)
handle-outcome (readable now (some id)) c us v =
    elim (readable-outcome now c.send_queue c.pending_message_start_time c.status_time
      c.last_successful_ack_time c.sent c.has_socket id c.status c.pending_message) [
        | inl x ↦ inl (x, (handle-Preserves (readable now (some id)) c us x v).0)
        | inr refused ↦ inr refused
      ]
