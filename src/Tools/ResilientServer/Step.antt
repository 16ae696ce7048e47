-- ===== src/Tools/ResilientServer/Step.antt =====
-- Each message that the server receives does what it is meant to do.
use nimbus_io.Prelude.{
  ℕ, ◌+◌, ◌≡◌, refl, sym, ap, ◌∙◌, true, false, Option, none, some, List, [], ◌∷◌, ◌++◌,
  if◌then◌else◌, Text, text_eq, text_eq→eq, text_eq_refl, arith, ltb, ◌==◌, Bool-cases,
  Option-cases, inl, inr, append-nil,
}
use nimbus_io.Prelude.Exec.{Exec, ok, continue, ◌>>◌}
use nimbus_io.Prelude.Dicts.{
  lookup, alter, remove, lookup-alter, lookup-alter_same, lookup-remove_other, lookup-remove_same,
  alter-HasDistinctKeys, remove-HasDistinctKeys, sum_of, sum_of-alter_missing, sum_of-alter_found,
  sum_of-remove,
}
use nimbus_io.Tools.ResilientServer.{
  Incoming, PushClient, Server, handshake_type, signoff_type, find_client, close_client,
  close_existing, connect, handle_resilient_server_handshake, handle_resilient_server_signoff,
  send_ack, receive_from, receive_message, pollster_callback,
}
use nimbus_io.Tools.ResilientServer.Table.{
  times_closed, times_of, address, addresses, IsValid, is_handshake, is_signoff, after, is_some,
  is_known, ack_of, IsFormed, Refines,
}

text_eq_swap : (s t : Text) → text_eq s t ≡ text_eq t s
unfolding text_eq
text_eq_swap [] [] = refl
text_eq_swap (a ∷ s) (b ∷ t) = ground (arith, text_eq_swap s t)
text_eq_swap [] (b ∷ t) = refl
text_eq_swap (a ∷ s) [] = refl

times_closed-append :
    (n socket : ℕ) (closed : List ℕ)
    → times_closed n (closed ++ socket ∷ [])
      ≡ times_closed n closed + (if socket == n then 1 else 0)
unfolding times_closed
times_closed-append n socket [] = omega arith
times_closed-append n socket (a ∷ closed) = omega (arith, times_closed-append n socket closed)

close_existing-closes :
    (tag : Text) (client : PushClient) (s : Server)
    → IsValid s
    → client.socket ≡ s.next_socket
    → (closed : List ℕ) × (close_existing tag s ≡ record s { closed = closed })
      × ((n : ℕ)
          → sum_of text_eq (times_of n) (alter text_eq tag client (λ c. client) s.active_clients)
              + times_closed n closed
            ≡ (if ltb n (s.next_socket + 1) then 1 else 0))
close_existing-closes tag client s v new_one = elim (Option-cases (find_client tag s)) [
  | inl new ↦ (
    s.closed,
    rw (close_existing, new) refl,
    λ n. ground (
      arith,
      v.sockets n,
      new_one,
      sum_of-alter_missing text_eq (times_of n) client tag s.active_clients new,
    ),
  )
  | inr (old, found) ↦ (
    s.closed ++ old.socket ∷ [],
    rw (close_existing, found) refl,
    λ n. ground (
      arith,
      v.sockets n,
      new_one,
      times_closed-append n old.socket s.closed,
      sum_of-alter_found text_eq (times_of n) client tag old s.active_clients found,
    ),
  )
]

handshake-runs :
    (m : Incoming) (tag a : Text) (s : Server)
    → m.client_tag ≡ some tag
    → m.client_address ≡ some a
    → handle_resilient_server_handshake m s ≡ (ok tt, connect tag a (close_existing tag s))
unfolding handle_resilient_server_handshake
handshake-runs m tag a s et ea = rw (et, ea) refl

signoff-runs_known :
    (m : Incoming) (tag : Text) (client : PushClient) (s : Server)
    → m.client_tag ≡ some tag
    → find_client tag s ≡ some client
    → handle_resilient_server_signoff m s ≡ (
      ok tt,
      close_client client (record s { active_clients = remove text_eq tag s.active_clients }),
    )
unfolding handle_resilient_server_signoff lookup remove
signoff-runs_known m tag client s et found = rw (et, found) refl

signoff-runs_unknown :
    (m : Incoming) (tag : Text) (s : Server)
    → m.client_tag ≡ some tag
    → find_client tag s ≡ none
    → handle_resilient_server_signoff m s ≡ (ok tt, s)
unfolding handle_resilient_server_signoff lookup
signoff-runs_unknown m tag s et missing = rw (et, missing) refl

handshake-Refines :
    (m : Incoming) (s : Server)
    → is_handshake m ≡ true
    → IsFormed m
    → IsValid s
    → Refines m s (handle_resilient_server_handshake m >> send_ack m)
unfolding after
handshake-Refines m s own formed v =
    let (tag, et) = formed.tagged own in
    let (a, ea) = formed.addressed own in
    let client : PushClient = record { socket = s.next_socket; address = a } in
    let (closed, same, count) = close_existing-closes tag client s v refl in
    (
      record (connect tag a (record s { closed = closed })) { acks = s.acks ++ ack_of m ∷ [] },
      ap (λ r. continue r.0 (λ x. send_ack m) r.1)
          (handshake-runs m tag a s et ea ∙ ap (λ t. (ok tt, connect tag a t)) same),
      record {
        distinct =
            alter-HasDistinctKeys text_eq client (λ c. client) text_eq→eq text_eq_swap tag
              s.active_clients v.distinct;
        sockets = count;
      },
      λ t. rw (own, et, ea) (found tag t client),
      rw own (sym (append-nil s.receive_queue)),
      rw own refl,
    )
  where
    found :
        (tag t : Text) (client : PushClient)
        → address (lookup text_eq t (alter text_eq tag client (λ c. client) s.active_clients))
          ≡ (if text_eq tag t then some client.address else addresses s t)
    found tag t client = elim (Bool-cases (text_eq tag t)) [
      | inl e ↦ rw e (
          ap
            (λ x.
              address (lookup text_eq x (alter text_eq tag client (λ c. client) s.active_clients)))
            (sym (text_eq→eq tag t e))
          ∙ ap address (
              lookup-alter_same text_eq text_eq→eq client (λ c. client) client (λ c. refl)
                text_eq_refl tag s.active_clients))
      | inr e ↦ rw e (
          ap address
            (lookup-alter text_eq client (λ c. client) text_eq→eq t tag s.active_clients e))
    ]

-- The two types are different texts.
not_handshake : (m : Incoming) → is_signoff m ≡ true → is_handshake m ≡ false
unfolding text_eq
not_handshake m e = ap (λ t. text_eq t handshake_type) (text_eq→eq m.message_type signoff_type e)

signoff-Refines :
    (m : Incoming) (s : Server)
    → is_signoff m ≡ true
    → IsFormed m
    → IsValid s
    → Refines m s (handle_resilient_server_signoff m >> send_ack m)
unfolding after
signoff-Refines m s own formed v =
    let (tag, et) = formed.named own in
    elim (Option-cases (find_client tag s)) [
      | inl missing ↦ (
        record s { acks = s.acks ++ ack_of m ∷ [] },
        ap (λ r. continue r.0 (λ x. send_ack m) r.1) (signoff-runs_unknown m tag s et missing),
        record { distinct = v.distinct; sockets = v.sockets },
        λ t.
            rw (not_handshake m own, own, et)
              (elim (Bool-cases (text_eq tag t)) [
                | inl e ↦
                    rw e (ap (λ x. addresses s x) (sym (text_eq→eq tag t e)) ∙ ap address missing)
                | inr e ↦ rw e refl
              ]),
        rw (not_handshake m own, own) (sym (append-nil s.receive_queue)),
        rw (not_handshake m own, own) refl,
      )
      | inr (client, found) ↦ (
        record (close_client client
            (record s { active_clients = remove text_eq tag s.active_clients })) {
              acks = s.acks ++ ack_of m ∷ [];
            },
        ap (λ r. continue r.0 (λ x. send_ack m) r.1) (signoff-runs_known m tag client s et found),
        record {
          distinct = remove-HasDistinctKeys text_eq text_eq→eq tag s.active_clients v.distinct;
          sockets = λ n. ground (
            arith,
            v.sockets n,
            times_closed-append n client.socket s.closed,
            sum_of-remove text_eq (times_of n) tag client s.active_clients found,
          );
        },
        λ t.
            rw (not_handshake m own, own, et)
              (elim (Bool-cases (text_eq tag t)) [
                | inl e ↦ rw e (
                    ap (λ x. address (lookup text_eq x (remove text_eq tag s.active_clients)))
                      (sym (text_eq→eq tag t e))
                    ∙ ap address
                        (lookup-remove_same text_eq text_eq→eq tag s.active_clients v.distinct))
                | inr e ↦
                    rw e
                      (ap address (lookup-remove_other text_eq text_eq→eq t tag s.active_clients e))
              ]),
        rw (not_handshake m own, own) (sym (append-nil s.receive_queue)),
        rw (not_handshake m own, own) refl,
      )
    ]

contradiction : true ≡ false → ⊥
contradiction h = absurd (ground (arith, h))

receive-ignores :
    (m : Incoming) (from : Option Text) (s : Server)
    → is_known from (addresses s) ≡ false
    → receive_from from m s ≡ (ok tt, s)
unfolding receive_from lookup
receive-ignores m none s unknown = refl
receive-ignores m (some tag) s unknown = elim (Option-cases (find_client tag s)) [
  | inl missing ↦ rw (receive_from, missing) refl
  | inr (client, found) ↦
      absurd (contradiction (sym (ap (λ c. is_some (address c)) found) ∙ unknown))
]

receive-accepts :
    (m : Incoming) (from : Option Text) (s : Server)
    → is_known from (addresses s) ≡ true
    → receive_from from m s ≡ send_ack m (record s { receive_queue = s.receive_queue ++ m ∷ [] })
unfolding receive_from lookup
receive-accepts m none s known = absurd (contradiction (sym known))
receive-accepts m (some tag) s known = elim (Option-cases (find_client tag s)) [
  | inl missing ↦ absurd (contradiction (sym known ∙ ap (λ c. is_some (address c)) missing))
  | inr (client, found) ↦ rw (receive_from, found) refl
]

receive-Refines :
    (m : Incoming) (s : Server)
    → is_handshake m ≡ false
    → is_signoff m ≡ false
    → IsValid s
    → Refines m s (receive_message m)
unfolding after
receive-Refines m s a b v = elim (Bool-cases (is_known m.client_tag (addresses s))) [
  | inl known ↦ (
    record s { receive_queue = s.receive_queue ++ m ∷ []; acks = s.acks ++ ack_of m ∷ [] },
    receive-accepts m m.client_tag s known,
    record { distinct = v.distinct; sockets = v.sockets },
    λ t. rw (a, b) refl,
    rw (a, b, known) refl,
    rw (a, b, known) refl,
  )
  | inr unknown ↦ (
    s,
    receive-ignores m m.client_tag s unknown,
    v,
    λ t. rw (a, b) refl,
    rw (a, b, unknown) (sym (append-nil s.receive_queue)),
    rw (a, b, unknown) (sym (append-nil s.acks)),
  )
]

Refines-same :
    (m : Incoming) (s : Server) (run run' : Exec Server (Unit {0}))
    → run s ≡ run' s
    → Refines m s run'
    → Refines m s run
Refines-same m s run run' e (s', ran, v, f, q, a) = (s', e ∙ ran, v, f, q, a)

pub callback-Refines :
    (m : Incoming) (s : Server) → IsFormed m → IsValid s → Refines m s (pollster_callback (some m))
unfolding pollster_callback
callback-Refines m s formed v = elim (Bool-cases (is_handshake m)) [
  | inl own ↦
      Refines-same m s (pollster_callback (some m))
        (handle_resilient_server_handshake m >> send_ack m) (rw (pollster_callback, own) refl)
        (handshake-Refines m s own formed v)
  | inr a ↦ elim (Bool-cases (is_signoff m)) [
    | inl own ↦
        Refines-same m s (pollster_callback (some m))
          (handle_resilient_server_signoff m >> send_ack m) (rw (pollster_callback, a, own) refl)
          (signoff-Refines m s own formed v)
    | inr b ↦
        Refines-same m s (pollster_callback (some m)) (receive_message m)
          (rw (pollster_callback, a, b) refl) (receive-Refines m s a b v)
  ]
]
