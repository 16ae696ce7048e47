-- ===== src/Tools/ResilientClient/Delivery.antt =====
-- Messages that were queued in a resilient client are acknowledged in order, and none is lost.
use nimbus_io.Prelude.{
  ◌≡◌, refl, false, List, [], ◌∷◌, ◌++◌, sym, ap, ◌∙◌, All-split, append-nil, append_assoc, All,
  ◌⊎◌,
}
use nimbus_io.Prelude.Exec.{ok, err, attribute_error}
use nimbus_io.Tools.ResilientClient.{is_handshake, Client, new_client}
use nimbus_io.Tools.ResilientClient.Events.{
  Event, handle, outstanding, queued_by, acked_by, IsValid, handle_all, queued_in, acked_in,
  IsExpected, AreExpected,
}
use nimbus_io.Tools.ResilientClient.Steps.{handle-Preserves, handle-outcome, new_client-IsValid}

outstanding-handle_all :
    (es : List Event) (c : Client)
    → All (λ m. is_handshake m ≡ false) (queued_in es)
    → AreExpected es c
    → IsValid c
    → let (r, c') = handle_all es c in
      (r ≡ ok tt) × IsValid c' × (acked_in es c ++ outstanding c' ≡ outstanding c ++ queued_in es)
unfolding handle_all acked_in AreExpected
outstanding-handle_all [] c us x v = (refl, v, sym (append-nil (outstanding c)))
outstanding-handle_all (e ∷ es) c us (x, xs) v =
    let (now_users, then_users) =
      All-split (λ m. is_handshake m ≡ false) (queued_by e) (queued_in es) us in
    let (safe, v', eq) = handle-Preserves e c now_users x v in
    let (r, v'', rest) = outstanding-handle_all es (handle e c).1 then_users xs v' in
    rw safe (
      r,
      v'',
      append_assoc (acked_by e c) (acked_in es (handle e c).1)
            (outstanding (handle_all es (handle e c).1).1)
          ∙ ap (λ l. acked_by e c ++ l) rest
          ∙ sym (append_assoc (acked_by e c) (outstanding (handle e c).1) (queued_in es))
          ∙ ap (λ l. l ++ queued_in es) eq
          ∙ append_assoc (outstanding c) (queued_by e) (queued_in es),
    )

-- Nothing is lost and nothing changes places: if every ack that is read is that of the message that is
-- pending then, and no handshake is queued, no exception is raised, and the messages that were
-- acknowledged, in turn, and then those that still wait are the messages that were queued, in turn.
-- The client is disconnected without a socket, or waits for the ack of a handshake, or is connected,
-- and then a message waits only behind one that is sent. The next event is handled without an
-- exception too, unless it is an ack of another message or with nothing pending: this raises an
-- AttributeError and changes nothing.
pub handle_all-delivers :
    (es : List Event)
    → All (λ m. is_handshake m ≡ false) (queued_in es)
    → AreExpected es new_client
    → let (r, c') = handle_all es new_client in
      (r ≡ ok tt)
      × IsValid c'
      × (acked_in es new_client ++ outstanding c' ≡ queued_in es)
      × ((e : Event)
          → All (λ m. is_handshake m ≡ false) (queued_by e)
          → (IsExpected e c' × ((handle e c').0 ≡ ok tt))
            ⊎ ((¬ IsExpected e c') × (handle e c' ≡ (err attribute_error, c'))))
handle_all-delivers es us xs =
    let (safe, v, same) = outstanding-handle_all es new_client us xs new_client-IsValid in
    (safe, v, same, λ e user. handle-outcome e (handle_all es new_client).1 user v)
