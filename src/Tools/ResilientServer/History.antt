-- ===== src/Tools/ResilientServer/History.antt =====
-- The server after any sequence of messages.
use nimbus_io.Prelude.{
  ◌≡◌, refl, sym, ap, ◌∙◌, List, [], ◌∷◌, ◌++◌, Text, All, append_assoc, append-nil,
}
use nimbus_io.Prelude.Exec.{ok, continue}
use nimbus_io.Tools.ResilientServer.{Incoming, Ack, Server, receive_all}
use nimbus_io.Tools.ResilientServer.Table.{
  Addresses, addresses, IsValid, IsFormed, after, queued, acks_for,
}
use nimbus_io.Tools.ResilientServer.Step.{callback-Refines}

-- The specification: the addresses after some messages, those that are queued, and the
-- acknowledgements.
unfoldable pub table : List Incoming → Addresses → Addresses
table [] f = f
table (m ∷ messages) f = table messages (after m f)

unfoldable pub all_queued : List Incoming → Addresses → List Incoming
all_queued [] f = []
all_queued (m ∷ messages) f = queued m f ++ all_queued messages (after m f)

unfoldable pub all_acks : List Incoming → Addresses → List Ack
all_acks [] f = []
all_acks (m ∷ messages) f = acks_for m f ++ all_acks messages (after m f)

-- From a valid server, any messages whose handshakes and signoffs are well formed are received without
-- an exception, and leave a valid server: one client for a tag, and every socket that was opened
-- is either held by one client of the table or was closed once. The client of a tag has the address of the last handshake after which the tag
-- did not sign off; what is queued are the other messages of the tags that have a client at that
-- moment; and these, the handshakes and the signoffs are what is acks_for, in order.
pub receive_all-refines :
    (messages : List Incoming) (s : Server)
    → All IsFormed messages
    → IsValid s
    → (s' : Server) × (receive_all messages s ≡ (ok tt, s'))
      × IsValid s'
      × ((tag : Text) → addresses s' tag ≡ table messages (addresses s) tag)
      × (s'.receive_queue ≡ s.receive_queue ++ all_queued messages (addresses s))
      × (s'.acks ≡ s.acks ++ all_acks messages (addresses s))
unfolding receive_all table all_queued all_acks
receive_all-refines [] s formed v =
    (s, refl, v, λ tag. refl, sym (append-nil s.receive_queue), sym (append-nil s.acks))
receive_all-refines (m ∷ messages) s (hm, formed) v =
    let (s₁, ran, v₁, known, queue, acks) = callback-Refines m s hm v in
    let (s₂, rest, v₂, known₂, queue₂, acks₂) = receive_all-refines messages s₁ formed v₁ in
    let same : addresses s₁ ≡ after m (addresses s) = λ i tag. known tag i in
    (
      s₂,
      ap (λ r. continue r.0 (λ x. receive_all messages) r.1) ran ∙ rest,
      v₂,
      λ tag. known₂ tag ∙ ap (λ f. table messages f tag) same,
      queue₂
          ∙ (λ i. queue i ++ all_queued messages (same i))
          ∙ append_assoc s.receive_queue (queued m (addresses s))
              (all_queued messages (after m (addresses s))),
      acks₂
          ∙ (λ i. acks i ++ all_acks messages (same i))
          ∙ append_assoc s.acks (acks_for m (addresses s))
              (all_acks messages (after m (addresses s))),
    )
