-- ===== src/Tests/DataWriters.antt =====
-- Ten nodes, two of which are not connected.
use nimbus_io.Prelude.{ℕ, ◌≡◌, refl, Bool, true, false, List, [], ◌∷◌, arith, inl, inr, text_eq}
use nimbus_io.Prelude.Tables.{select_where}
use nimbus_io.WebServer.DataWriters.{
  Client, Slot, chosen, unavailable, Node, is_connected, clients_of, create_data_writers,
}
use nimbus_io.WebServer.DataWriters.Slots.{AreSlots, create_data_writers-serves}

abbrev node : ℕ → Bool → Node
node n connected = (n ∷ [], record { server_node_name = n ∷ []; connected = connected })

abbrev nodes : List Node
nodes =
    node 0 true
    ∷ node 1 false
    ∷ node 2 true
    ∷ node 3 true
    ∷ node 4 true
    ∷ node 5 true
    ∷ node 6 true
    ∷ node 7 false
    ∷ node 8 true
    ∷ node 9 true
    ∷ []

abbrev sample : ℕ → List Client → List Client
sample k [] = []
sample k (a ∷ []) = a ∷ []
sample k (a ∷ b ∷ clients) = a ∷ b ∷ []

create_data_writers-serves_example :
    (slots : List Slot) × (create_data_writers sample nodes ≡ chosen slots)
    × AreSlots (clients_of (select_where is_connected nodes)) nodes slots
unfolding select_where text_eq
create_data_writers-serves_example =
    create_data_writers-serves sample nodes
      (
        (refl, (refl, (refl, (refl, (refl, (refl, (refl, (refl, (refl, tt))))))))),
        (
          (refl, (refl, (refl, (refl, (refl, (refl, (refl, (refl, tt)))))))),
          (
            (refl, (refl, (refl, (refl, (refl, (refl, (refl, tt))))))),
            (
              (refl, (refl, (refl, (refl, (refl, (refl, tt)))))),
              (
                (refl, (refl, (refl, (refl, (refl, tt))))),
                (
                  (refl, (refl, (refl, (refl, tt)))),
                  ((refl, (refl, (refl, tt))), ((refl, (refl, tt)), ((refl, tt), (tt, tt)))),
                ),
              ),
            ),
          ),
        ),
      )
      (omega arith) (λ k. ((node 0 true).1, (node 2 true).1, refl, inl refl, inr (inl refl), refl))

too_few : create_data_writers sample (node 0 true ∷ node 1 true ∷ []) ≡ unavailable
unfolding create_data_writers select_where
too_few = refl
