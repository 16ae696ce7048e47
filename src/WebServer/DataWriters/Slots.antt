-- ===== src/WebServer/DataWriters/Slots.antt =====
-- The data writers that are chosen.
use nimbus_io.Prelude.{
  ℕ, ◌+◌, ◌≤◌, ◌≡◌, ◌⊎◌, refl, sym, ap, ◌∙◌, subst, true, false, inl, inr, none, some, List, [],
  ◌∷◌, ◌++◌, ltb, Text, text_eq, text_eq_refl, text_eq→eq, length, arith, All, Bool-cases,
}
use nimbus_io.Prelude.Members.{
  IsIn, All-IsIn, All-at, IsIn-select_where, select_where-IsIn, IsIn-delete_where,
  delete_where-IsIn,
}
use nimbus_io.Prelude.Dicts.{lookup}
use nimbus_io.Prelude.Tables.{select_where, delete_where, All-select_where, All-delete_where}
use nimbus_io.Prelude.Exec.{Result, ok}
use nimbus_io.WebServer.DataWriters.{
  Client, Slot, direct, handoff, chosen, Node, is_connected, handoff_slot, added, and_then, add_all,
  read_slot, read_all, choice_of, names_of, clients_of, create_data_writers,
}

abbrev pub Slots : Type 0
Slots = List (Text × Slot)

-- every node has a name for itself
abbrev pub AreNamed : List Node → Type 0
AreNamed [] = Unit
AreNamed (node ∷ nodes) = All (λ other. text_eq node.0 other.0 ≡ false) nodes × AreNamed nodes

-- A node's data writer: its own client, or two clients of other nodes that are connected.
abbrev pub IsSlotOf : List Client → Client → Slot → Type 0
IsSlotOf connected client slot =
    ((client.connected ≡ true) × (slot ≡ direct client))
    ⊎ ((client.connected ≡ false)
        × (a : Client) × (b : Client) × (slot ≡ handoff client.server_node_name (a ∷ b ∷ []))
        × IsIn a connected
        × IsIn b connected
        × (text_eq a.server_node_name b.server_node_name ≡ false))

lookup-append :
    (name : Text) (slots more : Slots) (slot : Slot)
    → lookup text_eq name slots ≡ some slot
    → lookup text_eq name (slots ++ more) ≡ some slot
unfolding lookup
lookup-append name [] more slot h = absurd (ground (arith, h))
lookup-append name ((n, s) ∷ slots) more slot h =
    ground (arith, h, lookup-append name slots more slot)

lookup-last :
    (name : Text) (slots : Slots) (slot : Slot)
    → lookup text_eq name slots ≡ none
    → lookup text_eq name (slots ++ (name, slot) ∷ []) ≡ some slot
unfolding lookup
lookup-last name [] slot h = rw (text_eq_refl name) refl
lookup-last name ((n, s) ∷ slots) slot h = ground (arith, h, lookup-last name slots slot)

lookup-others :
    (name other : Text) (slots : Slots) (slot : Slot)
    → lookup text_eq other slots ≡ none
    → text_eq name other ≡ false
    → lookup text_eq other (slots ++ (name, slot) ∷ []) ≡ none
unfolding lookup
lookup-others name other [] slot h apart = rw apart refl
lookup-others name other ((n, s) ∷ slots) slot h apart =
    ground (arith, h, lookup-others name other slots slot, apart)

-- What the loops need of the slots that they make, and what they leave.
module _ (connected : List Client) (make : ℕ → Client → Result Slot) where
  abbrev Makes : Node → Type 0
  Makes node = (k : ℕ) → (slot : Slot) × (make k node.1 ≡ ok slot) × IsSlotOf connected node.1 slot

  abbrev IsServed : Slots → Node → Type 0
  IsServed slots node =
      (slot : Slot) × (lookup text_eq node.0 slots ≡ some slot) × IsSlotOf connected node.1 slot

  add_all-IsServed :
      (k : ℕ) (nodes : List Node) (slots : Slots)
      → AreNamed nodes
      → All Makes nodes
      → All (λ node. lookup text_eq node.0 slots ≡ none) nodes
      → (slots' : Slots) × (add_all make k nodes slots ≡ ok slots')
        × ((name : Text) (slot : Slot)
            → lookup text_eq name slots ≡ some slot
            → lookup text_eq name slots' ≡ some slot)
        × ((name : Text)
            → lookup text_eq name slots ≡ none
            → All (λ node. text_eq node.0 name ≡ false) nodes
            → lookup text_eq name slots' ≡ none)
        × All (IsServed slots') nodes
  unfolding add_all
  add_all-IsServed k [] slots named makes fresh =
      (slots, refl, λ name slot h. h, λ name h apart. h, tt)
  add_all-IsServed k ((name, client) ∷ nodes) slots (apart, named) (made, makes) (new, fresh) =
      let (slot, ran, right) = made k in
      let (slots', all, keeps, absent, served) =
        add_all-IsServed (k + 1) nodes (slots ++ (name, slot) ∷ []) named makes
          (still_fresh nodes apart fresh slot) in
      (
        slots',
        (λ i. and_then (added name (new i) (ran i) slots) (add_all make (k + 1) nodes)) ∙ all,
        λ n s h. keeps n s (lookup-append n slots ((name, slot) ∷ []) s h),
        λ n h others. absent n (lookup-others name n slots slot h others.0) others.1,
        ((slot, keeps name slot (lookup-last name slots slot new), right), served),
      )
    where
      still_fresh :
          (nodes : List Node)
          → All (λ other. text_eq name other.0 ≡ false) nodes
          → All (λ node. lookup text_eq node.0 slots ≡ none) nodes
          → (slot : Slot)
          → All (λ node. lookup text_eq node.0 (slots ++ (name, slot) ∷ []) ≡ none) nodes
      still_fresh [] apart fresh slot = tt
      still_fresh (node ∷ nodes) (a, apart) (f, fresh) slot =
          (lookup-others name node.0 slots slot f a, still_fresh nodes apart fresh slot)

text_eq_swap : (a b : Text) → text_eq a b ≡ false → text_eq b a ≡ false
text_eq_swap a b h = elim (Bool-cases (text_eq b a)) [
  | inr other ↦ other
  | inl same ↦
      let equal : true ≡ false =
        sym (text_eq_refl a) ∙ sym (ap (text_eq a) (text_eq→eq b a same)) ∙ h in
      absurd (ground (arith, equal))
]

-- Nodes of which one is connected and the other is not have different names.
named_apart :
    (nodes : List Node) (a b : Node)
    → AreNamed nodes
    → IsIn a nodes
    → IsIn b nodes
    → is_connected a ≡ true
    → is_connected b ≡ false
    → text_eq a.0 b.0 ≡ false
named_apart [] a b named i j on off = elim i [ ]
named_apart (node ∷ nodes) a b named (inl e) (inl f) on off =
    let both : true ≡ false = sym on ∙ ap is_connected (sym e ∙ f) ∙ off in
    absurd (ground (arith, both))
named_apart (node ∷ nodes) a b (apart, named) (inl e) (inr j) on off =
    subst (λ n. text_eq n.0 b.0 ≡ false) e
      (All-at (λ n. text_eq node.0 n.0 ≡ false) b nodes apart j)
named_apart (node ∷ nodes) a b (apart, named) (inr i) (inl f) on off = text_eq_swap b.0 a.0 (
    subst (λ n. text_eq n.0 a.0 ≡ false) f
      (All-at (λ n. text_eq node.0 n.0 ≡ false) a nodes apart i))
named_apart (node ∷ nodes) a b (apart, named) (inr i) (inr j) on off =
    named_apart nodes a b named i j on off

select-AreNamed : (nodes : List Node) → AreNamed nodes → AreNamed (select_where is_connected nodes)
unfolding select_where
select-AreNamed [] h = tt
select-AreNamed (node ∷ nodes) (apart, h) = elim (Bool-cases (is_connected node)) [
  | inl e ↦ rw e (
    All-select_where (λ n. text_eq node.0 n.0 ≡ false) is_connected nodes apart,
    select-AreNamed nodes h,
  )
  | inr e ↦ rw e (select-AreNamed nodes h)
]

delete-AreNamed : (nodes : List Node) → AreNamed nodes → AreNamed (delete_where is_connected nodes)
unfolding delete_where
delete-AreNamed [] h = tt
delete-AreNamed (node ∷ nodes) (apart, h) = elim (Bool-cases (is_connected node)) [
  | inl e ↦ rw e (delete-AreNamed nodes h)
  | inr e ↦ rw e (
    All-delete_where (λ n. text_eq node.0 n.0 ≡ false) is_connected nodes apart,
    delete-AreNamed nodes h,
  )
]

-- `random.sample` gives two clients of the list, of different nodes.
abbrev pub IsSample : (ℕ → List Client → List Client) → List Client → Type 0
IsSample sample clients =
    (k : ℕ)
    → (a : Client) × (b : Client) × (sample k clients ≡ a ∷ b ∷ [])
      × IsIn a clients
      × IsIn b clients
      × (text_eq a.server_node_name b.server_node_name ≡ false)

-- the data writers of the nodes, in their order
abbrev pub AreSlots : List Client → List Node → List Slot → Type 0
AreSlots connected [] [] = Unit
AreSlots connected [] (slot ∷ slots) = ⊥
AreSlots connected (node ∷ nodes) [] = ⊥
AreSlots connected (node ∷ nodes) (slot ∷ slots) =
    IsSlotOf connected node.1 slot × AreSlots connected nodes slots

module _ (connected : List Client) (make : ℕ → Client → Result Slot) (slots : Slots) where
  read_all-AreSlots :
      (nodes : List Node)
      → All (IsServed connected make slots) nodes
      → (found : List Slot) × (read_all slots (names_of nodes) ≡ chosen found)
        × AreSlots connected nodes found
  unfolding read_all
  read_all-AreSlots [] served = ([], refl, tt)
  read_all-AreSlots (node ∷ nodes) ((slot, here, right), served) =
      let (found, read, rest) = read_all-AreSlots nodes served in
      (slot ∷ found, (λ i. read_slot (here i) (read i)), (right, rest))

-- When the nodes have different names, eight of them or more are connected, and the sample gives two
-- connected clients of different nodes: there is a data writer for every node, in the order of the
-- segment numbers; it is the node's own client if that is connected, and else a pair of connected
-- clients of two different nodes that keep its segments for it.
pub create_data_writers-serves :
    (sample : ℕ → List Client → List Client) (nodes : List Node)
    → AreNamed nodes
    → 8 ≤ length (select_where is_connected nodes)
    → IsSample sample (clients_of (select_where is_connected nodes))
    → (slots : List Slot) × (create_data_writers sample nodes ≡ chosen slots)
      × AreSlots (clients_of (select_where is_connected nodes)) nodes slots
unfolding create_data_writers lookup
create_data_writers-serves sample nodes named enough sampled =
    let (slots1, ran1, keeps1, absent1, served1) =
      add_all-IsServed connected own 0 on [] (select-AreNamed nodes named)
        (All-IsIn (Makes connected own) on
          (λ n i k. (direct n.1, refl, inl ((select_where-IsIn is_connected n nodes i).1, refl))))
        (All-IsIn (λ n. lookup text_eq n.0 [] ≡ none) on (λ n i. refl)) in
    let (slots2, ran2, keeps2, absent2, served2) =
      add_all-IsServed connected backup 0 off slots1 (delete-AreNamed nodes named)
        (All-IsIn (Makes connected backup) off backed)
        (All-IsIn (λ n. lookup text_eq n.0 slots1 ≡ none) off
          (λ n i.
            let (there, unlinked) = delete_where-IsIn is_connected n nodes i in
            absent1 n.0 refl (
              All-IsIn (λ m. text_eq m.0 n.0 ≡ false) on
                (λ m j.
                  let (here, yet) = select_where-IsIn is_connected m nodes j in
                  named_apart nodes m n named here there yet unlinked)))) in
    let (found, read, right) = read_all-AreSlots connected own slots2 nodes (
      All-IsIn (IsServed connected own slots2) nodes (λ n i. elim (Bool-cases (is_connected n)) [
        | inl e ↦
            let (slot, f, right) =
              All-at (IsServed connected own slots1) n on served1
                (IsIn-select_where is_connected n nodes i e) in
            (slot, keeps2 n.0 slot f, right)
        | inr e ↦
            All-at (IsServed connected backup slots2) n off served2
              (IsIn-delete_where is_connected n nodes i e)
      ])) in
    (
      found,
      rw many (
          ap (λ l. choice_of (and_then l (add_all backup 0 off)) (names_of nodes)) ran1
          ∙ ap (λ l. choice_of l (names_of nodes)) ran2
          ∙ read),
      right,
    )
  where
    on : List Node
    on = select_where is_connected nodes

    off : List Node
    off = delete_where is_connected nodes

    connected : List Client
    connected = clients_of on

    own : ℕ → Client → Result Slot
    own k client = ok (direct client)

    backup : ℕ → Client → Result Slot
    backup k client = handoff_slot client (sample k connected)

    many : ltb (length on) 8 ≡ false
    many = ground (arith, enough)

    backed : (n : Node) → IsIn n off → Makes connected backup n
    backed n i k =
        let (a, b, drawn, here, there, apart) = sampled k in
        (
          handoff n.1.server_node_name (a ∷ b ∷ []),
          ap (handoff_slot n.1) drawn ∙ rw apart refl,
          inr ((delete_where-IsIn is_connected n nodes i).1, a, b, refl, here, there, apart),
        )
