-- ===== src/LinkedList/Tests.antt =====
-- src/linked_list.c at concrete lists.
use process_management_syste.Base.{
  Ptr, ℕ, ◌≡◌, ◌≢◌, ◌<◌, refl, true, Option, none, some, List, [], ◌∷◌, ◌++◌, arith, ◌==◌,
  if◌then◌else◌, ◌>>=◌, ltb, Returns, returns, ◌+◌,
}
use process_management_syste.Base.Lists.{sum_by}
use process_management_syste.NodeList
use process_management_syste.NodeList.{Cell, node}
use process_management_syste.LinkedList.{
  Heap, ListT, create_empty_list, enqueue, dequeue, delete_node, insert_node, insert_node_sorted,
  free_list, create_node, delete_node_by_data, write, load, set_next, free, null,
}
use process_management_syste.LinkedList.Links.{Holds, SameOutside}
use process_management_syste.LinkedList.Ends.{
  Dequeued, FreedAll, enqueue-append, dequeue-cons, free_list-Freed,
}
use process_management_syste.LinkedList.Middle.{Deleted, delete_node-delete_node}
use process_management_syste.LinkedList.Between.{Inserted, insert_node-between}
use process_management_syste.LinkedList.Sorted.{insert_node_sorted-place}
use process_management_syste.LinkedList.ByData.{Removed, delete_node_by_data-Removed}
use process_management_syste.LinkedList.Stale.{dequeue-delete_node}
use process_management_syste.MemoryAllocation

abbrev no_nodes : Heap ℕ
no_nodes p = none

-- Two nodes at 1 and 2.
abbrev two_nodes : Heap ℕ
two_nodes p =
    if p == 1
    then some (record { content = 10; next = 2; prev = 0 })
    else if p == 2
    then some (record { content = 20; next = 0; prev = 1 })
    else none

abbrev two_list : ListT
two_list = record { head = 1; tail = 2; num_items = 2 }

abbrev two_cells : List (Cell ℕ)
two_cells = node 1 10 ∷ node 2 20 ∷ []

ne_zero : (n : Ptr) → 0 < n → n ≢ 0
ne_zero n h e = omega arith

one_ne_null : ◌≢◌ {A = Ptr} 1 null
one_ne_null = ne_zero 1 (omega arith)

two_ne_null : ◌≢◌ {A = Ptr} 2 null
two_ne_null = ne_zero 2 (omega arith)

three_ne_null : ◌≢◌ {A = Ptr} 3 null
three_ne_null = ne_zero 3 (omega arith)

two_list-Holds : Holds 0 two_list two_nodes two_cells
two_list-Holds = record {
  links = (refl, one_ne_null, (refl, two_ne_null, tt));
  distinct = (refl, (refl, tt));
  head = refl;
  tail = refl;
  count = refl;
}

session : Option (Option ℕ × ListT)
session = do
  (_, l, h) ← enqueue 1 create_empty_list (some 10) no_nodes
  (_, l, h) ← enqueue 2 l (some 20) h
  (d, l, h) ← dequeue l h
  some (d, l)

session_runs : session ≡ some (some 10, record { head = 2; tail = 2; num_items = 1 })
unfolding session enqueue dequeue create_empty_list create_node write load set_next free
session_runs = refl

enqueue-append_example :
    Returns
      (λ r.
        (r.0 ≡ true)
        × Holds 0 r.1 r.2 (two_cells ++ node 3 30 ∷ [])
        × SameOutside (two_cells ++ node 3 30 ∷ []) two_nodes r.2)
      (enqueue 3 two_list (some 30) two_nodes)
enqueue-append_example =
    enqueue-append 3 0 two_nodes 30 three_ne_null refl two_cells two_list two_list-Holds

dequeue-cons_example :
    Returns (Dequeued (node 1 10) (node 2 20 ∷ []) two_nodes) (dequeue two_list two_nodes)
dequeue-cons_example = dequeue-cons (node 1 10) (node 2 20 ∷ []) 0 two_list two_nodes two_list-Holds

-- free_data adds up the data.
abbrev add_up : ℕ → ℕ → Option ℕ
add_up d r = some (r + d)

abbrev AddsUp : List ℕ → ℕ → Type 0
AddsUp ds r = r + sum_by (λ d. d) ds ≡ 37

add_up-AddsUp : (d : ℕ) (ds : List ℕ) (r : ℕ) → AddsUp (d ∷ ds) r → Returns (AddsUp ds) (add_up d r)
add_up-AddsUp d ds r e = returns (omega (arith, e))

free_list-Freed_example :
    Returns (FreedAll AddsUp two_cells two_nodes) (free_list add_up two_list two_nodes 7)
free_list-Freed_example =
    free_list-Freed add_up AddsUp add_up-AddsUp two_cells 0 two_list two_nodes 7 two_list-Holds refl

delete_node-delete_node_example :
    Returns
      (Deleted two_nodes 1 two_cells (NodeList.delete_node two_cells 1))
      (delete_node two_list 1 two_nodes)
unfolding NodeList.get_data
delete_node-delete_node_example =
    delete_node-delete_node two_cells 1 10 two_list two_nodes two_list-Holds refl

insert_node-between_example :
    Returns
      (Inserted two_nodes two_list two_cells (node 1 10 ∷ node 3 30 ∷ node 2 20 ∷ []))
      (insert_node 3 two_list 30 1 2 two_nodes)
insert_node-between_example =
    insert_node-between (node 1 10 ∷ []) (node 2 20 ∷ []) 3 30 two_list two_nodes two_list-Holds
      three_ne_null refl

dequeue-delete_node_example :
    Returns (λ r. delete_node r.1 2 r.2 ≡ none) (dequeue two_list two_nodes)
dequeue-delete_node_example =
    dequeue-delete_node (node 1 10) (node 2 20) [] 0 two_list two_nodes two_list-Holds

insert_node_sorted-place_example :
    Returns
      (Inserted two_nodes two_list two_cells (node 1 10 ∷ node 3 15 ∷ node 2 20 ∷ []))
      (insert_node_sorted 3 two_list 15 (λ e. some (ltb e 15)) two_nodes)
insert_node_sorted-place_example =
    insert_node_sorted-place (λ e. ltb e 15) (λ e. some (ltb e 15)) two_cells 3 15 two_list
      two_nodes (λ e. refl) two_list-Holds three_ne_null refl

-- A list of the addresses 5 and 7, and a node at 7.
abbrev hole_nodes : Heap Ptr
hole_nodes p =
    if p == 1
    then some (record { content = 5; next = 2; prev = 0 })
    else if p == 2
    then some (record { content = 7; next = 0; prev = 1 })
    else none

abbrev node_seven : Heap ℕ
node_seven p = if p == 7 then some (record { content = 20; next = 0; prev = 0 }) else none

hole_nodes-Holds : Holds 0 two_list hole_nodes (node 1 5 ∷ node 2 7 ∷ [])
hole_nodes-Holds = record {
  links = (refl, one_ne_null, (refl, two_ne_null, tt));
  distinct = (refl, (refl, tt));
  head = refl;
  tail = refl;
  count = refl;
}

delete_node_by_data-Removed_example :
    Returns
      (Removed 7 (node 1 5 ∷ node 2 7 ∷ []) hole_nodes node_seven (5 ∷ []))
      (delete_node_by_data two_list 7 hole_nodes node_seven)
unfolding MemoryAllocation.delete_node_by_data
delete_node_by_data-Removed_example =
    delete_node_by_data-Removed (node 1 5 ∷ node 2 7 ∷ []) 7 (5 ∷ []) two_list hole_nodes node_seven
      (record { content = 20; next = 0; prev = 0 }) hole_nodes-Holds refl (ne_zero 7 (omega arith))
      refl
