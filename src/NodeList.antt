-- ===== src/NodeList.antt =====
-- What the lists of src/linked_list.c stand for: their nodes from head to tail, each with its address
-- and the data that it holds, and what the operations do to that view. LinkedList proves that the
-- operations on linked nodes do the same.
pub mod Nodes
use process_management_syste.Base.{
  Ptr, Bool, true, false, Option, none, some, List, [], ◌∷◌, ◌>>=◌, ◌==◌, if◌then◌else◌,
}

pub record Cell {ℓ} (A : Type ℓ) : Type ℓ where
  pub addr : Ptr
  pub content : A

abbrev pub same_ptr : Option Ptr → Option Ptr → Bool
same_ptr none none = true
same_ptr (some p) (some q) = p == q
same_ptr _ _ = false

module _ {ℓ} {A : Type ℓ} where
  abbrev pub node : Ptr → A → Cell A
  node p b = record { addr = p; content = b }

  -- `get_data(p)` for a node of `memory`
  unfoldable pub get_data : List (Cell A) → Ptr → Option A
  get_data [] p = none
  get_data (x ∷ l) p = if x.addr == p then some x.content else get_data l p

  -- A write through `get_data(p)`.
  unfoldable pub set_data : List (Cell A) → Ptr → A → List (Cell A)
  set_data [] p b = []
  set_data (x ∷ l) p b = if x.addr == p then node p b ∷ l else x ∷ set_data l p b

  abbrev pub first_addr : List (Cell A) → Option Ptr
  first_addr [] = none
  first_addr (x ∷ l) = some x.addr

  unfoldable pub get_next : List (Cell A) → Ptr → Option Ptr
  get_next [] p = none
  get_next (x ∷ l) p = if x.addr == p then first_addr l else get_next l p

  -- `before` is the node to the left of the list.
  unfoldable pub prev_from : Option Ptr → List (Cell A) → Ptr → Option Ptr
  prev_from before [] p = none
  prev_from before (x ∷ l) p = if x.addr == p then before else prev_from (some x.addr) l p

  unfoldable pub get_prev : List (Cell A) → Ptr → Option Ptr
  unfolding prev_from
  get_prev l p = prev_from none l p

  unfoldable pub delete_node : List (Cell A) → Ptr → List (Cell A)
  delete_node [] p = []
  delete_node (x ∷ l) p = if x.addr == p then l else x ∷ delete_node l p

  -- The new node goes between `prev` and `next`; where these are no neighbours, the links would no
  -- longer be those of a list.
  unfoldable pub insert_after : List (Cell A) → Cell A → Ptr → Option Ptr → Option (List (Cell A))
  insert_after [] new prev next = none
  insert_after (x ∷ l) new prev next =
      let further : Option (List (Cell A)) = (do r ← insert_after l new prev next; some (x ∷ r)) in
      let here = if same_ptr (first_addr l) next then some (x ∷ new ∷ l) else none in
      if x.addr == prev then here else further

  unfoldable pub insert_node :
      List (Cell A) → Cell A → Option Ptr → Option Ptr → Option (List (Cell A))
  unfolding insert_after
  insert_node l new none next = if same_ptr (first_addr l) next then some (new ∷ l) else none
  insert_node l new (some prev) next = insert_after l new prev next
