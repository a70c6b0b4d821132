-- ===== src/LinkedList.antt =====
-- src/linked_list.c: doubly linked nodes on an explicit heap.
-- A list_t stands outside the heap, so a function that changes one returns the new value; malloc
-- returns `fresh`. A run faults where it reads or writes through NULL or a freed node. Only free_list
-- calls a free_func on the data; elsewhere they are the caller's. num_items counts allocated nodes, far below 2 ^ 31.
pub mod Links
pub mod Ends
pub mod Turns
pub mod Middle
pub mod Between
pub mod Stale
pub mod Sorted
pub mod ByData
mod Tests
use process_management_syste.Base.{
  Ptr, ℕ, zero, suc, ◌+◌, ◌-◌, Bool, true, false, Option, none, some, ◌>>=◌, ◌==◌, if◌then◌else◌,
}

abbrev pub null : Ptr
null = 0

module _ {ℓ} (D : Type ℓ) where
  -- struct node
  pub record Node : Type ℓ where
    pub content : D
    pub next : Ptr
    pub prev : Ptr

  abbrev pub Heap : Type ℓ
  Heap = Ptr → Option Node

-- struct list
pub record ListT : Type 0 where
  pub head : Ptr
  pub tail : Ptr
  pub num_items : ℕ

unfoldable pub create_empty_list : ListT
create_empty_list = record { head = null; tail = null; num_items = 0 }

unfoldable pub is_empty_list : ListT → Bool
is_empty_list l = l.num_items == 0

unfoldable pub get_head : ListT → Ptr
get_head l = l.head

unfoldable pub get_list_size : ListT → ℕ
get_list_size l = l.num_items

module _ {ℓ} {D : Type ℓ} where
  unfoldable pub write : Heap D → Ptr → Option (Node D) → Heap D
  write h p c a = if a == p then c else h a

  -- `*p`
  unfoldable pub load : Heap D → Ptr → Option (Node D)
  load h p = if p == null then none else h p

  unfoldable pub set_next : Heap D → Ptr → Ptr → Option (Heap D)
  set_next h p q = do n ← load h p; some (write h p (some (record n { next = q })))

  unfoldable pub set_prev : Heap D → Ptr → Ptr → Option (Heap D)
  set_prev h p q = do n ← load h p; some (write h p (some (record n { prev = q })))

  -- free of a node, a fault where it is not allocated
  unfoldable pub free : Heap D → Ptr → Option (Heap D)
  free h p = do n ← load h p; some (write h p none)

  unfoldable pub get_data : Heap D → Ptr → Option D
  get_data h p = do n ← load h p; some n.content

  unfoldable pub get_next : Heap D → Ptr → Option Ptr
  get_next h p = do n ← load h p; some n.next

  unfoldable pub get_prev : Heap D → Ptr → Option Ptr
  get_prev h p = do n ← load h p; some n.prev

  unfoldable pub create_node : Heap D → Ptr → D → Ptr → Ptr → Heap D
  create_node h fresh d next prev =
      write h fresh (some (record { content = d; next = next; prev = prev }))

  -- `none` is NULL data. The result says whether a node was added.
  unfoldable pub enqueue : Ptr → ListT → Option D → Heap D → Option (Bool × ListT × Heap D)
  enqueue fresh l none h = some (false, l, h)
  enqueue fresh l (some d) h =
      let new = create_node h fresh d null l.tail in
      let first =
        some (true, record { head = fresh; tail = fresh; num_items = l.num_items + 1 }, new) in
      let linked : Option (Bool × ListT × Heap D) = do
        h' ← set_next new l.tail fresh
        some (true, record l { tail = fresh; num_items = l.num_items + 1 }, h')
      in if l.head == null then first else linked

  unfoldable pub dequeue : ListT → Heap D → Option (Option D × ListT × Heap D)
  dequeue l h =
      let taken : Option (Option D × ListT × Heap D) = do
        n ← load h l.head
        let tail = if n.next == null then null else l.tail
        h' ← free h l.head
        some
            (some n.content, record { head = n.next; tail = tail; num_items = l.num_items - 1 }, h')
      in if l.head == null then some (none, l, h) else taken

  -- The node keeps its own links, which the callers read afterwards.
  unfoldable pub unlink : Ptr → Heap D → Option (Heap D)
  unlink p h = do
    n ← load h p
    h' ← if n.next == null then some h else set_prev h n.next n.prev
    m ← load h' p
    if m.prev == null then some h' else set_next h' m.prev m.next

  unfoldable pub delete_node : ListT → Ptr → Heap D → Option (ListT × Heap D)
  delete_node l p h =
      let removed : Option (ListT × Heap D) = do
        n ← load h p
        let head = if l.head == p then n.next else l.head
        let tail = if l.tail == p then n.prev else l.tail
        h' ← unlink p h
        some (record { head = head; tail = tail; num_items = l.num_items - 1 }, h')
      in if l.head == null
        then some (l, h)
        else if l.tail == null
        then some (l, h)
        else if p == null
        then some (l, h)
        else removed

  unfoldable pub insert_node : Ptr → ListT → D → Ptr → Ptr → Heap D → Option (ListT × Heap D)
  insert_node fresh l d prev next h = do
    let new = create_node h fresh d next prev
    h' ← if prev == null then some new else set_next new prev fresh
    h'' ← if next == null then some h' else set_prev h' next fresh
    some (
      record {
        head = if prev == null then fresh else l.head;
        tail = if next == null then fresh else l.tail;
        num_items = l.num_items + 1;
      },
      h'',
    )

  -- The loop of insert_node_sorted: `less d` says that the data compares below the new value. The
  -- results are prev and curr.
  unfoldable pub find_place : (D → Option Bool) → ℕ → Heap D → Ptr → Ptr → Option (Ptr × Ptr)
  find_place less zero h prev curr = none
  find_place less (suc k) h prev curr =
      let step : Option (Ptr × Ptr) = do
        n ← load h curr
        below ← less n.content
        let further = find_place less k h curr n.next
        if below then further else some (prev, curr)
      in if curr == null then some (prev, curr) else step

  unfoldable pub insert_node_sorted :
      Ptr → ListT → D → (D → Option Bool) → Heap D → Option (ListT × Heap D)
  insert_node_sorted fresh l d less h = do
    (prev, curr) ← find_place less (l.num_items + 1) h null l.head
    let new = create_node h fresh d curr prev
    let count = l.num_items + 1
    let only = some (record { head = fresh; tail = fresh; num_items = count }, new)
    let at_head : Option (ListT × Heap D) = do
      h' ← set_prev new curr fresh
      some (record l { head = fresh; num_items = count }, h')
    let at_tail : Option (ListT × Heap D) = do
      h' ← set_next new prev fresh
      some (record l { tail = fresh; num_items = count }, h')
    let between : Option (ListT × Heap D) = do
      h' ← set_next new prev fresh
      h'' ← set_prev h' curr fresh
      some (record l { num_items = count }, h'')
    if is_empty_list l
        then only
        else if prev == null
        then at_head
        else if curr == null
        then at_tail
        else between

  -- The loop of free_list at `curr`. free_data works on a state of its own.
  unfoldable pub free_nodes {κ} :
      {R : Type κ} → (D → R → Option R) → ℕ → Ptr → Heap D → R → Option (Heap D × R)
  free_nodes free_data zero curr h r = none
  free_nodes {R = R} free_data (suc k) curr h r =
      let step : Option (Heap D × R) = do
        n ← load h curr
        r' ← free_data n.content r
        h' ← free h curr
        free_nodes free_data k n.next h' r'
      in if curr == null then some (h, r) else step

  unfoldable pub free_list {κ} :
      {R : Type κ} → (D → R → Option R) → ListT → Heap D → R → Option (Heap D × R)
  free_list free_data l h r = free_nodes free_data (l.num_items + 1) l.head h r

  -- `node->data` is read for free_data.
  unfoldable pub free_node : Heap D → Ptr → Option (Heap D)
  free_node h p = do n ← load h p; free h p

-- The loop of delete_node_by_data at `curr`, on a list whose data are addresses.
unfoldable pub find_data : ℕ → Heap Ptr → Ptr → Ptr → Option Ptr
find_data zero h p curr = none
find_data (suc k) h p curr = do
  d ← get_data h curr
  let further : Option Ptr = (do next ← get_next h curr; find_data k h p next)
  if d == p then some curr else further

-- The data are nodes of the heap `g`, as where the holes of the memory are listed.
unfoldable pub delete_node_by_data {ℓ} :
    {D : Type ℓ} → ListT → Ptr → Heap Ptr → Heap D → Option (ListT × Heap Ptr × Heap D)
delete_node_by_data l p h g = do
  curr ← find_data (l.num_items + 1) h p l.head
  (l', h') ← delete_node l curr h
  q ← get_data h' curr
  g' ← free_node g q
  h'' ← free h' curr
  some (l', h'', g')
