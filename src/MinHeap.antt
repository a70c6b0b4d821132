-- ===== src/MinHeap.antt =====
-- src/min_heap.c: the ready queue of the SJF scheduler, a binary heap in a growing array.
-- `items` holds the cells below num_items; the cells from there up to the capacity are written
-- before they are read. An access outside of the live cells faults. Indices stay below twice the
-- number of items plus three and the capacity below twice the number of items plus two, far from
-- the bound of int at any number of processes that fits in memory.
pub mod Order
pub mod Up
pub mod Down
pub mod Laws
pub mod Sessions
mod Tests
use process_management_syste.Base.{
  ℕ, zero, suc, ◌+◌, ◌-◌, ◌*◌, ◌/◌, ◌<◌, ◌≡◌, Bool, true, false, Option, none, some, List, [], ◌∷◌,
  ◌++◌, Ordering, ◌>>=◌, ltb, leb, ◌==◌, if◌then◌else◌, is_gt,
}
use process_management_syste.Base.Lists.{length, get_elem?, get_or, set, take, get_elem?-get_or}
use process_management_syste.ProcessData.{Process, compare_process}

pub record MinHeap : Type 0 where
  pub items : List Process
  pub capacity : ℕ

abbrev pub init_size : ℕ
init_size = 2

abbrev pub Compare : Type 0
Compare = Process → Process → Ordering

unfoldable pub create_heap : MinHeap
create_heap = record { items = []; capacity = init_size }

-- `heap->data[i]`
unfoldable pub load : List Process → ℕ → Option Process
load a i = get_elem? a i

unfoldable pub swap : List Process → ℕ → ℕ → Option (List Process)
unfolding load
swap a i j = do x ← load a i; y ← load a j; some (set (set a i y) j x)

unfoldable pub up_heap : ℕ → Compare → List Process → ℕ → Option (List Process)
unfolding load swap
up_heap zero compare a index = none
up_heap (suc k) compare a index =
    let parent = (index - 1) / 2 in
    let rise : Option (List Process) = (do b ← swap a index parent; up_heap k compare b parent) in
    let test : Option (List Process) = do
      x ← load a parent
      y ← load a index
      if is_gt (compare x y) then rise else some a
    in if ltb 0 index then test else some a

-- `if (child < num_items && compare(data[smallest], data[child]) > 0) smallest = child;`
unfoldable pub smaller : Compare → List Process → ℕ → ℕ → Option ℕ
unfolding load
smaller compare a smallest child =
    let test : Option ℕ = do
      x ← load a smallest
      y ← load a child
      some (if is_gt (compare x y) then child else smallest)
    in if ltb child (length a) then test else some smallest

-- The comparison with the right child names compare_process, whatever the argument.
unfoldable pub down_heap : ℕ → Compare → List Process → ℕ → Option (List Process)
unfolding smaller swap
down_heap zero compare a index = none
down_heap (suc k) compare a index = do
  s ← smaller compare a index (2 * index + 1)
  smallest ← smaller compare_process a s (2 * index + 2)
  let sink = swap a index smallest >>= λ b. down_heap k compare b smallest
  if smallest == index then some a else sink

-- One call of up_heap for each level: `index + 1` calls are enough.
unfoldable pub insert_data : MinHeap → Process → Option MinHeap
unfolding up_heap
insert_data h p =
    let n = length h.items in
    let capacity = if leb h.capacity n then h.capacity * 2 else h.capacity in
    let insert : Option MinHeap = do
      a ← up_heap (n + 1) compare_process (h.items ++ p ∷ []) n
      some (record { items = a; capacity = capacity })
    in if ltb n capacity then insert else none

-- The result holds `none` where the function returns NULL.
unfoldable pub extract_min : MinHeap → Option (Option Process × MinHeap)
unfolding load down_heap
extract_min h =
    let n = length h.items - 1 in
    let fix : Option (Option Process × MinHeap) = do
      min ← load h.items 0
      last ← load h.items n
      a ← down_heap (n + 1) compare_process (take n (set h.items 0 last)) 0
      some (some min, record h { items = a })
    in let single : Option (Option Process × MinHeap) = do
      min ← load h.items 0
      some (some min, record h { items = [] })
      in if length h.items == 0 then some (none, h) else if n == 0 then single else fix

unfoldable pub get_heap_size : MinHeap → ℕ
get_heap_size h = length h.items

unfoldable pub is_empty_heap : MinHeap → Bool
is_empty_heap h = length h.items == 0

-- What stands for a cell outside of the array; no operation reads it.
abbrev pub cell : Process → List Process → ℕ → Process
cell d a i = get_or a i d

abbrev pub parent : ℕ → ℕ
parent c = (c - 1) / 2

module _ (d : Process) (a : List Process) where
  pub load-some : (i : ℕ) → i < length a → load a i ≡ some (cell d a i)
  unfolding load
  load-some i h = get_elem?-get_or d a i h

  pub swap-some :
      (i j : ℕ)
      → i < length a
      → j < length a
      → swap a i j ≡ some (set (set a i (cell d a j)) j (cell d a i))
  unfolding swap
  swap-some i j hi hj = rw (get_elem?-get_or d a i hi, get_elem?-get_or d a j hj)
