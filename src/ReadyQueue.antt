-- ===== src/ReadyQueue.antt =====
-- The ready queue that src/main.c and src/memory_allocation.c reach through a void pointer and the
-- function pointers insert_func, extract_func and is_empty_func: a min heap or a linked list.
pub mod Laws
use process_management_syste.Base.{
  ℕ, ◌+◌, Bool, true, false, Option, none, some, List, [], ◌∷◌, ◌++◌, ◌==◌,
}
use process_management_syste.Base.Lists.{length}
use process_management_syste.ProcessData.{Process}
use process_management_syste.MinHeap.{
  MinHeap, create_heap, insert_data, extract_min, get_heap_size, is_empty_heap,
}

-- The operations; a run of `insert` or `extract` may fault.
pub record ReadyQueue : Type 1 where
  pub Queue : Type 0
  pub create : Queue
  pub insert : Queue → Process → Option Queue
  pub extract : Queue → Option (Option Process × Queue)
  pub is_empty : Queue → Bool
  pub size : Queue → ℕ

-- enqueue and dequeue of src/linked_list.c, on the list that the nodes hold.
unfoldable pub enqueue : List Process → Process → Option (List Process)
enqueue q p = some (q ++ p ∷ [])

unfoldable pub dequeue : List Process → Option (Option Process × List Process)
dequeue [] = some (none, [])
dequeue (p ∷ q) = some (some p, q)

unfoldable pub is_empty_list : List Process → Bool
is_empty_list q = length q == 0

unfoldable pub get_list_size : List Process → ℕ
get_list_size q = length q

-- The queue of the round-robin scheduler.
abbrev pub list_queue : ReadyQueue
list_queue = record {
  Queue = List Process;
  create = [];
  insert = enqueue;
  extract = dequeue;
  is_empty = is_empty_list;
  size = get_list_size;
}

-- The queue of the shortest-job-first scheduler.
abbrev pub heap_queue : ReadyQueue
heap_queue = record {
  Queue = MinHeap;
  create = create_heap;
  insert = insert_data;
  extract = extract_min;
  is_empty = is_empty_heap;
  size = get_heap_size;
}
