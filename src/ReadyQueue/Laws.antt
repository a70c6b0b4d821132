-- ===== src/ReadyQueue/Laws.antt =====
-- What the callers of the ready queue rely on, for src/min_heap.c and for src/linked_list.c.
use mathlib.Core.List.{cons≢nil}
use mathlib.Core.List.Perm
use process_management_syste.Base.{
  ◌<◌, ◌≡◌, refl, ◌↔◌, true, false, some, List, [], ◌∷◌, Perm, Returns, returns, Returns-mono,
  arith, ◌==◌,
}
use process_management_syste.Base.Lists.{length, snoc-perm}
use process_management_syste.ProcessData.{Process}
use process_management_syste.MinHeap.{MinHeap, create_heap, get_heap_size, is_empty_heap}
use process_management_syste.MinHeap.Laws.{
  Valid, create_heap-Valid, insert_data-Inserted, extract_min-Extracted,
}
use process_management_syste.ReadyQueue.{
  ReadyQueue, heap_queue, list_queue, enqueue, dequeue, is_empty_list, get_list_size,
}

-- The specification: a queue holds a collection of processes. Nothing is said of the order.
pub record QueueLaws (r : ReadyQueue) : Type 1 where
  pub IsValid : r.Queue → Type 0
  pub contents : r.Queue → List Process
  pub create_valid : IsValid r.create
  pub create_empty : contents r.create ≡ []
  pub insert_added :
      (q : r.Queue) (p : Process)
      → IsValid q
      → Returns (λ q'. IsValid q' × Perm (contents q') (p ∷ contents q)) (r.insert q p)
  pub extract_removed :
      (q : r.Queue)
      → IsValid q
      → r.is_empty q ≡ false
      → Returns
          (λ (o, q').
            (p : Process) × (o ≡ some p) × IsValid q' × Perm (p ∷ contents q') (contents q))
          (r.extract q)
  pub is_empty_exact : (q : r.Queue) → (r.is_empty q ≡ true) ↔ (contents q ≡ [])
  pub size_exact : (q : r.Queue) → r.size q ≡ length (contents q)

pub is_empty-nil : (ps : List Process) → ((length ps == 0) ≡ true) ↔ (ps ≡ [])
is_empty-nil [] = (λ e. refl, λ e. refl)
is_empty-nil (p ∷ ps) = (λ e. absurd (ground (arith, e)), λ e. absurd (cons≢nil e))

some_items : (h : MinHeap) → is_empty_heap h ≡ false → 0 < length h.items
unfolding is_empty_heap
some_items h full = ground (arith, full)

-- src/min_heap.c, for a process `d` that stands for what lies outside of the array.
unfoldable pub heap_queue-QueueLaws : Process → QueueLaws heap_queue
unfolding create_heap get_heap_size is_empty_heap some_items
heap_queue-QueueLaws d = record {
  IsValid = Valid d;
  contents = λ h. h.items;
  create_valid = create_heap-Valid d;
  create_empty = refl;
  insert_added = λ h p v. Returns-mono (insert_data-Inserted d h p v) (λ h' i. (i.valid, i.same));
  extract_removed = λ h v full.
      Returns-mono (extract_min-Extracted d h v (some_items h full))
        (λ r e. (e.min, e.returned, e.valid, e.same));
  is_empty_exact = λ h. is_empty-nil h.items;
  size_exact = λ h. refl;
}

pub list_extract :
    (ps : List Process)
    → is_empty_list ps ≡ false
    → Returns (λ (o, qs). (p : Process) × (o ≡ some p) × Unit {0} × Perm (p ∷ qs) ps) (dequeue ps)
unfolding dequeue is_empty_list
list_extract [] h = absurd (ground arith)
list_extract (p ∷ ps) h = returns (p, refl, tt, Perm.rfl)

unfoldable pub list_queue-QueueLaws : QueueLaws list_queue
unfolding enqueue get_list_size is_empty_list
list_queue-QueueLaws = record {
  IsValid = λ q. Unit {0};
  contents = λ q. q;
  create_valid = tt;
  create_empty = refl;
  insert_added = λ q p v. returns (tt, snoc-perm q p);
  extract_removed = λ q v. list_extract q;
  is_empty_exact = is_empty-nil;
  size_exact = λ q. refl;
}
