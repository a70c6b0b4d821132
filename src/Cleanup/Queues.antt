-- ===== src/Cleanup/Queues.antt =====
-- The end of cycle of src/main.c: its queues, the memory and the list of holes are freed. free_list
-- frees the nodes, on a heap for each list; the state is what their data hold.
use mathlib.Core.List.{map}
use process_management_syste.Base.{
  Ptr, ℕ, ◌+◌, ◌≡◌, ap, ◌∙◌, Option, none, some, List, [], ◌∷◌, ◌>>=◌, arith, if◌then◌else◌,
  Returns, returns, Returns-bind, Returns-mono,
}
use process_management_syste.Base.Lists.{sum_by}
use process_management_syste.Base.Text.{streq}
use process_management_syste.NodeList.{Cell}
use process_management_syste.LinkedList.{Heap, ListT, free_list}
use process_management_syste.LinkedList.Links.{Holds}
use process_management_syste.LinkedList.Ends.{free_list-Freed}
use process_management_syste.Scheduler.Cycle.{rr_name, sjf_name}
use process_management_syste.Cleanup.{
  Resources, Held, HeldHeap, free_address, free_process, free_heap,
}
use process_management_syste.Cleanup.Laws.{
  count, is_at-same, addresses, descriptors, HeldBy, free_address-count, free_list-free_process,
  free_heap-HeldBy,
}

-- A list with the heap of its nodes.
pub record Nodes (D : Type 0) : Type 0 where
  pub list : ListT
  pub heap : Heap D

-- `void *ready_queue`
pub data Ready : Type 0 where
  as_list : Nodes Held → Ready
  as_heap : HeldHeap → Ready

-- free as the free_func of the blocks of the memory
unfoldable pub free_block : Ptr → Resources → Option Resources
free_block p r = do a ← free_address p r.allocated; some (record r { allocated = a })

unfoldable pub blank : Ptr → Resources → Option Resources
blank p r = some r

unfoldable pub free_as_list : Ready → Resources → Option Resources
free_as_list (as_heap heap) r = none
free_as_list (as_list q) r = do (g, r') ← free_list free_process q.list q.heap r; some r'

unfoldable pub free_as_heap : Ready → Resources → Option Resources
free_as_heap (as_heap heap) r = free_heap heap r
free_as_heap (as_list q) r = none

unfoldable pub free_ready : List ℕ → Ready → Resources → Option Resources
unfolding free_as_list free_as_heap
free_ready scheduler ready r =
    if streq scheduler rr_name
    then free_as_list ready r
    else if streq scheduler sjf_name
    then free_as_heap ready r
    else some r

unfoldable pub free_queues :
    Nodes Held → Nodes Held → Nodes Ptr → Nodes Ptr → List ℕ → Ready → Resources → Option Resources
unfolding free_block blank free_ready
free_queues finished input memory holes scheduler ready r = do
  (g1, r1) ← free_list free_process finished.list finished.heap r
  (g2, r2) ← free_list free_process input.list input.heap r1
  (g3, r3) ← free_list free_block memory.list memory.heap r2
  (g4, r4) ← free_list blank holes.list holes.heap r3
  free_ready scheduler ready r4

abbrev pub contents {ℓ} : {D : Type ℓ} → List (Cell D) → List D
contents = map (λ x. x.content)

-- A list that holds some nodes.
abbrev pub Stands : {D : Type 0} → Nodes D → List (Cell D) → Type 0
Stands q xs = (stale : Ptr) × Holds stale q.list q.heap xs

-- The ready queue is of the kind that the scheduler uses: its processes, and the addresses that are
-- its own.
pub data Kind : List ℕ → Ready → List Held → List Ptr → Type 0 where
  by_rr :
      {q : Nodes Held} {xs : List (Cell Held)}
      → Stands q xs
      → Kind rr_name (as_list q) (contents xs) []
  by_sjf :
      {heap : HeldHeap} → Kind sjf_name (as_heap heap) [] (heap.data_address ∷ heap.address ∷ [])

module _ (others other_fds : ℕ → ℕ) where
  -- The addresses of some blocks are allocated, apart from others.
  abbrev BlocksLeft : List Ptr → Resources → Type 0
  BlocksLeft ps r =
      ((n : ℕ) → count n r.allocated ≡ count n ps + others n)
      × ((n : ℕ) → count n r.opened ≡ other_fds n)

  free_block-BlocksLeft :
      (p : Ptr) (ps : List Ptr) (r : Resources)
      → BlocksLeft (p ∷ ps) r
      → Returns (BlocksLeft ps) (free_block p r)
  unfolding free_block
  free_block-BlocksLeft p ps r (blocks, fds) =
      Returns-bind (free_address-count p r.allocated (omega (arith, blocks p, is_at-same p)))
        λ a h. returns (λ n. omega (arith, blocks n, h n), fds)

  free_ready-HeldBy :
      (scheduler : List ℕ) (ready : Ready) (ps : List Held) (own : List Ptr) (r : Resources)
      → Kind scheduler ready ps own
      → HeldBy (λ n. count n own + others n) other_fds ps r
      → Returns (HeldBy others other_fds []) (free_ready scheduler ready r)
  unfolding free_ready free_as_list free_as_heap streq rr_name sjf_name
  free_ready-HeldBy _ (as_list q) _ _ r (by_rr {xs = xs} (stale, v)) left =
      Returns-bind
        (free_list-free_process (λ n. 0 + others n) other_fds xs stale q.list q.heap r v left)
        λ (g, s) (freed, h). returns (λ n. omega (arith, h.0 n), h.1)
  free_ready-HeldBy _ (as_heap heap) _ _ r by_sjf (blocks, fds) =
      Returns-mono (free_heap-HeldBy heap others r λ n. omega (arith, blocks n))
        λ s (h, same). (λ n. omega (arith, h n), λ n. ap (count n) same ∙ fds n)

module _ (others other_fds : ℕ → ℕ) where
  -- What there is at the end of cycle: what the processes of the queues hold, the blocks of the
  -- memory, what is the ready queue's own, and others.
  abbrev pub AllHeld : List Held → List Held → List Ptr → List Held → List Ptr → Resources → Type 0
  AllHeld finished input blocks ready own r =
      ((n : ℕ)
        → count n r.allocated
          ≡ sum_by (addresses n) finished
            + (sum_by (addresses n) input
                + (count n blocks + (sum_by (addresses n) ready + (count n own + others n)))))
      × ((n : ℕ)
          → count n r.opened
            ≡ sum_by (descriptors n) finished
              + (sum_by (descriptors n) input + (sum_by (descriptors n) ready + other_fds n)))

  -- At the end of cycle, by SJF and by RR: freeing the finished queue, the input queue, the
  -- memory, the list of holes and the ready queue, which is a min heap for SJF and a list for
  -- RR, does not fault. It frees every process of the queues and its name, every block and, for
  -- SJF, the heap and its array, each once, closes the two descriptors of each process, and
  -- leaves the other addresses and descriptors. The allocated addresses are these and the
  -- others, the open descriptors two of each process and the others; each list holds its nodes.
  pub free_queues-HeldBy :
      (finished input : Nodes Held) (memory holes : Nodes Ptr) (scheduler : List ℕ) (ready : Ready)
      (finished_cells input_cells : List (Cell Held)) (block_cells hole_cells : List (Cell Ptr))
      (ps : List Held) (own : List Ptr) (r : Resources)
      → Stands finished finished_cells
      → Stands input input_cells
      → Stands memory block_cells
      → Stands holes hole_cells
      → Kind scheduler ready ps own
      → AllHeld (contents finished_cells) (contents input_cells) (contents block_cells) ps own r
      → Returns
          (HeldBy others other_fds [])
          (free_queues finished input memory holes scheduler ready r)
  unfolding free_queues
  free_queues-HeldBy finished input memory holes scheduler ready finished_cells input_cells
        block_cells hole_cells ps own r (s1, v1) (s2, v2) (s3, v3) (s4, v4) kind (blocks, fds) =
      let ready_part : ℕ → ℕ = λ n. sum_by (addresses n) ps + (count n own + others n) in
      let ready_fds : ℕ → ℕ = λ n. sum_by (descriptors n) ps + other_fds n in
      let input_part : ℕ → ℕ = λ n.
        sum_by (addresses n) (contents input_cells)
        + (count n (contents block_cells) + ready_part n) in
      let input_fds : ℕ → ℕ = λ n. sum_by (descriptors n) (contents input_cells) + ready_fds n in
      let block_part : ℕ → ℕ = λ n. count n (contents block_cells) + ready_part n in
      Returns-bind
        (free_list-free_process input_part input_fds finished_cells s1 finished.list finished.heap r
          v1 (blocks, fds))
        λ (g1, r1) (freed1, left1).
          Returns-bind
            (free_list-free_process block_part ready_fds input_cells s2 input.list input.heap r1 v2
              (λ n. omega (arith, left1.0 n), λ n. omega (arith, left1.1 n)))
            λ (g2, r2) (freed2, left2).
              Returns-bind
                (free_list-Freed free_block (BlocksLeft ready_part ready_fds)
                  (free_block-BlocksLeft ready_part ready_fds) block_cells s3 memory.list
                  memory.heap r2 v3 (λ n. omega (arith, left2.0 n), λ n. omega (arith, left2.1 n)))
                λ (g3, r3) (freed3, left3).
                  Returns-bind
                    (free_list-Freed blank (λ ds. BlocksLeft ready_part ready_fds [])
                      (λ p ps t left. returns left) hole_cells s4 holes.list holes.heap r3 v4 left3)
                    λ (g4, r4) (freed4, left4).
                      free_ready-HeldBy others other_fds scheduler ready ps own r4 kind
                        (λ n. omega (arith, left4.0 n), left4.1)
