-- ===== src/Cleanup/Tests.antt =====
-- free_process of src/process_data.c, free_heap of src/min_heap.c and the end of cycle of src/main.c at
-- concrete processes.
use mathlib.Core.List.{map}
use process_management_syste.Base.{
  Ptr, ◌≡◌, ◌≢◌, arith, refl, some, none, List, [], ◌∷◌, ◌==◌, if◌then◌else◌, Returns, ℕ,
}
use process_management_syste.NodeList.{Cell, node}
use process_management_syste.ProcessData.{Process, State}
use process_management_syste.LinkedList.{Heap, ListT, free_list, null}
use process_management_syste.LinkedList.Links.{Holds}
use process_management_syste.LinkedList.Ends.{FreedAll}
use process_management_syste.Scheduler.Cycle.{sjf_name}
use process_management_syste.Cleanup.{Resources, Held, free_process, free_heap, HeldHeap}
use process_management_syste.Cleanup.Queues.{
  AllHeld, free_queues, free_queues-HeldBy, as_heap, by_sjf,
}
use process_management_syste.Cleanup.Laws.{HeldBy, count, free_list-free_process}

-- A process whose ends of the pipes are 3 to 6, of which it has 3 and 6 open.
abbrev done : Process
done = record {
  arrival_time = 0;
  service_time = 10;
  service_time_left = 0;
  finish_time = 10;
  turnaround_time = 10;
  mem_requirement = 8;
  overhead = record { num = 10; den = 10 };
  name = b'P' ∷ [];
  state = State.finished;
  block_node = none;
  pid = 1;
  fd_in = (3, 4);
  fd_out = (5, 6);
}

abbrev held : Held
held = record { address = 20; name_address = 21; process = done }

-- The address 30 and the descriptor 0 are not those of the process.
abbrev before : Resources
before = record { allocated = 20 ∷ 21 ∷ 30 ∷ []; opened = 0 ∷ 3 ∷ 6 ∷ [] }

abbrev after : Resources
after = record { allocated = 30 ∷ []; opened = 0 ∷ [] }

free_process_test : free_process held before ≡ some after
unfolding free_process
free_process_test = refl

-- A second call faults.
free_process_again : free_process held after ≡ none
unfolding free_process
free_process_again = refl

free_heap_test :
    free_heap (record { address = 20; data_address = 21 }) before
    ≡ some (record { allocated = 30 ∷ []; opened = 0 ∷ 3 ∷ 6 ∷ [] })
unfolding free_heap
free_heap_test = refl

abbrev finished_nodes : Heap Held
finished_nodes p = if p == 1 then some (record { content = held; next = 0; prev = 0 }) else none

abbrev finished_queue : ListT
finished_queue = record { head = 1; tail = 1; num_items = 1 }

abbrev finished_cells : List (Cell Held)
finished_cells = node 1 held ∷ []

one_ne_null : ◌≢◌ {A = Ptr} 1 null
one_ne_null e = omega arith

finished_queue-Holds : Holds 0 finished_queue finished_nodes finished_cells
finished_queue-Holds = record {
  links = (refl, one_ne_null, tt);
  distinct = (refl, tt);
  head = refl;
  tail = refl;
  count = refl;
}

before-HeldBy :
    HeldBy
      (λ n. count n after.allocated)
      (λ n. count n after.opened)
      (map (λ x. x.content) finished_cells)
      before
before-HeldBy = (λ n. omega arith, λ n. omega arith)

free_list-free_process_example :
    Returns
      (FreedAll
        (HeldBy (λ n. count n after.allocated) (λ n. count n after.opened))
        finished_cells
        finished_nodes)
      (free_list free_process finished_queue finished_nodes before)
free_list-free_process_example =
    free_list-free_process (λ n. count n after.allocated) (λ n. count n after.opened) finished_cells
      0 finished_queue finished_nodes before finished_queue-Holds before-HeldBy

-- A memory of one block, at 30, whose node 1 is a hole.
abbrev block_nodes : Heap Ptr
block_nodes p = if p == 1 then some (record { content = 30; next = 0; prev = 0 }) else none

abbrev block_cells : List (Cell Ptr)
block_cells = node 1 30 ∷ []

abbrev hole_nodes : Heap Ptr
hole_nodes p = if p == 1 then some (record { content = 1; next = 0; prev = 0 }) else none

abbrev hole_cells : List (Cell Ptr)
hole_cells = node 1 1 ∷ []

abbrev no_nodes : Heap Held
no_nodes p = none

abbrev empty_list : ListT
empty_list = record { head = 0; tail = 0; num_items = 0 }

abbrev ready_heap : HeldHeap
ready_heap = record { address = 40; data_address = 41 }

-- The address 50 and the descriptor 0 are those of others.
abbrev at_the_end : Resources
at_the_end = record { allocated = 20 ∷ 21 ∷ 30 ∷ 40 ∷ 41 ∷ 50 ∷ []; opened = 0 ∷ 3 ∷ 6 ∷ [] }

abbrev other_addresses : ℕ → ℕ
other_addresses n = count n (50 ∷ [])

abbrev other_fds : ℕ → ℕ
other_fds n = count n (0 ∷ [])

block_nodes-Holds : Holds 0 finished_queue block_nodes block_cells
block_nodes-Holds = record {
  links = (refl, one_ne_null, tt);
  distinct = (refl, tt);
  head = refl;
  tail = refl;
  count = refl;
}

hole_nodes-Holds : Holds 0 finished_queue hole_nodes hole_cells
hole_nodes-Holds = record {
  links = (refl, one_ne_null, tt);
  distinct = (refl, tt);
  head = refl;
  tail = refl;
  count = refl;
}

empty_list-Holds : Holds 0 empty_list no_nodes []
empty_list-Holds = record { links = tt; distinct = tt; head = refl; tail = refl; count = refl }

at_the_end-AllHeld :
    AllHeld other_addresses other_fds (held ∷ []) [] (30 ∷ []) [] (41 ∷ 40 ∷ []) at_the_end
at_the_end-AllHeld = (λ n. omega arith, λ n. omega arith)

free_queues-HeldBy_example : Returns (HeldBy other_addresses other_fds []) (
    free_queues
      (record { list = finished_queue; heap = finished_nodes })
      (record { list = empty_list; heap = no_nodes })
      (record { list = finished_queue; heap = block_nodes })
      (record { list = finished_queue; heap = hole_nodes })
      sjf_name
      (as_heap ready_heap)
      at_the_end)
free_queues-HeldBy_example =
    free_queues-HeldBy other_addresses other_fds
      (record { list = finished_queue; heap = finished_nodes })
      (record { list = empty_list; heap = no_nodes })
      (record { list = finished_queue; heap = block_nodes })
      (record { list = finished_queue; heap = hole_nodes }) sjf_name (as_heap ready_heap)
      finished_cells [] block_cells hole_cells [] (41 ∷ 40 ∷ []) at_the_end
      (0, finished_queue-Holds) (0, empty_list-Holds) (0, block_nodes-Holds) (0, hole_nodes-Holds)
      by_sjf at_the_end-AllHeld
