-- ===== src/MemoryAllocation/Tests.antt =====
-- src/memory_allocation.c at concrete memories.
use process_management_syste.Base.{◌≡◌, refl, true, none, some, [], ◌∷◌, arith, Returns}
use process_management_syste.Base.Text.{codes, streq}
use process_management_syste.ProcessData.{Process, State, whole, set_block_node}
use process_management_syste.ReadyQueue.{list_queue}
use process_management_syste.ReadyQueue.Laws.{list_queue-QueueLaws}
use process_management_syste.MemoryAllocation.{
  Memory, node, hole, process, get_data, initialise_memory, best_fit, deallocate_memory,
  best_fit_name, create_block,
}
use process_management_syste.MemoryAllocation.Allocate.{Allocation, allocate_memory}
use process_management_syste.MemoryAllocation.Conserve.{Conserved, allocate_memory-Conserved}
use process_management_syste.MemoryAllocation.Owners.{Blocks, Blocks-nil, start-free}
use process_management_syste.MemoryAllocation.Holding.{allocate_memory-Blocks}
use process_management_syste.MemoryAllocation.Invariant.{IsValid, initialise_memory-IsValid}
use process_management_syste.MemoryAllocation.Fit.{BestFit, best_fit-BestFit}
use process_management_syste.MemoryAllocation.Release.{Released, deallocate_memory-Released}

-- P4 of the README, which needs 16 MB.
abbrev pub p4 : Process
p4 = record {
  arrival_time = 0;
  service_time = 30;
  service_time_left = 30;
  finish_time = 0;
  turnaround_time = 0;
  mem_requirement = 16;
  overhead = whole 0;
  name = codes "P4";
  state = State.idle;
  block_node = none;
  pid = 0;
  fd_in = (0, 0);
  fd_out = (0, 0);
}

-- What best_fit leaves of an empty memory.
abbrev one_block : Memory
one_block = record {
  memory = node 2 (create_block process 0 16) ∷ node 1 (create_block hole 16 2032) ∷ [];
  holes = 1 ∷ [];
  fresh = 3;
}

abbrev p4_placed : Process
p4_placed = record p4 { block_node = some 2 }

best_fit_runs : best_fit initialise_memory p4 ≡ some (true, one_block, p4_placed)
unfolding best_fit initialise_memory create_block
best_fit_runs = refl

one_block-IsValid : IsValid one_block
unfolding create_block get_data
one_block-IsValid = record {
  layout = record {
    distinct = (refl, (refl, tt));
    below = λ q h. ground arith;
    tiles = (refl, (refl, tt));
    full = refl;
  };
  listed = record { exact = λ q. ground arith; once = (refl, tt); ascending = (tt, tt) };
  apart = (refl, (refl, tt));
}

best_fit-BestFit_example : Returns (BestFit initialise_memory p4) (best_fit initialise_memory p4)
best_fit-BestFit_example = best_fit-BestFit initialise_memory p4 initialise_memory-IsValid

deallocate_memory-Released_example :
    Returns
      (λ r.
        Released one_block 2 (create_block process 0 16) r.0
        × (r.1 ≡ set_block_node p4_placed none))
      (deallocate_memory p4_placed one_block best_fit_name)
unfolding create_block get_data
deallocate_memory-Released_example =
    deallocate_memory-Released one_block p4_placed 2 (create_block process 0 16) one_block-IsValid
      refl refl refl

abbrev arrived : Allocation list_queue
arrived = record { memory = initialise_memory; input = p4 ∷ []; queue = []; log = [] }

allocate_memory-Conserved_example :
    Returns
      (Conserved list_queue list_queue-QueueLaws [] (p4 ∷ []))
      (allocate_memory list_queue arrived best_fit_name 7)
unfolding list_queue-QueueLaws
allocate_memory-Conserved_example =
    allocate_memory-Conserved list_queue list_queue-QueueLaws arrived best_fit_name 7
      initialise_memory-IsValid tt

allocate_memory-Blocks_example :
    Returns
      (λ a'. Blocks (streq best_fit_name best_fit_name) a'.memory a'.queue)
      (allocate_memory list_queue arrived best_fit_name 7)
unfolding list_queue-QueueLaws
allocate_memory-Blocks_example =
    allocate_memory-Blocks list_queue list_queue-QueueLaws [] arrived best_fit_name 7
      initialise_memory-IsValid tt
      (Blocks-nil (streq best_fit_name best_fit_name) initialise_memory start-free)
