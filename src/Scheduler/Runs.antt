-- ===== src/Scheduler/Runs.antt =====
-- Whole runs of cycle of src/main.c, by SJF and by RR, under either strategy.
use mathlib.Core.Path.{subst}
use mathlib.Core.List.{head-eq_of_cons-eq}
use process_management_syste.Base.{
  ℕ, ◌≤◌, ◌<◌, ◌≡◌, ◌≢◌, ◌⊎◌, refl, sym, ap, ◌∙◌, true, List, [], ◌∷◌, ◌++◌, arith, inl, inr,
  Returns, returns, Returns-bind,
}
use process_management_syste.Base.Lists.{length, length-append}
use process_management_syste.ProcessData.{Process}
use process_management_syste.ReadyQueue.{ReadyQueue, heap_queue, list_queue}
use process_management_syste.ReadyQueue.Laws.{QueueLaws, heap_queue-QueueLaws, list_queue-QueueLaws}
use process_management_syste.MemoryAllocation.{
  Memory, best_fit_name, infinite_name, initialise_memory, mem_capacity, create_block, get_data,
}
use process_management_syste.MemoryAllocation.Invariant.{initialise_memory-IsValid}
use process_management_syste.MemoryAllocation.Owners.{Blocks-nil, start-free}
use process_management_syste.MemoryAllocation.Fit.{Refused}
use process_management_syste.MemoryAllocation.Conserve.{allocate_memory-empty}
use process_management_syste.MemoryAllocation.Holding.{best_fit-first}
use process_management_syste.Scheduler.System.{update_input, allocate}
use process_management_syste.Scheduler.Arrivals.{update_input-Arrived, NoneArrived}
use process_management_syste.Scheduler.Sound.{keep_sjf-Keeps, keep_rr-Keeps}
use process_management_syste.Scheduler.Cycle.{simulate, start_system, keep_sjf, keep_rr}
use process_management_syste.Scheduler.Rounds.{AllNew, RunOk, Few, simulate-RunOk}

late : (p : Process) (ps : List Process) → NoneArrived 0 (p ∷ ps) → p.arrival_time ≢ 0
unfolding NoneArrived
late p ps stops now = omega (arith, stops, now)

-- A process that has arrived is moved.
first_arrives :
    (p : Process) (ps moved rest : List Process)
    → p ∷ ps ≡ moved ++ rest
    → NoneArrived 0 rest
    → p.arrival_time ≡ 0
    → length rest < length (p ∷ ps)
first_arrives p ps [] rest e stops now =
    absurd (late p ps (subst (NoneArrived 0) (sym e) stops) now)
first_arrives p ps (x ∷ moved) rest e stops now =
    omega (arith, ap length e, length-append moved rest)

first_moved :
    (p : Process) (ps moved rest : List Process)
    → p ∷ ps ≡ moved ++ rest
    → NoneArrived 0 rest
    → p.arrival_time ≡ 0
    → (others : List Process) × (moved ≡ p ∷ others)
first_moved p ps [] rest e stops now = absurd (late p ps (subst (NoneArrived 0) (sym e) stops) now)
first_moved p ps (x ∷ moved) rest e stops now =
    (moved, ap (λ y. y ∷ moved) (sym (head-eq_of_cons-eq e)))

-- A process of at most the capacity fits into the memory at the start.
fits_at_start :
    (p : Process)
    → p.mem_requirement ≤ mem_capacity
    → (m' : Memory) (p' : Process) → Refused initialise_memory p m' p'
    → ⊥
unfolding initialise_memory create_block get_data
fits_at_start p small m' p' r = omega (arith, small, r.small 1 _ refl refl)

-- The strategy is one of the two, and under best-fit the process fits into the memory.
abbrev pub CanStart : List ℕ → Process → Type 0
CanStart strategy p =
    (strategy ≡ infinite_name) ⊎ ((strategy ≡ best_fit_name) × (p.mem_requirement ≤ mem_capacity))

module _ (r : ReadyQueue) (laws : QueueLaws r) (p : Process) (ps : List Process)
    (now : p.arrival_time ≡ 0) where
  infinite-Few :
      Returns
        (Few r (p ∷ ps))
        (allocate r (update_input r (start_system r (p ∷ ps)) 0) infinite_name 0)
  unfolding allocate update_input start_system
  infinite-Few =
      let (a, whole) = update_input-Arrived r (start_system r (p ∷ ps)) 0 in
      Returns-bind (allocate_memory-empty r laws _ 0 laws.create_valid)
        λ m e. returns (rw e (first_arrives p ps a.moved _ a.split a.stops now))

  best_fit-Few :
      p.mem_requirement ≤ mem_capacity
      → Returns
          (Few r (p ∷ ps))
          (allocate r (update_input r (start_system r (p ∷ ps)) 0) best_fit_name 0)
  unfolding allocate update_input start_system
  best_fit-Few small =
      let (a, whole) = update_input-Arrived r (start_system r (p ∷ ps)) 0 in
      let (others, first) = first_moved p ps a.moved _ a.split a.stops now in
      Returns-bind
        (best_fit-first r laws [] p _ others 0 initialise_memory-IsValid laws.create_valid
          (rw laws.create_empty (Blocks-nil true initialise_memory start-free))
          (fits_at_start p small) (a.appended ∙ first))
        λ m fewer. returns (
          omega (
            arith,
            fewer,
            ap length a.appended,
            ap length a.split,
            length-append a.moved _,
            length-append m.input _,
          ))

  pub start-Few :
      (strategy : List ℕ)
      → CanStart strategy p
      → Returns
          (Few r (p ∷ ps))
          (allocate r (update_input r (start_system r (p ∷ ps)) 0) strategy 0)
  start-Few strategy can = elim can [
    | inl e ↦
        subst
          (λ s.
            Returns (Few r (p ∷ ps)) (allocate r (update_input r (start_system r (p ∷ ps)) 0) s 0))
          (sym e) infinite-Few
    | inr (e, small) ↦
        subst
          (λ s.
            Returns (Few r (p ∷ ps)) (allocate r (update_input r (start_system r (p ∷ ps)) 0) s 0))
          (sym e) (best_fit-Few small)
  ]

-- A run of SJF, under "infinite" or under best-fit, never faults and never exits, for any number
-- of rounds and any quantum, where the first process arrives at time 0, fits into the memory if
-- the strategy is best-fit, no process has a pid yet, and no name is an option of the child: the
-- processes of the input are all still there, none doubled, and where the run has ended, they are
-- the finished ones, by arrival, service time, memory and name.
pub simulate-sjf :
    (k quantum : ℕ) (strategy : List ℕ) (p : Process) (ps : List Process)
    → AllNew (p ∷ ps)
    → p.arrival_time ≡ 0
    → CanStart strategy p
    → Returns
        (RunOk heap_queue (heap_queue-QueueLaws p) strategy (p ∷ ps))
        (simulate heap_queue k (keep_sjf heap_queue) quantum strategy (p ∷ ps))
simulate-sjf k quantum strategy p ps new now can =
    simulate-RunOk heap_queue (heap_queue-QueueLaws p) strategy (keep_sjf heap_queue)
      (keep_sjf-Keeps heap_queue (heap_queue-QueueLaws p) strategy) quantum k p ps new
      (start-Few heap_queue (heap_queue-QueueLaws p) p ps now strategy can)

-- A run of RR, under "infinite" or under best-fit, never faults and never exits, for any number of
-- rounds and any quantum, where the first process arrives at time 0, fits into the memory if the
-- strategy is best-fit, no process has a pid yet, and no name is an option of the child: the
-- processes of the input are all still there, none doubled, and where the run has ended, they are
-- the finished ones, by arrival, service time, memory and name.
pub simulate-rr :
    (k quantum : ℕ) (strategy : List ℕ) (p : Process) (ps : List Process)
    → AllNew (p ∷ ps)
    → p.arrival_time ≡ 0
    → CanStart strategy p
    → Returns
        (RunOk list_queue list_queue-QueueLaws strategy (p ∷ ps))
        (simulate list_queue k (keep_rr list_queue) quantum strategy (p ∷ ps))
simulate-rr k quantum strategy p ps new now can =
    simulate-RunOk list_queue list_queue-QueueLaws strategy (keep_rr list_queue)
      (keep_rr-Keeps list_queue list_queue-QueueLaws strategy) quantum k p ps new
      (start-Few list_queue list_queue-QueueLaws p ps now strategy can)
