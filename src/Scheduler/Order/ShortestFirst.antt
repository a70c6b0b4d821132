-- ===== src/Scheduler/Order/ShortestFirst.antt =====
-- cycle of src/main.c by SJF, where every process is there from the start and has memory.
use mathlib.Core.Path.{subst}
use mathlib.Core.List.{map}
use process_management_syste.Base.{
  ℕ, refl, Option, none, some, List, ◌∷◌, Perm, arith, inl, ◌*◌, ◌^◌, ◌<◌, ◌≤◌, Returns,
  Returns-both, Returns-mono,
}
use process_management_syste.Base.Ensures.{
  Ensures, fails, ensures, Ensures-mono, Ensures-bind, ensured, Returns-Ensures,
}
use process_management_syste.Base.Lists.{length}
use process_management_syste.Base.Text.{streq, strcmp}
use process_management_syste.ProcessData.{Process}
use process_management_syste.ReadyQueue.{heap_queue}
use process_management_syste.ReadyQueue.Laws.{heap_queue-QueueLaws}
use process_management_syste.MemoryAllocation.{infinite_name}
use process_management_syste.MemoryAllocation.Conserve.{
  allocate_memory-Conserved, allocate_memory-empty,
}
use process_management_syste.MemoryAllocation.Invariant.{initialise_memory-IsValid}
use process_management_syste.MemoryAllocation.Allocate.{Event}
use process_management_syste.Scheduler.System.{update_input, allocate}
use process_management_syste.Scheduler.Arrivals.{none_stays, AllArrived, update_input-Arrived}
use process_management_syste.Scheduler.Steps.{ticket}
use process_management_syste.Scheduler.Loops.{as_list}
use process_management_syste.Scheduler.Order.Turns.{InFront, InTurn, InFront-InTurn, InFront-drop}
use process_management_syste.Scheduler.Cycle.{
  Round, next, break, keep_sjf, first_round, simulate, start_system, cycle, sjf_name, rr_name,
}
use process_management_syste.Scheduler.Order.Fair.{
  served, Fair, FairLoop, FairRound, run_next_process-Fair, rounds-Fair,
}
use process_management_syste.Scheduler.Rounds.{AllNew}
use process_management_syste.Scheduler.Ending.AnyQueue.{enough_rounds}
use process_management_syste.Scheduler.Ending.Termination.{cycle-AllFinished}

-- What a run that has ended leaves.
abbrev Fairly : Round heap_queue → Type 0
Fairly (next l) = Unit {0}
Fairly (break l) = InTurn l.system.finished

module _ (d : Process) where
  first_round-Fair :
      (quantum : ℕ) (ps : List Process)
      → AllArrived 0 ps
      → Ensures
          (FairLoop d)
          (first_round heap_queue quantum infinite_name (start_system heap_queue ps))
  unfolding first_round update_input allocate start_system served InFront heap_queue-QueueLaws
  first_round-Fair quantum ps all =
      let laws = heap_queue-QueueLaws d in
      let s0 = start_system heap_queue ps in
      let (a, whole) = update_input-Arrived heap_queue s0 0 in
      let none_left = none_stays a.moved _ (subst (AllArrived 0) a.split all) a.stops in
      Ensures-bind
        (Ensures-bind {Next = λ s. Fair d s none}
          (ensured (
            Returns-both
              (allocate_memory-Conserved heap_queue laws _ infinite_name 0 initialise_memory-IsValid
                laws.create_valid)
              (allocate_memory-empty heap_queue laws _ 0 laws.create_valid)))
          λ m (k, e).
            ensures (record { heap = k.queue; input = e; processes = none_left; order = tt }))
        λ s v.
          Ensures-bind (run_next_process-Fair d s 0 v)
            λ (o, s') w. ensures (record { fair = w; idle = λ f. ground (arith, f) })

  FairRound-Fairly : (o : Round heap_queue) → FairRound d o → Fairly o
  unfolding served
  FairRound-Fairly (next l) v = tt
  FairRound-Fairly (break l) v =
      InFront-InTurn l.system.finished _ (
        InFront-drop (map ticket l.system.finished) (map ticket (as_list l.current)) _ v.fair.order)

  pub simulate-Fairly :
      (k quantum : ℕ) (ps : List Process)
      → AllArrived 0 ps
      → Ensures Fairly (simulate heap_queue k (keep_sjf heap_queue) quantum infinite_name ps)
  unfolding simulate
  simulate-Fairly k quantum ps all =
      Ensures-bind (first_round-Fair quantum ps all)
        λ l v. Ensures-mono (rounds-Fair d k quantum (length ps) l v) FairRound-Fairly

result-InTurn :
    (o : Round heap_queue)
    → Fairly o
    → Ensures
        (λ (done, makespan, log). InTurn done)
        (elim o as (λ o. Option (List Process × ℕ × List Event)) [
          | next l ↦ none
          | break l ↦ some (l.system.finished, l.sim_time, l.system.log)
        ])
result-InTurn (next l) v = fails
result-InTurn (break l) v = ensures v

cycle-Fairly :
    (k quantum : ℕ) (p : Process) (ps : List Process)
    → AllArrived 0 (p ∷ ps)
    → Ensures
        (λ (done, makespan, log). InTurn done)
        (cycle k quantum (p ∷ ps) sjf_name infinite_name)
unfolding cycle sjf_name rr_name streq strcmp
cycle-Fairly k quantum p ps all =
    Ensures-bind (simulate-Fairly p k quantum (p ∷ ps) all) result-InTurn

-- By SJF and under "infinite", where all processes arrive at time 0, cycle ends without a fault
-- and finishes each of them, once, by arrival, service time, memory and name, in the order of
-- compare_process, so by service time, and by name where that is the same: none comes before one
-- with a shorter service time. No process has a pid yet and no name is an option of the child, the
-- quantum is not 0, there are enough rounds, and sim_time does not wrap around.
pub cycle-InTurn :
    (k quantum : ℕ) (p : Process) (ps : List Process)
    → AllNew (p ∷ ps)
    → AllArrived 0 (p ∷ ps)
    → 0 < quantum
    → enough_rounds quantum 0 (p ∷ ps) * quantum < 2 ^ 32
    → enough_rounds quantum 0 (p ∷ ps) ≤ k
    → Returns
        (λ (done, makespan, log). Perm (map ticket done) (map ticket (p ∷ ps)) × InTurn done)
        (cycle k quantum (p ∷ ps) sjf_name infinite_name)
unfolding AllArrived
cycle-InTurn k quantum p ps new all pos fits enough =
    Returns-mono
      (Returns-Ensures
        (cycle-AllFinished k quantum 0 sjf_name infinite_name p ps (inl refl) new
          (omega (arith, all.0)) all (inl refl) pos fits enough)
        (cycle-Fairly k quantum p ps all))
      λ (done, makespan, log) ((same, early), turn). (same, turn)
