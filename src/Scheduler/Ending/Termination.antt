-- ===== src/Scheduler/Ending/Termination.antt =====
-- cycle of src/main.c ends: a bound on its rounds, by SJF and by RR, under either strategy.
use mathlib.Core.Path.{subst}
use mathlib.Core.List.{map}
use process_management_syste.Base.{
  ℕ, ◌*◌, ◌^◌, ◌≤◌, ◌<◌, ◌≡◌, ◌⊎◌, inl, inr, sym, Option, some, none, List, ◌∷◌, Perm, Returns,
  returns, Returns-bind, Returns-mono,
}
use process_management_syste.Base.Text.{streq, strcmp}
use process_management_syste.ProcessData.{Process}
use process_management_syste.ReadyQueue.{ReadyQueue, heap_queue, list_queue}
use process_management_syste.ReadyQueue.Laws.{heap_queue-QueueLaws, list_queue-QueueLaws}
use process_management_syste.MemoryAllocation.Allocate.{Event}
use process_management_syste.Scheduler.Arrivals.{AllArrived}
use process_management_syste.Scheduler.Steps.{ticket}
use process_management_syste.Scheduler.Sound.{keep_sjf-Keeps, keep_rr-Keeps}
use process_management_syste.Scheduler.Rounds.{AllNew}
use process_management_syste.Scheduler.Ahead.{AllUnrun}
use process_management_syste.Scheduler.Timely.{AllServed}
use process_management_syste.Scheduler.Ending.Enough.{Ended}
use process_management_syste.Scheduler.Cycle.{
  Round, next, break, cycle, sjf_name, rr_name, keep_sjf, keep_rr,
}
use process_management_syste.Scheduler.Ending.AnyQueue.{simulate-Ended, CanRun, enough_rounds}

-- The name of a scheduler.
abbrev pub IsScheduler : List ℕ → Type 0
IsScheduler s = (s ≡ sjf_name) ⊎ (s ≡ rr_name)

-- What cycle returns of the processes `ps`: all of them have finished, by `bound`.
abbrev pub AllFinished : List Process → ℕ → List Process × ℕ × List Event → Type 0
AllFinished ps bound (done, makespan, log) =
    Perm (map ticket done) (map ticket ps) × (makespan ≤ bound)

result : (r : ReadyQueue) → Round r → Option (List Process × ℕ × List Event)
result r (next l) = none
result r (break l) = some (l.system.finished, l.sim_time, l.system.log)

-- What a run makes of the processes.
abbrev Ends : List Process → ℕ → List Process × ℕ × List Event → Type 0
Ends ps bound (done, makespan, log) =
    Perm (map ticket done) (map ticket ps)
    × (makespan ≤ bound)
    × (AllUnrun ps → AllServed makespan done)

result-Ends :
    (r : ReadyQueue) (ps : List Process) (bound : ℕ) (o : Round r)
    → Ended r ps bound o
    → Returns (Ends ps bound) (result r o)
unfolding result
result-Ends r ps bound (next l) h = absurd h
result-Ends r ps bound (break l) h = returns h

module _ (k quantum last : ℕ) (strategy : List ℕ) (p : Process) (ps : List Process)
    (new : AllNew (p ∷ ps)) (now : p.arrival_time ≡ 0) (due : AllArrived last (p ∷ ps))
    (can : CanRun strategy (p ∷ ps)) (pos : 0 < quantum)
    (fits : enough_rounds quantum last (p ∷ ps) * quantum < 2 ^ 32)
    (enough : enough_rounds quantum last (p ∷ ps) ≤ k) where
  abbrev InTime : Option (List Process × ℕ × List Event) → Type 0
  InTime = Returns (Ends (p ∷ ps) (enough_rounds quantum last (p ∷ ps) * quantum))

  cycle-sjf : InTime (cycle k quantum (p ∷ ps) sjf_name strategy)
  unfolding cycle sjf_name rr_name streq strcmp result
  cycle-sjf =
      let laws = heap_queue-QueueLaws p in
      Returns-bind
        (simulate-Ended heap_queue laws strategy (keep_sjf heap_queue)
          (keep_sjf-Keeps heap_queue laws strategy) quantum last p ps k new now due can pos fits
          enough)
        (result-Ends heap_queue (p ∷ ps) _)

  cycle-rr : InTime (cycle k quantum (p ∷ ps) rr_name strategy)
  unfolding cycle sjf_name rr_name streq strcmp result
  cycle-rr =
      let laws = list_queue-QueueLaws in
      Returns-bind
        (simulate-Ended list_queue laws strategy (keep_rr list_queue)
          (keep_rr-Keeps list_queue laws strategy) quantum last p ps k new now due can pos fits
          enough)
        (result-Ends list_queue (p ∷ ps) _)

cycle-Ends :
    (k quantum last : ℕ) (scheduler strategy : List ℕ) (p : Process) (ps : List Process)
    → IsScheduler scheduler
    → AllNew (p ∷ ps)
    → p.arrival_time ≡ 0
    → AllArrived last (p ∷ ps)
    → CanRun strategy (p ∷ ps)
    → 0 < quantum
    → enough_rounds quantum last (p ∷ ps) * quantum < 2 ^ 32
    → enough_rounds quantum last (p ∷ ps) ≤ k
    → Returns
        (Ends (p ∷ ps) (enough_rounds quantum last (p ∷ ps) * quantum))
        (cycle k quantum (p ∷ ps) scheduler strategy)
cycle-Ends k quantum last scheduler strategy p ps is new now due can pos fits enough =
    let bound = enough_rounds quantum last (p ∷ ps) * quantum in
    elim is [
      | inl e ↦
          subst (λ s. Returns (Ends (p ∷ ps) bound) (cycle k quantum (p ∷ ps) s strategy)) (sym e)
            (cycle-sjf k quantum last strategy p ps new now due can pos fits enough)
      | inr e ↦
          subst (λ s. Returns (Ends (p ∷ ps) bound) (cycle k quantum (p ∷ ps) s strategy)) (sym e)
            (cycle-rr k quantum last strategy p ps new now due can pos fits enough)
    ]

-- cycle ends, by SJF and by RR, under "infinite" or under best-fit, without a fault: within a
-- number of rounds that is one for each quantum of the service time of each process, one more for
-- each process, and those until the last of them arrives. It returns every process of the input,
-- once, by arrival, service time, memory and name, and a makespan of at most so many rounds. The
-- first process arrives at time 0, the others not after a given time; under best-fit each is small
-- enough for the memory; no process has a pid yet and no name is an option of the child, the
-- quantum is not 0, and sim_time does not wrap around.
pub cycle-AllFinished :
    (k quantum last : ℕ) (scheduler strategy : List ℕ) (p : Process) (ps : List Process)
    → IsScheduler scheduler
    → AllNew (p ∷ ps)
    → p.arrival_time ≡ 0
    → AllArrived last (p ∷ ps)
    → CanRun strategy (p ∷ ps)
    → 0 < quantum
    → enough_rounds quantum last (p ∷ ps) * quantum < 2 ^ 32
    → enough_rounds quantum last (p ∷ ps) ≤ k
    → Returns
        (AllFinished (p ∷ ps) (enough_rounds quantum last (p ∷ ps) * quantum))
        (cycle k quantum (p ∷ ps) scheduler strategy)
cycle-AllFinished k quantum last scheduler strategy p ps is new now due can pos fits enough =
    Returns-mono
      (cycle-Ends k quantum last scheduler strategy p ps is new now due can pos fits enough)
      λ (done, makespan, log) (same, early, served). (same, early)

-- Each process that cycle returns, by SJF and by RR, under "infinite" or under best-fit, has
-- finished by the makespan, and not before its arrival time plus its service time; its turnaround
-- time is the time from its arrival to its finish, without a wrap-around, and its overhead the
-- quotient of the turnaround time and the service time. No process has run yet or has a pid, and
-- no name is an option of the child; the first arrives at time 0, the others not after `last`;
-- under best-fit each is small enough for the memory; the quantum is not 0, there are enough
-- rounds, and sim_time does not wrap around.
pub cycle-AllServed :
    (k quantum last : ℕ) (scheduler strategy : List ℕ) (p : Process) (ps : List Process)
    → IsScheduler scheduler
    → AllUnrun (p ∷ ps)
    → AllNew (p ∷ ps)
    → p.arrival_time ≡ 0
    → AllArrived last (p ∷ ps)
    → CanRun strategy (p ∷ ps)
    → 0 < quantum
    → enough_rounds quantum last (p ∷ ps) * quantum < 2 ^ 32
    → enough_rounds quantum last (p ∷ ps) ≤ k
    → Returns
        (λ (done, makespan, log). AllServed makespan done)
        (cycle k quantum (p ∷ ps) scheduler strategy)
cycle-AllServed k quantum last scheduler strategy p ps is unrun new now due can pos fits enough =
    Returns-mono
      (cycle-Ends k quantum last scheduler strategy p ps is new now due can pos fits enough)
      λ (done, makespan, log) (same, early, served). served unrun
