-- ===== src/Scheduler/Order/TakingTurns.antt =====
-- Whole runs of cycle of src/main.c by RR against taking turns, where all processes arrive at time 0
-- and there is memory for them.
use mathlib.Core.Path.{subst}
use mathlib.Core.List.{map}
use process_management_syste.Base.{
  ℕ, zero, suc, ◌+◌, ◌≤◌, ◌<◌, ◌≡◌, refl, sym, ap, ◌∙◌, false, Option, none, some, List, [], ◌∷◌,
  arith, inl, inr, ◌*◌, ◌%◌, ◌^◌, Returns, Returns-mono,
}
use process_management_syste.Base.Ensures.{Ensures, ensures, Ensures-bind, fails, Returns-Ensures}
use process_management_syste.Base.Lists.{length}
use process_management_syste.Base.Text.{streq, strcmp}
use process_management_syste.ProcessData.{Process}
use process_management_syste.ReadyQueue.{list_queue}
use process_management_syste.MemoryAllocation.{infinite_name}
use process_management_syste.MemoryAllocation.Allocate.{Event}
use process_management_syste.Scheduler.Steps.{ticket}
use process_management_syste.Scheduler.Cycle.{
  Round, next, break, advance, rounds, keep_rr, simulate, cycle, sjf_name, rr_name,
}
use process_management_syste.Scheduler.Order.Jobs.{Job, job, TakeTurns}
use process_management_syste.Scheduler.Order.Line.{at}
use process_management_syste.Scheduler.Arrivals.{AllArrived}
use process_management_syste.Scheduler.Rounds.{AllNew}
use process_management_syste.Scheduler.Ending.AnyQueue.{enough_rounds}
use process_management_syste.Scheduler.Ending.Termination.{cycle-AllFinished}
use process_management_syste.Scheduler.Order.Rotation.{
  rounds-Took, later, Took, first_round-Serving,
}

length_jobs : (ps : List Process) → length (map job ps) ≡ length ps
length_jobs [] = refl
length_jobs (p ∷ ps) = ap suc (length_jobs ps)

one_more : (a quantum : ℕ) → suc a * quantum ≡ a * quantum + quantum
one_more a quantum = grind arith

wrapped : (x quantum : ℕ) → (x % 2 ^ 32 + quantum) % 2 ^ 32 ≡ (x + quantum) % 2 ^ 32
wrapped x quantum = omega arith

advance-times :
    (a quantum : ℕ) → advance list_queue (a * quantum % 2 ^ 32) quantum ≡ suc a * quantum % 2 ^ 32
unfolding advance
advance-times a quantum =
    wrapped (a * quantum) quantum ∙ ap (λ x. x % 2 ^ 32) (sym (one_more a quantum))

later-times :
    (quantum m a : ℕ) → later quantum m (a * quantum % 2 ^ 32) ≡ (m + a) * quantum % 2 ^ 32
later-times quantum zero a =
    let same : a ≡ 0 + a = omega arith in ap (λ x. x * quantum % 2 ^ 32) same
later-times quantum (suc m) a =
    let same : m + suc a ≡ suc m + a = omega arith in
    ap (later quantum m) (advance-times a quantum)
    ∙ later-times quantum m (suc a)
    ∙ ap (λ x. x * quantum % 2 ^ 32) same

-- What a run by RR makes of the jobs: they take turns, a round each.
abbrev TookTurns : ℕ → List Job → List Process × ℕ × List Event → Type 0
TookTurns quantum jobs (done, makespan, log) =
    (turns : ℕ) × TakeTurns quantum jobs (map ticket done) turns
    × (makespan ≡ turns * quantum % 2 ^ 32)

clock_times :
    (quantum turns : ℕ)
    → later quantum turns (advance list_queue 0 quantum) ≡ suc turns * quantum % 2 ^ 32
clock_times quantum turns =
    let start : 0 ≡ 0 * quantum % 2 ^ 32 = omega arith in
    let first : advance list_queue 0 quantum ≡ 1 * quantum % 2 ^ 32 =
      ap (λ t. advance list_queue t quantum) start ∙ advance-times 0 quantum in
    let same : turns + 1 ≡ suc turns = omega arith in
    ap (later quantum turns) first
    ∙ later-times quantum turns 1
    ∙ ap (λ x. x * quantum % 2 ^ 32) same

result-TookTurns :
    (quantum : ℕ) (jobs : List Job) (o : Round list_queue)
    → Took quantum jobs [] (advance list_queue 0 quantum) o
    → Ensures (TookTurns quantum jobs) (elim o as (λ o. Option (List Process × ℕ × List Event)) [
      | next l ↦ none
      | break l ↦ some (l.system.finished, l.sim_time, l.system.log)
    ])
result-TookTurns quantum jobs (next l) x = fails
result-TookTurns quantum jobs (break l) x = ensures (
  suc x.turns,
  subst (λ ts. TakeTurns quantum jobs ts (suc x.turns)) (sym x.finished) x.takes,
  x.clock ∙ clock_times quantum x.turns,
)

simulate-Took :
    (k quantum : ℕ) (p : Process) (ps : List Process)
    → AllArrived 0 (p ∷ ps)
    → Ensures
        (Took quantum (job p ∷ map job ps) [] (advance list_queue 0 quantum))
        (simulate list_queue k (keep_rr list_queue) quantum infinite_name (p ∷ ps))
unfolding simulate
simulate-Took k quantum p ps all = Ensures-bind (first_round-Serving quantum p ps all) λ l w.
    let n = length (p ∷ ps) in
    let jobs = map job ps in
    subst
      (λ l'.
        Ensures (Took quantum (job p ∷ jobs) [] (advance list_queue 0 quantum))
          (rounds list_queue k (keep_rr list_queue) quantum infinite_name n l'))
      (sym w.is)
      (subst
        (λ j. Ensures (Took quantum (j ∷ jobs) [] (advance list_queue 0 quantum)) (
          rounds list_queue k (keep_rr list_queue) quantum infinite_name n
            (at w.system (some w.process) false (advance list_queue 0 quantum))))
        w.same
        (rounds-Took quantum n k w.process w.system (advance list_queue 0 quantum) jobs [] w.lists
          (omega (arith, length_jobs ps))))

cycle-TookTurns :
    (k quantum : ℕ) (p : Process) (ps : List Process)
    → AllArrived 0 (p ∷ ps)
    → Ensures
        (TookTurns quantum (map job (p ∷ ps)))
        (cycle k quantum (p ∷ ps) rr_name infinite_name)
unfolding cycle sjf_name rr_name streq strcmp
cycle-TookTurns k quantum p ps all =
    Ensures-bind (simulate-Took k quantum p ps all) (result-TookTurns quantum (map job (p ∷ ps)))

-- By RR and under "infinite", where all processes arrive at time 0, cycle ends without a fault and
-- finishes the processes in the order in which they get done where they take turns: the first in
-- line runs for the quantum, and goes to the end of the line where it is not done. The makespan is
-- the quantum times the number of turns, modulo 2 ^ 32. No process has a pid yet and no name is an
-- option of the child, the quantum is not 0, there are enough rounds, and sim_time does not wrap
-- around in as many.
pub cycle-TakeTurns :
    (k quantum : ℕ) (p : Process) (ps : List Process)
    → AllNew (p ∷ ps)
    → AllArrived 0 (p ∷ ps)
    → 0 < quantum
    → enough_rounds quantum 0 (p ∷ ps) * quantum < 2 ^ 32
    → enough_rounds quantum 0 (p ∷ ps) ≤ k
    → Returns
        (λ (done, makespan, log).
          (turns : ℕ) × TakeTurns quantum (map job (p ∷ ps)) (map ticket done) turns
          × (makespan ≡ turns * quantum % 2 ^ 32))
        (cycle k quantum (p ∷ ps) rr_name infinite_name)
unfolding AllArrived
cycle-TakeTurns k quantum p ps new all pos fits enough =
    Returns-mono
      (Returns-Ensures
        (cycle-AllFinished k quantum 0 rr_name infinite_name p ps (inr refl) new
          (omega (arith, all.0)) all (inl refl) pos fits enough)
        (cycle-TookTurns k quantum p ps all))
      λ (done, makespan, log) (finished, turns). turns
