-- ===== src/Scheduler/RunTests.antt =====
-- Whole runs of src/main.c on the input of cases/task1/simple.txt.
use mathlib.Core.List.{map}
use process_management_syste.Base.{
  ℕ, ◌≡◌, ◌%◌, ◌^◌, Perm, ◌*◌, inr, refl, List, [], ◌∷◌, arith, Returns,
}
use process_management_syste.Base.Text.{codes}
use process_management_syste.ProcessData.{Process}
use process_management_syste.ChildProcess.{is_option}
use process_management_syste.MemoryAllocation.{best_fit_name, infinite_name}
use process_management_syste.Scheduler.Order.Turns.{InTurn}
use process_management_syste.Scheduler.Steps.{ticket}
use process_management_syste.Scheduler.Order.ShortestFirst.{cycle-InTurn}
use process_management_syste.Scheduler.Order.Jobs
use process_management_syste.Scheduler.Order.Jobs.{TakeTurns}
use process_management_syste.Scheduler.Order.TakingTurns.{cycle-TakeTurns}
use process_management_syste.Scheduler.Arrivals.{AllArrived}
use process_management_syste.Scheduler.Ending.Work.{work, rounds_left}
use process_management_syste.Scheduler.Rounds.{AllNew}
use process_management_syste.Scheduler.Ahead.{AllUnrun}
use process_management_syste.Scheduler.Timely.{AllServed}
use process_management_syste.Scheduler.Cycle.{cycle, rr_name, sjf_name}
use process_management_syste.Scheduler.Ending.AnyQueue.{AllFit, enough_rounds}
use process_management_syste.Scheduler.Ending.Termination.{
  AllFinished, cycle-AllFinished, cycle-AllServed,
}
use process_management_syste.Scheduler.Tests.{job}

abbrev others : List Process
others = job 10 (codes "P2") 30 8 ∷ job 40 (codes "P5") 80 8 ∷ job 50 (codes "P4") 10 8 ∷ []

abbrev first : Process
first = job 0 (codes "P1") 50 8

cycle-AllFinished_example :
    Returns
      (AllFinished (first ∷ others) (enough_rounds 10 50 (first ∷ others) * 10))
      (cycle 28 10 (first ∷ others) rr_name best_fit_name)
unfolding AllNew is_option AllArrived AllFit enough_rounds work rounds_left
cycle-AllFinished_example =
    cycle-AllFinished 28 10 50 rr_name best_fit_name first others (inr refl)
      ((refl, refl), ((refl, refl), ((refl, refl), ((refl, refl), tt)))) refl (omega arith)
      (inr (refl, omega arith)) (omega arith) (omega arith) (omega arith)

cycle-AllServed_example :
    Returns
      (λ (done, makespan, log). AllServed makespan done)
      (cycle 28 10 (first ∷ others) rr_name best_fit_name)
unfolding AllUnrun AllNew is_option AllArrived AllFit enough_rounds work rounds_left
cycle-AllServed_example =
    cycle-AllServed 28 10 50 rr_name best_fit_name first others (inr refl)
      (refl, (refl, (refl, (refl, tt))))
      ((refl, refl), ((refl, refl), ((refl, refl), ((refl, refl), tt)))) refl (omega arith)
      (inr (refl, omega arith)) (omega arith) (omega arith) (omega arith)

-- Three processes at time 0.
abbrev others_now : List Process
others_now = job 0 (codes "P2") 30 8 ∷ job 0 (codes "P3") 30 16 ∷ []

cycle-InTurn_example :
    Returns
      (λ (done, makespan, log).
        Perm (map ticket done) (map ticket (first ∷ others_now)) × InTurn done)
      (cycle 16 10 (first ∷ others_now) sjf_name infinite_name)
unfolding AllNew is_option AllArrived enough_rounds work rounds_left
cycle-InTurn_example =
    cycle-InTurn 16 10 first others_now ((refl, refl), ((refl, refl), ((refl, refl), tt)))
      (omega arith) (omega arith) (omega arith) (omega arith)

cycle-TakeTurns_example :
    Returns
      (λ (done, makespan, log).
        (turns : ℕ) × TakeTurns 10 (map Jobs.job (first ∷ others_now)) (map ticket done) turns
        × (makespan ≡ turns * 10 % 2 ^ 32))
      (cycle 16 10 (first ∷ others_now) rr_name infinite_name)
unfolding AllNew is_option AllArrived enough_rounds work rounds_left
cycle-TakeTurns_example =
    cycle-TakeTurns 16 10 first others_now ((refl, refl), ((refl, refl), ((refl, refl), tt)))
      (omega arith) (omega arith) (omega arith) (omega arith)
