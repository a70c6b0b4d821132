-- ===== src/Scheduler/Ending/AnyQueue.antt =====
-- That a run of cycle in src/main.c ends, for any ready queue and any way to go on.
use mathlib.Core.Path.{subst}
use native.Mathlib.Nat.{add-div_right}
use process_management_syste.Base.{
  ℕ, ◌+◌, ◌-◌, ◌*◌, ◌/◌, ◌^◌, ◌≤◌, ◌<◌, ◌≡◌, ◌⊎◌, inl, inr, refl, sym, Option, List, [], ◌∷◌, arith,
  Returns, Returns-bind,
}
use process_management_syste.ProcessData.{Process}
use process_management_syste.ReadyQueue.{ReadyQueue}
use process_management_syste.ReadyQueue.Laws.{QueueLaws}
use process_management_syste.MemoryAllocation.{best_fit_name, infinite_name, mem_capacity}
use process_management_syste.Scheduler.Arrivals.{AllArrived}
use process_management_syste.Scheduler.Ending.Work.{work}
use process_management_syste.Scheduler.Steps.{ticket}
use process_management_syste.Scheduler.Ending.Waiting.{CanFinish, misfits, misfit}
use process_management_syste.Scheduler.Sound.{Keeps}
use process_management_syste.Scheduler.Rounds.{AllNew, Begun, first_round-RunOk}
use process_management_syste.Scheduler.Ending.Late.{late_ones, late_by, idle_left}
use process_management_syste.Scheduler.Ending.Enough.{rounds_to_go, Ended, rounds-Ended}
use process_management_syste.Scheduler.Runs.{CanStart, start-Few}
use process_management_syste.Scheduler.Cycle.{Loop, simulate, advance}

-- Each process is small enough for the memory.
unfoldable pub AllFit : List Process → Type 0
AllFit [] = Unit {0}
AllFit (p ∷ ps) = (p.mem_requirement ≤ mem_capacity) × AllFit ps

-- The strategy is one of the two, and under best-fit each process is small enough for the memory.
abbrev pub CanRun : List ℕ → List Process → Type 0
CanRun strategy ps = (strategy ≡ infinite_name) ⊎ ((strategy ≡ best_fit_name) × AllFit ps)

AllFit-misfits : (ps : List Process) → AllFit ps → misfits ps ≡ 0
unfolding AllFit misfits misfit ticket
AllFit-misfits [] h = refl
AllFit-misfits (p ∷ ps) h = ground (arith, h.0, AllFit-misfits ps h.1)

AllArrived-late_ones : (last : ℕ) (ps : List Process) → AllArrived last ps → late_ones last ps ≡ 0
unfolding AllArrived late_ones late_by ticket
AllArrived-late_ones last [] h = refl
AllArrived-late_ones last (p ∷ ps) h = ground (arith, h.0, AllArrived-late_ones last ps h.1)

can_finish : (strategy : List ℕ) (ps : List Process) → CanRun strategy ps → CanFinish strategy ps
can_finish strategy ps can = elim can [
  | inl e ↦ inl e
  | inr (e, fit) ↦ inr (e, AllFit-misfits ps fit)
]

can_start :
    (strategy : List ℕ) (p : Process) (ps : List Process)
    → CanRun strategy (p ∷ ps)
    → CanStart strategy p
unfolding AllFit
can_start strategy p ps can = elim can [ inl e ↦ inl e | inr (e, fit) ↦ inr (e, fit.0) ]

-- A round for each `quantum` of each process, and the rounds until the last arrives.
unfoldable pub enough_rounds : ℕ → ℕ → List Process → ℕ
enough_rounds quantum last ps = work quantum ps + last / quantum + 2

module _ (r : ReadyQueue) (laws : QueueLaws r) (strategy : List ℕ) (keep : Loop r → Option (Loop r))
    (keeps : Keeps r laws strategy keep) (quantum last : ℕ) (p : Process) (ps : List Process) where
  Begun-to_go :
      (l : Loop r)
      → Begun r laws strategy keep keeps quantum (p ∷ ps) l
      → 0 < quantum
      → quantum < 2 ^ 32
      → (rounds_to_go r laws strategy quantum last (p ∷ ps) l < enough_rounds quantum last (p ∷ ps))
        × (l.sim_time ≡ quantum)
  unfolding enough_rounds rounds_to_go idle_left advance
  Begun-to_go l b pos small =
      let clock : l.sim_time ≡ quantum = omega (arith, b.clock) in
      let same : last + 2 * quantum - quantum ≡ last + quantum = omega arith in
      let idle = add-div_right last pos in
      (rw (clock, same) (omega (arith, b.less quantum, idle)), clock)

  start_time : (k n : ℕ) → k < n → quantum + k * quantum ≤ n * quantum
  start_time k n h = grind arith

  begun_small : enough_rounds quantum last (p ∷ ps) * quantum < 2 ^ 32 → quantum < 2 ^ 32
  unfolding enough_rounds
  begun_small fits =
      omega (arith, start_time 0 (enough_rounds quantum last (p ∷ ps)) (omega arith), fits)

  pub simulate-Ended :
      (k : ℕ)
      → AllNew (p ∷ ps)
      → p.arrival_time ≡ 0
      → AllArrived last (p ∷ ps)
      → CanRun strategy (p ∷ ps)
      → 0 < quantum
      → enough_rounds quantum last (p ∷ ps) * quantum < 2 ^ 32
      → enough_rounds quantum last (p ∷ ps) ≤ k
      → Returns
          (Ended r (p ∷ ps) (enough_rounds quantum last (p ∷ ps) * quantum))
          (simulate r k keep quantum strategy (p ∷ ps))
  unfolding simulate
  simulate-Ended k new now due can pos fits enough =
      Returns-bind
        (first_round-RunOk r laws strategy keep keeps quantum p ps new
          (start-Few r laws p ps now strategy (can_start strategy p ps can)))
        λ l b.
          let (fewer, clock) = Begun-to_go l b pos (begun_small fits) in
          rounds-Ended r laws strategy quantum last (p ∷ ps) pos (can_finish strategy (p ∷ ps) can)
            (AllArrived-late_ones last (p ∷ ps) due) keep keeps
            (enough_rounds quantum last (p ∷ ps) * quantum) fits k l
            (record {
              ok = b.ok;
              waits = λ e. absurd (b.runs e);
              more = λ e. absurd (b.runs e);
              timely = λ unrun. (0, omega (arith, clock), b.timely unrun);
              time =
                  subst
                    (λ t.
                      t + rounds_to_go r laws strategy quantum last (p ∷ ps) l * quantum
                      ≤ enough_rounds quantum last (p ∷ ps) * quantum)
                    (sym clock) (start_time _ (enough_rounds quantum last (p ∷ ps)) fewer);
            })
            (omega (arith, fewer, enough))
