-- ===== src/Scheduler/Ending/Advance.antt =====
-- What a round of cycle of src/main.c does to the clock, to the work that is left and to the processes
-- that wait.
use mathlib.Core.Path.{subst}
use process_management_syste.Base.{
  ◌+◌, ◌≤◌, ◌^◌, sym, arith, ℕ, ◌<◌, ◌≡◌, ◌≢◌, false, none, List, ◌==◌,
}
use process_management_syste.Base.Lists.{length}
use process_management_syste.ReadyQueue.{ReadyQueue}
use process_management_syste.ReadyQueue.Laws.{QueueLaws}
use process_management_syste.Scheduler.Cycle.{Loop, Round, next, break, advance}
use process_management_syste.Scheduler.Loops.{as_list, everyone, load}
use process_management_syste.Scheduler.Timely.{lead, AllServed}
use process_management_syste.Scheduler.Ending.Waiting.{CanFinish, Idle}

module _ (r : ReadyQueue) (laws : QueueLaws r) (strategy : List ℕ) (quantum : ℕ) where
  -- A round that finishes no process.
  pub record Goes (l l' : Loop r) : Type 0 where
    pub clock : l'.sim_time ≡ advance r l.sim_time quantum
    pub was : l'.current ≡ none → l.current ≡ none
    pub finished : l'.system.finished ≡ l.system.finished
    pub lead :
        lead r laws l.sim_time (as_list l'.current) l'.system
        ≤ lead r laws l.sim_time (as_list l.current) l.system
    pub idle :
        CanFinish strategy (everyone r laws strategy l)
        → l'.current ≡ none
        → Idle r laws l.sim_time l'.system

  abbrev pub GoesOn : Loop r → Round r → Type 0
  GoesOn l (next l') = Goes l l'
  GoesOn l (break l') = ⊥

  -- No process is ahead of `time`, and those that have finished have had their time.
  abbrev pub Timely : ℕ → Loop r → Type 0
  Timely time l =
      (lead r laws time (as_list l.current) l.system ≡ 0) × AllServed time l.system.finished

  abbrev pub TimelyAfter : ℕ → Round r → Type 0
  TimelyAfter time (next l) = Timely time l
  TimelyAfter time (break l) = AllServed time l.system.finished

  -- A round from `quantum` after `before` on.
  abbrev pub Punctual : Loop r → Round r → Type 0
  Punctual l o =
      (before : ℕ)
      → l.sim_time ≡ before + quantum
      → l.sim_time < 2 ^ 32
      → Timely before l
      → TimelyAfter l.sim_time o

  pub GoesOn-TimelyAfter :
      (l : Loop r) (o : Round r) → GoesOn l o → Timely l.sim_time l → TimelyAfter l.sim_time o
  GoesOn-TimelyAfter l (next l') g (zero, all) =
      (omega (arith, g.lead, zero), subst (AllServed l.sim_time) (sym g.finished) all)
  GoesOn-TimelyAfter l (break l') g t = absurd g

  -- A round, with `n` processes in all.
  pub record Advanced (n : ℕ) (l l' : Loop r) : Type 0 where
    pub clock : l'.sim_time ≡ advance r l.sim_time quantum
    pub shrinks :
        0 < quantum
        → l.current ≢ none
        → load r laws strategy quantum l' < load r laws strategy quantum l
    pub more :
        (l.current ≡ none → (length l.system.finished == n) ≡ false)
        → l'.current ≡ none
        → (length l'.system.finished == n) ≡ false
    pub idle :
        CanFinish strategy (everyone r laws strategy l)
        → l'.current ≡ none
        → Idle r laws l.sim_time l'.system

  abbrev pub Advances : ℕ → Loop r → Round r → Type 0
  Advances n l (next l') = Advanced n l l'
  Advances n l (break l') = l'.sim_time ≡ l.sim_time
