-- ===== src/Scheduler/Arrivals.antt =====
-- update_input of src/main.c: what it moves from the processes to the input queue.
use mathlib.Core.List.{append_assoc, append-nil}
use process_management_syste.Base.{
  ℕ, ◌≤◌, ◌<◌, ◌≡◌, refl, sym, ap, ◌∙◌, List, [], ◌∷◌, ◌++◌, arith, leb, Bool-cases, inl, inr,
}
use process_management_syste.ProcessData.{Process}
use process_management_syste.ReadyQueue.{ReadyQueue}
use process_management_syste.Scheduler.System.{System, arrivals, update_input}

unfoldable pub AllArrived : ℕ → List Process → Type 0
AllArrived time [] = Unit {0}
AllArrived time (p ∷ ps) = (p.arrival_time ≤ time) × AllArrived time ps

-- The first process, if there is one, has not arrived.
unfoldable pub NoneArrived : ℕ → List Process → Type 0
NoneArrived time [] = Unit {0}
NoneArrived time (p ∷ ps) = time < p.arrival_time

pub record Arrived (time : ℕ) (input processes input' processes' : List Process) : Type 0 where
  pub moved : List Process
  pub appended : input' ≡ input ++ moved
  pub split : processes ≡ moved ++ processes'
  pub due : AllArrived time moved
  pub stops : NoneArrived time processes'

arrivals-Arrived :
    (time : ℕ) (input processes : List Process)
    → let (input', processes') = arrivals time input processes in
      Arrived time input processes input' processes'
unfolding arrivals AllArrived NoneArrived
arrivals-Arrived time input [] = record {
  moved = [];
  appended = sym (append-nil input);
  split = refl;
  due = tt;
  stops = tt;
}
arrivals-Arrived time input (p ∷ ps) = elim (Bool-cases (leb p.arrival_time time)) [
  | inl e ↦
      let r = arrivals-Arrived time (input ++ p ∷ []) ps in
      rw e (record {
        moved = p ∷ r.moved;
        appended = r.appended ∙ append_assoc input (p ∷ []) r.moved;
        split = ap (◌∷◌ p) r.split;
        due = (ground (arith, e), r.due);
        stops = r.stops;
      })
  | inr e ↦ rw e (record {
    moved = [];
    appended = sym (append-nil input);
    split = refl;
    due = tt;
    stops = ground (arith, e);
  })
]

-- update_input moves to the end of the input queue the longest run of processes at the head of the
-- list that have all arrived, in their order: the list is split there, and the first process that
-- stays has not arrived.
pub update_input-Arrived :
    (r : ReadyQueue) (s : System r) (time : ℕ)
    → let s' = update_input r s time in
      Arrived time s.input s.processes s'.input s'.processes
      × (s' ≡ record s { input = s'.input; processes = s'.processes })
unfolding update_input
update_input-Arrived r s time = (arrivals-Arrived time s.input s.processes, refl)

-- Where all have arrived, none stays.
pub none_stays :
    (moved rest : List Process) → AllArrived 0 (moved ++ rest) → NoneArrived 0 rest → rest ≡ []
unfolding AllArrived NoneArrived
none_stays [] [] all stops = refl
none_stays [] (p ∷ rest) all stops = absurd (omega (arith, all.0, stops))
none_stays (p ∷ moved) rest all stops = none_stays moved rest all.1 stops
