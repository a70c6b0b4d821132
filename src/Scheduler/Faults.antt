-- ===== src/Scheduler/Faults.antt =====
-- The rounds of cycle where no process has arrived at time 0: the current process is NULL while
-- no_process_running is 0, and the second round reads through NULL.
use process_management_syste.Base.{
  ℕ, ◌≡◌, refl, true, false, Option, none, some, List, [], ◌∷◌, arith, Returns, returns,
  Returns-mono, Bool-cases, Option-cases, inl, inr,
}
use process_management_syste.Base.Lists.{length}
use process_management_syste.Base.Text.{streq}
use process_management_syste.ProcessData.{Process, update_time}
use process_management_syste.MinHeap.{create_heap, is_empty_heap}
use process_management_syste.ReadyQueue.{ReadyQueue, heap_queue, list_queue, is_empty_list}
use process_management_syste.MemoryAllocation.{infinite_name, best_fit_name}
use process_management_syste.MemoryAllocation.Allocate.{allocate_memory, move_all, move_fitting}
use process_management_syste.Scheduler.System.{
  System, arrivals, update_input, allocate, run_next_process,
}
use process_management_syste.Scheduler.Arrivals.{NoneArrived}
use process_management_syste.Scheduler.Cycle.{
  Loop, first_round, round, continue_round, schedule, keep_sjf, keep_rr, go_on, start_system,
}

module _ (r : ReadyQueue) (keep : Loop r → Option (Loop r)) where
  -- A branch for a running process that reads it.
  NeedsProcess : Type 0
  NeedsProcess = (l : Loop r) → l.current ≡ none → keep l ≡ none

  schedule-fault :
      (quantum : ℕ) (l : Loop r)
      → NeedsProcess
      → l.current ≡ none
      → l.no_process_running ≡ false
      → schedule r keep quantum l ≡ none
  unfolding schedule NeedsProcess
  schedule-fault quantum l needs c b = rw (needs l c, b) refl

  continue_round-fault :
      (quantum : ℕ) (strategy : List ℕ) (l : Loop r)
      → NeedsProcess
      → l.current ≡ none
      → l.no_process_running ≡ false
      → continue_round r keep quantum strategy l ≡ none
  unfolding continue_round
  continue_round-fault quantum strategy l needs c b =
      elim (Option-cases (allocate r (update_input r l.system l.sim_time) strategy l.sim_time)) [
        | inl e ↦ rw e refl
        | inr (s, e) ↦ rw (e, schedule-fault quantum (record l { system = s }) needs c b) refl
      ]

  -- A round that has no process and believes that one runs.
  round-fault :
      (quantum : ℕ) (strategy : List ℕ) (n : ℕ) (l : Loop r)
      → NeedsProcess
      → l.current ≡ none
      → l.no_process_running ≡ false
      → round r keep quantum strategy n l ≡ none
  unfolding round update_time
  round-fault quantum strategy n l needs c b =
      rw (c, continue_round-fault quantum strategy (record l { current = none }) needs refl b) refl

arrivals-none :
    (time : ℕ) (ps : List Process) → NoneArrived time ps → arrivals time [] ps ≡ ([], ps)
unfolding arrivals NoneArrived
arrivals-none time [] h = refl
arrivals-none time (p ∷ ps) h = ground arith

allocate-nothing :
    (r : ReadyQueue) (s : System r) (strategy : List ℕ) (time : ℕ)
    → s.input ≡ []
    → allocate r s strategy time ≡ some s
unfolding allocate allocate_memory move_all move_fitting
allocate-nothing r s strategy time h = rw h (elim (Bool-cases (streq strategy infinite_name)) [
  | inl e ↦ rw e refl
  | inr e ↦ elim (Bool-cases (streq strategy best_fit_name)) [
    | inl f ↦ rw (e, f) refl
    | inr f ↦ rw (e, f) refl
  ]
])

-- The first round finds nothing to run.
first_round-idle :
    (r : ReadyQueue) (quantum : ℕ) (strategy : List ℕ) (ps : List Process)
    → r.is_empty r.create ≡ true
    → NoneArrived 0 ps
    → Returns
        (λ l. (l.current ≡ none) × (l.no_process_running ≡ false))
        (first_round r quantum strategy (start_system r ps))
unfolding first_round update_input start_system run_next_process
first_round-idle r quantum strategy ps empty late =
    rw (arrivals-none 0 ps late, allocate-nothing r (start_system r ps) strategy 0 refl, empty)
      (returns (refl, refl))

goes_on : (r : ReadyQueue) → NeedsProcess r (go_on r)
unfolding go_on NeedsProcess
goes_on r l c = rw c refl

keep_sjf-NeedsProcess : (r : ReadyQueue) → NeedsProcess r (keep_sjf r)
unfolding keep_sjf
keep_sjf-NeedsProcess r = goes_on r

keep_rr-NeedsProcess : (r : ReadyQueue) → NeedsProcess r (keep_rr r)
unfolding keep_rr NeedsProcess
keep_rr-NeedsProcess r l c = elim (Bool-cases (r.is_empty l.system.queue)) [
  | inl e ↦ rw e (goes_on r l c)
  | inr e ↦ rw (e, c) refl
]

-- Where no process has arrived at time 0, the first round of SJF and of RR ends well with no
-- process to run, and the second faults, whatever the quantum and the strategy: it reads through
-- the NULL process.
pub late_start-faults :
    (quantum : ℕ) (strategy : List ℕ) (ps : List Process)
    → NoneArrived 0 ps
    → Returns
        (λ l. round heap_queue (keep_sjf heap_queue) quantum strategy (length ps) l ≡ none)
        (first_round heap_queue quantum strategy (start_system heap_queue ps))
      × Returns
          (λ l. round list_queue (keep_rr list_queue) quantum strategy (length ps) l ≡ none)
          (first_round list_queue quantum strategy (start_system list_queue ps))
unfolding create_heap is_empty_heap is_empty_list
late_start-faults quantum strategy ps late = (
  Returns-mono (first_round-idle heap_queue quantum strategy ps refl late) (λ l (c, b).
      round-fault heap_queue (keep_sjf heap_queue) quantum strategy _ l
        (keep_sjf-NeedsProcess heap_queue) c b),
  Returns-mono (first_round-idle list_queue quantum strategy ps refl late) (λ l (c, b).
      round-fault list_queue (keep_rr list_queue) quantum strategy _ l
        (keep_rr-NeedsProcess list_queue) c b),
)
