-- ===== src/Scheduler/Timely.antt =====
-- No process of cycle of src/main.c gets ahead of the clock: at any time it has run for no longer
-- than it has been there.
use process_management_syste.Base.{
  ℕ, ◌+◌, ◌-◌, ◌%◌, ◌^◌, ◌≤◌, ◌<◌, ◌≡◌, refl, ap, ◌∙◌, List, [], ◌∷◌, ◌++◌, arith, Returns, returns,
  Returns-bind,
}
use process_management_syste.Base.Lists.{sum_by, sum_by-append, sum_by_perm}
use process_management_syste.ProcessData.{Process}
use process_management_syste.ReadyQueue.{ReadyQueue}
use process_management_syste.ReadyQueue.Laws.{QueueLaws}
use process_management_syste.MemoryAllocation.Conserve.{allocate_memory-Conserved}
use process_management_syste.Scheduler.System.{System, update_input, allocate}
use process_management_syste.Scheduler.Arrivals.{update_input-Arrived}
use process_management_syste.Scheduler.Steps.{Sound}
use process_management_syste.Scheduler.Ahead.{
  ahead, has_run, sum_by-ident, ahead-ident, sum_later, arrived_sum,
}

-- What finish_process writes into a process at `time`.
pub record Stamped (time : ℕ) (p : Process) : Type 0 where
  pub finish_time : p.finish_time ≡ time
  pub turnaround_time : p.turnaround_time ≡ (time + 2 ^ 32 - p.arrival_time) % 2 ^ 32
  pub overhead : p.overhead ≡ record { num = p.turnaround_time; den = p.service_time }

-- A process that has finished by `time`, not before it has had the time that it asks for, and its
-- statistics.
pub record Served (time : ℕ) (p : Process) : Type 0 where
  pub finished : p.finish_time ≤ time
  pub waited : p.arrival_time + p.service_time ≤ p.finish_time
  pub turnaround_time : p.turnaround_time ≡ p.finish_time - p.arrival_time
  pub overhead : p.overhead ≡ record { num = p.turnaround_time; den = p.service_time }

unfoldable pub AllServed : ℕ → List Process → Type 0
AllServed time [] = Unit {0}
AllServed time (p ∷ ps) = Served time p × AllServed time ps

pub served_later :
    (time later : ℕ) (ps : List Process) → time ≤ later → AllServed time ps → AllServed later ps
unfolding AllServed
served_later time later [] h all = tt
served_later time later (p ∷ ps) h (s, all) = (
  record {
    finished = omega (arith, s.finished);
    waited = s.waited;
    turnaround_time = s.turnaround_time;
    overhead = s.overhead;
  },
  served_later time later ps h all,
)

pub AllServed-append :
    (time : ℕ) (ps : List Process) (p : Process)
    → AllServed time ps
    → Served time p
    → AllServed time (ps ++ p ∷ [])
unfolding AllServed
AllServed-append time [] p all s = (s, tt)
AllServed-append time (q ∷ ps) p all s = (all.0, AllServed-append time ps p all.1 s)

pub Stamped-Served :
    (time : ℕ) (p : Process)
    → Stamped time p
    → time < 2 ^ 32
    → p.arrival_time + p.service_time ≤ time
    → Served time p
Stamped-Served time p s small h = record {
  finished = omega (arith, s.finish_time);
  waited = omega (arith, s.finish_time);
  turnaround_time = omega (arith, s.finish_time, s.turnaround_time);
  overhead = s.overhead;
}

module _ (r : ReadyQueue) (laws : QueueLaws r) where
  -- The processes of the system that are ahead of `time`, and those that ran before they arrived.
  unfoldable pub lead : ℕ → List Process → System r → ℕ
  lead time c s =
      sum_by (ahead time) (c ++ (laws.contents s.queue ++ s.input)) + sum_by has_run s.processes

  -- A step that brings no process ahead and finishes none.
  pub record Kept (c : List Process) (s : System r) (c' : List Process) (s' : System r)
      : Type 0 where
    pub finished : s'.finished ≡ s.finished
    pub no_more : (time : ℕ) → lead time c' s' ≤ lead time c s

  pub Kept-trans :
      {c c' c'' : List Process} {s s' s'' : System r}
      → Kept c s c' s'
      → Kept c' s' c'' s''
      → Kept c s c'' s''
  Kept-trans a b = record {
    finished = b.finished ∙ a.finished;
    no_more = λ time. omega (arith, a.no_more time, b.no_more time);
  }

  -- The lists of processes change places.
  pub Kept-perm :
      (c c' : List Process) (s s' : System r)
      → s'.finished ≡ s.finished
      → s'.processes ≡ s.processes
      → ((time : ℕ)
          → sum_by (ahead time) (c' ++ (laws.contents s'.queue ++ s'.input))
            ≡ sum_by (ahead time) (c ++ (laws.contents s.queue ++ s.input)))
      → Kept c s c' s'
  unfolding lead
  Kept-perm c c' s s' fin same e = record {
    finished = fin;
    no_more = λ time. omega (arith, e time, ap (sum_by has_run) same);
  }

  pub lead_later :
      (time later : ℕ) (c : List Process) (s : System r)
      → time ≤ later
      → lead later c s ≤ lead time c s
  unfolding lead
  lead_later time later c s h =
      omega (arith, sum_later time later (c ++ (laws.contents s.queue ++ s.input)) h)

  pub lead-cons :
      (time : ℕ) (p : Process) (s : System r) → lead time (p ∷ []) s ≡ ahead time p + lead time [] s
  unfolding lead
  lead-cons time p s = omega arith

  pub update_input-lead :
      (c : List Process) (s : System r) (time : ℕ)
      → lead time c (update_input r s time) ≤ lead time c s
  unfolding lead update_input
  update_input-lead c s time =
      let (a, whole) = update_input-Arrived r s time in
      let w = ahead time in
      let s' = update_input r s time in
      let q = laws.contents s.queue in
      omega (
        arith,
        arrived_sum time a.moved a.due,
        ap (λ l. sum_by w (c ++ (q ++ l))) a.appended,
        ap (sum_by has_run) a.split,
        sum_by-append has_run a.moved s'.processes,
        sum_by-append w c (q ++ (s.input ++ a.moved)),
        sum_by-append w c (q ++ s.input),
        sum_by-append w q (s.input ++ a.moved),
        sum_by-append w q s.input,
        sum_by-append w s.input a.moved,
      )

  pub allocate-Kept :
      (strategy : List ℕ) (c : List Process) (s : System r) (time : ℕ)
      → Sound r laws strategy c s
      → Returns (Kept c s c) (allocate r s strategy time)
  unfolding allocate
  allocate-Kept strategy c s time v =
      Returns-bind (allocate_memory-Conserved r laws _ strategy time v.memory v.queue) λ a k.
        returns (
          Kept-perm c c s _ refl refl λ t.
            let w = ahead t in
            omega (
              arith,
              sum_by_perm w k.same,
              sum_by-ident w (laws.contents a.queue ++ a.input) (ahead-ident t),
              sum_by-ident w (laws.contents s.queue ++ s.input) (ahead-ident t),
              sum_by-append w c (laws.contents a.queue ++ a.input),
              sum_by-append w c (laws.contents s.queue ++ s.input),
            ))

  -- The current process after a round of the length `quantum`.
  pub clocked-lead :
      (time quantum : ℕ) (p q : Process) (s : System r)
      → quantum ≤ p.service_time_left
      → q ≡ record p { service_time_left = p.service_time_left - quantum }
      → lead (time + quantum) (q ∷ []) s ≤ lead time (p ∷ []) s
  unfolding lead ahead
  clocked-lead time quantum p q s long is =
      let rest = laws.contents s.queue ++ s.input in
      rw is (ground (arith, sum_later time (time + quantum) rest (omega arith), long))
