-- ===== src/Scheduler/Order/Line.antt =====
-- Who is in line for a turn in cycle of src/main.c by RR, where every process is there and none waits
-- for memory.
use mathlib.Core.List.{map, head-eq_of_cons-eq, tail-eq_of_cons-eq}
use process_management_syste.Base.{
  ℕ, ◌≡◌, refl, sym, ap, ◌∙◌, Bool, true, false, Option, none, some, List, [], ◌∷◌, ◌++◌,
}
use process_management_syste.Base.Ensures.{Ensures, ensures, Ensures-if, Ensures-bind, whatever}
use process_management_syste.ProcessData.{Process}
use process_management_syste.ReadyQueue.{list_queue, enqueue, is_empty_list}
use process_management_syste.Scheduler.Real.{continue_process, suspend_process}
use process_management_syste.Scheduler.System.{System}
use process_management_syste.Scheduler.Steps.{map_append}
use process_management_syste.Scheduler.Order.Turns.{Ticket}
use process_management_syste.Scheduler.Cycle.{Loop, advance, schedule, go_on, keep_rr}
use process_management_syste.Scheduler.Order.Jobs.{
  Job, job, Lists, Runs, not_empty, nobody_waits, run_next_process-Runs,
}

-- The loop while somebody runs.
pub record Serving (j : Job) (line : List Job) (done : List Ticket) (time : ℕ) (l : Loop list_queue)
    : Type 0 where
  pub system : System list_queue
  pub process : Process
  pub is : l ≡ record {
    system = system;
    current = some process;
    no_process_running = false;
    sim_time = time;
  }
  pub same : job process ≡ j
  pub lists : Lists system line done

abbrev pub at : System list_queue → Option Process → Bool → ℕ → Loop list_queue
at s current idle time = record {
  system = s;
  current = current;
  no_process_running = idle;
  sim_time = time;
}

pub Runs-Serving :
    (j : Job) (line : List Job) (done : List Ticket) (time : ℕ) (o : Option Process)
    (s : System list_queue)
    → Runs j line done (o, s)
    → Serving j line done time (at s o false time)
Runs-Serving j line done time o s r = record {
  system = s;
  process = r.process;
  is = ap (λ o. at s o false time) r.current;
  same = r.same;
  lists = r.lists;
}

-- The loop, once the time has moved.
abbrev pub Later : ℕ → ℕ → Job → List Job → List Ticket → Loop list_queue → Type 0
Later quantum time j line done l =
    Serving j line done (advance list_queue time quantum)
      (record l { sim_time = advance list_queue l.sim_time quantum })

-- Nobody runs: the first of the line does next.
pub start-Serving :
    (quantum : ℕ) (s : System list_queue) (time : ℕ) (j : Job) (line : List Job)
    (done : List Ticket)
    → Lists s (j ∷ line) done
    → Ensures
        (Serving j line done (advance list_queue time quantum))
        (schedule list_queue (keep_rr list_queue) quantum (at s none true time))
unfolding schedule
start-Serving quantum s time j line done v =
    Ensures-bind {Good = Later quantum time j line done}
      (Ensures-if (is_empty_list s.queue) (λ e. absurd (not_empty s.queue j line v.queue e))
        λ full.
          Ensures-bind (run_next_process-Runs s time j line done v) λ (o, s') r.
            ensures (Runs-Serving j line done (advance list_queue time quantum) o s' r))
      λ l w. ensures w

-- Somebody runs on: where others are in line, the first of them takes over.
pub keep-Serving :
    (quantum : ℕ) (s : System list_queue) (p : Process) (time : ℕ) (j : Job) (line jobs : List Job)
    (done : List Ticket)
    → Lists s jobs done
    → jobs ++ job p ∷ [] ≡ j ∷ line
    → Ensures
        (Serving j line done (advance list_queue time quantum))
        (schedule list_queue (keep_rr list_queue) quantum (at s (some p) false time))
unfolding schedule keep_rr go_on enqueue
keep-Serving quantum s p time j line jobs done v e =
    let longer : map job (s.queue ++ p ∷ []) ≡ j ∷ line =
      map_append job s.queue (p ∷ []) ∙ ap (λ l. l ++ job p ∷ []) v.queue ∙ e in
    Ensures-bind {Good = Later quantum time j line done}
      (Ensures-if (is_empty_list s.queue)
        (λ empty.
          let alone : [] ≡ jobs = ap (map job) (sym (nobody_waits s.queue empty)) ∙ v.queue in
          let whole : job p ∷ [] ≡ j ∷ line = ap (λ l. l ++ job p ∷ []) alone ∙ e in
          Ensures-bind (whatever (continue_process p time s.os.children)) λ cs u. ensures (record {
            system = record s { os = record s.os { children = cs } };
            process = p;
            is = refl;
            same = head-eq_of_cons-eq whole;
            lists = record {
              input = v.input;
              processes = v.processes;
              queue = v.queue ∙ sym alone ∙ tail-eq_of_cons-eq whole;
              finished = v.finished;
            };
          }))
        (λ full. Ensures-bind (whatever (suspend_process p time s.os.children)) λ cs u.
          Ensures-bind
            (run_next_process-Runs
              (record s { queue = s.queue ++ p ∷ []; os = record s.os { children = cs } }) time j
              line done
              (record {
                input = v.input;
                processes = v.processes;
                queue = longer;
                finished = v.finished;
              }))
            λ (o, s') r.
              ensures (Runs-Serving j line done (advance list_queue time quantum) o s' r)))
      λ l w. ensures w
