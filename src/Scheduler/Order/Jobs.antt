-- ===== src/Scheduler/Order/Jobs.antt =====
-- The jobs that the processes of RR in src/main.c stand for, how jobs take turns, and the jobs that the
-- functions of a round leave in line.
use mathlib.Core.List.{map, head-eq_of_cons-eq, tail-eq_of_cons-eq, nil≢cons}
use process_management_syste.Base.{
  ℕ, suc, ◌-◌, ◌≤◌, ◌<◌, ◌≡◌, refl, ap, ◌∙◌, true, Option, some, List, [], ◌∷◌, ◌++◌, arith, ◌==◌,
}
use process_management_syste.Base.Ensures.{
  Ensures, ensures, Ensures-if, Ensures-mono, Ensures-bind, whatever,
}
use process_management_syste.Base.Text.{streq, strcmp}
use process_management_syste.ProcessData.{Process, State, set_state, set_value, update_stats}
use process_management_syste.ReadyQueue.{list_queue, dequeue, is_empty_list}
use process_management_syste.ChildProcess.{on_sigterm}
use process_management_syste.MemoryAllocation.{infinite_name}
use process_management_syste.MemoryAllocation.Allocate.{allocate_memory, move_all}
use process_management_syste.MemoryAllocation.Release.{deallocate_memory-unchanged}
use process_management_syste.Scheduler.Real.{Os, find_child, send_bytes, continue_process}
use process_management_syste.Scheduler.System.{
  System, update_input, arrivals, allocate, start_or_continue, run_next_process, finish_process,
}
use process_management_syste.Scheduler.Protocol.{start_real_process-Ensures}
use process_management_syste.Scheduler.Steps.{ticket, map_append}
use process_management_syste.Scheduler.Running.{ticket-fresh, left-fresh}
use process_management_syste.Scheduler.Order.Fair.{strategies_differ}
use process_management_syste.Scheduler.Order.Turns.{Ticket}

-- A process, and the service time that it still needs.
abbrev pub Job : Type 0
Job = Ticket × ℕ

unfoldable pub job : Process → Job
job p = (ticket p, p.service_time_left)

-- Taking turns: the first job runs for `quantum`; it is done, or goes to the end of the line. The
-- indices are the jobs in line, the order in which they get done, and the number of turns.
pub data TakeTurns (quantum : ℕ) : List Job → List Ticket → ℕ → Type 0 where
  nobody : TakeTurns quantum [] [] 0
  last_turn :
      {t : Ticket} {left n : ℕ} {jobs : List Job} {order : List Ticket}
      → left ≤ quantum
      → TakeTurns quantum jobs order n
      → TakeTurns quantum ((t, left) ∷ jobs) (t ∷ order) (suc n)
  turn :
      {t : Ticket} {left n : ℕ} {jobs : List Job} {order : List Ticket}
      → quantum < left
      → TakeTurns quantum (jobs ++ (t, left - quantum) ∷ []) order n
      → TakeTurns quantum ((t, left) ∷ jobs) order (suc n)

start_or_continue-job :
    (p : Process) (time : ℕ) (os : Os)
    → Ensures (λ (q, os'). job q ≡ job p) (start_or_continue list_queue p time os)
unfolding start_or_continue job
start_or_continue-job p time os =
    Ensures-if (p.pid == 0)
      (λ e. Ensures-mono (start_real_process-Ensures p time os) λ (q, os') s. λ i. (
        (ap ticket s.kept ∙ ticket-fresh p _ _ _) i,
        (ap (λ x. x.service_time_left) s.kept ∙ left-fresh p _ _ os.next_pid) i,
      ))
      (λ e. Ensures-bind (whatever (continue_process p time os.children)) λ cs u. ensures refl)

-- The lists of a system, with the line of jobs in place of the queue.
pub record Lists (s : System list_queue) (line : List Job) (done : List Ticket) : Type 0 where
  pub input : s.input ≡ []
  pub processes : s.processes ≡ []
  pub queue : map job s.queue ≡ line
  pub finished : map ticket s.finished ≡ done

-- Somebody runs, and the line is what remains.
pub record Runs (j : Job) (line : List Job) (done : List Ticket)
    (r : Option Process × System list_queue) : Type 0 where
  pub process : Process
  pub current : r.0 ≡ some process
  pub same : job process ≡ j
  pub lists : Lists r.1 line done

-- What dequeue takes off.
pub record Front (j : Job) (line : List Job) (r : Option Process × List Process) : Type 0 where
  pub head : Process
  pub taken : r.0 ≡ some head
  pub same : job head ≡ j
  pub left : map job r.1 ≡ line

dequeue-Front :
    (queue : List Process) (j : Job) (line : List Job)
    → map job queue ≡ j ∷ line
    → Ensures (Front j line) (dequeue queue)
unfolding dequeue
dequeue-Front [] j line e = absurd (nil≢cons e)
dequeue-Front (p ∷ ps) j line e =
    ensures
      (record { head = p; taken = refl; same = head-eq_of_cons-eq e; left = tail-eq_of_cons-eq e })

pub not_empty :
    (queue : List Process) (j : Job) (line : List Job)
    → map job queue ≡ j ∷ line
    → is_empty_list queue ≡ true
    → ⊥
unfolding is_empty_list
not_empty [] j line e f = nil≢cons e
not_empty (p ∷ ps) j line e f = absurd (ground (arith, f))

pub nobody_waits : (queue : List Process) → is_empty_list queue ≡ true → queue ≡ []
unfolding is_empty_list
nobody_waits [] e = refl
nobody_waits (p ∷ ps) e = absurd (ground (arith, e))

job-state : (p : Process) (s : State) → job (set_state p s) ≡ job p
unfolding job ticket set_state
job-state p s = refl

pub run_next_process-Runs :
    (s : System list_queue) (time : ℕ) (j : Job) (line : List Job) (done : List Ticket)
    → Lists s (j ∷ line) done
    → Ensures (Runs j line done) (run_next_process list_queue s time)
unfolding run_next_process
run_next_process-Runs s time j line done v =
    Ensures-if (is_empty_list s.queue) (λ e. absurd (not_empty s.queue j line v.queue e))
      λ full. Ensures-bind (dequeue-Front s.queue j line v.queue) λ (o, q) f. rw f.taken (
        Ensures-bind (start_or_continue-job f.head time s.os) λ (p', os') same. ensures (record {
          process = set_state p' State.running;
          current = refl;
          same = job-state p' State.running ∙ same ∙ f.same;
          lists = record {
            input = v.input;
            processes = v.processes;
            queue = f.left;
            finished = v.finished;
          };
        }))

-- A round begins with nothing to move.
pub allocate-Lists :
    (s : System list_queue) (time : ℕ) (line : List Job) (done : List Ticket)
    → Lists s line done
    → Ensures
        (λ s'. Lists s' line done)
        (allocate list_queue (update_input list_queue s time) infinite_name time)
unfolding allocate allocate_memory move_all update_input arrivals streq strcmp
allocate-Lists s time line done v =
    rw (v.processes, v.input)
      (ensures (record { input = refl; processes = refl; queue = v.queue; finished = v.finished }))

pub finish_process-Lists :
    (p : Process) (remaining time : ℕ) (s : System list_queue) (line : List Job)
    (done : List Ticket)
    → Lists s line done
    → Ensures
        (λ s'. Lists s' line (done ++ ticket p ∷ []))
        (finish_process list_queue p remaining time infinite_name s)
unfolding finish_process set_state set_value update_stats ticket
finish_process-Lists p remaining time s line done v =
    Ensures-bind (whatever (find_child s.os.children p.pid)) λ c u.
      Ensures-bind (whatever (on_sigterm (send_bytes time) c)) λ sha u.
        rw (deallocate_memory-unchanged s.memory _ infinite_name strategies_differ) (
          ensures (record {
            input = v.input;
            processes = v.processes;
            queue = v.queue;
            finished =
                map_append ticket s.finished (_ ∷ []) ∙ ap (λ l. l ++ ticket p ∷ []) v.finished;
          }))
