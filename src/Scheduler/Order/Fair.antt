-- ===== src/Scheduler/Order/Fair.antt =====
-- The rounds of cycle of src/main.c by SJF, where every process is there and none waits for memory: no
-- process is overtaken by one that comes after it.
use mathlib.Core.Path.{subst}
use mathlib.Core.List.{map, append-nil, mem-cons_of_mem}
use mathlib.Core.List.Perm
use process_management_syste.Base.{
  ℕ, zero, suc, ◌-◌, ◌≡◌, refl, sym, ap, ◌∙◌, Bool, true, false, Option, none, some, List, [], ◌∷◌,
  ◌++◌, arith, leb, ◌==◌, Bool-cases, inl, inr,
}
use process_management_syste.Base.Ensures.{
  Ensures, ensures, Ensures-if, Ensures-mono, Ensures-bind, ensured, whatever,
}
use process_management_syste.Base.Lists.{length}
use process_management_syste.Base.Text.{streq, strcmp}
use process_management_syste.ProcessData.{
  Process, State, set_state, set_value, update_stats, update_time,
}
use process_management_syste.MinHeap
use process_management_syste.MinHeap.Laws.{Valid, extract_min-Extracted}
use process_management_syste.ReadyQueue.{heap_queue}
use process_management_syste.ChildProcess.{on_sigterm}
use process_management_syste.MemoryAllocation.{infinite_name, best_fit_name}
use process_management_syste.MemoryAllocation.Allocate.{allocate_memory, move_all}
use process_management_syste.MemoryAllocation.Release.{deallocate_memory-unchanged}
use process_management_syste.Scheduler.Real.{Os, find_child, send_bytes, continue_process}
use process_management_syste.Scheduler.System.{
  System, update_input, arrivals, allocate, start_or_continue, run_next_process, finish_process,
}
use process_management_syste.Scheduler.Protocol.{start_real_process-Ensures}
use process_management_syste.Scheduler.Steps.{ticket, map_append}
use process_management_syste.Scheduler.Running.{ticket-fresh, ticket-state}
use process_management_syste.Scheduler.Loops.{as_list}
use process_management_syste.Scheduler.Order.Turns.{Ticket, InFront, overtaken-none, InFront-take}
use process_management_syste.Scheduler.Cycle.{
  Loop, Round, next, break, schedule, continue_round, finish_round, round, rounds, go_on, keep_sjf,
}

start_or_continue-same :
    (p : Process) (time : ℕ) (os : Os)
    → Ensures (λ (q, os'). ticket q ≡ ticket p) (start_or_continue heap_queue p time os)
unfolding start_or_continue
start_or_continue-same p time os =
    Ensures-if (p.pid == 0)
      (λ e.
        Ensures-mono (start_real_process-Ensures p time os)
          λ (q, os') s. ap ticket s.kept ∙ ticket-fresh p _ _ _)
      (λ e. Ensures-bind (whatever (continue_process p time os.children)) λ cs u. ensures refl)

pub strategies_differ : streq infinite_name best_fit_name ≡ false
unfolding streq strcmp
strategies_differ = refl

some-none : (p : Process) → some p ≡ none → ⊥
some-none p e = cc

module _ (d : Process) where
  -- The tickets of the finished processes and of the current one.
  unfoldable pub served : List Process → Option Process → List Ticket
  served done current = map ticket done ++ map ticket (as_list current)

  -- Every process is in the heap, has finished or is the current one, and none has been overtaken.
  pub record Fair (s : System heap_queue) (current : Option Process) : Type 0 where
    pub heap : Valid d s.queue
    pub input : s.input ≡ []
    pub processes : s.processes ≡ []
    pub order : InFront (served s.finished current) (map ticket s.queue.items)

  pub run_next_process-Fair :
      (s : System heap_queue) (time : ℕ)
      → Fair s none
      → Ensures (λ (o, s'). Fair s' o) (run_next_process heap_queue s time)
  unfolding run_next_process MinHeap.is_empty_heap served
  run_next_process-Fair s time v =
      Ensures-if (length s.queue.items == 0) (λ e. ensures v)
        λ full.
          Ensures-bind (ensured (extract_min-Extracted d s.queue v.heap (ground (arith, full))))
            λ r x. rw x.returned (
              Ensures-bind (start_or_continue-same x.min time s.os) λ (p', os') same.
                let t = ticket-state p' State.running ∙ same in
                ensures (record {
                  heap = x.valid;
                  input = v.input;
                  processes = v.processes;
                  order =
                      subst (λ k. InFront (map ticket s.finished ++ k ∷ []) (map ticket r.1.items))
                        (sym t)
                        (InFront-take (map ticket s.finished) (ticket x.min) _ _
                          (subst (λ l. InFront l (map ticket s.queue.items)) (append-nil _) v.order)
                          (Perm.map ticket (Perm.symm x.same))
                          (overtaken-none x.min r.1.items
                            λ q m. x.first q ((Perm.mem_iff x.same).0 (mem-cons_of_mem x.min m))));
                }))

  -- A loop that is fair.
  pub record FairLoop (l : Loop heap_queue) : Type 0 where
    pub fair : Fair l.system l.current
    pub idle : l.no_process_running ≡ true → l.current ≡ none

  abbrev pub FairRound : Round heap_queue → Type 0
  FairRound (next l) = FairLoop l
  FairRound (break l) = FairLoop l

  -- The current process is replaced by itself at another time.
  retimed :
      (s : System heap_queue) (p q : Process)
      → ticket q ≡ ticket p
      → Fair s (some p)
      → Fair s (some q)
  unfolding served
  retimed s p q same v = record {
    heap = v.heap;
    input = v.input;
    processes = v.processes;
    order =
        subst (λ k. InFront (map ticket s.finished ++ k ∷ []) (map ticket s.queue.items)) (sym same)
          v.order;
  }

  allocate-Fair :
      (s : System heap_queue) (current : Option Process) (time : ℕ)
      → Fair s current
      → Ensures
          (λ s'. Fair s' current)
          (allocate heap_queue (update_input heap_queue s time) infinite_name time)
  unfolding allocate allocate_memory move_all update_input arrivals streq strcmp
  allocate-Fair s current time v =
      rw (v.processes, v.input)
        (ensures (record { heap = v.heap; input = refl; processes = refl; order = v.order }))

  go_on-Fair : (l : Loop heap_queue) → FairLoop l → Ensures FairLoop (keep_sjf heap_queue l)
  unfolding keep_sjf go_on
  go_on-Fair l v = Ensures-bind (whatever l.current) λ p u.
      Ensures-bind (whatever (continue_process p l.sim_time l.system.os.children)) λ cs u.
        ensures (record {
          fair = record {
            heap = v.fair.heap;
            input = v.fair.input;
            processes = v.fair.processes;
            order = v.fair.order;
          };
          idle = v.idle;
        })

  finish_process-Fair :
      (p : Process) (remaining time : ℕ) (s : System heap_queue)
      → Fair s (some p)
      → Ensures (λ s'. Fair s' none) (finish_process heap_queue p remaining time infinite_name s)
  unfolding finish_process set_state set_value update_stats ticket served
  finish_process-Fair p remaining time s v =
      Ensures-bind (whatever (find_child s.os.children p.pid)) λ c u.
        Ensures-bind (whatever (on_sigterm (send_bytes time) c)) λ sha u.
          rw (deallocate_memory-unchanged s.memory _ infinite_name strategies_differ) (
            ensures (record {
              heap = v.heap;
              input = v.input;
              processes = v.processes;
              order =
                  subst (λ l. InFront l (map ticket s.queue.items))
                    (sym (append-nil _ ∙ map_append ticket s.finished (_ ∷ []))) v.order;
            }))

  schedule-Fair :
      (quantum : ℕ) (l : Loop heap_queue)
      → FairLoop l
      → Ensures FairLoop (schedule heap_queue (keep_sjf heap_queue) quantum l)
  unfolding schedule
  schedule-Fair quantum l v =
      Ensures-bind {Good = FairLoop}
        (Ensures-if l.no_process_running
          (λ e.
            let v' = subst (Fair l.system) (v.idle e) v.fair in
            Ensures-if (MinHeap.is_empty_heap l.system.queue)
              (λ empty. ensures (record { fair = v'; idle = λ f. refl }))
              (λ full.
                Ensures-bind (run_next_process-Fair l.system l.sim_time v')
                  λ (o, s) w. ensures (record { fair = w; idle = λ f. ground (arith, f) })))
          (λ e. go_on-Fair l v))
        λ l' w. ensures (record { fair = w.fair; idle = w.idle })

  continue_round-Fair :
      (quantum : ℕ) (l : Loop heap_queue)
      → FairLoop l
      → Ensures FairRound (continue_round heap_queue (keep_sjf heap_queue) quantum infinite_name l)
  unfolding continue_round
  continue_round-Fair quantum l v =
      Ensures-bind (allocate-Fair l.system l.current l.sim_time v.fair) λ s w.
        Ensures-bind
          (schedule-Fair quantum (record l { system = s }) (record { fair = w; idle = v.idle }))
          λ l' x. ensures x

  finish_round-Fair :
      (quantum n : ℕ) (p : Process) (s : System heap_queue) (idle : Bool) (time : ℕ)
      → Fair s (some p)
      → Ensures FairRound (
          finish_round heap_queue
            (keep_sjf heap_queue)
            quantum
            infinite_name
            n
            p
            (record { system = s; current = some p; no_process_running = idle; sim_time = time }))
  unfolding finish_round
  finish_round-Fair quantum n p s idle time v =
      Ensures-bind (finish_process-Fair p _ time s v) λ s' w.
        let l : Loop heap_queue = record {
          system = s';
          current = none;
          no_process_running = true;
          sim_time = time;
        } in
        Ensures-if (length s'.finished == n) (λ e. ensures (record { fair = w; idle = λ f. refl }))
          (λ e. continue_round-Fair quantum l (record { fair = w; idle = λ f. refl }))

  round-Fair :
      (quantum n : ℕ) (s : System heap_queue) (current : Option Process) (idle : Bool) (time : ℕ)
      → Fair s current
      → (idle ≡ true → current ≡ none)
      → Ensures FairRound (
          round heap_queue
            (keep_sjf heap_queue)
            quantum
            infinite_name
            n
            (record { system = s; current = current; no_process_running = idle; sim_time = time }))
  unfolding round update_time ticket
  round-Fair quantum n s none idle time v w =
      continue_round-Fair quantum _ (record { fair = v; idle = λ f. refl })
  round-Fair quantum n s (some p) idle time v w =
      elim (Bool-cases (leb p.service_time_left quantum)) [
        | inl e ↦
            let q = record p { service_time_left = 0; state = State.finished } in
            rw e (finish_round-Fair quantum n q s idle time (retimed s p q refl v))
        | inr e ↦
            let q = record p { service_time_left = p.service_time_left - quantum } in
            rw e (
              continue_round-Fair quantum _
                (record { fair = retimed s p q refl v; idle = λ f. absurd (some-none p (w f)) }))
      ]

  pub rounds-Fair :
      (k quantum n : ℕ) (l : Loop heap_queue)
      → FairLoop l
      → Ensures FairRound (rounds heap_queue k (keep_sjf heap_queue) quantum infinite_name n l)
  unfolding rounds
  rounds-Fair zero quantum n l v = ensures v
  rounds-Fair (suc k) quantum n l v =
      Ensures-bind
        (round-Fair quantum n l.system l.current l.no_process_running l.sim_time v.fair v.idle)
        (elim [ next l' ↦ λ w. rounds-Fair k quantum n l' w | break l' ↦ λ w. ensures w ])
