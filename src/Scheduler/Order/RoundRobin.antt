-- ===== src/Scheduler/Order/RoundRobin.antt =====
-- The rounds of cycle of src/main.c by RR, where every process is there and none waits for memory.
use mathlib.Core.Path.{subst}
use mathlib.Core.List.{map, append-nil}
use process_management_syste.Base.{
  ℕ, suc, ◌+◌, ◌-◌, ◌≤◌, ◌<◌, ◌≡◌, refl, sym, ap, ◌∙◌, true, false, none, some, List, [], ◌∷◌, ◌++◌,
  arith, leb, ◌==◌, Bool-cases, inl, inr,
}
use process_management_syste.Base.Ensures.{Ensures, ensures, Ensures-if, Ensures-bind}
use process_management_syste.Base.Lists.{length, length-append}
use process_management_syste.ProcessData.{Process, State, update_time}
use process_management_syste.ReadyQueue.{list_queue}
use process_management_syste.MemoryAllocation.{infinite_name}
use process_management_syste.Scheduler.System.{System}
use process_management_syste.Scheduler.Steps.{ticket}
use process_management_syste.Scheduler.Order.Turns.{Ticket}
use process_management_syste.Scheduler.Cycle.{
  Loop, Round, next, break, advance, continue_round, finish_round, round, keep_rr,
}
use process_management_syste.Scheduler.Order.Jobs.{
  Job, job, TakeTurns, nobody, last_turn, turn, Lists, allocate-Lists, finish_process-Lists,
}
use process_management_syste.Scheduler.Order.Line.{Serving, at, start-Serving, keep-Serving}

-- A round from `p` running on: the turn that it is, with `n` processes in all.
pub record Turned (quantum n : ℕ) (p : Process) (line : List Job) (done : List Ticket) (time : ℕ)
    (l : Loop list_queue) : Type 0 where
  pub first : Job
  pub others : List Job
  pub got_done : List Ticket
  pub serving : Serving first others (done ++ got_done) (advance list_queue time quantum) l
  pub takes :
      (order : List Ticket) (m : ℕ)
      → TakeTurns quantum (first ∷ others) order m
      → TakeTurns quantum (job p ∷ line) (got_done ++ order) (suc m)
  pub count : length (done ++ got_done) + suc (length others) ≡ n

pub record Ended (quantum : ℕ) (p : Process) (line : List Job) (done : List Ticket) (time : ℕ)
    (l : Loop list_queue) : Type 0 where
  pub takes : TakeTurns quantum (job p ∷ line) (ticket p ∷ []) 1
  pub finished : map ticket l.system.finished ≡ done ++ ticket p ∷ []
  pub clock : l.sim_time ≡ time

abbrev pub RoundTurned : ℕ → ℕ → Process → List Job → List Ticket → ℕ → Round list_queue → Type 0
RoundTurned quantum n p line done time (next l) = Turned quantum n p line done time l
RoundTurned quantum n p line done time (break l) = Ended quantum p line done time l

length_tickets : (ps : List Process) → length (map ticket ps) ≡ length ps
length_tickets [] = refl
length_tickets (p ∷ ps) = ap suc (length_tickets ps)

next_in_line : (line : List Job) (i : Job) → (j : Job) × (js : List Job) × (line ++ i ∷ [] ≡ j ∷ js)
next_in_line [] i = (i, [], refl)
next_in_line (j ∷ line) i = (j, line ++ i ∷ [], refl)

clocked_job :
    (p : Process) (quantum : ℕ)
    → job (record p { service_time_left = p.service_time_left - quantum })
      ≡ (ticket p, p.service_time_left - quantum)
unfolding job ticket
clocked_job p quantum = refl

module _ (quantum n : ℕ) where
  -- `p` finishes and others are in line.
  finished_Turned :
      (p : Process) (s : System list_queue) (time : ℕ) (j : Job) (line : List Job)
      (done : List Ticket)
      → p.service_time_left ≤ quantum
      → Lists s (j ∷ line) (done ++ ticket p ∷ [])
      → length done + suc (suc (length line)) ≡ n
      → Ensures (RoundTurned quantum n p (j ∷ line) done time) (
          continue_round list_queue
            (keep_rr list_queue)
            quantum
            infinite_name
            (at s none true time))
  unfolding continue_round job
  finished_Turned p s time j line done short v count =
      Ensures-bind (allocate-Lists s time (j ∷ line) (done ++ ticket p ∷ []) v) λ s' w.
        Ensures-bind (start-Serving quantum s' time j line (done ++ ticket p ∷ []) w) λ l x.
          ensures (record {
            first = j;
            others = line;
            got_done = ticket p ∷ [];
            serving = x;
            takes = λ order m t. last_turn short t;
            count = omega (arith, count, length-append done (ticket p ∷ []));
          })

  last_one :
      (p : Process) (line : List Job)
      → p.service_time_left ≤ quantum
      → length line ≡ 0
      → TakeTurns quantum (job p ∷ line) (ticket p ∷ []) 1
  unfolding job
  last_one p [] short e = last_turn short nobody
  last_one p (j ∷ line) short e = absurd (omega (arith, e))

  some_left :
      (p : Process) (s : System list_queue) (time : ℕ) (line : List Job) (done : List Ticket)
      → p.service_time_left ≤ quantum
      → Lists s line (done ++ ticket p ∷ [])
      → length done + suc (length line) ≡ n
      → 0 < length line
      → Ensures (RoundTurned quantum n p line done time) (
          continue_round list_queue
            (keep_rr list_queue)
            quantum
            infinite_name
            (at s none true time))
  some_left p s time [] done short v count more = absurd (omega (arith, more))
  some_left p s time (j ∷ line) done short v count more =
      finished_Turned p s time j line done short v count

  finish_round-Turned :
      (p q : Process) (s : System list_queue) (time : ℕ) (line : List Job) (done : List Ticket)
      → ticket q ≡ ticket p
      → p.service_time_left ≤ quantum
      → Lists s line done
      → length done + suc (length line) ≡ n
      → Ensures (RoundTurned quantum n p line done time) (
          finish_round list_queue
            (keep_rr list_queue)
            quantum
            infinite_name
            n
            q
            (at s (some q) false time))
  unfolding finish_round
  finish_round-Turned p q s time line done same short v count =
      Ensures-bind (finish_process-Lists q _ time s line done v) λ s' w'.
        let w = subst (λ t. Lists s' line (done ++ t ∷ [])) same w' in
        let size : length s'.finished ≡ length done + 1 =
          sym (length_tickets s'.finished)
          ∙ ap length w.finished
          ∙ length-append done (ticket p ∷ []) in
        Ensures-if (length s'.finished == n)
          (λ all. ensures (record {
            takes = last_one p line short (ground (arith, size, count, all));
            finished = w.finished;
            clock = refl;
          }))
          (λ more. some_left p s' time line done short w count (ground (arith, size, count, more)))

  stays_in_line :
      (p : Process) (jobs : List Job) (order : List Ticket) (m : ℕ)
      → quantum < p.service_time_left
      → TakeTurns quantum (jobs ++ (ticket p, p.service_time_left - quantum) ∷ []) order m
      → TakeTurns quantum (job p ∷ jobs) order (suc m)
  unfolding job
  stays_in_line p jobs order m long t = turn long t

  -- `q` is `p` after the round, and stays in line.
  running_Turned :
      (p q : Process) (s : System list_queue) (time : ℕ) (j : Job) (line jobs : List Job)
      (done : List Ticket)
      → job q ≡ (ticket p, p.service_time_left - quantum)
      → quantum < p.service_time_left
      → Lists s jobs done
      → jobs ++ job q ∷ [] ≡ j ∷ line
      → length done + suc (length jobs) ≡ n
      → Ensures (RoundTurned quantum n p jobs done time) (
          continue_round list_queue
            (keep_rr list_queue)
            quantum
            infinite_name
            (at s (some q) false time))
  unfolding continue_round
  running_Turned p q s time j line jobs done same long v e count =
      let size = length-append jobs (job q ∷ []) in
      Ensures-bind (allocate-Lists s time jobs done v) λ s' w.
        Ensures-bind (keep-Serving quantum s' q time j line jobs done w e) λ l x. ensures (record {
          first = j;
          others = line;
          got_done = [];
          serving =
              subst (λ d. Serving j line d (advance list_queue time quantum) l)
                (sym (append-nil done)) x;
          takes = λ order m t. stays_in_line p jobs order m long (
              subst (λ i. TakeTurns quantum (jobs ++ i ∷ []) order m) same
                (subst (λ js. TakeTurns quantum js order m) (sym e) t));
          count = omega (arith, count, size, ap length e, ap length (append-nil done));
        })

  pub round-Turned :
      (p : Process) (s : System list_queue) (time : ℕ) (line : List Job) (done : List Ticket)
      → Lists s line done
      → length done + suc (length line) ≡ n
      → Ensures
          (RoundTurned quantum n p line done time)
          (round list_queue (keep_rr list_queue) quantum infinite_name n (at s (some p) false time))
  unfolding round update_time ticket
  round-Turned p s time line done v count = elim (Bool-cases (leb p.service_time_left quantum)) [
    | inl e ↦ rw e (
        finish_round-Turned p (record p { service_time_left = 0; state = State.finished }) s time
          line done refl (ground (arith, e)) v count)
    | inr e ↦
        let q = record p { service_time_left = p.service_time_left - quantum } in
        let f = next_in_line line (job q) in
        rw e (
          running_Turned p q s time f.0 f.1 line done (clocked_job p quantum) (ground (arith, e)) v
            f.2 count)
  ]
