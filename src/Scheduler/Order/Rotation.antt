-- ===== src/Scheduler/Order/Rotation.antt =====
-- The rounds of RR in src/main.c, where every process is there at the start: each leaves the jobs that
-- take turns as the relation of Jobs says.
use mathlib.Core.Path.{subst}
use mathlib.Core.List.{map, append_assoc, append-nil}
use process_management_syste.Base.{
  ℕ, zero, suc, ◌+◌, ◌≡◌, refl, sym, ap, ◌∙◌, false, some, List, [], ◌∷◌, ◌++◌,
}
use process_management_syste.Base.Ensures.{Ensures, ensures, Ensures-mono, Ensures-bind}
use process_management_syste.Base.Lists.{length}
use process_management_syste.Base.Text.{streq, strcmp}
use process_management_syste.ProcessData.{Process, State, set_state}
use process_management_syste.ReadyQueue.{list_queue, enqueue}
use process_management_syste.MemoryAllocation.{infinite_name, Memory}
use process_management_syste.MemoryAllocation.Allocate.{
  allocate_memory, move_all, Event, process_ready,
}
use process_management_syste.Scheduler.System.{System, update_input, allocate}
use process_management_syste.Scheduler.Steps.{ticket, map_append}
use process_management_syste.Scheduler.Order.Turns.{Ticket}
use process_management_syste.Scheduler.Cycle.{
  Loop, Round, next, break, advance, rounds, keep_rr, first_round, start_system,
}
use process_management_syste.Scheduler.Order.Jobs.{
  Job, job, TakeTurns, Lists, run_next_process-Runs,
}
use process_management_syste.Scheduler.Order.Line.{Serving, at, Runs-Serving}
use process_management_syste.Scheduler.Order.RoundRobin.{Turned, round-Turned}
use process_management_syste.Scheduler.Arrivals.{AllArrived, none_stays, update_input-Arrived}

-- The time after so many more rounds.
abbrev pub later : ℕ → ℕ → ℕ → ℕ
later quantum zero time = time
later quantum (suc n) time = later quantum n (advance list_queue time quantum)

pub record Outcome (quantum : ℕ) (jobs : List Job) (done : List Ticket) (time : ℕ)
    (l : Loop list_queue) : Type 0 where
  pub order : List Ticket
  pub turns : ℕ
  pub takes : TakeTurns quantum jobs order (suc turns)
  pub finished : map ticket l.system.finished ≡ done ++ order
  pub clock : l.sim_time ≡ later quantum turns time

abbrev pub Took : ℕ → List Job → List Ticket → ℕ → Round list_queue → Type 0
Took quantum jobs done time (next l) = Unit {0}
Took quantum jobs done time (break l) = Outcome quantum jobs done time l

module _ (quantum n : ℕ) where
  turn-Took :
      (p p' : Process) (line : List Job) (done : List Ticket) (time : ℕ) (l : Loop list_queue)
      → (t : Turned quantum n p line done time l) → job p' ≡ t.first
      → (o : Round list_queue)
      → Took quantum (job p' ∷ t.others) (done ++ t.got_done) (advance list_queue time quantum) o
      → Took quantum (job p ∷ line) done time o
  turn-Took p p' line done time l t same (next l') x = tt
  turn-Took p p' line done time l t same (break l') x = record {
    order = t.got_done ++ x.order;
    turns = suc x.turns;
    takes =
        t.takes x.order (suc x.turns)
          (subst (λ j. TakeTurns quantum (j ∷ t.others) x.order (suc x.turns)) same x.takes);
    finished = x.finished ∙ append_assoc done t.got_done x.order;
    clock = x.clock;
  }

  pub rounds-Took :
      (k : ℕ) (p : Process) (s : System list_queue) (time : ℕ) (line : List Job)
      (done : List Ticket)
      → Lists s line done
      → length done + suc (length line) ≡ n
      → Ensures (Took quantum (job p ∷ line) done time) (
          rounds list_queue k
            (keep_rr list_queue)
            quantum
            infinite_name
            n
            (at s (some p) false time))
  unfolding rounds
  rounds-Took zero p s time line done v count = ensures tt
  rounds-Took (suc k) p s time line done v count =
      Ensures-bind (round-Turned quantum n p s time line done v count) (elim [
        | next l ↦ λ t.
            let w = t.serving in
            subst
              (λ l'.
                Ensures (Took quantum (job p ∷ line) done time)
                  (rounds list_queue k (keep_rr list_queue) quantum infinite_name n l'))
              (sym w.is)
              (Ensures-mono
                (rounds-Took k w.process w.system (advance list_queue time quantum) t.others
                  (done ++ t.got_done) w.lists t.count)
                (turn-Took p w.process line done time l t w.same))
        | break l ↦ λ t. ensures (record {
          order = ticket p ∷ [];
          turns = 0;
          takes = t.takes;
          finished = t.finished;
          clock = t.clock;
        })
      ])

job-ready : (p : Process) → job (set_state p State.ready) ≡ job p
unfolding job ticket set_state
job-ready p = refl

-- Under "infinite" the input joins the queue in its order.
move_all-line :
    (time : ℕ) (m : Memory) (input queue : List Process) (log : List Event)
    → Ensures
        (λ a. (a.input ≡ []) × (map job a.queue ≡ map job queue ++ map job input))
        (move_all list_queue time infinite_name m input queue log)
unfolding move_all process_ready enqueue streq strcmp
move_all-line time m [] queue log = ensures (refl, sym (append-nil (map job queue)))
move_all-line time m (p ∷ input) queue log =
    Ensures-mono (move_all-line time m input (queue ++ set_state p State.ready ∷ []) log)
      λ a (empty, e). (
        empty,
        e
            ∙ ap (λ l. l ++ map job input) (map_append job queue (set_state p State.ready ∷ []))
            ∙ append_assoc (map job queue) (job (set_state p State.ready) ∷ []) (map job input)
            ∙ ap (λ j. map job queue ++ j ∷ map job input) (job-ready p),
      )

pub first_round-Serving :
    (quantum : ℕ) (p : Process) (ps : List Process)
    → AllArrived 0 (p ∷ ps)
    → Ensures
        (Serving (job p) (map job ps) [] (advance list_queue 0 quantum))
        (first_round list_queue quantum infinite_name (start_system list_queue (p ∷ ps)))
unfolding first_round update_input allocate allocate_memory start_system streq strcmp
first_round-Serving quantum p ps all =
    let (a, whole) = update_input-Arrived list_queue (start_system list_queue (p ∷ ps)) 0 in
    let none_left = none_stays a.moved _ (subst (AllArrived 0) a.split all) a.stops in
    let moved : a.moved ≡ p ∷ ps =
      sym (append-nil a.moved) ∙ ap (λ l. a.moved ++ l) (sym none_left) ∙ sym a.split in
    Ensures-bind {Good = λ s. Lists s (job p ∷ map job ps) []}
      (Ensures-bind (move_all-line 0 _ _ _ _) λ m (empty, e). ensures (record {
        input = empty;
        processes = none_left;
        queue = e ∙ ap (map job) (a.appended ∙ moved);
        finished = refl;
      }))
      λ s v. Ensures-bind (run_next_process-Runs s 0 (job p) (map job ps) [] v) λ (o, s') r.
        ensures (Runs-Serving (job p) (map job ps) [] (advance list_queue 0 quantum) o s' r)
