-- ===== src/Scheduler/Running.antt =====
-- run_next_process and finish_process of src/main.c on a sound state.
use mathlib.Core.Path.{subst}
use mathlib.Core.List.{map}
use mathlib.Core.List.Perm
use process_management_syste.Base.{
  ℕ, ◌<◌, ◌≡◌, refl, sym, ap, ◌∙◌, false, Option, some, List, [], ◌∷◌, ◌++◌, Perm, arith, ◌==◌,
  Returns, returns, Returns-bind, Returns-mono, Returns-if,
}
use process_management_syste.Base.Text.{streq}
use process_management_syste.Base.Lists.{sum_by_perm}
use process_management_syste.ProcessData.{Process, State, set_state, set_fds}
use process_management_syste.ReadyQueue.{ReadyQueue}
use process_management_syste.ReadyQueue.Laws.{QueueLaws}
use process_management_syste.MemoryAllocation.{best_fit_name}
use process_management_syste.MemoryAllocation.Owners.{Blocks-head, Blocks-perm}
use process_management_syste.Scheduler.Real.{Os}
use process_management_syste.Scheduler.System.{System, start_or_continue, run_next_process}
use process_management_syste.Scheduler.Protocol.{
  start_real_process-Started, continue_process-suspend_process,
}
use process_management_syste.Scheduler.Pids.{
  Mark, Good, Good-head, Good-plain, Good-fewer, Good-set_child, Good-Started, owners, owners_perm,
}
use process_management_syste.Scheduler.Ending.Work.{work-cons, work_perm, rounds_left_mono}
use process_management_syste.Scheduler.Steps.{ticket, pending, Sound, Moved}
use process_management_syste.Scheduler.Ahead.{ahead, ahead-same}
use process_management_syste.Scheduler.Timely.{Kept, Kept-perm}

pub ticket-fresh :
    (p : Process) (i o : ℕ × ℕ) (k : ℕ) → ticket (record (set_fds p i o) { pid = k }) ≡ ticket p
unfolding ticket set_fds
ticket-fresh p i o k = refl

pub ticket-state : (p : Process) (s : State) → ticket (set_state p s) ≡ ticket p
unfolding ticket set_state
ticket-state p s = refl

alive-state : (p : Process) (s : State) → 0 < p.pid → 0 < (set_state p s).pid
unfolding set_state
alive-state p s pos = pos

owners-state :
    (k : Mark) (p : Process) (s : State) (ps : List Process)
    → owners k (set_state p s ∷ ps) ≡ owners k (p ∷ ps)
unfolding owners set_state
owners-state k p s ps = refl

block-fresh :
    (p : Process) (i o : ℕ × ℕ) (k : ℕ)
    → (record (set_fds p i o) { pid = k }).block_node ≡ p.block_node
unfolding set_fds
block-fresh p i o k = refl

block-state : (p : Process) (s : State) → (set_state p s).block_node ≡ p.block_node
unfolding set_state
block-state p s = refl

pub left-fresh :
    (p : Process) (i o : ℕ × ℕ) (k : ℕ)
    → (record (set_fds p i o) { pid = k }).service_time_left ≡ p.service_time_left
unfolding set_fds
left-fresh p i o k = refl

pub left-state : (p : Process) (s : State) → (set_state p s).service_time_left ≡ p.service_time_left
unfolding set_state
left-state p s = refl

module _ (r : ReadyQueue) where
  record Runs (p : Process) (ps : List Process) (q : Process) (os' : Os) : Type 0 where
    good : Good os' (q ∷ ps)
    alive : 0 < q.pid
    same : ticket q ≡ ticket p
    block : q.block_node ≡ p.block_node
    left : q.service_time_left ≡ p.service_time_left

  start_or_continue-Runs :
      (p : Process) (time : ℕ) (os : Os) (ps : List Process)
      → Good os (p ∷ ps)
      → Returns (λ (q, os'). Runs p ps q os') (start_or_continue r p time os)
  unfolding start_or_continue
  start_or_continue-Runs p time os ps g =
      Returns-if (p.pid == 0)
        (λ e.
          Returns-mono (start_real_process-Started p time os (Good-plain os p ps g)) λ (q, os') s.
            record {
              good = Good-Started os os' p q time ps (ground (arith, e)) g s;
              alive = omega (arith, s.pid, g.started);
              same = ap ticket s.kept ∙ ticket-fresh p _ _ _;
              block = ap (λ x. x.block_node) s.kept ∙ block-fresh p _ _ os.next_pid;
              left = ap (λ x. x.service_time_left) s.kept ∙ left-fresh p _ _ os.next_pid;
            })
        (λ e.
          let (c, found) = Good-head os p ps g (ground (arith, e)) in
          rw (continue_process-suspend_process p time os.children c found).0 (
            returns (record {
              good = Good-set_child os (p ∷ ps) p.pid _ g;
              alive = ground (arith, e);
              same = refl;
              block = refl;
              left = refl;
            })))

module _ (r : ReadyQueue) (laws : QueueLaws r) (strategy : List ℕ) where
  pub record Ran (s : System r) (o : Option Process) (s' : System r) : Type 0 where
    pub process : Process
    pub current : o ≡ some process
    pub alive : 0 < process.pid
    pub moved : Moved r laws strategy [] s (process ∷ []) s'
    pub kept : Kept r laws [] s (process ∷ []) s'

  pub run_next_process-Ran :
      (s : System r) (time : ℕ)
      → Sound r laws strategy [] s
      → r.is_empty s.queue ≡ false
      → Returns (λ (o, s'). Ran s o s') (run_next_process r s time)
  unfolding run_next_process pending
  run_next_process-Ran s time v full =
      let rest = s.input ++ s.processes in
      rw full (
        Returns-bind (laws.extract_removed s.queue v.queue full) λ (o, q') (p, is, w, perm).
          let g : Good s.os (p ∷ (laws.contents q' ++ rest)) =
            Good-fewer s.os _ _ v.good
              λ k. omega (arith, owners_perm k (Perm.append_right rest perm)) in
          rw is (
            Returns-bind (start_or_continue-Runs r p time s.os (laws.contents q' ++ rest) g)
              λ (p', os') t. returns (record {
                process = set_state p' State.running;
                current = refl;
                alive = alive-state p' State.running t.alive;
                kept = Kept-perm r laws [] (set_state p' State.running ∷ []) s _ refl refl λ k.
                    omega (
                      arith,
                      ahead-same k p (set_state p' State.running)
                          (ticket-state p' State.running ∙ t.same)
                          (left-state p' State.running ∙ t.left),
                      sum_by_perm (ahead k) (Perm.append_right s.input perm),
                    );
                moved = record {
                  sound = record {
                    queue = w;
                    memory = v.memory;
                    blocks =
                        Blocks-head (streq strategy best_fit_name) s.memory p _ (laws.contents q')
                          (Blocks-perm (streq strategy best_fit_name) s.memory
                            (laws.contents s.queue) _ v.blocks perm)
                          (block-state p' State.running ∙ t.block);
                    good =
                        Good-fewer os' (p' ∷ (laws.contents q' ++ rest)) _ t.good
                          λ k. omega (arith, owners-state k p' _ (laws.contents q' ++ rest));
                  };
                  same =
                      subst
                        (λ x.
                          Perm (x ∷ map ticket (laws.contents q' ++ rest))
                            (map ticket (laws.contents s.queue ++ rest)))
                        (sym (ticket-state p' State.running ∙ t.same))
                        (Perm.map ticket (Perm.append_right rest perm));
                  finished = refl;
                  less = λ k. omega (
                    arith,
                    work-cons k p (laws.contents q' ++ rest),
                    work-cons k (set_state p' State.running) (laws.contents q' ++ rest),
                    work_perm k (Perm.append_right rest perm),
                    rounds_left_mono k p (set_state p' State.running)
                        (omega (arith, left-state p' State.running, t.left)),
                  );
                };
              })))
