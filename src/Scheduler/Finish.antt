-- ===== src/Scheduler/Finish.antt =====
-- finish_process of src/main.c on a sound state.
use mathlib.Core.Path.{subst}
use process_management_syste.Base.{
  ℕ, ◌<◌, ◌≡◌, refl, sym, ap, inl, inr, Ptr, Option, none, some, List, [], ◌∷◌, ◌++◌, Returns,
  returns, Returns-bind,
}
use process_management_syste.Base.Text.{streq}
use process_management_syste.ProcessData.{
  Process, State, set_block_node, set_state, set_value, update_stats,
}
use process_management_syste.ReadyQueue.{ReadyQueue}
use process_management_syste.ReadyQueue.Laws.{QueueLaws}
use process_management_syste.ChildProcess.{Child, on_sigterm}
use process_management_syste.MemoryAllocation.{best_fit_name}
use process_management_syste.MemoryAllocation.Owners.{Blocks-head, deallocate_memory-GivenBack}
use process_management_syste.Scheduler.Real.{send_bytes}
use process_management_syste.Scheduler.System.{System, finish_process}
use process_management_syste.Scheduler.Pids.{Good-head, Good-remove_child}
use process_management_syste.Scheduler.Steps.{ticket, pending, Sound}
use process_management_syste.Scheduler.Timely.{lead, Stamped}

terminated : (time : ℕ) (c : Child) → (sha : List ℕ) × (on_sigterm (send_bytes time) c ≡ some sha)
unfolding on_sigterm send_bytes
terminated time c = (_, refl)

update_stats-Stamped :
    (time : ℕ) (p : Process) → Stamped time (update_stats (record p { finish_time = time }))
unfolding update_stats
update_stats-Stamped time p = record { finish_time = refl; turnaround_time = refl; overhead = refl }

set_block_node-Stamped :
    (time : ℕ) (p : Process) (n : Option Ptr) → Stamped time p → Stamped time (set_block_node p n)
unfolding set_block_node
set_block_node-Stamped time p n s = record {
  finish_time = s.finish_time;
  turnaround_time = s.turnaround_time;
  overhead = s.overhead;
}

module _ (r : ReadyQueue) (laws : QueueLaws r) (strategy : List ℕ) where
  -- The process has gone from the pending ones to the end of the finished ones.
  pub record Finished (p : Process) (time : ℕ) (s s' : System r) : Type 0 where
    pub done : Process
    pub appended : s'.finished ≡ s.finished ++ done ∷ []
    pub same : ticket done ≡ ticket p
    pub rest : pending r laws [] s' ≡ pending r laws [] s
    pub sound : Sound r laws strategy [] s'
    pub lead : (k : ℕ) → lead r laws k [] s' ≡ lead r laws k [] s
    pub stamped : Stamped time done

  pub finish_process-Finished :
      (p : Process) (remaining time : ℕ) (s : System r)
      → Sound r laws strategy (p ∷ []) s
      → 0 < p.pid
      → Returns (Finished p time s) (finish_process r p remaining time strategy s)
  unfolding lead finish_process set_state set_value update_stats pending ticket set_block_node
  finish_process-Finished p remaining time s v pos =
      let (c, found) = Good-head s.os p (pending r laws [] s) v.good pos in
      let (sha, killed) = terminated time c in
      let q = update_stats (record (set_state p State.finished) { finish_time = time }) in
      let best = streq strategy best_fit_name in
      rw (found, killed)
        (Returns-bind
          (deallocate_memory-GivenBack s.memory q (laws.contents s.queue) strategy v.memory
            (Blocks-head best s.memory p q (laws.contents s.queue) v.blocks refl))
          λ (m', p3) (v', held, is). returns (record {
            done = p3;
            appended = refl;
            same = elim is [ inl e ↦ ap ticket e | inr e ↦ ap ticket e ];
            rest = refl;
            lead = λ k. refl;
            stamped = elim is [
              | inl e ↦
                  subst (Stamped time) (sym e)
                    (update_stats-Stamped time (set_state p State.finished))
              | inr e ↦ subst (Stamped time) (sym e) (
                  set_block_node-Stamped time q none
                    (update_stats-Stamped time (set_state p State.finished)))
            ];
            sound = record {
              queue = v.queue;
              memory = v';
              good = Good-remove_child s.os p (pending r laws [] s) pos v.good;
              blocks = held;
            };
          }))
