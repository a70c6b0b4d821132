-- ===== src/Scheduler/Loops.antt =====
-- When the loop of cycle of src/main.c is sound, and what becomes of a process that runs on.
use mathlib.Core.Path.{subst}
use mathlib.Core.List.{map}
use mathlib.Core.List.Perm
use process_management_syste.Base.{
  ℕ, ◌≤◌, ◌<◌, ◌≡◌, refl, sym, ap, ◌∙◌, Bool, true, false, Option, none, some, List, [], ◌∷◌, ◌++◌,
  Perm, arith, Bool-cases, inl, inr, Returns, returns, Returns-bind, Returns-mono, Returns-if,
}
use process_management_syste.Base.Lists.{length, length-perm, sum_by_perm}
use process_management_syste.Base.Text.{streq}
use process_management_syste.ProcessData.{Process}
use process_management_syste.ReadyQueue.{ReadyQueue}
use process_management_syste.ReadyQueue.Laws.{QueueLaws}
use process_management_syste.ChildProcess.{Child}
use process_management_syste.MemoryAllocation.{best_fit_name}
use process_management_syste.MemoryAllocation.Owners.{Blocks-perm}
use process_management_syste.Scheduler.Real.{find_child, set_child}
use process_management_syste.Scheduler.System.{System, run_next_process}
use process_management_syste.Scheduler.Protocol.{continue_process-suspend_process}
use process_management_syste.Scheduler.Pids.{Good-fewer, Good-head, Good-set_child, owners_perm}
use process_management_syste.Scheduler.Ending.Work.{work, work_perm}
use process_management_syste.Scheduler.Steps.{ticket, map_append, pending, Sound, Moved}
use process_management_syste.Scheduler.Running.{Ran, run_next_process-Ran}
use process_management_syste.Scheduler.Ahead.{ahead}
use process_management_syste.Scheduler.Timely.{Kept, Kept-perm, Kept-trans}
use process_management_syste.Scheduler.Cycle.{Loop, go_on, keep_rr}

abbrev pub as_list : Option Process → List Process
as_list none = []
as_list (some p) = p ∷ []

-- no_process_running tells whether there is a current process, and that one has been started.
abbrev pub Phase : Option Process → Bool → Type 0
Phase none idle = idle ≡ true
Phase (some p) idle = (idle ≡ false) × (0 < p.pid)

module _ (r : ReadyQueue) (laws : QueueLaws r) (strategy : List ℕ) where
  pub record Steady (l : Loop r) : Type 0 where
    pub sound : Sound r laws strategy (as_list l.current) l.system
    pub phase : Phase l.current l.no_process_running

  -- Every process of the run: the finished ones and those that are pending.
  unfoldable pub everyone : Loop r → List Process
  everyone l = l.system.finished ++ pending r laws (as_list l.current) l.system

  -- The rounds that the pending processes need at most.
  abbrev pub load : ℕ → Loop r → ℕ
  load k l = work k (pending r laws (as_list l.current) l.system)

  -- A step from one steady loop to another that loses and doubles no process.
  pub record Stays (l l' : Loop r) : Type 0 where
    pub steady : Steady l'
    pub same : Perm (map ticket (everyone l')) (map ticket (everyone l))
    pub less : (k : ℕ) → load k l' ≤ load k l

  pub Moved-Stays :
      (l l' : Loop r)
      → Moved r laws strategy (as_list l.current) l.system (as_list l'.current) l'.system
      → Phase l'.current l'.no_process_running
      → Stays l l'
  unfolding everyone pending
  Moved-Stays l l' m phase = record {
    steady = record { sound = m.sound; phase = phase };
    same =
        rw
          (
            m.finished,
            map_append ticket l.system.finished (pending r laws (as_list l'.current) l'.system),
            map_append ticket l.system.finished (pending r laws (as_list l.current) l.system),
          )
          (Perm.append_left (map ticket l.system.finished) m.same);
    less = m.less;
  }

  pub Stays-trans : {l l' l'' : Loop r} → Stays l l' → Stays l' l'' → Stays l l''
  Stays-trans a b = record {
    steady = b.steady;
    same = Perm.trans b.same a.same;
    less = λ k. omega (arith, a.less k, b.less k);
  }

  pub Ran-Moved :
      (s : System r) (o : Option Process) (s' : System r)
      → Ran r laws strategy s o s'
      → Moved r laws strategy [] s (as_list o) s'
  Ran-Moved s o s' t =
      subst (λ o. Moved r laws strategy [] s (as_list o) s') (sym t.current) t.moved

  alive_child :
      (p : Process) (s : System r)
      → Sound r laws strategy (p ∷ []) s
      → 0 < p.pid
      → (c : Child) × (find_child s.os.children p.pid ≡ some c)
  unfolding pending
  alive_child p s v pos = Good-head s.os p (pending r laws [] s) v.good pos

  -- The step brings no process ahead of the clock and finishes none.
  abbrev pub Keeping : Loop r → Loop r → Type 0
  Keeping l l' = Kept r laws (as_list l.current) l.system (as_list l'.current) l'.system

  pub Ran-Kept :
      (s : System r) (o : Option Process) (s' : System r)
      → Ran r laws strategy s o s'
      → Kept r laws [] s (as_list o) s'
  Ran-Kept s o s' t = subst (λ o. Kept r laws [] s (as_list o) s') (sym t.current) t.kept

  -- The next process runs.
  pub start-Stays :
      (l : Loop r)
      → Steady l
      → l.current ≡ none
      → r.is_empty l.system.queue ≡ false
      → Returns
          (λ (p, s).
            let l' = record l { system = s; current = p; no_process_running = false } in
            Stays l l' × Keeping l l')
          (run_next_process r l.system l.sim_time)
  start-Stays l v idle full =
      Returns-mono
        (run_next_process-Ran r laws strategy l.system l.sim_time
          (subst (λ c. Sound r laws strategy (as_list c) l.system) idle v.sound) full)
        λ (o, s) t. (
          Moved-Stays l (record l { system = s; current = o; no_process_running = false })
              (subst (λ c. Moved r laws strategy (as_list c) l.system (as_list o) s) (sym idle)
                (Ran-Moved l.system o s t))
              (subst (λ o. Phase o false) (sym t.current) (refl, t.alive)),
          subst (λ c. Kept r laws (as_list c) l.system (as_list o) s) (sym idle)
              (Ran-Kept l.system o s t),
        )

  abbrev pub loop : System r → Option Process → Bool → ℕ → Loop r
  loop s current idle time = record {
    system = s;
    current = current;
    no_process_running = idle;
    sim_time = time;
  }

  -- The children change.
  with_children-Moved :
      (p : Process) (s : System r) (j : ℕ) (c : Child)
      → Sound r laws strategy (p ∷ []) s
      → Moved r laws strategy
          (p ∷ [])
          s
          (p ∷ [])
          (record s { os = record s.os { children = set_child s.os.children j c } })
  unfolding pending
  with_children-Moved p s j c v = record {
    sound = record {
      queue = v.queue;
      memory = v.memory;
      blocks = v.blocks;
      good = Good-set_child s.os (pending r laws (p ∷ []) s) j c v.good;
    };
    same = Perm.rfl;
    finished = refl;
    less = λ k. omega arith;
  }

  requeued-Moved :
      (p : Process) (s : System r) (q : r.Queue) (j : ℕ) (c : Child)
      → Sound r laws strategy (p ∷ []) s
      → laws.IsValid q
      → Perm (laws.contents q) (p ∷ laws.contents s.queue)
      → Moved r laws strategy
          (p ∷ [])
          s
          []
          (record s { queue = q; os = record s.os { children = set_child s.os.children j c } })
  unfolding pending
  requeued-Moved p s q j c v w perm =
      let all = Perm.append_right (s.input ++ s.processes) perm in
      record {
        sound = record {
          queue = w;
          memory = v.memory;
          blocks =
              Blocks-perm (streq strategy best_fit_name) s.memory (p ∷ laws.contents s.queue)
                (laws.contents q) v.blocks perm;
          good =
              Good-fewer _ (pending r laws (p ∷ []) s) _
                (Good-set_child s.os (pending r laws (p ∷ []) s) j c v.good)
                λ k. omega (arith, owners_perm k all);
        };
        same = Perm.map ticket all;
        finished = refl;
        less = λ k. omega (arith, work_perm k all);
      }

  not_empty :
      (q : r.Queue) (p : Process) (l : List Process)
      → Perm (laws.contents q) (p ∷ l)
      → r.is_empty q ≡ false
  not_empty q p l perm = elim (Bool-cases (r.is_empty q)) [
    | inl e ↦ absurd (omega (arith, ap length ((laws.is_empty_exact q).0 e), length-perm perm))
    | inr e ↦ e
  ]

  pub Moved-trans :
      {c c' c'' : List Process} {s s' s'' : System r}
      → Moved r laws strategy c s c' s'
      → Moved r laws strategy c' s' c'' s''
      → Moved r laws strategy c s c'' s''
  Moved-trans a b = record {
    sound = b.sound;
    same = Perm.trans b.same a.same;
    finished = b.finished ∙ a.finished;
    less = λ k. omega (arith, a.less k, b.less k);
  }

  -- A branch for a process that runs on: one runs, at the same time.
  abbrev pub RunsOn : Loop r → Loop r → Type 0
  RunsOn l l' =
      Stays l l' × (l'.sim_time ≡ l.sim_time) × (l'.no_process_running ≡ false) × Keeping l l'

  pub go_on_at :
      (s : System r) (current : Option Process) (idle : Bool) (time : ℕ)
      → Steady (loop s current idle time)
      → idle ≡ false
      → Returns (RunsOn (loop s current idle time)) (go_on r (loop s current idle time))
  unfolding go_on
  go_on_at s none idle time v e = absurd (ground (arith, v.phase, e))
  go_on_at s (some p) idle time v e =
      let (c, found) = alive_child p s v.sound v.phase.1 in
      rw (continue_process-suspend_process p time s.os.children c found).0 (
        returns (
          Moved-Stays (loop s (some p) idle time) _ (with_children-Moved p s p.pid _ v.sound)
              v.phase,
          refl,
          e,
          Kept-perm r laws (p ∷ []) (p ∷ []) s _ refl refl (λ k. refl),
        ))

  -- RR puts the process back into the queue and runs the first of it.
  pub switch_at :
      (s : System r) (current : Option Process) (idle : Bool) (time : ℕ)
      → Steady (loop s current idle time)
      → idle ≡ false
      → Returns (RunsOn (loop s current idle time)) (keep_rr r (loop s current idle time))
  unfolding keep_rr
  switch_at s none idle time v e = absurd (ground (arith, v.phase, e))
  switch_at s (some p) idle time v e =
      let (c, found) = alive_child p s v.sound v.phase.1 in
      Returns-if (r.is_empty s.queue) (λ none_waits. go_on_at s (some p) idle time v e)
        (λ full. Returns-bind (laws.insert_added s.queue p v.sound.queue) λ q (w, perm).
          rw (continue_process-suspend_process p time s.os.children c found).1 (
            let m = requeued-Moved p s q p.pid _ v.sound w perm in
            Returns-bind
              (run_next_process-Ran r laws strategy _ time m.sound
                (not_empty q p (laws.contents s.queue) perm))
              λ (o, s') t. returns (
                Moved-Stays (loop s (some p) idle time) (loop s' o idle time)
                    (Moved-trans m (Ran-Moved _ o s' t))
                    (subst (λ o. Phase o idle) (sym t.current) (e, t.alive)),
                refl,
                e,
                Kept-trans r laws
                    (Kept-perm r laws (p ∷ []) [] s _ refl refl
                      λ k. sum_by_perm (ahead k) (Perm.append_right s.input perm))
                    (Ran-Kept _ o s' t),
              )))
