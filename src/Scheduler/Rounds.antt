-- ===== src/Scheduler/Rounds.antt =====
-- Whole runs of cycle of src/main.c where the first allocation finds space for a process: no run
-- faults, and none loses a process.
use mathlib.Core.Path.{subst}
use mathlib.Core.List.{map, append-nil}
use mathlib.Core.List.Perm
use process_management_syste.Base.{
  ℕ, zero, suc, ◌≤◌, ◌<◌, ◌≡◌, ◌≢◌, refl, sym, ap, ◌∙◌, true, false, Option, none, some, List, [],
  ◌∷◌, ◌++◌, Perm, arith, Bool-cases, inl, inr, Returns, returns, Returns-bind, Returns-mono,
  Returns-both,
}
use process_management_syste.Base.Lists.{length, length-perm, length-append}
use process_management_syste.Base.Text.{streq}
use process_management_syste.ProcessData.{Process}
use process_management_syste.ReadyQueue.{ReadyQueue}
use process_management_syste.ReadyQueue.Laws.{QueueLaws}
use process_management_syste.ChildProcess.{is_option}
use process_management_syste.MemoryAllocation.{best_fit_name, initialise_memory}
use process_management_syste.MemoryAllocation.Invariant.{initialise_memory-IsValid}
use process_management_syste.MemoryAllocation.Owners.{Blocks-nil, start-free}
use process_management_syste.Scheduler.System.{System, update_input, allocate}
use process_management_syste.Scheduler.Pids.{Good, owners, has_pid, is_dashed}
use process_management_syste.Scheduler.Ending.Work.{work}
use process_management_syste.Scheduler.Steps.{
  ticket, pending, Sound, update_input-Moved, allocate-Moved,
}
use process_management_syste.Scheduler.Running.{run_next_process-Ran}
use process_management_syste.Scheduler.Loops.{
  Moved-trans, Phase, Steady, Moved-Stays, everyone, loop, load, Ran-Moved, Ran-Kept,
}
use process_management_syste.Scheduler.Sound.{Keeps, Outcome, Outcome-after}
use process_management_syste.Scheduler.FullRound.{round_at}
use process_management_syste.Scheduler.Ending.Advance.{Timely}
use process_management_syste.Scheduler.Ahead.{AllUnrun, AllUnrun-has_run}
use process_management_syste.Scheduler.Timely.{
  AllServed, Kept-trans, lead, allocate-Kept, update_input-lead,
}
use process_management_syste.Scheduler.Cycle.{
  Loop, Round, next, break, rounds, first_round, simulate, start_system, advance,
}

-- Processes as they are read: none has a pid. No name is an option of the child.
unfoldable pub AllNew : List Process → Type 0
AllNew [] = Unit {0}
AllNew (p ∷ ps) = ((p.pid ≡ 0) × (is_option p.name ≡ false)) × AllNew ps

owners-AllNew : (k : ℕ) (ps : List Process) → 0 < k → AllNew ps → owners (has_pid k) ps ≡ 0
unfolding owners AllNew
owners-AllNew k [] pos new = refl
owners-AllNew k (p ∷ ps) pos new = ground (arith, new.0.0, owners-AllNew k ps pos new.1)

plain-AllNew : (ps : List Process) → AllNew ps → owners is_dashed ps ≡ 0
unfolding owners AllNew
plain-AllNew [] new = refl
plain-AllNew (p ∷ ps) new = ground (arith, new.0.1, plain-AllNew ps new.1)

length-map : (ps : List Process) → length (map ticket ps) ≡ length ps
length-map [] = refl
length-map (p ∷ ps) = ap suc (length-map ps)

pub length_tickets :
    (ps qs : List Process) → Perm (map ticket ps) (map ticket qs) → length ps ≡ length qs
length_tickets ps qs perm = sym (length-map ps) ∙ length-perm perm ∙ length-map qs

-- Where as many have finished as there are, these are all.
all_finished :
    (fin pend ps : List Process)
    → Perm (map ticket (fin ++ pend)) (map ticket ps)
    → length fin ≡ length ps
    → Perm (map ticket fin) (map ticket ps)
all_finished fin [] ps perm n =
    subst (λ l. Perm (map ticket l) (map ticket ps)) (append-nil fin) perm
all_finished fin (p ∷ pend) ps perm n =
    absurd
      (omega (arith, n, length_tickets (fin ++ p ∷ pend) ps perm, length-append fin (p ∷ pend)))

module _ (r : ReadyQueue) where
  -- The first allocation has moved some process to the ready queue.
  abbrev pub Few : List Process → System r → Type 0
  Few ps s = length (s.input ++ s.processes) < length ps

module _ (r : ReadyQueue) (laws : QueueLaws r) (strategy : List ℕ) where
  -- What a run makes of the processes `ps`: they are all still there, and where it has ended, they
  -- are the finished ones.
  abbrev pub RunOk : List Process → Round r → Type 0
  RunOk ps (next l) =
      Steady r laws strategy l × Perm (map ticket (everyone r laws strategy l)) (map ticket ps)
  RunOk ps (break l) =
      Steady r laws strategy l × Perm (map ticket l.system.finished) (map ticket ps)

module _ (r : ReadyQueue) (laws : QueueLaws r) (strategy : List ℕ) (keep : Loop r → Option (Loop r))
    (keeps : Keeps r laws strategy keep) (quantum : ℕ) where
  rounds-Outcome :
      (k n : ℕ) (l : Loop r)
      → Steady r laws strategy l
      → Returns (Outcome r laws strategy n l) (rounds r k keep quantum strategy n l)
  unfolding rounds
  rounds-Outcome zero n l v =
      returns (record { steady = v; same = Perm.rfl; less = λ k. omega arith })
  rounds-Outcome (suc k) n l v =
      Returns-bind
        (round_at r laws strategy keep keeps quantum n l.system l.current l.no_process_running
          l.sim_time v)
        (elim [
          | next l' ↦ λ (t, a, on_time).
              Returns-mono (rounds-Outcome k n l' t.steady)
                λ o. Outcome-after r laws strategy n l l' o t
          | break l' ↦ λ (t, a, on_time). returns t
        ])

  new-Good :
      (ps : List Process)
      → AllNew ps
      → Good (record { children = []; next_pid = 1; next_fd = 3 }) ps
  new-Good ps new = record {
    once = λ k pos. omega (arith, owners-AllNew k ps pos new);
    born = λ k pos has. absurd (omega (arith, owners-AllNew k ps pos new));
    child = λ k pos has. absurd (omega (arith, owners-AllNew k ps pos new));
    started = omega arith;
    plain = plain-AllNew ps new;
  }

  start-Sound : (ps : List Process) → AllNew ps → Sound r laws strategy [] (start_system r ps)
  unfolding start_system pending
  start-Sound ps new = record {
    queue = laws.create_valid;
    memory = initialise_memory-IsValid;
    good = rw laws.create_empty (new-Good ps new);
    blocks =
        rw laws.create_empty
          (Blocks-nil (streq strategy best_fit_name) initialise_memory start-free);
  }

  -- What the first round finds in the queue.
  some_wait :
      (q : r.Queue) (rest : List Process) (n : ℕ)
      → length (laws.contents q ++ rest) ≡ n
      → length rest < n
      → r.is_empty q ≡ false
  some_wait q rest n all few = elim (Bool-cases (r.is_empty q)) [
    | inl e ↦ absurd (
        omega (
          arith,
          ap length ((laws.is_empty_exact q).0 e),
          all,
          few,
          length-append (laws.contents q) rest,
        ))
    | inr e ↦ e
  ]

  -- What the first round leaves.
  pub record Begun (ps : List Process) (l : Loop r) : Type 0 where
    pub ok : RunOk r laws strategy ps (next l)
    pub runs : l.current ≢ none
    pub less : (k : ℕ) → load r laws strategy k l ≤ work k ps
    pub clock : l.sim_time ≡ advance r 0 quantum
    pub timely : AllUnrun ps → Timely r laws strategy quantum 0 l

  start-lead : (ps : List Process) → AllUnrun ps → lead r laws 0 [] (start_system r ps) ≡ 0
  unfolding lead start_system
  start-lead ps unrun = rw laws.create_empty (omega (arith, AllUnrun-has_run ps unrun))

  some-ne_none : (o : Option Process) → Phase o false → o ≢ none
  some-ne_none none phase e = ground (arith, phase)
  some-ne_none (some p) phase e = cc

  pub first_round-RunOk :
      (p : Process) (ps : List Process)
      → AllNew (p ∷ ps)
      → Returns
          (Few r (p ∷ ps))
          (allocate r (update_input r (start_system r (p ∷ ps)) 0) strategy 0)
      → Returns (Begun (p ∷ ps)) (first_round r quantum strategy (start_system r (p ∷ ps)))
  unfolding first_round update_input start_system pending everyone AllServed
  first_round-RunOk p ps new start =
      let s0 = start_system r (p ∷ ps) in
      let m1 = update_input-Moved r laws strategy [] s0 0 (start-Sound (p ∷ ps) new) in
      let s1 = update_input r s0 0 in
      Returns-bind
        (Returns-both (allocate-Moved r laws strategy [] s1 0 m1.sound)
          (Returns-both start (allocate-Kept r laws strategy [] s1 0 m1.sound)))
        λ s2 (m2, (few, kept)).
          let m = Moved-trans r laws strategy m1 m2 in
          let all : length (pending r laws [] s2) ≡ length (p ∷ ps) =
            length_tickets _ _ m.same ∙ rw laws.create_empty refl in
          Returns-bind
            (run_next_process-Ran r laws strategy s2 0 m2.sound (some_wait s2.queue _ _ all few))
            λ (o, s3) t.
              let l0 = loop r laws strategy s0 none true 0 in
              let l1 = loop r laws strategy s3 o false (advance r 0 quantum) in
              let stays =
                Moved-Stays r laws strategy l0 l1
                  (Moved-trans r laws strategy m (Ran-Moved r laws strategy s2 o s3 t))
                  (subst (λ o. Phase o false) (sym t.current) (refl, t.alive)) in
              returns (record {
                ok = (stays.steady, Perm.trans stays.same (rw laws.create_empty Perm.rfl));
                runs = some-ne_none o stays.steady.phase;
                less = λ k.
                    omega (arith, stays.less k, ap (λ c. work k (c ++ p ∷ ps)) laws.create_empty);
                clock = refl;
                timely = λ unrun.
                    let kept' = Kept-trans r laws kept (Ran-Kept r laws strategy s2 o s3 t) in
                    (
                      omega (
                        arith,
                        kept'.no_more 0,
                        update_input-lead r laws [] s0 0,
                        start-lead (p ∷ ps) unrun,
                      ),
                      subst (AllServed 0) (sym kept'.finished) tt,
                    );
              })

  pub later-RunOk :
      (ps : List Process) (l : Loop r) (o : Round r)
      → RunOk r laws strategy ps (next l)
      → Outcome r laws strategy (length ps) l o
      → RunOk r laws strategy ps o
  unfolding everyone
  later-RunOk ps l (next l') (v, same) t = (t.steady, Perm.trans t.same same)
  later-RunOk ps l (break l') (v, same) (t, all) =
      (t.steady, all_finished l'.system.finished _ ps (Perm.trans t.same same) all)

  pub simulate-RunOk :
      (k : ℕ) (p : Process) (ps : List Process)
      → AllNew (p ∷ ps)
      → Returns
          (Few r (p ∷ ps))
          (allocate r (update_input r (start_system r (p ∷ ps)) 0) strategy 0)
      → Returns (RunOk r laws strategy (p ∷ ps)) (simulate r k keep quantum strategy (p ∷ ps))
  unfolding simulate
  simulate-RunOk k p ps new start = Returns-bind (first_round-RunOk p ps new start) λ l b.
      Returns-mono (rounds-Outcome k (length (p ∷ ps)) l b.ok.0) λ o. later-RunOk (p ∷ ps) l o b.ok
