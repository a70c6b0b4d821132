-- ===== src/Scheduler/Sound.antt =====
-- The rounds of cycle of src/main.c keep a sound loop and every process.
use mathlib.Core.Path.{subst}
use mathlib.Core.List.{map, append_assoc}
use mathlib.Core.List.Perm
use process_management_syste.Base.{
  ℕ, ◌≡◌, refl, sym, ap, ◌∙◌, Bool, true, false, Option, none, some, List, [], ◌∷◌, ◌++◌, Perm,
  arith, Returns, returns, Returns-bind, Returns-mono, Returns-if, Returns-both,
}
use process_management_syste.Base.Lists.{length}
use process_management_syste.ProcessData.{Process}
use process_management_syste.ReadyQueue.{ReadyQueue}
use process_management_syste.ReadyQueue.Laws.{QueueLaws}
use process_management_syste.Scheduler.System.{System, update_input}
use process_management_syste.Scheduler.Arrivals.{update_input-Arrived, NoneArrived}
use process_management_syste.Scheduler.Ending.Waiting.{
  Idle, allocate-Cleared, CanFinish-Stays, CanFinish-input,
}
use process_management_syste.Scheduler.Ending.Advance.{GoesOn}
use process_management_syste.Scheduler.Timely.{allocate-Kept, update_input-lead}
use process_management_syste.Scheduler.Ending.Work.{work, work-cons}
use process_management_syste.Scheduler.Steps.{
  ticket, map_append, pending, update_input-Moved, allocate-Moved,
}
use process_management_syste.Scheduler.Finish.{Finished}
use process_management_syste.Scheduler.Loops.{
  as_list, Keeping, Moved-trans, Phase, RunsOn, Steady, Stays, Stays-trans, Moved-Stays, everyone,
  loop, start-Stays, go_on_at, switch_at,
}
use process_management_syste.Scheduler.Cycle.{
  Loop, Round, next, break, schedule, continue_round, keep_sjf, keep_rr, advance,
}

module _ (r : ReadyQueue) (laws : QueueLaws r) (strategy : List ℕ) where
  -- A branch for a process that runs on.
  abbrev pub Keeps : (Loop r → Option (Loop r)) → Type 0
  Keeps keep =
      (l : Loop r)
      → Steady r laws strategy l
      → l.no_process_running ≡ false
      → Returns (RunsOn r laws strategy l) (keep l)

  pub keep_sjf-Keeps : Keeps (keep_sjf r)
  unfolding keep_sjf
  keep_sjf-Keeps l = go_on_at r laws strategy l.system l.current l.no_process_running l.sim_time

  pub keep_rr-Keeps : Keeps (keep_rr r)
  keep_rr-Keeps l = switch_at r laws strategy l.system l.current l.no_process_running l.sim_time

  -- What a round that returns leaves; it breaks where all of the `n` processes have finished.
  abbrev pub Outcome : ℕ → Loop r → Round r → Type 0
  Outcome n l (next l') = Stays r laws strategy l l'
  Outcome n l (break l') = Stays r laws strategy l l' × (length l'.system.finished ≡ n)

  pub Outcome-after :
      (n : ℕ) (l l' : Loop r) (o : Round r)
      → Stays r laws strategy l l'
      → Outcome n l' o
      → Outcome n l o
  Outcome-after n l l' (next l'') t u = Stays-trans r laws strategy t u
  Outcome-after n l l' (break l'') t (u, all) = (Stays-trans r laws strategy t u, all)

  together : {xs xs' ys ys' : List Process} → xs ≡ xs' → ys ≡ ys' → xs ++ ys ≡ xs' ++ ys'
  together e f = λ i. e i ++ f i

  finished_tickets :
      (done p : Process) (fin pend : List Process)
      → ticket done ≡ ticket p
      → map ticket (fin ++ done ∷ [] ++ pend) ≡ map ticket (fin ++ p ∷ pend)
  finished_tickets done p fin pend t =
      rw
        (
          append_assoc fin (done ∷ []) pend,
          map_append ticket fin (done ∷ pend),
          map_append ticket fin (p ∷ pend),
        )
        (ap (λ x. map ticket fin ++ x ∷ map ticket pend) t)

  pub Finished-Stays :
      (p : Process) (s s' : System r) (idle : Bool) (time : ℕ)
      → Finished r laws strategy p time s s'
      → Stays r laws strategy
          (loop r laws strategy s (some p) idle time)
          (loop r laws strategy s' none true time)
  unfolding everyone pending
  Finished-Stays p s s' idle time f = record {
    steady = record { sound = f.sound; phase = refl };
    same =
        subst (λ l. Perm l (map ticket (s.finished ++ pending r laws (p ∷ []) s)))
          (sym (
            ap (map ticket) (together f.appended f.rest)
            ∙ finished_tickets f.done p s.finished (pending r laws [] s) f.same))
          Perm.rfl;
    less = λ k. omega (arith, ap (work k) f.rest, work-cons k p (pending r laws [] s));
  }

  module _ (keep : Loop r → Option (Loop r)) (keeps : Keeps keep) (quantum : ℕ) where
    -- The time moves.
    later-Stays :
        (l : Loop r) (time : ℕ) {l0 : Loop r}
        → Stays r laws strategy l0 l
        → Stays r laws strategy l0 (record l { sim_time = time })
    unfolding everyone
    later-Stays l time t = record {
      steady = record { sound = t.steady.sound; phase = t.steady.phase };
      same = t.same;
      less = t.less;
    }

    idle_current :
        (current : Option Process) (idle : Bool) → Phase current idle → idle ≡ true → current ≡ none
    idle_current none idle phase e = refl
    idle_current (some p) idle phase e = absurd (ground (arith, phase.0, e))

    unmoved-Stays : (l : Loop r) → Steady r laws strategy l → Stays r laws strategy l l
    unmoved-Stays l v = record { steady = v; same = Perm.rfl; less = λ k. omega arith }

    unmoved-Keeping : (l : Loop r) → Keeping r laws strategy l l
    unmoved-Keeping l = record { finished = refl; no_more = λ k. omega arith }

    running :
        (current : Option Process) (idle : Bool)
        → Phase current idle
        → idle ≡ false
        → current ≡ none
        → ⊥
    running none idle phase e f = ground (arith, phase, e)
    running (some p) idle phase e f = cc

    -- A loop without a current process after the branch of the scheduler.
    abbrev Scheduled : Loop r → Loop r → Type 0
    Scheduled l l' =
        l'.current ≡ none
        → (l.current ≡ none) × (l'.system ≡ l.system) × (r.is_empty l.system.queue ≡ true)

    schedule-Stays :
        (l : Loop r)
        → Steady r laws strategy l
        → Returns
            (λ l'.
              Stays r laws strategy l l'
              × (l'.sim_time ≡ advance r l.sim_time quantum)
              × Scheduled l l'
              × Keeping r laws strategy l l')
            (schedule r keep quantum l)
    unfolding schedule
    schedule-Stays l v =
        Returns-bind
          {Good = λ l'.
            Stays r laws strategy l l'
            × (l'.sim_time ≡ l.sim_time)
            × Scheduled l l'
            × Keeping r laws strategy l l'}
          (Returns-if l.no_process_running
            (λ e.
              let idle = idle_current l.current l.no_process_running v.phase e in
              Returns-if (r.is_empty l.system.queue)
                (λ none_waits. returns (
                  subst (λ c. Stays r laws strategy l (record l { current = c })) idle
                      (unmoved-Stays l v),
                  refl,
                  λ f. (idle, refl, none_waits),
                  subst (λ c. Keeping r laws strategy l (record l { current = c })) idle
                      (unmoved-Keeping l),
                ))
                (λ full.
                  Returns-bind (start-Stays r laws strategy l v idle full) λ (p, s) (t, kept).
                    returns (t, refl, λ f. absurd (running p false t.steady.phase refl f), kept)))
            (λ e. Returns-mono (keeps l v e) λ l' (t, clock, runs, kept). (
              t,
              clock,
              λ f. absurd (running l'.current l'.no_process_running t.steady.phase runs f),
              kept,
            )))
          λ l' (t, clock, none_runs, kept).
            returns (later-Stays l' _ t, ap (λ x. advance r x quantum) clock, none_runs, kept)

    pub continue_round-Outcome :
        (n : ℕ) (l : Loop r)
        → Steady r laws strategy l
        → Returns
            (λ o. Outcome n l o × GoesOn r laws strategy quantum l o)
            (continue_round r keep quantum strategy l)
    unfolding continue_round
    continue_round-Outcome n l v =
        let s1 = update_input r l.system l.sim_time in
        let m1 =
          update_input-Moved r laws strategy (as_list l.current) l.system l.sim_time v.sound in
        Returns-bind
          (Returns-both (allocate-Moved r laws strategy (as_list l.current) s1 l.sim_time m1.sound)
            (Returns-both (allocate-Cleared r laws strategy l.current s1 l.sim_time m1.sound)
              (allocate-Kept r laws strategy (as_list l.current) s1 l.sim_time m1.sound)))
          λ s (m2, ((kept, clear), level)).
            let t =
              Moved-Stays r laws strategy l (record l { system = s })
                (Moved-trans r laws strategy m1 m2) v.phase in
            Returns-bind (schedule-Stays (record l { system = s }) t.steady)
              λ l' (t', clock, none_runs, level'). returns (
                Stays-trans r laws strategy t t',
                record {
                  clock = clock;
                  was = λ f. (none_runs f).0;
                  finished = level'.finished ∙ m2.finished ∙ m1.finished;
                  lead = omega (
                    arith,
                    level'.no_more l.sim_time,
                    level.no_more l.sim_time,
                    update_input-lead r laws (as_list l.current) l.system l.sim_time,
                  );
                  idle = λ can f.
                      let (none_ran, same, empty) = none_runs f in
                      let q = (laws.is_empty_exact s.queue).0 empty in
                      let l1 = record l { system = s1 } in
                      let fits = CanFinish-input r laws strategy l1 (
                        CanFinish-Stays r laws strategy l l1
                          (Moved-Stays r laws strategy l l1 m1 v.phase) can) in
                      let a = (update_input-Arrived r l.system l.sim_time).0 in
                      subst (Idle r laws l.sim_time) (sym same) (record {
                        queue = q;
                        input = clear fits none_ran q;
                        processes = subst (NoneArrived l.sim_time) (sym kept) a.stops;
                      });
                },
              )
