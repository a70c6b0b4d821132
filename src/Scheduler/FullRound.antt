-- ===== src/Scheduler/FullRound.antt =====
-- A whole round of cycle of src/main.c, the branch of update_time included: the loop stays sound, no
-- process is lost, and the run gets closer to its end.
use mathlib.Core.Path.{subst}
use mathlib.Core.List.{map}
use mathlib.Core.List.Perm
use process_management_syste.Base.{
  ℕ, ◌-◌, ◌≤◌, ◌<◌, ◌≡◌, refl, sym, ap, ◌∙◌, Bool, Option, none, some, List, [], ◌∷◌, Perm, arith,
  leb, ◌==◌, Bool-cases, inl, inr, Returns, Returns-mono,
}
use process_management_syste.Base.Lists.{length}
use process_management_syste.Base.Text.{streq}
use process_management_syste.ProcessData.{Process, State, update_time}
use process_management_syste.ReadyQueue.{ReadyQueue}
use process_management_syste.ReadyQueue.Laws.{QueueLaws}
use process_management_syste.MemoryAllocation.{best_fit_name}
use process_management_syste.MemoryAllocation.Owners.{Blocks-head}
use process_management_syste.Scheduler.System.{System}
use process_management_syste.Scheduler.Ending.Waiting.{CanFinish-Stays}
use process_management_syste.Scheduler.Ending.Advance.{
  GoesOn, Advances, Punctual, GoesOn-TimelyAfter,
}
use process_management_syste.Scheduler.Ahead.{ahead-none}
use process_management_syste.Scheduler.Timely.{
  lead, lead-cons, lead_later, clocked-lead, served_later,
}
use process_management_syste.Scheduler.Pids.{Good-fewer, owners, weight}
use process_management_syste.Scheduler.Ending.Work.{
  work-cons, rounds_left, rounds_left_mono, rounds_left-less,
}
use process_management_syste.Scheduler.Steps.{ticket, pending}
use process_management_syste.Scheduler.Loops.{Steady, Stays, Moved-Stays, loop}
use process_management_syste.Scheduler.Sound.{Keeps, Outcome, Outcome-after, continue_round-Outcome}
use process_management_syste.Scheduler.Cycle.{Loop, Round, next, break, round}
use process_management_syste.Scheduler.FinishRound.{finish_round-Outcome}

module _ (r : ReadyQueue) (laws : QueueLaws r) (strategy : List ℕ) where
  module _ (keep : Loop r → Option (Loop r)) (keeps : Keeps r laws strategy keep)
      (quantum : ℕ) where
    -- The clock of the current process moves.
    clocked-Stays :
        (p q : Process) (s : System r) (idle : Bool) (time : ℕ)
        → q.pid ≡ p.pid
        → ticket q ≡ ticket p
        → q.block_node ≡ p.block_node
        → q.service_time_left ≤ p.service_time_left
        → Steady r laws strategy (loop r laws strategy s (some p) idle time)
        → Stays r laws strategy
            (loop r laws strategy s (some p) idle time)
            (loop r laws strategy s (some q) idle time)
    unfolding pending owners ticket
    clocked-Stays p q s idle time pid same block left v =
        Moved-Stays r laws strategy (loop r laws strategy s (some p) idle time)
          (loop r laws strategy s (some q) idle time)
          (record {
            sound = record {
              queue = v.sound.queue;
              memory = v.sound.memory;
              blocks =
                  Blocks-head (streq strategy best_fit_name) s.memory p q (laws.contents s.queue)
                    v.sound.blocks block;
              good = Good-fewer s.os (pending r laws (p ∷ []) s) _ v.sound.good λ m.
                  let same_mark : weight m q.pid q.name ≡ weight m p.pid p.name =
                    λ i. weight m (pid i) (ap (λ t. t.3) same i) in
                  omega (arith, same_mark);
            };
            same =
                subst
                  (λ x.
                    Perm (x ∷ map ticket (pending r laws [] s))
                      (map ticket (pending r laws (p ∷ []) s)))
                  (sym same) Perm.rfl;
            finished = refl;
            less = λ k. omega (
              arith,
              rounds_left_mono k p q left,
              work-cons k p (pending r laws [] s),
              work-cons k q (pending r laws [] s),
            );
          })
          (v.phase.0, ground (arith, v.phase.1, pid))

    some-none : (p : Process) → some p ≡ none → ⊥
    some-none p e = cc

    idle_Advances :
        (n : ℕ) (s : System r) (idle : Bool) (time : ℕ) (o : Round r)
        → GoesOn r laws strategy quantum (loop r laws strategy s none idle time) o
        → Advances r laws strategy quantum n (loop r laws strategy s none idle time) o
    idle_Advances n s idle time (next l') g = record {
      clock = g.clock;
      shrinks = λ pos runs. absurd (runs refl);
      more = λ before e. ap (λ x. length x == n) g.finished ∙ before refl;
      idle = g.idle;
    }
    idle_Advances n s idle time (break l') g = absurd g

    -- The round of a process that runs on, once its clock has moved.
    running_Advances :
        (n : ℕ) (p q : Process) (s : System r) (idle : Bool) (time : ℕ)
        → Stays r laws strategy
            (loop r laws strategy s (some p) idle time)
            (loop r laws strategy s (some q) idle time)
        → (0 < quantum → rounds_left quantum q < rounds_left quantum p)
        → (o : Round r) → Outcome r laws strategy n (loop r laws strategy s (some q) idle time) o
        → GoesOn r laws strategy quantum (loop r laws strategy s (some q) idle time) o
        → Advances r laws strategy quantum n (loop r laws strategy s (some p) idle time) o
    unfolding pending
    running_Advances n p q s idle time t less (next l') u g =
        let l = loop r laws strategy s (some p) idle time in
        let l1 = loop r laws strategy s (some q) idle time in
        record {
          clock = g.clock;
          shrinks = λ pos runs. omega (
            arith,
            u.less quantum,
            less pos,
            work-cons quantum p (pending r laws [] s),
            work-cons quantum q (pending r laws [] s),
          );
          more = λ before e. absurd (some-none q (g.was e));
          idle = λ can e. absurd (some-none q (g.was e));
        }
    running_Advances n p q s idle time t less (break l') u g = absurd g

    after_Advances :
        (n : ℕ) (p q : Process) (s : System r) (idle : Bool) (time : ℕ)
        → Stays r laws strategy
            (loop r laws strategy s (some p) idle time)
            (loop r laws strategy s (some q) idle time)
        → (o : Round r)
        → Advances r laws strategy quantum n (loop r laws strategy s (some q) idle time) o
        → Advances r laws strategy quantum n (loop r laws strategy s (some p) idle time) o
    after_Advances n p q s idle time t (next l') g =
        let l = loop r laws strategy s (some p) idle time in
        let l1 = loop r laws strategy s (some q) idle time in
        record {
          clock = g.clock;
          shrinks = λ pos runs. omega (arith, t.less quantum, g.shrinks pos (λ e. some-none q e));
          more = λ before e. g.more (λ e'. absurd (some-none q e')) e;
          idle = λ can e. g.idle (CanFinish-Stays r laws strategy l l1 t can) e;
        }
    after_Advances n p q s idle time t (break l') g = g

    idle_Punctual :
        (s : System r) (idle : Bool) (time : ℕ) (o : Round r)
        → GoesOn r laws strategy quantum (loop r laws strategy s none idle time) o
        → Punctual r laws strategy quantum (loop r laws strategy s none idle time) o
    idle_Punctual s idle time o g before clock small (zero, served) =
        let later : before ≤ time = omega (arith, clock) in
        GoesOn-TimelyAfter r laws strategy quantum (loop r laws strategy s none idle time) o g (
          omega (arith, zero, lead_later r laws before time [] s later),
          served_later before time s.finished later served,
        )

    running_Punctual :
        (p q : Process) (s : System r) (idle : Bool) (time : ℕ)
        → quantum ≤ p.service_time_left
        → q ≡ record p { service_time_left = p.service_time_left - quantum }
        → (o : Round r)
        → GoesOn r laws strategy quantum (loop r laws strategy s (some q) idle time) o
        → Punctual r laws strategy quantum (loop r laws strategy s (some p) idle time) o
    running_Punctual p q s idle time long is o g before clock small (zero, served) =
        let moved = clocked-lead r laws before quantum p q s long is in
        let same = ap (λ t. lead r laws t (q ∷ []) s) clock in
        GoesOn-TimelyAfter r laws strategy quantum (loop r laws strategy s (some q) idle time) o g (
          omega (arith, zero, moved, same),
          served_later before time s.finished (omega (arith, clock)) served,
        )

    pub round_at :
        (n : ℕ) (s : System r) (current : Option Process) (idle : Bool) (time : ℕ)
        → Steady r laws strategy (loop r laws strategy s current idle time)
        → Returns
            (λ o.
              Outcome r laws strategy n (loop r laws strategy s current idle time) o
              × Advances r laws strategy quantum n (loop r laws strategy s current idle time) o
              × Punctual r laws strategy quantum (loop r laws strategy s current idle time) o)
            (round r keep quantum strategy n (loop r laws strategy s current idle time))
    unfolding round update_time ticket
    round_at n s none idle time v =
        Returns-mono
          (continue_round-Outcome r laws strategy keep keeps quantum n
            (loop r laws strategy s none idle time) v)
          λ o (out, g). (out, idle_Advances n s idle time o g, idle_Punctual s idle time o g)
    round_at n s (some p) idle time v = elim (Bool-cases (leb p.service_time_left quantum)) [
      | inl e ↦
          let q = record p { service_time_left = 0; state = State.finished } in
          let t = clocked-Stays p q s idle time refl refl refl (omega arith) v in
          rw e (
            Returns-mono
              (finish_round-Outcome r laws strategy keep keeps quantum n q s idle time t.steady)
              λ o (out, g, settled). (
                Outcome-after r laws strategy n (loop r laws strategy s (some p) idle time)
                    (loop r laws strategy s (some q) idle time) o t out,
                after_Advances n p q s idle time t o g,
                λ before clock small (zero, served).
                    let all = lead-cons r laws before p s in
                    let ready = ahead-none before p (omega (arith, zero, all)) in
                    settled (ground (arith, ready, clock, e)) small
                      (omega (
                        arith,
                        zero,
                        all,
                        lead_later r laws before time [] s (omega (arith, clock)),
                      ))
                      (served_later before time s.finished (omega (arith, clock)) served),
              ))
      | inr e ↦
          let q = record p { service_time_left = p.service_time_left - quantum } in
          let t = clocked-Stays p q s idle time refl refl refl (omega arith) v in
          rw e (
            Returns-mono
              (continue_round-Outcome r laws strategy keep keeps quantum n
                (loop r laws strategy s (some q) idle time) t.steady)
              λ o (out, g). (
                Outcome-after r laws strategy n (loop r laws strategy s (some p) idle time)
                    (loop r laws strategy s (some q) idle time) o t out,
                running_Advances n p q s idle time t
                    (λ pos. rounds_left-less quantum p q pos (ground (arith, e)) refl) o out g,
                running_Punctual p q s idle time (ground (arith, e)) refl o g,
              ))
    ]
