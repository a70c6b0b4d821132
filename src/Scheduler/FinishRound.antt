-- ===== src/Scheduler/FinishRound.antt =====
-- The rest of a round of cycle of src/main.c in which the current process finishes.
use mathlib.Core.Path.{subst}
use process_management_syste.Base.{
  ℕ, ◌+◌, ◌^◌, ◌≤◌, ◌<◌, ◌≡◌, refl, sym, ap, ◌∙◌, Bool, true, false, Option, none, some, List, [],
  arith, ◌==◌, Returns, returns, Returns-bind, Returns-mono, Returns-if,
}
use process_management_syste.Base.Lists.{length}
use process_management_syste.ProcessData.{Process}
use process_management_syste.ReadyQueue.{ReadyQueue}
use process_management_syste.ReadyQueue.Laws.{QueueLaws}
use process_management_syste.Scheduler.System.{System}
use process_management_syste.Scheduler.Ending.Waiting.{CanFinish-Stays}
use process_management_syste.Scheduler.Ending.Advance.{
  GoesOn, Advances, TimelyAfter, GoesOn-TimelyAfter,
}
use process_management_syste.Scheduler.Timely.{lead, AllServed, AllServed-append, Stamped-Served}
use process_management_syste.Scheduler.Ending.Work.{work, work-cons, rounds_left-pos}
use process_management_syste.Scheduler.Steps.{ticket, pending}
use process_management_syste.Scheduler.Finish.{Finished, finish_process-Finished}
use process_management_syste.Scheduler.Loops.{Steady, loop}
use process_management_syste.Scheduler.Sound.{
  Keeps, Outcome, Outcome-after, Finished-Stays, continue_round-Outcome,
}
use process_management_syste.Scheduler.Cycle.{Loop, Round, next, break, finish_round}

module _ (r : ReadyQueue) (laws : QueueLaws r) (strategy : List ℕ) where
  module _ (keep : Loop r → Option (Loop r)) (keeps : Keeps r laws strategy keep)
      (quantum : ℕ) where
    finished_Advances :
        (n : ℕ) (p : Process) (s s' : System r) (idle : Bool) (time : ℕ)
        → Finished r laws strategy p time s s'
        → (length s'.finished == n) ≡ false
        → (o : Round r) → Outcome r laws strategy n (loop r laws strategy s' none true time) o
        → GoesOn r laws strategy quantum (loop r laws strategy s' none true time) o
        → Advances r laws strategy quantum n (loop r laws strategy s (some p) idle time) o
    unfolding pending
    finished_Advances n p s s' idle time f more (next l') t g =
        let l = loop r laws strategy s (some p) idle time in
        let l1 = loop r laws strategy s' none true time in
        record {
          clock = g.clock;
          shrinks = λ pos some_runs. omega (
            arith,
            t.less quantum,
            ap (work quantum) f.rest,
            work-cons quantum p (pending r laws [] s),
            rounds_left-pos quantum p,
          );
          more = λ before e. ap (λ x. length x == n) g.finished ∙ more;
          idle = λ can e.
              g.idle
                (CanFinish-Stays r laws strategy l l1
                  (Finished-Stays r laws strategy p s s' idle time f) can)
                e;
        }
    finished_Advances n p s s' idle time f more (break l') t g = absurd g

    -- What the round makes of the time, where `p` finishes at `time`.
    abbrev pub Settled : Process → System r → ℕ → Round r → Type 0
    Settled p s time o =
        p.arrival_time + p.service_time ≤ time
        → time < 2 ^ 32
        → lead r laws time [] s ≡ 0
        → AllServed time s.finished
        → TimelyAfter r laws strategy quantum time o

    finished_Served :
        (p : Process) (s s' : System r) (time : ℕ)
        → Finished r laws strategy p time s s'
        → p.arrival_time + p.service_time ≤ time
        → time < 2 ^ 32
        → AllServed time s.finished
        → AllServed time s'.finished
    unfolding ticket
    finished_Served p s s' time f h small all =
        let arrives : f.done.arrival_time ≡ p.arrival_time = ap (λ t. t.0) f.same in
        let serves : f.done.service_time ≡ p.service_time = ap (λ t. t.1) f.same in
        subst (AllServed time) (sym f.appended) (
          AllServed-append time s.finished f.done all
            (Stamped-Served time f.done f.stamped small (omega (arith, arrives, serves, h))))

    pub finish_round-Outcome :
        (n : ℕ) (p : Process) (s : System r) (idle : Bool) (time : ℕ)
        → Steady r laws strategy (loop r laws strategy s (some p) idle time)
        → Returns
            (λ o.
              Outcome r laws strategy n (loop r laws strategy s (some p) idle time) o
              × Advances r laws strategy quantum n (loop r laws strategy s (some p) idle time) o
              × Settled p s time o)
            (finish_round r keep quantum strategy n p (loop r laws strategy s (some p) idle time))
    unfolding finish_round
    finish_round-Outcome n p s idle time v =
        Returns-bind (finish_process-Finished r laws strategy p _ time s v.sound v.phase.1) λ s' f.
          let t = Finished-Stays r laws strategy p s s' idle time f in
          Returns-if (length s'.finished == n)
            (λ all. returns (
              (t, ground (arith, all)),
              refl,
              λ h small zero served. finished_Served p s s' time f h small served,
            ))
            (λ more.
              Returns-mono
                (continue_round-Outcome r laws strategy keep keeps quantum n
                  (loop r laws strategy s' none true time) t.steady)
                λ o (out, goes). (
                  Outcome-after r laws strategy n (loop r laws strategy s (some p) idle time)
                      (loop r laws strategy s' none true time) o t out,
                  finished_Advances n p s s' idle time f more o out goes,
                  λ h small zero served.
                      GoesOn-TimelyAfter r laws strategy quantum
                        (loop r laws strategy s' none true time) o goes
                        (f.lead time ∙ zero, finished_Served p s s' time f h small served),
                ))
