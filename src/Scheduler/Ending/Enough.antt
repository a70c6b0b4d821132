-- ===== src/Scheduler/Ending/Enough.antt =====
-- How many rounds of cycle of src/main.c are enough.
use mathlib.Core.Path.{subst}
use mathlib.Core.List.{map, append-nil}
use process_management_syste.Base.{
  ℕ, zero, suc, ◌+◌, ◌*◌, ◌^◌, ◌≤◌, ◌<◌, ◌≡◌, refl, sym, ap, ◌∙◌, false, Option, none, List, [],
  ◌∷◌, ◌++◌, Perm, arith, ◌==◌, Option-cases, inl, inr, Returns, returns, Returns-bind,
}
use process_management_syste.Base.Lists.{length}
use process_management_syste.ProcessData.{Process}
use process_management_syste.ReadyQueue.{ReadyQueue}
use process_management_syste.ReadyQueue.Laws.{QueueLaws}
use process_management_syste.Scheduler.System.{System}
use process_management_syste.Scheduler.Arrivals.{NoneArrived}
use process_management_syste.Scheduler.Steps.{ticket, pending}
use process_management_syste.Scheduler.Loops.{as_list, everyone, load}
use process_management_syste.Scheduler.Ending.Waiting.{CanFinish, Idle, misfits_perm}
use process_management_syste.Scheduler.Ending.Advance.{Advanced, Timely, Punctual}
use process_management_syste.Scheduler.Sound.{Keeps, Outcome}
use process_management_syste.Scheduler.FullRound.{round_at}
use process_management_syste.Scheduler.Ahead.{AllUnrun}
use process_management_syste.Scheduler.Timely.{AllServed}
use process_management_syste.Scheduler.Rounds.{RunOk, later-RunOk, length_tickets}
use process_management_syste.Scheduler.Cycle.{Loop, Round, next, break, rounds, advance}
use process_management_syste.Scheduler.Ending.Late.{
  late_ones, late_ones-append, late_ones_perm, arrives_by, idle_left, idle_left-less,
  idle_left_mono, time_left, enough_time, ==_sound, some-none,
}

-- A run that has ended in time with every process finished.
abbrev pub Ended : (r : ReadyQueue) → List Process → ℕ → Round r → Type 0
Ended r ps bound (next l) = ⊥
Ended r ps bound (break l) =
    Perm (map ticket l.system.finished) (map ticket ps)
    × (l.sim_time ≤ bound)
    × (AllUnrun ps → AllServed l.sim_time l.system.finished)

module _ (r : ReadyQueue) (laws : QueueLaws r) (strategy : List ℕ) (quantum last : ℕ)
    (ps : List Process) where
  -- The rounds that are left at most.
  unfoldable pub rounds_to_go : Loop r → ℕ
  rounds_to_go l = load r laws strategy quantum l + idle_left quantum last l.sim_time

  -- A loop that will end by the time `bound`.
  pub record Ending (bound : ℕ) (l : Loop r) : Type 0 where
    pub ok : RunOk r laws strategy ps (next l)
    pub waits :
        l.current ≡ none
        → (before : ℕ) × (l.sim_time ≡ before + quantum) × Idle r laws before l.system
    pub more : l.current ≡ none → (length l.system.finished == length ps) ≡ false
    pub time : l.sim_time + rounds_to_go l * quantum ≤ bound
    pub timely :
        AllUnrun ps
        → (before : ℕ) × (l.sim_time ≡ before + quantum) × Timely r laws strategy quantum before l

  someone_comes :
      (before : ℕ) (s : System r) (processes : List Process)
      → s.processes ≡ processes
      → Idle r laws before s
      → late_ones last (s.finished ++ pending r laws [] s) ≡ 0
      → Perm (map ticket (s.finished ++ pending r laws [] s)) (map ticket ps)
      → (length s.finished == length ps) ≡ false
      → before < last
  unfolding pending NoneArrived
  someone_comes before s [] e i late same more =
      let all : s.finished ++ (laws.contents s.queue ++ (s.input ++ s.processes)) ≡ s.finished =
        rw (i.queue, i.input, e) (append-nil s.finished) in
      absurd (==_sound _ _ more (ap length (sym all) ∙ length_tickets _ ps same))
  someone_comes before s (p ∷ rest) e i late same more =
      let all : s.finished ++ (laws.contents s.queue ++ (s.input ++ s.processes))
          ≡ s.finished ++ p ∷ rest =
        rw (i.queue, i.input, e) refl in
      let due : late_ones last (p ∷ rest) ≡ 0 =
        omega (arith, late, ap (late_ones last) all, late_ones-append last s.finished (p ∷ rest)) in
      let comes : before < p.arrival_time = subst (NoneArrived before) e i.processes in
      omega (arith, comes, arrives_by last p rest due)

  module _ (pos : 0 < quantum) (can : CanFinish strategy ps) (due : late_ones last ps ≡ 0) where
    -- Without a process to run, the last of them has not come yet.
    early :
        (bound : ℕ) (l : Loop r) → Ending bound l → l.current ≡ none → l.sim_time < last + quantum
    unfolding everyone
    early bound l g idle =
        let (before, clock, i) = g.waits idle in
        let same =
          subst
            (λ c.
              Perm (map ticket (l.system.finished ++ pending r laws (as_list c) l.system))
                (map ticket ps))
            idle g.ok.1 in
        let late =
          late_ones_perm last (l.system.finished ++ pending r laws [] l.system) ps same ∙ due in
        let h = someone_comes before l.system l.system.processes refl i late same (g.more idle) in
        omega (arith, clock, h)

    fewer_to_go :
        (bound : ℕ) (l l' : Loop r)
        → Ending bound l
        → load r laws strategy quantum l' ≤ load r laws strategy quantum l
        → Advanced r laws strategy quantum (length ps) l l'
        → l'.sim_time ≡ l.sim_time + quantum
        → rounds_to_go l' < rounds_to_go l
    unfolding rounds_to_go
    fewer_to_go bound l l' g less a clock = elim (Option-cases l.current) [
      | inl e ↦
          rw clock
            (omega (arith, less, idle_left-less quantum last l.sim_time pos (early bound l g e)))
      | inr (p, e) ↦ rw clock (
          omega (
            arith,
            a.shrinks pos (λ none. absurd (some-none p (sym e ∙ none))),
            idle_left_mono quantum last l.sim_time,
          ))
    ]

    some_to_go :
        (bound : ℕ) (l l' : Loop r)
        → Ending bound l
        → Advanced r laws strategy quantum (length ps) l l'
        → 0 < rounds_to_go l
    unfolding rounds_to_go
    some_to_go bound l l' g a = elim (Option-cases l.current) [
      | inl e ↦ omega (arith, idle_left-less quantum last l.sim_time pos (early bound l g e))
      | inr (p, e) ↦ omega (arith, a.shrinks pos (λ none. absurd (some-none p (sym e ∙ none))))
    ]

    still_can :
        (l : Loop r)
        → RunOk r laws strategy ps (next l)
        → CanFinish strategy (everyone r laws strategy l)
    still_can l ok = elim can [
      | inl e ↦ inl e
      | inr (e, fit) ↦ inr (e, misfits_perm (everyone r laws strategy l) ps ok.1 ∙ fit)
    ]

    no_wrap : (time : ℕ) → time + quantum < 2 ^ 32 → advance r time quantum ≡ time + quantum
    unfolding advance
    no_wrap time h = omega arith

    module _ (keep : Loop r → Option (Loop r)) (keeps : Keeps r laws strategy keep) (bound : ℕ)
        (fits : bound < 2 ^ 32) where
      next-Ending :
          (l l' : Loop r)
          → Ending bound l
          → Outcome r laws strategy (length ps) l (next l')
          → Advanced r laws strategy quantum (length ps) l l'
          → Punctual r laws strategy quantum l (next l')
          → Ending bound l' × (rounds_to_go l' < rounds_to_go l)
      next-Ending l l' g t a on_time =
          let enough =
            enough_time l.sim_time quantum (rounds_to_go l) bound g.time
              (some_to_go bound l l' g a) in
          let clock : l'.sim_time ≡ l.sim_time + quantum =
            a.clock ∙ no_wrap l.sim_time (omega (arith, enough)) in
          let fewer = fewer_to_go bound l l' g (t.less quantum) a clock in
          (
            record {
              ok = later-RunOk r laws strategy keep keeps quantum ps l (next l') g.ok t;
              waits = λ e. (l.sim_time, clock, a.idle (still_can l g.ok) e);
              more = a.more g.more;
              timely = λ unrun.
                  let (before, was, h) = g.timely unrun in
                  (l.sim_time, clock, on_time before was (omega (arith, enough)) h);
              time =
                  subst (λ x. x + rounds_to_go l' * quantum ≤ bound) (sym clock)
                    (time_left l.sim_time quantum (rounds_to_go l) (rounds_to_go l') bound g.time
                      fewer);
            },
            fewer,
          )

      pub rounds-Ended :
          (k : ℕ) (l : Loop r)
          → Ending bound l
          → rounds_to_go l < k
          → Returns (Ended r ps bound) (rounds r k keep quantum strategy (length ps) l)
      unfolding rounds
      rounds-Ended zero l g h = absurd (omega arith)
      rounds-Ended (suc k) l g h =
          Returns-bind
            (round_at r laws strategy keep keeps quantum (length ps) l.system l.current
              l.no_process_running l.sim_time g.ok.0)
            (elim [
              | next l' ↦ λ (t, a, on_time).
                  let (g', fewer) = next-Ending l l' g t a on_time in
                  rounds-Ended k l' g' (omega (arith, fewer))
              | break l' ↦ λ (t, a, on_time). returns (
                (later-RunOk r laws strategy keep keeps quantum ps l (break l') g.ok t).1,
                omega (arith, a, g.time),
                λ unrun.
                    let (before, was, h) = g.timely unrun in
                    subst (λ t. AllServed t l'.system.finished) (sym a)
                      (on_time before was (omega (arith, g.time)) h),
              )
            ])
