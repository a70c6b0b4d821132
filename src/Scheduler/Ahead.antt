-- ===== src/Scheduler/Ahead.antt =====
-- When a process of src/main.c is ahead of the clock: it has run for longer than it has been there.
use mathlib.Core.List.{map}
use process_management_syste.Base.{
  ℕ, ◌+◌, ◌≤◌, ◌≡◌, refl, ap, List, [], ◌∷◌, arith, leb, ◌==◌, if◌then◌else◌,
}
use process_management_syste.Base.Lists.{sum_by}
use process_management_syste.ProcessData.{Process, set_state, set_block_node}
use process_management_syste.MemoryAllocation.Conserve.{ident}
use process_management_syste.Scheduler.Arrivals.{AllArrived}
use process_management_syste.Scheduler.Steps.{ticket}

-- 1 for a process that has run for longer, at `time`, than it has been there.
unfoldable pub ahead : ℕ → Process → ℕ
ahead time p = if leb (p.arrival_time + p.service_time) (time + p.service_time_left) then 0 else 1

-- 1 for a process that has run.
unfoldable pub has_run : Process → ℕ
has_run p = if p.service_time_left == p.service_time then 0 else 1

pub ahead-none :
    (time : ℕ) (p : Process)
    → ahead time p ≡ 0
    → p.arrival_time + p.service_time ≤ time + p.service_time_left
unfolding ahead
ahead-none time p e = ground (arith, e)

pub none-ahead :
    (time : ℕ) (p : Process)
    → p.arrival_time + p.service_time ≤ time + p.service_time_left
    → ahead time p ≡ 0
unfolding ahead
none-ahead time p e = ground (arith, e)

pub ahead-same :
    (time : ℕ) (p q : Process)
    → ticket q ≡ ticket p
    → q.service_time_left ≡ p.service_time_left
    → ahead time q ≡ ahead time p
unfolding ahead ticket
ahead-same time p q same left =
    let arrives : q.arrival_time ≡ p.arrival_time = ap (λ t. t.0) same in
    let serves : q.service_time ≡ p.service_time = ap (λ t. t.1) same in
    rw (arrives, serves, left) refl

-- No process has run yet.
unfoldable pub AllUnrun : List Process → Type 0
AllUnrun [] = Unit {0}
AllUnrun (p ∷ ps) = (p.service_time_left ≡ p.service_time) × AllUnrun ps

pub AllUnrun-has_run : (ps : List Process) → AllUnrun ps → sum_by has_run ps ≡ 0
unfolding AllUnrun has_run
AllUnrun-has_run [] h = refl
AllUnrun-has_run (p ∷ ps) h = ground (arith, h.0, AllUnrun-has_run ps h.1)

ahead_later : (time later : ℕ) (p : Process) → time ≤ later → ahead later p ≤ ahead time p
unfolding ahead
ahead_later time later p h = ground (arith, h)

pub sum_by-ident :
    (weight : Process → ℕ) (ps : List Process)
    → ((p : Process) → weight (ident p) ≡ weight p)
    → sum_by weight (map ident ps) ≡ sum_by weight ps
sum_by-ident weight [] e = refl
sum_by-ident weight (p ∷ ps) e = omega (arith, e p, sum_by-ident weight ps e)

pub ahead-ident : (time : ℕ) (p : Process) → ahead time (ident p) ≡ ahead time p
unfolding ahead ident set_state set_block_node
ahead-ident time p = refl

pub sum_later :
    (time later : ℕ) (ps : List Process)
    → time ≤ later
    → sum_by (ahead later) ps ≤ sum_by (ahead time) ps
sum_later time later [] h = omega arith
sum_later time later (p ∷ ps) h =
    omega (arith, ahead_later time later p h, sum_later time later ps h)

arrived_ahead : (time : ℕ) (p : Process) → p.arrival_time ≤ time → ahead time p ≤ has_run p
unfolding ahead has_run
arrived_ahead time p h = ground (arith, h)

pub arrived_sum :
    (time : ℕ) (ps : List Process) → AllArrived time ps → sum_by (ahead time) ps ≤ sum_by has_run ps
unfolding AllArrived
arrived_sum time [] h = omega arith
arrived_sum time (p ∷ ps) h = omega (arith, arrived_ahead time p h.0, arrived_sum time ps h.1)
