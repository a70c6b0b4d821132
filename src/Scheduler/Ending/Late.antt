-- ===== src/Scheduler/Ending/Late.antt =====
-- How many processes are yet to arrive at the cycle of src/main.c, and how long that can take.
use mathlib.Core.List.{map}
use native.Mathlib.Nat.{div-eq-sub-div}
use process_management_syste.Base.{
  ℕ, ◌+◌, ◌-◌, ◌*◌, ◌/◌, ◌≤◌, ◌<◌, ◌≡◌, false, none, some, List, [], ◌∷◌, ◌++◌, Perm, arith, leb,
  ◌==◌, if◌then◌else◌,
}
use process_management_syste.Base.Lists.{sum_by, sum_by_perm}
use process_management_syste.ProcessData.{Process}
use process_management_syste.Scheduler.Ending.Work.{div_mono}
use process_management_syste.Scheduler.Steps.{ticket}

-- 1 for a process that arrives after `last`.
unfoldable pub late_by : ℕ → ℕ × ℕ × ℕ × List ℕ → ℕ
late_by last t = if leb t.0 last then 0 else 1

unfoldable pub late_ones : ℕ → List Process → ℕ
late_ones last ps = sum_by (late_by last) (map ticket ps)

pub late_ones-append :
    (last : ℕ) (ps qs : List Process)
    → late_ones last (ps ++ qs) ≡ late_ones last ps + late_ones last qs
unfolding late_ones
late_ones-append last [] qs = omega arith
late_ones-append last (p ∷ ps) qs = omega (arith, late_ones-append last ps qs)

pub late_ones_perm :
    (last : ℕ) (ps qs : List Process)
    → Perm (map ticket ps) (map ticket qs)
    → late_ones last ps ≡ late_ones last qs
unfolding late_ones
late_ones_perm last ps qs perm = sum_by_perm (late_by last) perm

pub arrives_by :
    (last : ℕ) (p : Process) (ps : List Process)
    → late_ones last (p ∷ ps) ≡ 0
    → p.arrival_time ≤ last
unfolding late_ones late_by ticket
arrives_by last p ps e = ground (arith, e)

-- The rounds that may pass without a process to run, at `time`.
unfoldable pub idle_left : ℕ → ℕ → ℕ → ℕ
idle_left quantum last time = (last + 2 * quantum - time) / quantum

pub idle_left-less :
    (quantum last time : ℕ)
    → 0 < quantum
    → time < last + quantum
    → idle_left quantum last (time + quantum) < idle_left quantum last time
unfolding idle_left
idle_left-less quantum last time pos early =
    let less = div-eq-sub-div {m = quantum} {n = last + 2 * quantum - time} pos (omega arith) in
    let same : last + 2 * quantum - (time + quantum) ≡ last + 2 * quantum - time - quantum =
      omega arith in
    rw same (omega (arith, less))

pub idle_left_mono :
    (quantum last time : ℕ) → idle_left quantum last (time + quantum) ≤ idle_left quantum last time
unfolding idle_left
idle_left_mono quantum last time = div_mono _ _ quantum (omega arith)

-- A round takes one of the rounds that are left, and its time off the time that is left.
pub time_left :
    (time quantum k k' bound : ℕ)
    → time + k * quantum ≤ bound
    → k' < k
    → time + quantum + k' * quantum ≤ bound
time_left time quantum k k' bound h less = grind arith

pub enough_time :
    (time quantum k bound : ℕ) → time + k * quantum ≤ bound → 0 < k → time + quantum ≤ bound
enough_time time quantum k bound h pos = grind arith

pub ==_sound : (a b : ℕ) → (a == b) ≡ false → a ≡ b → ⊥
==_sound a b e f = absurd (ground (arith, e, f))

pub some-none : (p : Process) → some p ≡ none → ⊥
some-none p e = cc
