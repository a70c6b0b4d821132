-- ===== src/Program/Printing.antt =====
-- That print_statistics of src/main.c can print what cycle returns.
use mathlib.Core.List.{map}
use native.Mathlib.Nat.{mul-le-mul_right}
use process_management_syste.Base.{
  ℕ, ◌*◌, ◌^◌, ◌≤◌, ◌<◌, ◌≡◌, refl, ap, ◌∙◌, false, List, [], ◌∷◌, arith, ◌==◌, if◌then◌else◌, Perm,
  Returns,
}
use process_management_syste.Base.Lists.{length, sum_by, sum_by_perm}
use process_management_syste.ProcessData.{Process, Value, get_value}
use process_management_syste.ChildProcess.{is_option}
use process_management_syste.Loading.{Line}
use process_management_syste.Scheduler.Steps.{ticket}
use process_management_syste.Scheduler.Timely.{AllServed}
use process_management_syste.Scheduler.Statistics.{print_statistics}
use process_management_syste.Scheduler.Greatest.{Finite}
use process_management_syste.Scheduler.Ceiling.{
  Printed, greatest_int, total_turnaround, print_statistics-Printed,
}

-- The line of the input that a process comes from.
abbrev pub fields : Line → ℕ × ℕ × ℕ × List ℕ
fields l = (l.time_arrived, l.service_time, l.mem_requirement, l.name)

-- Each line has some service time, and a name that is no option of the child.
unfoldable pub AllRun : List Line → Type 0
AllRun [] = Unit {0}
AllRun (l ∷ ls) = ((0 < l.service_time) × (is_option l.name ≡ false)) × AllRun ls

abbrev instant : ℕ × ℕ × ℕ × List ℕ → ℕ
instant t = if t.1 == 0 then 1 else 0

lines-instant : (ls : List Line) → AllRun ls → sum_by instant (map fields ls) ≡ 0
unfolding AllRun
lines-instant [] run = refl
lines-instant (l ∷ ls) run = ground (arith, run.0.0, lines-instant ls run.1)

-- No overhead is a quotient by zero.
served-Finite :
    (time : ℕ) (ps : List Process)
    → AllServed time ps
    → sum_by instant (map ticket ps) ≡ 0
    → Finite Value.overhead ps
unfolding AllServed Finite get_value ticket
served-Finite time [] all none_instant = tt
served-Finite time (p ∷ ps) (s, all) none_instant =
    let den : p.overhead.den ≡ p.service_time = ap (λ x. x.den) s.overhead in
    (ground (arith, den, none_instant), served-Finite time ps all (ground (arith, none_instant)))

-- No process takes longer than the makespan.
served-total :
    (time : ℕ) (ps : List Process) → AllServed time ps → total_turnaround ps ≤ time * length ps
unfolding AllServed
served-total time [] all = omega arith
served-total time (p ∷ ps) (s, all) =
    omega (arith, s.turnaround_time, s.finished, served-total time ps all)

pub print_statistics-served :
    (done : List Process) (time : ℕ) (ls : List Line)
    → 0 < length done
    → AllServed time done
    → Perm (map ticket done) (map fields ls)
    → AllRun ls
    → time < 2 ^ 31
    → Returns (Printed done time) (print_statistics done time)
print_statistics-served [] time ls some_done all perm run small = absurd (omega arith)
print_statistics-served (p ∷ done) time ls some_done all perm run small =
    let most : time ≤ greatest_int = omega (arith, small) in
    print_statistics-Printed p done time
      (served-Finite time (p ∷ done) all (sum_by_perm instant perm ∙ lines-instant ls run))
      (omega (arith, served-total time (p ∷ done) all, mul-le-mul_right (length (p ∷ done)) most))
