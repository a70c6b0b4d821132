-- ===== src/Scheduler/Ceiling.antt =====
-- What print_statistics of src/main.c prints: the average turnaround time, and the statistics as a whole.
use native.Mathlib.Nat.{mul-pos, mul-le-mul_right, div-mul-le_self, lt-div-mul-add}
use process_management_syste.Base.{
  ℕ, ◌+◌, ◌-◌, ◌*◌, ◌^◌, ◌≤◌, ◌<◌, ◌≡◌, ap, ◌∙◌, List, [], ◌∷◌, arith, Returns, returns, inl, inr,
  Bool-cases, true, ltb, refl, Returns-bind,
}
use process_management_syste.Base.Lists.{length, sum_by}
use process_management_syste.ProcessData.{Process, Value, Ratio, whole, get_value}
use process_management_syste.Scheduler.Greatest.{
  Bounds, Attains, Finite, max-Greatest, Attains-Finite,
}
use process_management_syste.Scheduler.Hundredths.{
  Rounded, numerators, denominators, mean-overhead, denominators-pos, hundredths-Rounded,
}
use process_management_syste.Scheduler.Statistics.{
  Statistics, add_ratio, sum_loop, mean, ceil_ratio, to_int, print_statistics,
}

abbrev pub total_turnaround : List Process → ℕ
total_turnaround ps = sum_by (λ p. p.turnaround_time) ps

add_ratio-whole : (n t : ℕ) → add_ratio (whole n) (whole t) ≡ whole (n + t)
unfolding add_ratio
add_ratio-whole n t =
    let e : n * 1 + t * 1 ≡ n + t = omega arith in λ i. record { num = e i; den = 1 }

sum_loop-whole :
    (n : ℕ) (ps : List Process)
    → sum_loop Value.turnaround_time (whole n) ps ≡ whole (n + total_turnaround ps)
unfolding sum_loop get_value
sum_loop-whole n [] = ap whole (omega arith)
sum_loop-whole n (p ∷ ps) =
    rw (add_ratio-whole n p.turnaround_time)
      (sum_loop-whole (n + p.turnaround_time) ps ∙ ap whole (omega arith))

mean-whole :
    (ps : List Process)
    → mean ps Value.turnaround_time ≡ record { num = total_turnaround ps; den = length ps }
unfolding mean
mean-whole ps = rw (sum_loop-whole 0 ps) (
    let e : 0 + total_turnaround ps ≡ total_turnaround ps = omega arith in
    let d : 1 * length ps ≡ length ps = omega arith in λ i. record { num = e i; den = d i })

ceil_ratio-bounds :
    (n d : ℕ)
    → 0 < d
    → let c = ceil_ratio (record { num = n; den = d }) in (n ≤ c * d) × (c * d < n + d)
unfolding ceil_ratio
ceil_ratio-bounds n d pos = (
  omega (arith, pos, lt-div-mul-add {a = n + (d - 1)} {b = d} pos),
  omega (arith, pos, div-mul-le_self (n + (d - 1)) d),
)

-- What is printed of the processes `ps`: the turnaround time is the exact average, rounded up; the
-- first overhead is the greatest one and the second the average, each to the nearest hundredth.
pub record Printed (ps : List Process) (makespan : ℕ) (s : Statistics) : Type 0 where
  pub at_least : total_turnaround ps ≤ s.turnaround * length ps
  pub less_than : s.turnaround * length ps < total_turnaround ps + length ps
  pub greatest : Ratio
  pub bounds : Bounds Value.overhead greatest ps
  pub attained : Attains Value.overhead greatest ps
  pub max_overhead : Rounded greatest.num greatest.den s.max_overhead
  pub avg_overhead : Rounded (numerators ps) (denominators ps * length ps) s.avg_overhead
  pub makespan_kept : s.makespan ≡ makespan

-- The greatest average that an int has room for.
abbrev pub greatest_int : ℕ
greatest_int = 2 ^ 31 - 1

fits_int : (total n c : ℕ) → total ≤ greatest_int * n → c * n < total + n → ltb c (2 ^ 31) ≡ true
fits_int total n c small less = elim (Bool-cases (ltb c (2 ^ 31))) [
  | inl e ↦ e
  | inr e ↦
      let large : 2 ^ 31 ≤ c = ground (arith, e) in
      absurd (omega (arith, small, less, mul-le-mul_right n large))
]

pub print_statistics-Printed :
    (p : Process) (ps : List Process) (makespan : ℕ)
    → Finite Value.overhead (p ∷ ps)
    → total_turnaround (p ∷ ps) ≤ greatest_int * length (p ∷ ps)
    → Returns (Printed (p ∷ ps) makespan) (print_statistics (p ∷ ps) makespan)
unfolding print_statistics to_int
print_statistics-Printed p ps makespan fin small =
    let total = total_turnaround (p ∷ ps) in
    let n = length (p ∷ ps) in
    let b = ceil_ratio-bounds total n (omega arith) in
    let fits = fits_int total n (ceil_ratio (record { num = total; den = n })) small b.1 in
    rw (mean-whole (p ∷ ps), fits, mean-overhead (p ∷ ps))
      (Returns-bind (max-Greatest p ps Value.overhead fin) λ m (bounds, attained). returns (record {
        at_least = b.0;
        less_than = b.1;
        greatest = m;
        bounds = bounds;
        attained = attained;
        max_overhead = hundredths-Rounded m (Attains-Finite Value.overhead m (p ∷ ps) fin attained);
        avg_overhead = hundredths-Rounded _ (mul-pos (denominators-pos (p ∷ ps) fin) (omega arith));
        makespan_kept = refl;
      }))
