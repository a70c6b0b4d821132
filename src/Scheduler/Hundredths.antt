-- ===== src/Scheduler/Hundredths.antt =====
-- The overheads that print_statistics of src/main.c prints, in hundredths.
use native.Mathlib.Nat.{mul-pos, div-mul-le_self, lt-div-mul-add}
use process_management_syste.Base.{
  ℕ, ◌+◌, ◌*◌, ◌/◌, ◌≤◌, ◌<◌, ◌≡◌, refl, ap, ◌∙◌, Option, some, List, [], ◌∷◌, arith, ◌==◌, false,
}
use process_management_syste.Base.Lists.{length}
use process_management_syste.ProcessData.{Process, Value, Ratio, get_value}
use process_management_syste.Scheduler.Statistics.{add_ratio, sum_loop, mean, hundredths}
use process_management_syste.Scheduler.Greatest.{Finite}

-- The product of the denominators of the overheads, and the sum of the overheads over it.
abbrev pub denominators : List Process → ℕ
denominators [] = 1
denominators (p ∷ ps) = p.overhead.den * denominators ps

abbrev pub numerators : List Process → ℕ
numerators [] = 0
numerators (p ∷ ps) = p.overhead.num * denominators ps + p.overhead.den * numerators ps

add_overhead :
    (n d : ℕ) (p : Process)
    → add_ratio (record { num = n; den = d }) p.overhead
      ≡ record { num = n * p.overhead.den + p.overhead.num * d; den = d * p.overhead.den }
unfolding add_ratio
add_overhead n d p = refl

sum_loop-overhead :
    (n d : ℕ) (ps : List Process)
    → sum_loop Value.overhead (record { num = n; den = d }) ps
      ≡ record { num = n * denominators ps + d * numerators ps; den = d * denominators ps }
unfolding sum_loop get_value
sum_loop-overhead n d [] =
    let e : n ≡ n * 1 + d * 0 = omega arith in
    let f : d ≡ d * 1 = omega arith in λ i. record { num = e i; den = f i }
sum_loop-overhead n d (p ∷ ps) =
    let x = p.overhead.num in
    let y = p.overhead.den in
    let D = denominators ps in
    let N = numerators ps in
    let e : (n * y + x * d) * D + d * y * N ≡ n * (y * D) + d * (x * D + y * N) = omega arith in
    let f : d * y * D ≡ d * (y * D) = omega arith in
    ap (λ s. sum_loop Value.overhead s ps) (add_overhead n d p)
    ∙ sum_loop-overhead (n * y + x * d) (d * y) ps
    ∙ λ i. record { num = e i; den = f i }

-- The mean of the overheads.
pub mean-overhead :
    (ps : List Process)
    → mean ps Value.overhead ≡ record { num = numerators ps; den = denominators ps * length ps }
unfolding mean
mean-overhead ps =
    let e : 0 * denominators ps + 1 * numerators ps ≡ numerators ps = omega arith in
    let f : 1 * denominators ps * length ps ≡ denominators ps * length ps = omega arith in
    ap (λ s. record { num = s.num; den = s.den * length ps }) (sum_loop-overhead 0 1 ps) ∙ λ i.
    record { num = e i; den = f i }

pub denominators-pos : (ps : List Process) → Finite Value.overhead ps → 0 < denominators ps
unfolding Finite get_value
denominators-pos [] fin = omega arith
denominators-pos (p ∷ ps) fin = mul-pos fin.0 (denominators-pos ps fin.1)

-- What is printed is the nearest number of hundredths to n / d, the larger of two.
abbrev pub Rounded : ℕ → ℕ → Option ℕ → Type 0
Rounded n d o =
    (h : ℕ) × (o ≡ some h)
    × (h * (2 * d) ≤ 2 * (100 * n) + d)
    × (2 * (100 * n) + d < h * (2 * d) + 2 * d)

pub hundredths-Rounded : (x : Ratio) → 0 < x.den → Rounded x.num x.den (hundredths x)
unfolding hundredths
hundredths-Rounded x pos =
    let n = 2 * (100 * x.num) + x.den in
    let d = 2 * x.den in
    let some_number : (x.den == 0) ≡ false = ground (arith, pos) in
    (
      n / d,
      rw some_number refl,
      div-mul-le_self n d,
      omega (arith, lt-div-mul-add {a = n} {b = d} (omega (arith, pos))),
    )
