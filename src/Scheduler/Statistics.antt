-- ===== src/Scheduler/Statistics.antt =====
-- print_statistics, mean and max of src/main.c over the list of finished processes. A double is the
-- exact quotient that it stands for, and what is printed is in hundredths.
use process_management_syste.Base.{
  ℕ, ◌+◌, ◌-◌, ◌*◌, ◌/◌, ◌^◌, Bool, Option, none, some, List, [], ◌∷◌, ◌>>=◌, ltb, ◌==◌,
  if◌then◌else◌,
}
use process_management_syste.Base.Lists.{length}
use process_management_syste.ProcessData.{Process, Value, Ratio, whole, get_value}

unfoldable pub add_ratio : Ratio → Ratio → Ratio
add_ratio x y = record { num = x.num * y.den + y.num * x.den; den = x.den * y.den }

-- `x > y`
unfoldable pub gt_ratio : Ratio → Ratio → Bool
gt_ratio x y = ltb (y.num * x.den) (x.num * y.den)

-- The loop of mean, with the sum so far.
unfoldable pub sum_loop : Value → Ratio → List Process → Ratio
sum_loop field sum [] = sum
sum_loop field sum (p ∷ ps) = sum_loop field (add_ratio sum (get_value p field)) ps

unfoldable pub mean : List Process → Value → Ratio
mean ps field =
    let sum = sum_loop field (whole 0) ps in record { num = sum.num; den = sum.den * length ps }

-- The loop of max, with the maximum so far.
unfoldable pub max_loop : Value → Ratio → List Process → Ratio
max_loop field best [] = best
max_loop field best (p ∷ ps) =
    let x = get_value p field in max_loop field (if gt_ratio x best then x else best) ps

-- `none` is the read of the data of a NULL head.
unfoldable pub max : List Process → Value → Option Ratio
max [] field = none
max (p ∷ ps) field = some (max_loop field (get_value p field) (p ∷ ps))

-- ceil
unfoldable pub ceil_ratio : Ratio → ℕ
ceil_ratio x = (x.num + (x.den - 1)) / x.den

-- The conversion of a double to an int, which is undefined where the int has no room for it.
unfoldable pub to_int : ℕ → Option ℕ
to_int n = if ltb n (2 ^ 31) then some n else none

-- round of a hundredfold. `none` is the infinity, or the number that is none, that a quotient by zero
-- is, and a sum with one.
unfoldable pub hundredths : Ratio → Option ℕ
hundredths x = if x.den == 0 then none else some ((2 * (100 * x.num) + x.den) / (2 * x.den))

pub record Statistics : Type 0 where
  pub turnaround : ℕ
  pub max_overhead : Option ℕ
  pub avg_overhead : Option ℕ
  pub makespan : ℕ

-- `none` is undefined behaviour: an average that does not fit into the int, or no process.
unfoldable pub print_statistics : List Process → ℕ → Option Statistics
unfolding to_int
print_statistics finished makespan = do
  turnaround ← to_int (ceil_ratio (mean finished Value.turnaround_time))
  greatest ← max finished Value.overhead
  some (record {
    turnaround = turnaround;
    max_overhead = hundredths greatest;
    avg_overhead = hundredths (mean finished Value.overhead);
    makespan = makespan;
  })
