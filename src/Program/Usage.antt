-- ===== src/Program/Usage.antt =====
-- The whole program of src/main.c, called as README.md says.
use mathlib.Core.List.{map}
use process_management_syste.Base.{ℕ, ◌+◌, ◌/◌, ◌≤◌, ◌≡◌, ◌⊎◌, List, [], ◌∷◌, Perm}
use process_management_syste.Base.Lists.{sum_by}
use process_management_syste.Base.Scan.{decimal}
use process_management_syste.ProcessData.{Process}
use process_management_syste.MemoryAllocation.{best_fit_name, infinite_name, mem_capacity}
use process_management_syste.MemoryAllocation.Allocate.{Event}
use process_management_syste.Loading.{Line}
use process_management_syste.Scheduler.Statistics.{Statistics}
use process_management_syste.Scheduler.Steps.{ticket}
use process_management_syste.Scheduler.Timely.{AllServed}
use process_management_syste.Scheduler.Ceiling.{Printed}
use process_management_syste.Program.Printing.{fields}

-- What getopt returns for `allocate -f <file> -s <scheduler> -m <strategy> -q <quantum>`.
abbrev pub usage : List ℕ → List ℕ → List ℕ → ℕ → List (ℕ × List ℕ)
usage file scheduler strategy quantum =
    (b'f', file) ∷ (b's', scheduler) ∷ (b'm', strategy) ∷ (b'q', decimal quantum) ∷ []

unfoldable pub ArriveBy : ℕ → List Line → Type 0
ArriveBy last [] = Unit {0}
ArriveBy last (l ∷ ls) = (l.time_arrived ≤ last) × ArriveBy last ls

unfoldable pub AllSmall : List Line → Type 0
AllSmall [] = Unit {0}
AllSmall (l ∷ ls) = (l.mem_requirement ≤ mem_capacity) × AllSmall ls

-- A round for each `quantum` of each service time and one more, and those until the last arrival.
unfoldable pub rounds_of_lines : ℕ → ℕ → List Line → ℕ
rounds_of_lines quantum last ls = sum_by (λ l. l.service_time / quantum + 1) ls + last / quantum + 2

-- The strategy is one of the two, and under best-fit each process is small enough for the memory.
abbrev pub Runnable : List ℕ → List Line → Type 0
Runnable strategy ls = (strategy ≡ infinite_name) ⊎ ((strategy ≡ best_fit_name) × AllSmall ls)

-- The finished processes are those of the lines, in some order, with their statistics, and the makespan
-- is at most `bound`; what is printed is printed of them.
abbrev pub Completed : List Line → ℕ → List Process × Statistics × List Event → Type 0
Completed ls bound (done, statistics, log) =
    Perm (map ticket done) (map fields ls)
    × (statistics.makespan ≤ bound)
    × AllServed statistics.makespan done
    × Printed done statistics.makespan statistics
