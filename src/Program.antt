-- ===== src/Program.antt =====
-- main and process_args of src/main.c. What getopt returns, one option after another with its
-- optarg, and the files that fopen can open are parameters. `none` is a failed assertion, an exit, a
-- fault, undefined behaviour, or a run that does not end in the rounds given. The frees at the end of
-- main are left out.
pub mod Printing
pub mod Usage
mod Tests
use process_management_syste.Base.{
  ℕ, ◌^◌, Option, none, some, List, [], ◌∷◌, ◌>>=◌, ◌==◌, if◌then◌else◌,
}
use process_management_syste.Base.Scan.{skip_space}
use process_management_syste.ProcessData.{Process}
use process_management_syste.MemoryAllocation.Allocate.{Event}
use process_management_syste.Loading.{scan_number, load_processes}
use process_management_syste.Scheduler.Cycle.{cycle}
use process_management_syste.Scheduler.Statistics.{Statistics, print_statistics}

-- The variables of main that process_args sets; `none` is NULL, or the quantum before it is set.
pub record Args : Type 0 where
  pub scheduler : Option (List ℕ)
  pub mem_strategy : Option (List ℕ)
  pub quantum : Option ℕ
  pub file : Option (List ℕ)

-- The files by name.
abbrev pub Files : Type 0
Files = List ℕ → Option (List ℕ)

-- `none` where the number does not fit into an int, or is negative, which the model leaves out.
unfoldable pub atoi : List ℕ → Option ℕ
atoi s = do (v, rest) ← scan_number (2 ^ 31) (skip_space s); some (elim v [ none ↦ 0 | some n ↦ n ])

-- A round of the loop of process_args.
unfoldable pub process_opt : Files → Args → ℕ × List ℕ → Option Args
unfolding atoi
process_opt files a (opt, optarg) =
    let opened : Option Args = (do
      content ← files optarg
      some (record a { file = some content })) in
    let timed : Option Args = (do n ← atoi optarg; some (record a { quantum = some n })) in
    if opt == b'm'
    then some (record a { mem_strategy = some optarg })
    else if opt == b's'
    then some (record a { scheduler = some optarg })
    else if opt == b'f'
    then opened
    else if opt == b'q'
    then timed
    else if opt == b'?'
    then none
    else some a

unfoldable pub process_opts : Files → Args → List (ℕ × List ℕ) → Option Args
unfolding process_opt
process_opts files a [] = some a
process_opts files a (o ∷ opts) = do a' ← process_opt files a o; process_opts files a' opts

abbrev pub num_args : ℕ
num_args = 9

unfoldable pub process_args : Files → ℕ → List (ℕ × List ℕ) → Option Args
unfolding process_opts
process_args files argc opts =
    let unset : Args = record {
      scheduler = none;
      mem_strategy = none;
      quantum = none;
      file = none;
    } in
    if argc == num_args then process_opts files unset opts else none

-- main up to the frees: the finished processes in order, the statistics and the lines printed before
-- them. `k` bounds the rounds of the loops of load_processes and of cycle; `fresh` is what malloc
-- returns to read_process.
unfoldable pub main :
    ℕ
    → (ℕ → Process)
    → Files
    → ℕ
    → List (ℕ × List ℕ)
    → Option (List Process × Statistics × List Event)
main k fresh files argc opts = do
  a ← process_args files argc opts
  content ← a.file
  processes ← load_processes k fresh content
  quantum ← a.quantum
  scheduler ← a.scheduler
  strategy ← a.mem_strategy
  (done, makespan, log) ← cycle k quantum processes scheduler strategy
  statistics ← print_statistics done makespan
  some (done, statistics, log)
