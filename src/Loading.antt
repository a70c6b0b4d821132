-- ===== src/Loading.antt =====
-- load_processes and read_process of src/process_data.c. A file is its characters from the current
-- position on. `none` is undefined behaviour (a name that overflows its array, a number that does not
-- fit into its variable) or a negative number, which the model leaves out; for the loop also a run
-- that does not end in the rounds given. What malloc returns is a process of any content.
pub mod Format
pub mod Lines
pub mod Stuck
pub mod Tests
use process_management_syste.Base.{
  ℕ, zero, suc, ◌+◌, ◌^◌, Option, none, some, List, [], ◌∷◌, ◌>>=◌, ltb, ◌==◌, if◌then◌else◌,
}
use process_management_syste.Base.Lists.{length}
use process_management_syste.Base.Scan.{is_digit, skip_space, read_digits, read_word}
use process_management_syste.ProcessData.{Process, State}
use process_management_syste.ReadyQueue.{enqueue}

-- The variables of read_process that fscanf writes.
pub record Line : Type 0 where
  pub time_arrived : ℕ
  pub name : List ℕ
  pub service_time : ℕ
  pub mem_requirement : ℕ

abbrev pub blank_line : Line
blank_line = record { time_arrived = 0; name = []; service_time = 0; mem_requirement = 0 }

abbrev pub max_name_len : ℕ
max_name_len = 8

-- The inner `none` is a matching failure, which leaves the text where it is.
unfoldable pub scan_unsigned : ℕ → List ℕ → Option (Option ℕ × List ℕ)
scan_unsigned limit [] = some (none, [])
scan_unsigned limit (c ∷ s) =
    let (v, rest) = read_digits 0 (c ∷ s) in
    if is_digit c then (if ltb v limit then some (some v, rest) else none) else some (none, c ∷ s)

unfoldable pub scan_negative : List ℕ → Option (Option ℕ × List ℕ)
scan_negative [] = some (none, [])
scan_negative (c ∷ s) = if is_digit c then none else some (none, c ∷ s)

-- `%u` with the limit 2 ^ 32 and `%d` with the limit 2 ^ 31, at a text without leading white space.
unfoldable pub scan_number : ℕ → List ℕ → Option (Option ℕ × List ℕ)
unfolding scan_unsigned scan_negative
scan_number limit [] = some (none, [])
scan_number limit (c ∷ s) =
    if c == b'+'
    then scan_unsigned limit s
    else if c == b'-'
    then scan_negative s
    else scan_unsigned limit (c ∷ s)

-- `%s` into an array of max_name_len bytes.
unfoldable pub scan_name : List ℕ → Option (Option (List ℕ) × List ℕ)
scan_name [] = some (none, [])
scan_name (c ∷ s) =
    let (w, rest) = read_word (c ∷ s) in
    if ltb (length w) max_name_len then some (some w, rest) else none

-- The last conversion, and the result of fscanf.
unfoldable pub scan_last : ℕ → List ℕ → ℕ → List ℕ → Option (Option Line × List ℕ)
scan_last t name service s = do
  (m, rest) ← scan_number (2 ^ 31) (skip_space s)
  let mem : ℕ = elim m [ none ↦ 0 | some v ↦ v ]
  some (
    some (record { time_arrived = t; name = name; service_time = service; mem_requirement = mem }),
    rest,
  )

unfoldable pub scan_service : ℕ → List ℕ → List ℕ → Option (Option Line × List ℕ)
unfolding scan_last
scan_service t name s = do
  (v, rest) ← scan_number (2 ^ 32) (skip_space s)
  elim v [
    | none ↦ some (some (record blank_line { time_arrived = t; name = name }), rest)
    | some service ↦ scan_last t name service rest
  ]

unfoldable pub scan_rest : ℕ → List ℕ → Option (Option Line × List ℕ)
unfolding scan_service
scan_rest t s = do
  (w, rest) ← scan_name (skip_space s)
  elim w [
    | none ↦ some (some (record blank_line { time_arrived = t }), rest)
    | some name ↦ scan_service t name rest
  ]

-- fscanf with "%u %s %u %d", at a text without leading white space. The inner `none` is EOF, which is
-- returned where nothing is left; after the first conversion the variables that are not reached keep
-- their values.
unfoldable pub scan_at : List ℕ → Option (Option Line × List ℕ)
unfolding scan_rest
scan_at [] = some (none, [])
scan_at (c ∷ s) = do
  (v, rest) ← scan_number (2 ^ 32) (c ∷ s)
  elim v [ none ↦ some (some blank_line, rest) | some t ↦ scan_rest t rest ]

unfoldable pub scan_line : List ℕ → Option (Option Line × List ℕ)
unfolding scan_at
scan_line s = scan_at (skip_space s)

-- strdup copies up to the terminator.
unfoldable pub strdup : List ℕ → List ℕ
strdup [] = []
strdup (c ∷ s) = let rest = strdup s in if c == 0 then [] else c ∷ rest

-- The assignments of read_process to the process `p` that malloc returned.
unfoldable pub new_process : Process → Line → Process
unfolding strdup
new_process p l = record p {
  state = State.idle;
  mem_requirement = l.mem_requirement;
  service_time = l.service_time;
  service_time_left = l.service_time;
  arrival_time = l.time_arrived;
  name = strdup l.name;
  block_node = none;
  pid = 0;
}

-- The inner `none` is the NULL process.
unfoldable pub read_process : Process → List ℕ → Option (Option Process × List ℕ)
unfolding scan_line new_process
read_process p s = do
  (l, rest) ← scan_line s
  some (elim l [ none ↦ none | some l ↦ some (new_process p l) ], rest)

-- The loop of load_processes for `k` rounds at most. `fresh` is what malloc returns, by the number of
-- processes there are; enqueue of NULL returns 0, which ends the loop.
unfoldable pub load_loop : ℕ → (ℕ → Process) → List Process → List ℕ → Option (List Process)
unfolding enqueue
load_loop zero fresh processes s = none
load_loop (suc k) fresh processes s = do
  (p, rest) ← read_process (fresh (length processes)) s
  elim p [
    | none ↦ some processes
    | some p ↦ do processes' ← enqueue processes p; load_loop k fresh processes' rest
  ]

unfoldable pub load_processes : ℕ → (ℕ → Process) → List ℕ → Option (List Process)
load_processes k fresh s = load_loop k fresh [] s
