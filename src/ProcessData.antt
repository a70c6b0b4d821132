-- ===== src/ProcessData.antt =====
-- src/process_data.c and src/process_data.h: a process and the functions that read and update it.
-- Numbers of type uint32_t are naturals below 2 ^ 32. `quantum` is the uint32_t that the C code
-- converts its int to where it compares and subtracts it.
pub mod Order
use process_management_syste.Base.{
  Ptr, ℕ, ◌+◌, ◌-◌, ◌%◌, ◌^◌, Bool, true, false, Option, none, some, List, Ordering, compare, leb,
  if◌then◌else◌,
}
use process_management_syste.Base.Text.{or_next, strcmp}

pub data State : Type 0 where
  idle ready running finished : State

-- enum value: the fields that get_value and set_value name
pub data Value : Type 0 where
  arrival_time service_time service_time_left mem_requirement : Value
  finish_time turnaround_time overhead pid : Value

-- The double that get_value returns, as the exact quotient that it stands for.
pub record Ratio : Type 0 where
  pub num : ℕ
  pub den : ℕ

abbrev pub whole : ℕ → Ratio
whole n = record { num = n; den = 1 }

pub record Process : Type 0 where
  pub arrival_time : ℕ
  pub service_time : ℕ
  pub service_time_left : ℕ
  pub finish_time : ℕ
  pub turnaround_time : ℕ
  pub mem_requirement : ℕ
  pub overhead : Ratio
  pub name : List ℕ
  pub state : State
  pub block_node : Option Ptr
  pub pid : ℕ
  pub fd_in : ℕ × ℕ
  pub fd_out : ℕ × ℕ

unfoldable pub get_value : Process → Value → Ratio
get_value p Value.arrival_time = whole p.arrival_time
get_value p Value.service_time = whole p.service_time
get_value p Value.service_time_left = whole p.service_time_left
get_value p Value.mem_requirement = whole p.mem_requirement
get_value p Value.finish_time = whole p.finish_time
get_value p Value.turnaround_time = whole p.turnaround_time
get_value p Value.overhead = p.overhead
get_value p Value.pid = whole p.pid

-- `none` is the exit of the default case: the overhead cannot be set.
unfoldable pub set_value : Process → ℕ → Value → Option Process
set_value p v Value.arrival_time = some (record p { arrival_time = v })
set_value p v Value.service_time = some (record p { service_time = v })
set_value p v Value.service_time_left = some (record p { service_time_left = v })
set_value p v Value.mem_requirement = some (record p { mem_requirement = v })
set_value p v Value.finish_time = some (record p { finish_time = v })
set_value p v Value.turnaround_time = some (record p { turnaround_time = v })
set_value p v Value.overhead = none
set_value p v Value.pid = some (record p { pid = v })

-- The uint32_t subtraction wraps around; the overhead is the quotient of doubles.
unfoldable pub update_stats : Process → Process
update_stats p =
    let t = (p.finish_time + 2 ^ 32 - p.arrival_time) % 2 ^ 32 in
    record p { turnaround_time = t; overhead = record { num = t; den = p.service_time } }

-- `none` is the NULL process. The result says whether the process has finished.
unfoldable pub update_time : ℕ → Option Process → Option Process × Bool
update_time quantum none = (none, false)
update_time quantum (some p) =
    if leb p.service_time_left quantum
    then (some (record p { service_time_left = 0; state = State.finished }), true)
    else (some (record p { service_time_left = p.service_time_left - quantum }), false)

unfoldable pub get_name : Process → List ℕ
get_name p = p.name

unfoldable pub set_state : Process → State → Process
set_state p s = record p { state = s }

unfoldable pub set_block_node : Process → Option Ptr → Process
set_block_node p n = record p { block_node = n }

unfoldable pub get_block_node : Process → Option Ptr
get_block_node p = p.block_node

unfoldable pub set_fds : Process → ℕ × ℕ → ℕ × ℕ → Process
set_fds p fd_in fd_out = record p { fd_in = fd_in; fd_out = fd_out }

unfoldable pub get_fd_in : Process → ℕ × ℕ
get_fd_in p = p.fd_in

unfoldable pub get_fd_out : Process → ℕ × ℕ
get_fd_out p = p.fd_out

-- The sign of the int that the C function returns.
unfoldable pub compare_process : Process → Process → Ordering
compare_process p q =
    or_next (compare p.service_time q.service_time)
      (or_next (compare p.arrival_time q.arrival_time) (strcmp p.name q.name))
