-- ===== src/Scheduler/Tests.antt =====
-- The scheduler against cases/task1/simple-sjf.out and the first process of cases/extra/skip.out.
use process_management_syste.Base.{
  ◌^◌, ℕ, ◌≡◌, inr, refl, Option, none, some, List, [], ◌∷◌, arith, ◌>>=◌, Returns,
}
use process_management_syste.Base.Lists.{replicate}
use process_management_syste.Base.Text.{codes, streq, strcmp}
use process_management_syste.ProcessData.{
  Process, State, Value, get_value, whole, set_state, get_name, set_fds, set_value, update_time,
  update_stats, compare_process,
}
use process_management_syste.MinHeap.{
  create_heap, insert_data, extract_min, is_empty_heap, get_heap_size,
}
use process_management_syste.ReadyQueue.{heap_queue, list_queue}
use process_management_syste.ReadyQueue.Laws.{heap_queue-QueueLaws, list_queue-QueueLaws}
use process_management_syste.ChildProcess.{Child, Op, boot, is_option, on_sigterm, on_sigcont}
use process_management_syste.ChildProcess.Sha256.{
  sha256_hash, digest, full_blocks, sha256_process_final, sha256_init, sha256_h0, sha256_process,
  set_length, uint32_array_to_hex_string,
}
use process_management_syste.MemoryAllocation.{
  infinite_name, best_fit_name, initialise_memory, create_block, deallocate_memory,
}
use process_management_syste.MemoryAllocation.Allocate.{
  Event, running, finished, finished_process, allocate_memory, move_all, process_ready,
}
use process_management_syste.Scheduler.Real.{
  send_bytes, last_byte, find_child, set_child, remove_child, read_and_verify, start_real_process,
  continue_process, suspend_process, Children, Os,
}
use process_management_syste.Scheduler.System.{
  arrivals, update_input, allocate, start_or_continue, run_next_process, finish_process,
}
use process_management_syste.Scheduler.Cycle.{
  cycle, sjf_name, start_system, simulate, first_round, round, rounds, advance, finish_round,
  continue_round, schedule, keep_sjf, keep_rr, go_on,
}
use process_management_syste.Scheduler.Statistics.{
  print_statistics, mean, sum_loop, max, max_loop, add_ratio, gt_ratio, ceil_ratio, hundredths,
  to_int,
}
use process_management_syste.Scheduler.Greatest.{Bounds, Attains, Finite, max-Greatest}
use process_management_syste.Scheduler.Arrivals.{Arrived, NoneArrived, update_input-Arrived}
use process_management_syste.Scheduler.Protocol.{
  Started, mixed, continue_process-suspend_process, start_real_process-Started,
}
use process_management_syste.Scheduler.Rounds.{AllNew, RunOk}
use process_management_syste.Scheduler.Runs.{simulate-sjf, simulate-rr}
use process_management_syste.Scheduler.Faults.{late_start-faults}

abbrev pub job : ℕ → List ℕ → ℕ → ℕ → Process
job arrival name service mem = record {
  arrival_time = arrival;
  service_time = service;
  service_time_left = service;
  finish_time = 0;
  turnaround_time = 0;
  mem_requirement = mem;
  overhead = whole 0;
  name = name;
  state = State.idle;
  block_node = none;
  pid = 0;
  fd_in = (0, 0);
  fd_out = (0, 0);
}

abbrev p : Process
p = job 0 (codes "P") 1 1

log_of : Option (List Process × ℕ × List Event) → Option (ℕ × List Event)
log_of o = do (_, time, log) ← o; some (time, log)

sjf_run : Option (ℕ × List Event)
sjf_run = log_of (cycle 5 1 (p ∷ []) sjf_name infinite_name)

sjf_runs :
    sjf_run
    ≡ some (
      1,
      running 0 (codes "P") 1
          ∷ finished 1 (codes "P") 0
          ∷ finished_process 1
              (codes "P")
              (codes "facb1f1db4cfa000d9f28051983e38e2d56d5e66ab72c525656e454345e8a38e")
          ∷ [],
    )
unfolding sjf_run log_of cycle sjf_name streq strcmp simulate start_system initialise_memory
    create_block create_heap insert_data extract_min is_empty_heap get_heap_size first_round
    update_input arrivals allocate allocate_memory move_all process_ready set_state get_name
    run_next_process start_or_continue start_real_process boot send_bytes last_byte set_fds
    set_value read_and_verify find_child set_child remove_child rounds round update_time
    update_stats advance finish_round finish_process on_sigterm sha256_hash digest full_blocks
    sha256_process_final sha256_init sha256_h0 sha256_process set_length uint32_array_to_hex_string
    deallocate_memory
sjf_runs = refl

-- The log without the lines that print a hash.
timeline : List Event → List Event
timeline [] = []
timeline (finished_process time name sha ∷ log) = timeline log
timeline (e ∷ log) = e ∷ timeline log

timeline_of : Option (List Process × ℕ × List Event) → Option (ℕ × List Event)
timeline_of o = do (_, time, log) ← o; some (time, timeline log)

simple : List Process
simple =
    job 0 (codes "P1") 50 8
    ∷ job 10 (codes "P2") 30 8
    ∷ job 40 (codes "P5") 80 8
    ∷ job 50 (codes "P4") 10 8
    ∷ []

simple_run : Option (ℕ × List Event)
simple_run = timeline_of (cycle 20 10 simple sjf_name infinite_name)

simple_runs :
    simple_run
    ≡ some (
      170,
      running 0 (codes "P1") 50
          ∷ finished 50 (codes "P1") 2
          ∷ running 50 (codes "P4") 10
          ∷ finished 60 (codes "P4") 2
          ∷ running 60 (codes "P2") 30
          ∷ finished 90 (codes "P2") 1
          ∷ running 90 (codes "P5") 80
          ∷ finished 170 (codes "P5") 0
          ∷ [],
    )
unfolding simple_run simple timeline_of timeline continue_round schedule keep_sjf go_on
    continue_process on_sigcont compare_process cycle sjf_name streq strcmp simulate start_system
    initialise_memory create_block create_heap insert_data extract_min is_empty_heap get_heap_size
    first_round update_input arrivals allocate allocate_memory move_all process_ready set_state
    get_name run_next_process start_or_continue start_real_process boot send_bytes last_byte set_fds
    set_value read_and_verify find_child set_child remove_child rounds round update_time
    update_stats advance finish_round finish_process on_sigterm deallocate_memory
simple_runs = refl

update_input-Arrived_example :
    let s' = update_input list_queue (start_system list_queue simple) 40 in
    Arrived 40 [] simple s'.input s'.processes
    × (s' ≡ record (start_system list_queue simple) { input = s'.input; processes = s'.processes })
unfolding start_system
update_input-Arrived_example = update_input-Arrived list_queue (start_system list_queue simple) 40

late : List Process
late = job 5 (codes "P1") 50 8 ∷ []

late_start-faults_example :
    Returns
      (λ l. round heap_queue (keep_sjf heap_queue) 1 infinite_name 1 l ≡ none)
      (first_round heap_queue 1 infinite_name (start_system heap_queue late))
    × Returns
        (λ l. round list_queue (keep_rr list_queue) 1 infinite_name 1 l ≡ none)
        (first_round list_queue 1 infinite_name (start_system list_queue late))
unfolding late NoneArrived
late_start-faults_example = late_start-faults 1 infinite_name late (omega arith)

abbrev child : Child
child = record { hash_content = replicate 128 0; dest_index = 0 }

abbrev children : Children
children = (1, child) ∷ []

abbrev started : Process
started = record (job 0 (codes "P") 1 1) { pid = 1 }

continue_process-suspend_process_example :
    (continue_process started 258 children
      ≡ some (set_child children 1 (mixed Op.continue 258 child)))
    × (suspend_process started 258 children ≡ some (set_child children 1 (mixed Op.stop 258 child)))
unfolding find_child
continue_process-suspend_process_example =
    continue_process-suspend_process started 258 children child refl

abbrev os : Os
os = record { children = children; next_pid = 2; next_fd = 3 }

start_real_process-Started_example :
    Returns (λ (q, os'). Started p 258 os q os') (start_real_process p 258 os)
unfolding is_option
start_real_process-Started_example = start_real_process-Started p 258 os refl

simulate-sjf_example :
    Returns
      (RunOk heap_queue (heap_queue-QueueLaws p) best_fit_name (p ∷ []))
      (simulate heap_queue 9 (keep_sjf heap_queue) 3 best_fit_name (p ∷ []))
unfolding AllNew is_option
simulate-sjf_example =
    simulate-sjf 9 3 best_fit_name p [] ((refl, refl), tt) refl (inr (refl, omega arith))

simulate-rr_example :
    Returns
      (RunOk list_queue list_queue-QueueLaws best_fit_name (p ∷ []))
      (simulate list_queue 9 (keep_rr list_queue) 3 best_fit_name (p ∷ []))
unfolding AllNew is_option
simulate-rr_example =
    simulate-rr 9 3 best_fit_name p [] ((refl, refl), tt) refl (inr (refl, omega arith))

-- The four processes of simple_run once they have finished.
job_done : List ℕ → ℕ → ℕ → Process
job_done name service turnaround = record (job 0 name service 8) {
  turnaround_time = turnaround;
  overhead = record { num = turnaround; den = service };
}

all_done : List Process
all_done =
    job_done (codes "P1") 50 50
    ∷ job_done (codes "P4") 10 10
    ∷ job_done (codes "P2") 30 80
    ∷ job_done (codes "P5") 80 130
    ∷ []

simple_statistics :
    print_statistics all_done 170
    ≡ some (record {
      turnaround = 68;
      max_overhead = some 267;
      avg_overhead = some 157;
      makespan = 170;
    })
unfolding all_done job_done print_statistics mean sum_loop max max_loop add_ratio gt_ratio get_value
    ceil_ratio hundredths to_int
simple_statistics = refl

max-Greatest_example :
    Returns
      (λ m. Bounds Value.overhead m all_done × Attains Value.overhead m all_done)
      (max all_done Value.overhead)
unfolding all_done job_done Finite get_value
max-Greatest_example =
    max-Greatest (job_done (codes "P1") 50 50)
      (job_done (codes "P4") 10 10
        ∷ job_done (codes "P2") 30 80
        ∷ job_done (codes "P5") 80 130
        ∷ [])
      Value.overhead (omega arith, (omega arith, (omega arith, (omega arith, tt))))

-- An average of 2 ^ 31.
too_late : print_statistics (job_done (codes "P1") 50 (2 ^ 31) ∷ []) 170 ≡ none
unfolding job_done print_statistics mean sum_loop add_ratio get_value ceil_ratio to_int
too_late = refl

-- A process by the name of an option is not started.
help_exits : start_real_process (job 0 (codes "-h") 1 1) 258 os ≡ none
unfolding start_real_process boot get_name
help_exits = refl
