-- ===== src/Scheduler/Cycle.antt =====
-- cycle of src/main.c: the rounds of the simulation. SJF and RR share a round but for the ready queue
-- and what becomes of a process that goes on running, `keep_running`.
use process_management_syste.Base.{
  ℕ, zero, suc, ◌+◌, ◌%◌, ◌^◌, Bool, true, false, Option, none, some, List, [], ◌>>=◌, ◌==◌,
  if◌then◌else◌,
}
use process_management_syste.Base.Lists.{length}
use process_management_syste.Base.Text.{codes, streq}
use process_management_syste.ProcessData.{Process, update_time}
use process_management_syste.ReadyQueue.{ReadyQueue, heap_queue, list_queue}
use process_management_syste.MemoryAllocation.{initialise_memory}
use process_management_syste.MemoryAllocation.Allocate.{Event}
use process_management_syste.Scheduler.Real.{continue_process, suspend_process}
use process_management_syste.Scheduler.System.{
  System, update_input, allocate, run_next_process, finish_process,
}

module _ (r : ReadyQueue) where
  -- The variables of the loop: current_process, no_process_running and sim_time.
  pub record Loop : Type 0 where
    pub system : System r
    pub current : Option Process
    pub no_process_running : Bool
    pub sim_time : ℕ

  -- How a round ends: with the next round, or with `break`.
  pub data Round : Type 0 where
    next : Loop → Round
    break : Loop → Round

  -- `sim_time += quantum`
  unfoldable pub advance : ℕ → ℕ → ℕ
  advance time quantum = (time + quantum) % 2 ^ 32

  -- The round with num_cycles == 0.
  unfoldable pub first_round : ℕ → List ℕ → System r → Option Loop
  first_round quantum strategy s = do
    s1 ← allocate r (record (update_input r s 0) { queue = r.create }) strategy 0
    (p, s2) ← run_next_process r s1 0
    some (record {
      system = s2;
      current = p;
      no_process_running = false;
      sim_time = advance 0 quantum;
    })

  -- The end of a round: the next process where none is running, else the branch of the scheduler.
  unfoldable pub schedule : (Loop → Option Loop) → ℕ → Loop → Option Loop
  schedule keep_running quantum l =
      let start : Option Loop = do
        (p, s) ← run_next_process r l.system l.sim_time
        some (record l { system = s; current = p; no_process_running = false })
      in let wait = some (record l { current = none }) in
        do
          l' ←
              if l.no_process_running
              then (if r.is_empty l.system.queue then wait else start)
              else keep_running l
          some (record l' { sim_time = advance l'.sim_time quantum })

  -- update_input, allocate_memory and the scheduling of a round that does not break.
  unfoldable pub continue_round : (Loop → Option Loop) → ℕ → List ℕ → Loop → Option Round
  continue_round keep_running quantum strategy l = do
    s ← allocate r (update_input r l.system l.sim_time) strategy l.sim_time
    l' ← schedule keep_running quantum (record l { system = s })
    some (next l')

  -- The branch of update_time: the current process has finished.
  unfoldable pub finish_round :
      (Loop → Option Loop) → ℕ → List ℕ → ℕ → Process → Loop → Option Round
  finish_round keep_running quantum strategy num_processes p l = do
    let remaining = length l.system.input + r.size l.system.queue
    s ← finish_process r p remaining l.sim_time strategy l.system
    let l' = record l { system = s; current = none; no_process_running = true }
    let go_on = continue_round keep_running quantum strategy l'
    if length s.finished == num_processes then some (break l') else go_on

  -- A round with num_cycles > 0.
  unfoldable pub round : (Loop → Option Loop) → ℕ → List ℕ → ℕ → Loop → Option Round
  round keep_running quantum strategy num_processes l =
      let (current, done) = update_time quantum l.current in
      let going = continue_round keep_running quantum strategy (record l { current = current }) in
      let finishing : Option Round = do
        p ← current
        finish_round keep_running quantum strategy num_processes p (record l { current = current })
      in if done then finishing else going

  -- The loop of cycle, for `k` rounds at most; `next` is a run that has not ended by then.
  unfoldable pub rounds : ℕ → (Loop → Option Loop) → ℕ → List ℕ → ℕ → Loop → Option Round
  rounds zero keep_running quantum strategy num_processes l = some (next l)
  rounds (suc k) keep_running quantum strategy num_processes l = do
    o ← round keep_running quantum strategy num_processes l
    elim o [
      | next l' ↦ rounds k keep_running quantum strategy num_processes l'
      | break l' ↦ some (break l')
    ]

  -- A running process goes on for one more round.
  unfoldable pub go_on : Loop → Option Loop
  go_on l = do
    p ← l.current
    cs ← continue_process p l.sim_time l.system.os.children
    some (record l { system = record l.system { os = record l.system.os { children = cs } } })

  -- The else branch of SJF.
  unfoldable pub keep_sjf : Loop → Option Loop
  keep_sjf l = go_on l

  -- The else branch of RR. enqueue ignores NULL, and suspend_process faults on it.
  unfoldable pub keep_rr : Loop → Option Loop
  keep_rr l =
      let switch : Option Loop = do
        p ← l.current
        queue ← r.insert l.system.queue p
        cs ← suspend_process p l.sim_time l.system.os.children
        (q, s) ←
            run_next_process r
              (record l.system { queue = queue; os = record l.system.os { children = cs } })
              l.sim_time
        some (record l { system = s; current = q })
      in if r.is_empty l.system.queue then go_on l else switch

  unfoldable pub start_system : List Process → System r
  start_system processes = record {
    processes = processes;
    input = [];
    queue = r.create;
    finished = [];
    memory = initialise_memory;
    os = record { children = []; next_pid = 1; next_fd = 3 };
    log = [];
  }

  unfoldable pub simulate : ℕ → (Loop → Option Loop) → ℕ → List ℕ → List Process → Option Round
  simulate fuel keep_running quantum strategy processes = do
    l ← first_round quantum strategy (start_system processes)
    rounds fuel keep_running quantum strategy (length processes) l

unfoldable pub sjf_name : List ℕ
sjf_name = codes "SJF"

unfoldable pub rr_name : List ℕ
rr_name = codes "RR"

-- cycle up to print_statistics: the finished processes in order, the makespan and the log. Under
-- another name than these two the loop does nothing, forever.
unfoldable pub cycle :
    ℕ → ℕ → List Process → List ℕ → List ℕ → Option (List Process × ℕ × List Event)
cycle fuel quantum processes scheduler strategy =
    let sjf : Option (List Process × ℕ × List Event) = do
      o ← simulate heap_queue fuel (keep_sjf heap_queue) quantum strategy processes
      elim o [ next l ↦ none | break l ↦ some (l.system.finished, l.sim_time, l.system.log) ]
    in let rr : Option (List Process × ℕ × List Event) = do
      o ← simulate list_queue fuel (keep_rr list_queue) quantum strategy processes
      elim o [ next l ↦ none | break l ↦ some (l.system.finished, l.sim_time, l.system.log) ]
      in if streq scheduler sjf_name then sjf else if streq scheduler rr_name then rr else none
