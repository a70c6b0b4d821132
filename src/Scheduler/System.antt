-- ===== src/Scheduler/System.antt =====
-- The functions of src/main.c that a round calls. A process object is its value: where the program
-- enqueues it and changes it afterwards, the changed value is enqueued.
use process_management_syste.Base.{
  ℕ, Option, none, some, List, [], ◌∷◌, ◌++◌, ◌>>=◌, leb, ◌==◌, if◌then◌else◌,
}
use process_management_syste.ProcessData.{
  Process, State, Value, set_state, set_value, update_stats, get_name,
}
use process_management_syste.ReadyQueue.{ReadyQueue}
use process_management_syste.ChildProcess.{on_sigterm}
use process_management_syste.MemoryAllocation.{Memory, deallocate_memory}
use process_management_syste.MemoryAllocation.Allocate.{
  Event, running, finished, finished_process, allocate_memory,
}
use process_management_syste.Scheduler.Real.{
  Os, send_bytes, find_child, remove_child, continue_process, start_real_process,
}

-- The loop of update_input over the processes that have not arrived: the new input queue, and those
-- that stay.
unfoldable pub arrivals : ℕ → List Process → List Process → List Process × List Process
arrivals time input [] = (input, [])
arrivals time input (p ∷ ps) =
    let moved = arrivals time (input ++ p ∷ []) ps in
    if leb p.arrival_time time then moved else (input, p ∷ ps)

module _ (r : ReadyQueue) where
  -- What the loop of cycle works on, but for the current process.
  pub record System : Type 0 where
    pub processes : List Process
    pub input : List Process
    pub queue : r.Queue
    pub finished : List Process
    pub memory : Memory
    pub os : Os
    pub log : List Event

  unfoldable pub update_input : System → ℕ → System
  update_input s time =
      let (input, processes) = arrivals time s.input s.processes in
      record s { input = input; processes = processes }

  unfoldable pub allocate : System → List ℕ → ℕ → Option System
  allocate s strategy time = do
    a ←
        allocate_memory r
          (record { memory = s.memory; input = s.input; queue = s.queue; log = s.log }) strategy
          time
    some (record s { memory = a.memory; input = a.input; queue = a.queue; log = a.log })

  -- The process is created where it has no pid yet, else continued.
  unfoldable pub start_or_continue : Process → ℕ → Os → Option (Process × Os)
  start_or_continue p time os =
      let continued : Option (Process × Os) = do
        cs ← continue_process p time os.children
        some (p, record os { children = cs })
      in if p.pid == 0 then start_real_process p time os else continued

  unfoldable pub run_next_process : System → ℕ → Option (Option Process × System)
  run_next_process s time =
      let extracted : Option (Option Process × System) = do
        (p, queue) ← r.extract s.queue
        p ← p
        (p', os) ← start_or_continue p time s.os
        let q = set_state p' State.running
        some (
          some q,
          record s {
            queue = queue;
            os = os;
            log = s.log ++ running time (get_name q) q.service_time_left ∷ [];
          },
        )
      in if r.is_empty s.queue then some (none, s) else extracted

  unfoldable pub finish_process : Process → ℕ → ℕ → List ℕ → System → Option System
  finish_process p proc_remaining time strategy s = do
    let p1 = set_state p State.finished
    c ← find_child s.os.children p1.pid
    sha ← on_sigterm (send_bytes time) c
    p2 ← set_value p1 time Value.finish_time
    (m, p3) ← deallocate_memory (update_stats p2) s.memory strategy
    some (record s {
      finished = s.finished ++ p3 ∷ [];
      memory = m;
      os = record s.os { children = remove_child s.os.children p1.pid };
      log =
          s.log
          ++ (finished time (get_name p1) proc_remaining
              ∷ finished_process time (get_name p1) sha
              ∷ []);
    })
