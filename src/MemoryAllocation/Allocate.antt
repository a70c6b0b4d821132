-- ===== src/MemoryAllocation/Allocate.antt =====
-- allocate_memory and process_ready of src/memory_allocation.c. The input queue is the list of its
-- processes; a printed line is an event at the end of the log.
use process_management_syste.Base.{ℕ, Option, some, List, [], ◌∷◌, ◌++◌, ◌>>=◌, if◌then◌else◌}
use process_management_syste.Base.Text.{streq}
use process_management_syste.ProcessData.{Process, State, set_state, get_name, get_block_node}
use process_management_syste.ReadyQueue.{ReadyQueue}
use process_management_syste.MemoryAllocation.{
  Memory, get_data, best_fit, best_fit_name, infinite_name,
}

-- The lines that the program prints as it runs.
pub data Event : Type 0 where
  ready : ℕ → List ℕ → ℕ → Event
  running : ℕ → List ℕ → ℕ → Event
  finished : ℕ → List ℕ → ℕ → Event
  finished_process : ℕ → List ℕ → List ℕ → Event

module _ (r : ReadyQueue) where
  open r use {Queue, insert}

  -- Memory, input queue, ready queue and log while allocate_memory runs.
  pub record Allocation : Type 0 where
    pub memory : Memory
    pub input : List Process
    pub queue : Queue
    pub log : List Event

  unfoldable pub process_ready :
      Process → ℕ → List ℕ → Memory → Queue → List Event → Option (Queue × List Event)
  process_ready p time strategy m queue log =
      let q = set_state p State.ready in
      do
        queue' ← insert queue q
        if streq strategy best_fit_name
            then (do
              n ← get_block_node q
              b ← get_data m.memory n
              some (queue', log ++ ready time (get_name q) b.start_address ∷ []))
            else some (queue', log)

  -- The loop for "infinite": every process is moved.
  unfoldable pub move_all :
      ℕ → List ℕ → Memory → List Process → Queue → List Event → Option Allocation
  move_all time strategy m [] queue log =
      some (record { memory = m; input = []; queue = queue; log = log })
  move_all time strategy m (p ∷ input) queue log = do
    (queue', log') ← process_ready p time strategy m queue log
    move_all time strategy m input queue' log'

  -- The loop for "best-fit": a process for which there is no space stays in the input queue.
  unfoldable pub move_fitting :
      ℕ → List ℕ → Memory → List Process → Queue → List Event → Option Allocation
  move_fitting time strategy m [] queue log =
      some (record { memory = m; input = []; queue = queue; log = log })
  move_fitting time strategy m (p ∷ input) queue log = best_fit m p >>= λ (is_space, m', p').
      if is_space
      then (do
        (queue', log') ← process_ready p' time strategy m' queue log
        move_fitting time strategy m' input queue' log')
      else (do
        a ← move_fitting time strategy m' input queue log
        some (record a { input = p' ∷ a.input }))

  unfoldable pub allocate_memory : Allocation → List ℕ → ℕ → Option Allocation
  allocate_memory a strategy time =
      if streq strategy infinite_name
      then move_all time strategy a.memory a.input a.queue a.log
      else if streq strategy best_fit_name
      then move_fitting time strategy a.memory a.input a.queue a.log
      else some a
