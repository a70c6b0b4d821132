-- ===== src/Scheduler/Protocol.antt =====
-- The bytes that the functions of src/main.c exchange with a started process of src/process.c.
use process_management_syste.Base.{
  ℕ, ◌+◌, ◌%◌, ◌≡◌, ◌≢◌, refl, false, Bool-cases, inl, inr, some, [], ◌∷◌, arith, Returns, returns,
}
use process_management_syste.Base.Ensures.{Ensures, fails, ensured}
use process_management_syste.Base.Lists.{replicate}
use process_management_syste.ProcessData.{Process, get_name, set_fds, set_value}
use process_management_syste.ChildProcess.{
  Child, Op, op_code, store, store_process_name, boot, is_option, on_sigcont, on_sigtstp,
}
use process_management_syste.Scheduler.Real.{
  Children, Os, find_child, set_child, send_bytes, last_byte, read_and_verify, suspend_process,
  continue_process, start_real_process,
}

-- The process after the handler of `op` at `time`.
unfoldable pub mixed : Op → ℕ → Child → Child
mixed op time c = store (op_code op ∷ send_bytes time) c

echo_accepted : (time : ℕ) → read_and_verify (some (time % 256)) (last_byte time) ≡ some tt
unfolding read_and_verify last_byte
echo_accepted time = ground arith

-- A process that runs is continued and suspended without an exit: the byte that it echoes is the one
-- that continue_process expects, and it is left with the time mixed into its content.
pub continue_process-suspend_process :
    (p : Process) (time : ℕ) (cs : Children) (c : Child)
    → find_child cs p.pid ≡ some c
    → (continue_process p time cs ≡ some (set_child cs p.pid (mixed Op.continue time c)))
      × (suspend_process p time cs ≡ some (set_child cs p.pid (mixed Op.stop time c)))
unfolding continue_process suspend_process on_sigcont on_sigtstp send_bytes mixed
continue_process-suspend_process p time cs c h = (rw (h, echo_accepted time) refl, rw h refl)

pub find_child-set_child :
    (cs : Children) (pid : ℕ) (c : Child) → find_child (set_child cs pid c) pid ≡ some c
unfolding find_child set_child
find_child-set_child [] pid c = ground arith
find_child-set_child ((q, d) ∷ cs) pid c = ground (arith, find_child-set_child cs pid c)

pub find_child-other :
    (cs : Children) (pid other : ℕ) (c : Child)
    → pid ≢ other
    → find_child (set_child cs pid c) other ≡ find_child cs other
unfolding find_child set_child
find_child-other [] pid other c h = ground arith
find_child-other ((q, d) ∷ cs) pid other c h = ground (arith, find_child-other cs pid other c h)

-- What start_real_process leaves: the new pid, and under it a process that has mixed in its name and
-- the time; the other started processes stand.
pub record Started (p : Process) (time : ℕ) (os : Os) (q : Process) (os' : Os) : Type 0 where
  pub pid : q.pid ≡ os.next_pid
  pub kept : q ≡ record (set_fds p (os.next_fd + 2, os.next_fd + 3) (os.next_fd, os.next_fd + 1)) {
    pid = os.next_pid;
  }
  pub name : get_name q ≡ get_name p
  pub child :
      find_child os'.children q.pid
      ≡ some (
          mixed Op.start time
            (store (get_name p) (record { hash_content = replicate 128 0; dest_index = 0 })))
  pub others :
      (other : ℕ)
      → os.next_pid ≢ other
      → find_child os'.children other ≡ find_child os.children other
  pub fresh : os'.next_pid ≡ os.next_pid + 1

-- start_real_process of a process whose name is no option of the child never exits: the byte that
-- the new process echoes is the one expected, whatever the time. The process gets the next pid,
-- under which there is then a child that has mixed in its name and the time, and the other
-- children stand.
pub start_real_process-Started :
    (p : Process) (time : ℕ) (os : Os)
    → is_option p.name ≡ false
    → Returns (λ (q, os'). Started p time os q os') (start_real_process p time os)
unfolding start_real_process boot send_bytes store_process_name set_value set_fds get_name mixed
start_real_process-Started p time os plain =
    rw (plain, echo_accepted time)
      (returns (record {
        pid = refl;
        kept = refl;
        name = refl;
        child = find_child-set_child os.children os.next_pid _;
        others = λ other. find_child-other os.children os.next_pid other _;
        fresh = refl;
      }))

-- Whatever the name, what it leaves where it does not exit.
pub start_real_process-Ensures :
    (p : Process) (time : ℕ) (os : Os)
    → Ensures (λ (q, os'). Started p time os q os') (start_real_process p time os)
unfolding start_real_process boot get_name
start_real_process-Ensures p time os = elim (Bool-cases (is_option p.name)) [
  | inl e ↦ rw e fails
  | inr e ↦ ensured (start_real_process-Started p time os e)
]
