-- ===== src/Scheduler/Real.antt =====
-- The started processes of src/main.c. One is an entry of `children` under its pid; a signal runs its
-- handler of ChildProcess on the bytes sent. fork, pipe, kill, read and write succeed. A run faults
-- where the program reads through NULL or exits.
use process_management_syste.Base.{
  ℕ, ◌+◌, ◌/◌, ◌%◌, ◌^◌, Option, none, some, List, [], ◌∷◌, ◌>>=◌, ◌==◌, if◌then◌else◌,
}
use process_management_syste.ProcessData.{Process, Value, set_value, set_fds, get_name}
use process_management_syste.ChildProcess.{Child, boot, on_sigcont, on_sigtstp}

-- The bytes that send_bytes writes, the most significant first.
unfoldable pub send_bytes : ℕ → List ℕ
send_bytes num = num / 2 ^ 24 % 256 ∷ num / 2 ^ 16 % 256 ∷ num / 2 ^ 8 % 256 ∷ num % 256 ∷ []

-- The byte that send_bytes returns: time_bytes[0] of a little-endian machine.
unfoldable pub last_byte : ℕ → ℕ
last_byte num = num % 256

-- The started processes by pid.
abbrev pub Children : Type 0
Children = List (ℕ × Child)

unfoldable pub find_child : Children → ℕ → Option Child
find_child [] pid = none
find_child ((q, c) ∷ cs) pid = if q == pid then some c else find_child cs pid

unfoldable pub set_child : Children → ℕ → Child → Children
set_child [] pid c = (pid, c) ∷ []
set_child ((q, d) ∷ cs) pid c = if q == pid then (pid, c) ∷ cs else (q, d) ∷ set_child cs pid c

-- `none` is the exit where the byte is not the one sent, or the read where none was written.
unfoldable pub read_and_verify : Option ℕ → ℕ → Option (Unit {0})
read_and_verify none test_byte = none
read_and_verify (some b) test_byte = if b == test_byte then some tt else none

unfoldable pub suspend_process : Process → ℕ → Children → Option Children
suspend_process p time cs = do
  c ← find_child cs p.pid
  (_, c') ← on_sigtstp (send_bytes time) c
  some (set_child cs p.pid c')

unfoldable pub continue_process : Process → ℕ → Children → Option Children
continue_process p time cs = do
  c ← find_child cs p.pid
  (b, c') ← on_sigcont (send_bytes time) c
  _ ← read_and_verify b (last_byte time)
  some (set_child cs p.pid c')

-- The process table of the operating system: fork returns `next_pid`, pipe the next descriptors.
pub record Os : Type 0 where
  pub children : Children
  pub next_pid : ℕ
  pub next_fd : ℕ

unfoldable pub start_real_process : Process → ℕ → Os → Option (Process × Os)
start_real_process p time os = do
  (b, c) ← boot (get_name p) (send_bytes time)
  let q = set_fds p (os.next_fd + 2, os.next_fd + 3) (os.next_fd, os.next_fd + 1)
  _ ← read_and_verify b (last_byte time)
  q' ← set_value q os.next_pid Value.pid
  some (
    q',
    record {
      children = set_child os.children os.next_pid c;
      next_pid = os.next_pid + 1;
      next_fd = os.next_fd + 4;
    },
  )

unfoldable pub remove_child : Children → ℕ → Children
remove_child [] pid = []
remove_child ((q, c) ∷ cs) pid = if q == pid then cs else (q, c) ∷ remove_child cs pid
