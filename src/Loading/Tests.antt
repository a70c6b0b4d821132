-- ===== src/Loading/Tests.antt =====
-- src/process_data.c on the input of cases/task1/simple.txt, and on inputs in another format.
use process_management_syste.Base.{
  ◌+◌, ℕ, ◌≡◌, refl, none, some, List, [], ◌∷◌, ◌++◌, ◌<◌, ◌^◌, false, arith,
}
use process_management_syste.Base.Text.{codes}
use process_management_syste.Base.Scan.{
  is_space, IsWord, skip_space, read_digits, read_word, decimal, digits_of,
}
use process_management_syste.ProcessData.{Process, State, whole}
use process_management_syste.ReadyQueue.{enqueue}
use process_management_syste.Loading.{
  Line, blank_line, load_processes, load_loop, load_loop, read_process, scan_line, scan_number,
  scan_name, new_process,
}
use process_management_syste.Loading.Format.{
  print_lines, print_line, IsLine, AllLines, loaded, as_read,
}
use process_management_syste.Loading.Lines.{load_processes-print_lines}
use process_management_syste.Loading.Stuck.{load_processes-foreign, nameless, read_process-long}

-- What malloc returns.
abbrev pub garbage : ℕ → Process
garbage n = record {
  arrival_time = 7;
  service_time = 7;
  service_time_left = 7;
  finish_time = 7;
  turnaround_time = 7;
  mem_requirement = 7;
  overhead = whole 7;
  name = codes "?";
  state = State.finished;
  block_node = some 7;
  pid = n;
  fd_in = (7, 7);
  fd_out = (7, 7);
}

abbrev newline : List ℕ
newline = 10 ∷ []

simple_txt : List ℕ
simple_txt =
    codes "0 P1 50 8"
    ++ (newline
        ++ (codes "10 P2 30 8"
            ++ (newline ++ (codes "40 P5 80 8" ++ (newline ++ (codes "50 P4 10 8" ++ newline))))))

abbrev pub simple : List Line
simple =
    record { time_arrived = 0; name = codes "P1"; service_time = 50; mem_requirement = 8 }
    ∷ record { time_arrived = 10; name = codes "P2"; service_time = 30; mem_requirement = 8 }
    ∷ record { time_arrived = 40; name = codes "P5"; service_time = 80; mem_requirement = 8 }
    ∷ record { time_arrived = 50; name = codes "P4"; service_time = 10; mem_requirement = 8 }
    ∷ []

-- The printer of the theorems writes that file.
simple_printed : print_lines simple ≡ simple_txt
unfolding print_lines print_line simple_txt decimal digits_of
simple_printed = refl

simple-loaded : load_processes 5 garbage simple_txt ≡ some (loaded garbage 0 simple)
unfolding load_processes load_loop read_process scan_line scan_number scan_name simple_txt loaded
    as_read skip_space read_digits read_word enqueue new_process
simple-loaded = refl

-- The last line need not be complete.
short_line :
    scan_line (codes " 12 P7 ")
    ≡ some (some (record blank_line { time_arrived = 12; name = codes "P7" }), [])
unfolding scan_line scan_number scan_name skip_space read_digits read_word
short_line = refl

simple-IsLine :
    (a c n : ℕ)
    → (a < 2 ^ 32) × (n < 2 ^ 32) × (is_space c ≡ false) × (0 < c)
    → IsLine
        (record { time_arrived = a; name = b'P' ∷ c ∷ []; service_time = n; mem_requirement = 8 })
simple-IsLine a c n h = record {
  arrives = h.0;
  serves = h.1;
  needs = omega arith;
  word = (refl, omega arith, (h.2, h.3, tt));
  named = omega arith;
  short = omega arith;
}

pub simple-AllLines : AllLines simple
unfolding AllLines
simple-AllLines = (
  simple-IsLine 0 b'1' 50 (omega arith, omega arith, refl, omega arith),
  (
    simple-IsLine 10 b'2' 30 (omega arith, omega arith, refl, omega arith),
    (
      simple-IsLine 40 b'5' 80 (omega arith, omega arith, refl, omega arith),
      (simple-IsLine 50 b'4' 10 (omega arith, omega arith, refl, omega arith), tt),
    ),
  ),
)

load_processes-print_lines_example :
    load_processes 5 garbage (print_lines simple) ≡ some (loaded garbage 0 simple)
load_processes-print_lines_example =
    load_processes-print_lines garbage 5 simple (omega arith) simple-AllLines

-- A first line with the names of the columns.
load_processes-foreign_example :
    (read_process (garbage 0) (codes "time name")
      ≡ some (some (new_process (garbage 0) blank_line), codes "time name"))
    × (load_loop (2 + 7) garbage [] (codes "time name")
        ≡ load_loop 7 garbage (nameless garbage 0 2) (codes "time name"))
    × (load_processes 7 garbage (codes "time name") ≡ none)
unfolding skip_space
load_processes-foreign_example =
    load_processes-foreign 1 7 garbage (codes "time name") b't' (codes "ime name")
      (record { solid = refl; digit = refl; plus = refl; minus = refl }) refl

abbrev long : Line
long = record { time_arrived = 0; name = codes "longname"; service_time = 3; mem_requirement = 4 }

long-IsWord : IsWord long.name
long-IsWord = (
  refl,
  omega arith,
  (
    refl,
    omega arith,
    (
      refl,
      omega arith,
      (
        refl,
        omega arith,
        (refl, omega arith, (refl, omega arith, (refl, omega arith, (refl, omega arith, tt)))),
      ),
    ),
  ),
)

read_process-long_example : read_process (garbage 0) (print_line long []) ≡ none
read_process-long_example =
    read_process-long (garbage 0) long [] (omega arith) long-IsWord (omega arith)
