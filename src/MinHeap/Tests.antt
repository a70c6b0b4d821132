-- ===== src/MinHeap/Tests.antt =====
-- src/min_heap.c at concrete heaps.
use process_management_syste.Base.{
  ℕ, zero, suc, ◌≡◌, refl, Option, none, some, List, [], ◌∷◌, Perm, arith, Returns, ◌>>=◌,
}
use process_management_syste.Base.Lists.{get_or, length}
use process_management_syste.Base.Text.{codes, strcmp}
use process_management_syste.ProcessData.{Process, State, whole, compare_process}
use process_management_syste.MinHeap.{MinHeap, create_heap, insert_data, extract_min}
use process_management_syste.MinHeap.Order.{IsHeap}
use process_management_syste.MinHeap.Laws.{
  Valid, Inserted, Extracted, insert_data-Inserted, extract_min-Extracted,
}
use process_management_syste.MinHeap.Sessions.{
  insert_all, extract_all, Ordered, insert_all-extract_all,
}

abbrev job : ℕ → List ℕ → Process
job service name = record {
  arrival_time = 0;
  service_time = service;
  service_time_left = service;
  finish_time = 0;
  turnaround_time = 0;
  mem_requirement = 8;
  overhead = whole 0;
  name = name;
  state = State.ready;
  block_node = none;
  pid = 0;
  fd_in = (0, 0);
  fd_out = (0, 0);
}

abbrev short : Process
short = job 3 (codes "P1")

abbrev long : Process
long = job 5 (codes "P2")

abbrev tie : Process
tie = job 5 (codes "P3")

abbrev two : MinHeap
two = record { items = short ∷ long ∷ []; capacity = 2 }

-- Three insertions, which double the capacity, and an extraction.
session : Option (Option Process × MinHeap)
session = do
  a ← insert_data create_heap tie
  b ← insert_data a long
  c ← insert_data b short
  extract_min c

session_runs : session ≡ some (some short, record { items = long ∷ tie ∷ []; capacity = 4 })
unfolding session create_heap insert_data extract_min compare_process strcmp
session_runs = refl

two-IsHeap : IsHeap short (short ∷ long ∷ [])
unfolding get_or compare_process strcmp
two-IsHeap zero p q = absurd (omega arith)
two-IsHeap (suc zero) p q = refl
two-IsHeap (suc (suc c)) p q = absurd (omega arith)

two-Valid : Valid short two
two-Valid = record { heap = two-IsHeap; fits = omega arith; grows = omega arith }

insert_data-Inserted_example : Returns (Inserted short two tie) (insert_data two tie)
insert_data-Inserted_example = insert_data-Inserted short two tie two-Valid

extract_min-Extracted_example : Returns (Extracted short two) (extract_min two)
extract_min-Extracted_example = extract_min-Extracted short two two-Valid (omega arith)

abbrev jobs : List Process
jobs = tie ∷ long ∷ short ∷ []

insert_all-extract_all_example :
    Returns
      (λ out. Perm out jobs × Ordered out)
      (do h ← insert_all jobs create_heap; extract_all (length jobs) h)
insert_all-extract_all_example = insert_all-extract_all jobs
