-- ===== src/MemoryAllocation/Clear.antt =====
-- allocate_memory of src/memory_allocation.c never leaves processes in the input while the ready queue
-- is empty, if no process holds memory elsewhere and the first one fits into the memory.
use mathlib.Core.List.{map}
use process_management_syste.Base.{
  ℕ, suc, ◌+◌, ◌≤◌, ◌≡◌, refl, ap, List, [], ◌∷◌, ◌++◌, arith, Returns, Returns-both, Returns-mono,
}
use process_management_syste.Base.Lists.{length, length-perm, length-append}
use process_management_syste.Base.Text.{streq, strcmp}
use process_management_syste.ProcessData.{Process}
use process_management_syste.ReadyQueue.{ReadyQueue}
use process_management_syste.ReadyQueue.Laws.{QueueLaws}
use process_management_syste.MemoryAllocation.{mem_capacity, best_fit_name}
use process_management_syste.MemoryAllocation.Invariant.{IsValid}
use process_management_syste.MemoryAllocation.Allocate.{Allocation, allocate_memory}
use process_management_syste.MemoryAllocation.Conserve.{ident, Conserved, allocate_memory-Conserved}
use process_management_syste.MemoryAllocation.Holders.{Owned}
use process_management_syste.MemoryAllocation.Holding.{move_fitting-Holding, best_fit-first}
use process_management_syste.MemoryAllocation.Free.{unowned_fits}

length-ident : (ps : List Process) → length (map ident ps) ≡ length ps
length-ident [] = refl
length-ident (p ∷ ps) = ap suc (length-ident ps)

pub nil_of_length : (ps : List Process) → length ps ≡ 0 → ps ≡ []
nil_of_length [] e = refl
nil_of_length (p ∷ ps) e = absurd (omega arith)

module _ (r : ReadyQueue) (laws : QueueLaws r) where
  -- As many processes as before stand in the queue and in the input together.
  Conserved-length :
      (q : r.Queue) (input : List Process) (a : Allocation r)
      → Conserved r laws q input a
      → length (laws.contents a.queue) + length a.input ≡ length (laws.contents q) + length input
  Conserved-length q input a c = omega (
    arith,
    length-perm c.same,
    length-ident (laws.contents a.queue ++ a.input),
    length-ident (laws.contents q ++ input),
    length-append (laws.contents a.queue) a.input,
    length-append (laws.contents q) input,
  )

  abbrev pub IsClear : Allocation r → Type 0
  IsClear a = laws.contents a.queue ≡ [] → a.input ≡ []

  fewer :
      (a : Allocation r) (time : ℕ)
      → IsValid a.memory
      → laws.IsValid a.queue
      → Owned a.memory (laws.contents a.queue)
      → Returns (λ a'. length a'.input ≤ length a.input) (allocate_memory r a best_fit_name time)
  unfolding allocate_memory streq strcmp
  fewer a time v w own =
      Returns-mono
        (move_fitting-Holding r laws [] time best_fit_name a.memory a.input a.queue a.log v w own)
        λ a' h. h.fewer

  IsClear-from :
      (a : Allocation r) (time : ℕ) (waiting input : List Process)
      → laws.contents a.queue ≡ waiting
      → a.input ≡ input
      → IsValid a.memory
      → laws.IsValid a.queue
      → Owned a.memory (laws.contents a.queue)
      → ((p : Process) (rest : List Process)
          → a.input ≡ p ∷ rest
          → p.mem_requirement ≤ mem_capacity)
      → Returns IsClear (allocate_memory r a best_fit_name time)
  IsClear-from a time waiting [] e f v w own fit =
      Returns-mono (fewer a time v w own)
        λ a' h nothing. nil_of_length a'.input (omega (arith, h, ap length f))
  IsClear-from a time (x ∷ waiting) (p ∷ input) e f v w own fit =
      Returns-mono
        (Returns-both (allocate_memory-Conserved r laws a best_fit_name time v w)
          (fewer a time v w own))
        λ a' (c, h) nothing.
          absurd (
            omega (arith, Conserved-length a.queue a.input a' c, h, ap length e, ap length nothing))
  IsClear-from a time [] (p ∷ input) e f v w own fit =
      let free : Owned a.memory [] = rw e at own in
      Returns-mono
        (Returns-both (allocate_memory-Conserved r laws a best_fit_name time v w) (
          best_fit-first r laws [] p a input time v w own
            (unowned_fits a.memory p v free (fit p input f)) f))
        λ a' (c, h) nothing.
          absurd (
            omega (arith, Conserved-length a.queue a.input a' c, h, ap length e, ap length nothing))

  pub best_fit-IsClear :
      (a : Allocation r) (time : ℕ)
      → IsValid a.memory
      → laws.IsValid a.queue
      → Owned a.memory (laws.contents a.queue)
      → ((p : Process) (rest : List Process)
          → a.input ≡ p ∷ rest
          → p.mem_requirement ≤ mem_capacity)
      → Returns IsClear (allocate_memory r a best_fit_name time)
  best_fit-IsClear a time = IsClear-from a time (laws.contents a.queue) a.input refl refl
