-- ===== src/MemoryAllocation/Fit.antt =====
-- best_fit of src/memory_allocation.c: its result on both branches.
use process_management_syste.Base.{
  ◌≤◌, ◌<◌, ◌≡◌, refl, Bool, true, false, none, some, List, arith, Returns, returns, Returns-bind,
  Ptr,
}
use process_management_syste.ProcessData.{Process, set_block_node}
use process_management_syste.MemoryAllocation.{Block, Memory, is_hole, get_data, best_fit}
use process_management_syste.MemoryAllocation.Holes.{
  Listed, hole_in, mem, find_fit-Fit, Erased, delete_node_by_data-Erased, hole-some,
}
use process_management_syste.MemoryAllocation.Invariant.{IsValid}
use process_management_syste.MemoryAllocation.Split.{Allocated, split-Allocated}

-- The process has got the start of the smallest hole that is large enough.
pub record Placed (m : Memory) (p : Process) (m' : Memory) (p' : Process) : Type 0 where
  pub at : Ptr
  pub old : Block
  pub found : get_data m.memory at ≡ some old
  pub free : is_hole old.type ≡ true
  pub enough : p.mem_requirement ≤ old.size
  pub smallest :
      (q : Ptr) (c : Block)
      → get_data m.memory q ≡ some c
      → is_hole c.type ≡ true
      → p.mem_requirement ≤ c.size
      → old.size ≤ c.size
  pub allocated : Allocated m p at old m'
  pub owner : p' ≡ set_block_node p (some m.fresh)

-- Every hole is too small, and nothing has changed.
pub record Refused (m : Memory) (p : Process) (m' : Memory) (p' : Process) : Type 0 where
  pub same_memory : m' ≡ m
  pub same_process : p' ≡ p
  pub small :
      (q : Ptr) (c : Block)
      → get_data m.memory q ≡ some c
      → is_hole c.type ≡ true
      → c.size < p.mem_requirement

abbrev pub BestFit : Memory → Process → Bool × Memory × Process → Type 0
BestFit m p (true, m', p') = Placed m p m' p'
BestFit m p (false, m', p') = Refused m p m' p'

module _ (m : Memory) (p : Process) (v : IsValid m) where
  listed_live : (q : Ptr) → mem q m.holes ≡ true → hole_in (get_data m.memory q) ≡ true
  listed_live q h = ground (arith, v.listed.exact q)

  Erased-Listed :
      {h : Ptr} {r : List Ptr} → Erased m.memory h m.holes r → Listed m.memory (some h) r
  Erased-Listed er = record {
    exact = λ q. ground (arith, er.members q, v.listed.exact q);
    once = er.once;
    ascending = er.ascending;
  }

  -- best_fit on a valid memory does not fault. Where some hole is large enough, the process gets
  -- a block of its size at the start of a smallest such hole, the rest stays a hole, every other
  -- block stays, and the memory is valid; else nothing changes and every hole is too small.
  pub best_fit-BestFit : Returns (BestFit m p) (best_fit m p)
  unfolding best_fit
  best_fit-BestFit =
      Returns-bind (find_fit-Fit m.memory p.mem_requirement m.holes v.listed.ascending listed_live)
        (elim [
          | none ↦ λ small. returns (record {
            same_memory = refl;
            same_process = refl;
            small = λ q c f is. ground (arith, small q, v.listed.exact q);
          })
          | some h ↦ λ best.
              let (old, found, is) = hole-some (get_data m.memory h) (listed_live h best.listed) in
              Returns-bind
                (delete_node_by_data-Erased m.memory h m.holes best.listed v.listed.once
                  v.listed.ascending)
                λ r er.
                  Returns-bind
                    (split-Allocated m.memory h m.fresh old p r found v.layout (Erased-Listed er)
                      v.apart is (ground (arith, best.enough)))
                    λ s (al, own). returns (record {
                      at = h;
                      old = old;
                      found = found;
                      free = is;
                      enough = ground (arith, best.enough);
                      smallest = λ q c f k n. ground (arith, best.smallest q, v.listed.exact q);
                      allocated = record {
                        valid = al.valid;
                        placed = al.placed;
                        kept = al.kept;
                        gone = al.gone;
                        next_fresh = al.next_fresh;
                      };
                      owner = own;
                    })
        ])
