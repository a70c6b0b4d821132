-- ===== src/MemoryAllocation/Free.antt =====
-- The memory of src/memory_allocation.c when no process holds a block: one hole, in which every
-- process that fits into the memory finds space.
use process_management_syste.Base.{Ptr, ◌≤◌, ◌≡◌, ◌≢◌, true, false, some, List, [], ◌∷◌, arith}
use process_management_syste.ProcessData.{Process}
use process_management_syste.MemoryAllocation.{Block, Node, Memory, is_hole, get_data, mem_capacity}
use process_management_syste.MemoryAllocation.Tiles.{Apart}
use process_management_syste.MemoryAllocation.Invariant.{Layout, IsValid}
use process_management_syste.MemoryAllocation.Holders.{Owned, InUse}
use process_management_syste.MemoryAllocation.Fit.{Refused}

-- A hole as large as the memory.
pub record Whole (l : List Node) : Type 0 where
  pub at : Ptr
  pub block : Block
  pub found : get_data l at ≡ some block
  pub free : is_hole block.type ≡ true
  pub all : block.size ≡ mem_capacity

all_holes :
    (l : List Node) (fresh : Ptr)
    → Layout l fresh
    → Apart false l
    → ((k : Ptr) (b : Block) → get_data l k ≡ some b → is_hole b.type ≢ false)
    → Whole l
unfolding get_data
all_holes [] fresh v a free = absurd (omega (arith, v.full))
all_holes (x ∷ []) fresh v a free = record {
  at = x.addr;
  block = x.content;
  found = ground arith;
  free = ground (arith, free x.addr x.content);
  all = omega (arith, v.full);
}
all_holes (x ∷ y ∷ l) fresh v a free =
    absurd (ground (arith, v.distinct, a, free x.addr x.content, free y.addr y.content))

-- No process holds a block.
pub unowned-Whole : (m : Memory) → IsValid m → Owned m [] → Whole m.memory
unfolding InUse
unowned-Whole m v o =
    all_holes m.memory m.fresh v.layout v.apart
      λ k b found busy. absurd (omega (arith, o.all k (b, found, busy)))

pub unowned_fits :
    (m : Memory) (p : Process)
    → IsValid m
    → Owned m []
    → p.mem_requirement ≤ mem_capacity
    → (m' : Memory) (p' : Process) → Refused m p m' p'
    → ⊥
unowned_fits m p v o small m' p' r =
    let w = unowned-Whole m v o in omega (arith, r.small w.at w.block w.found w.free, w.all)
