-- ===== src/MemoryAllocation/Owners.antt =====
-- The blocks that the processes of src/memory_allocation.c hold: each its own, in use.
use mathlib.Core.Path.{subst}
use process_management_syste.Base.{
  Ptr, ℕ, ◌≡◌, refl, sym, ap, Bool, true, false, none, List, [], ◌∷◌, Perm, arith, Bool-cases, ◌⊎◌,
  inl, inr, Returns, returns, Returns-mono,
}
use process_management_syste.Base.Lists.{sum_by, sum_by_perm}
use process_management_syste.Base.Text.{streq, streq-eq, strcmp}
use process_management_syste.ProcessData.{Process, set_block_node}
use process_management_syste.MemoryAllocation.{
  Memory, get_data, best_fit_name, deallocate_memory, initialise_memory, create_block,
}
use process_management_syste.MemoryAllocation.Invariant.{IsValid}
use process_management_syste.MemoryAllocation.Release.{deallocate_memory-unchanged}
use process_management_syste.MemoryAllocation.Holders.{
  block_at, no_block, holder, blockless, InUse, Owned, Owned-same, deallocate_memory-Owned,
}

-- What is asked of the blocks: nothing, but under best-fit.
abbrev pub Blocks : Bool → Memory → List Process → Type 0
Blocks true m ps = Owned m ps
Blocks false m ps = Unit {0}

pub Blocks-nil : (best : Bool) (m : Memory) → ((k : Ptr) → InUse m k → ⊥) → Blocks best m []
Blocks-nil true m free = record {
  each = refl;
  once = λ k. omega arith;
  used = λ k has. absurd (omega (arith, has));
  all = λ k busy. absurd (free k busy);
}
Blocks-nil false m free = tt

-- At the start no block is in use.
pub start-free : (k : Ptr) → InUse initialise_memory k → ⊥
unfolding InUse initialise_memory create_block get_data
start-free k (b, found, busy) = ground (arith, found, busy)

pub Blocks-same :
    (best : Bool) (m : Memory) (ps qs : List Process)
    → Blocks best m ps
    → sum_by blockless qs ≡ sum_by blockless ps
    → ((k : Ptr) → sum_by (holder k) qs ≡ sum_by (holder k) ps)
    → Blocks best m qs
Blocks-same true m ps qs o none_less same = Owned-same m ps qs o none_less same
Blocks-same false m ps qs o none_less same = tt

pub Blocks-perm :
    (best : Bool) (m : Memory) (ps qs : List Process)
    → Blocks best m ps
    → Perm qs ps
    → Blocks best m qs
Blocks-perm best m ps qs o perm =
    Blocks-same best m ps qs o (sum_by_perm blockless perm) (λ k. sum_by_perm (holder k) perm)

-- The first process has changed, but for its block.
pub Blocks-head :
    (best : Bool) (m : Memory) (p q : Process) (ps : List Process)
    → Blocks best m (p ∷ ps)
    → q.block_node ≡ p.block_node
    → Blocks best m (q ∷ ps)
Blocks-head best m p q ps o same =
    Blocks-same best m (p ∷ ps) (q ∷ ps) o (omega (arith, ap no_block same))
      (λ k. omega (arith, ap (block_at k) same))

-- What deallocate_memory leaves for the processes other than `p`.
abbrev pub GivenBack : List ℕ → Process → List Process → Memory × Process → Type 0
GivenBack strategy p ps (m', p') =
    IsValid m'
    × Blocks (streq strategy best_fit_name) m' ps
    × ((p' ≡ p) ⊎ (p' ≡ set_block_node p none))

best_fit-GivenBack :
    (m : Memory) (p : Process) (ps : List Process)
    → IsValid m
    → Blocks (streq best_fit_name best_fit_name) m (p ∷ ps)
    → Returns (GivenBack best_fit_name p ps) (deallocate_memory p m best_fit_name)
unfolding streq strcmp
best_fit-GivenBack m p ps v o =
    Returns-mono (deallocate_memory-Owned m p ps v o) λ (m', p') (v', o', gone). (v', o', inr gone)

pub deallocate_memory-GivenBack :
    (m : Memory) (p : Process) (ps : List Process) (strategy : List ℕ)
    → IsValid m
    → Blocks (streq strategy best_fit_name) m (p ∷ ps)
    → Returns (GivenBack strategy p ps) (deallocate_memory p m strategy)
deallocate_memory-GivenBack m p ps strategy v o = elim (Bool-cases (streq strategy best_fit_name)) [
  | inl e ↦
      subst
        (λ s.
          Blocks (streq s best_fit_name) m (p ∷ ps)
          → Returns (GivenBack s p ps) (deallocate_memory p m s))
        (sym (streq-eq strategy best_fit_name e)) (best_fit-GivenBack m p ps v) o
  | inr e ↦
      rw (deallocate_memory-unchanged m p strategy e)
        (returns (v, subst (λ b. Blocks b m ps) (sym e) tt, inl refl))
]
