-- ===== src/MemoryAllocation/Holders.antt =====
-- Which process holds which block of src/memory_allocation.c under best fit.
use mathlib.Core.Path.{subst}
use process_management_syste.Base.{
  Ptr, ℕ, ◌≤◌, ◌<◌, ◌≡◌, refl, sym, ap, ◌∙◌, Bool, true, false, Option, none, some, List, ◌∷◌, Perm,
  arith, ◌==◌, if◌then◌else◌, Bool-cases, Option-cases, inl, inr, Returns, Returns-mono,
}
use process_management_syste.Base.Lists.{sum_by, sum_by_perm}
use process_management_syste.NodeList.Nodes.{has_of_get_data}
use process_management_syste.ProcessData.{Process, set_block_node}
use process_management_syste.MemoryAllocation.{
  Block, Memory, get_data, is_hole, best_fit_name, deallocate_memory,
}
use process_management_syste.MemoryAllocation.Invariant.{IsValid}
use process_management_syste.MemoryAllocation.Fit.{Placed}
use process_management_syste.MemoryAllocation.Split.{cut}
use process_management_syste.MemoryAllocation.Release.{deallocate_memory-Released}

abbrev pub block_at : Ptr → Option Ptr → ℕ
block_at k none = 0
block_at k (some n) = if n == k then 1 else 0

abbrev pub no_block : Option Ptr → ℕ
no_block none = 1
no_block (some n) = 0

abbrev pub holder : Ptr → Process → ℕ
holder k p = block_at k p.block_node

abbrev pub blockless : Process → ℕ
blockless p = no_block p.block_node

unfoldable pub InUse : Memory → Ptr → Type 0
InUse m k = (b : Block) × (get_data m.memory k ≡ some b) × (is_hole b.type ≡ false)

-- Each of the processes holds a block in use, no two the same, and these are all that are in use.
pub record Owned (m : Memory) (ps : List Process) : Type 0 where
  pub each : sum_by blockless ps ≡ 0
  pub once : (k : Ptr) → sum_by (holder k) ps ≤ 1
  pub used : (k : Ptr) → 0 < sum_by (holder k) ps → InUse m k
  pub all : (k : Ptr) → InUse m k → 0 < sum_by (holder k) ps

pub Owned-same :
    (m : Memory) (ps qs : List Process)
    → Owned m ps
    → sum_by blockless qs ≡ sum_by blockless ps
    → ((k : Ptr) → sum_by (holder k) qs ≡ sum_by (holder k) ps)
    → Owned m qs
Owned-same m ps qs o none_less same = record {
  each = none_less ∙ o.each;
  once = λ k. omega (arith, same k, o.once k);
  used = λ k has. o.used k (omega (arith, same k));
  all = λ k busy. omega (arith, same k, o.all k busy);
}

pub Owned-perm : (m : Memory) (ps qs : List Process) → Owned m ps → Perm qs ps → Owned m qs
Owned-perm m ps qs o perm =
    Owned-same m ps qs o (sum_by_perm blockless perm) (λ k. sum_by_perm (holder k) perm)

same_ptrs : (a b : Ptr) → (a == b) ≡ true → a ≡ b
same_ptrs a b e = ground (arith, e)

hole_of : Option Block → Bool
hole_of none = false
hole_of (some b) = is_hole b.type

-- A hole and a block in use stand at two nodes.
apart_from_hole :
    (m : Memory) (at k : Ptr) (old c : Block)
    → get_data m.memory at ≡ some old
    → is_hole old.type ≡ true
    → get_data m.memory k ≡ some c
    → is_hole c.type ≡ false
    → (at == k) ≡ false
unfolding hole_of
apart_from_hole m at k old c found free found' busy = elim (Bool-cases (at == k)) [
  | inl e ↦
      let same : is_hole old.type ≡ is_hole c.type =
        ap hole_of (sym found ∙ ap (λ q. get_data m.memory q) (same_ptrs at k e) ∙ found') in
      absurd (ground (arith, same, free, busy))
  | inr e ↦ e
]

unheld_fresh :
    (m : Memory) (ps : List Process) → IsValid m → Owned m ps → sum_by (holder m.fresh) ps ≡ 0
unfolding InUse
unheld_fresh m ps v o = elim (Bool-cases (sum_by (holder m.fresh) ps == 0)) [
  | inl e ↦ same_ptrs (sum_by (holder m.fresh) ps) 0 e
  | inr e ↦
      let (b, found, busy) = o.used m.fresh (ground (arith, e)) in
      absurd (omega (arith, v.layout.below m.fresh (has_of_get_data m.memory m.fresh b found)))
]

-- A process that best_fit has placed.
pub Owned-Placed :
    (m m' : Memory) (p p' : Process) (ps : List Process)
    → IsValid m
    → Owned m ps
    → Placed m p m' p'
    → Owned m' (p' ∷ ps)
unfolding InUse set_block_node
Owned-Placed m m' p p' ps v o b =
    let free : sum_by (holder m.fresh) ps ≡ 0 = unheld_fresh m ps v o in
    rw b.owner (record {
      each = omega (arith, o.each);
      once = λ k. ground (arith, o.once k, free);
      used = λ k has. elim (Bool-cases (m.fresh == k)) [
        | inl e ↦ subst (InUse m') (same_ptrs m.fresh k e) (cut p b.old, b.allocated.placed, refl)
        | inr e ↦
            let (c, found, busy) = o.used k (ground (arith, has, e)) in
            (
              c,
              b.allocated.kept k (apart_from_hole m b.at k b.old c b.found b.free found busy) e
                  ∙ found,
              busy,
            )
      ];
      all = λ k (c, found, busy). elim (Bool-cases (m.fresh == k)) [
        | inl e ↦ ground (arith, e)
        | inr e ↦ elim (Bool-cases (b.at == k)) [
          | inl e' ↦
              let gone =
                subst (λ i. get_data m'.memory i ≡ some c) (sym (same_ptrs b.at k e')) found in
              absurd (ground (arith, b.allocated.gone c gone, busy))
          | inr e' ↦
              let old : InUse m k = (c, sym (b.allocated.kept k e' e) ∙ found, busy) in
              ground (arith, o.all k old, e)
        ]
      ];
    })

-- The first of the processes gives its block back.
pub deallocate_memory-Owned :
    (m : Memory) (p : Process) (ps : List Process)
    → IsValid m
    → Owned m (p ∷ ps)
    → Returns
        (λ (m', p'). IsValid m' × Owned m' ps × (p' ≡ set_block_node p none))
        (deallocate_memory p m best_fit_name)
unfolding InUse
deallocate_memory-Owned m p ps v o = elim (Option-cases p.block_node) [
  | inl e ↦ absurd (omega (arith, o.each, ap no_block e))
  | inr (n, e) ↦
      let (b, found, busy) = o.used n (ground (arith, ap (block_at n) e)) in
      Returns-mono (deallocate_memory-Released m p n b v e found busy) λ (m', p') (rel, gone). (
        rel.valid,
        record {
          each = omega (arith, o.each);
          once = λ k. omega (arith, o.once k);
          used = λ k has.
              let (c, found', busy') = o.used k (omega (arith, has)) in
              let other : (n == k) ≡ false = ground (arith, o.once k, has, ap (block_at k) e) in
              (c, rel.kept k c found' busy' other, busy');
          all = λ k (c, found', busy'). elim (Bool-cases (n == k)) [
            | inl same ↦
                let at =
                  subst (λ i. get_data m'.memory i ≡ some c) (sym (same_ptrs n k same)) found' in
                absurd (ground (arith, ap hole_of (sym at ∙ rel.placed), rel.covers.free, busy'))
            | inr other ↦
                let old : InUse m k = (c, rel.back k c found' busy' other, busy') in
                ground (arith, o.all k old, ap (block_at k) e, other)
          ];
        },
        gone,
      )
]
