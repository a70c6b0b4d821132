-- ===== src/MinHeap/Sessions.antt =====
-- Whole sessions of insert_data and extract_min of src/min_heap.c.
use mathlib.Core.List.{Mem, mem-cons_of_mem, perm_middle, append-nil}
use mathlib.Core.List.Perm
use process_management_syste.Base.{
  ℕ, zero, suc, ◌≡◌, false, Option, some, List, [], ◌∷◌, ◌++◌, Perm, arith, Returns, returns,
  Returns-bind, Returns-mono, ◌>>=◌,
}
use process_management_syste.Base.Lists.{length, length-perm}
use process_management_syste.ProcessData.{Process}
use process_management_syste.ProcessData.Order.{after}
use process_management_syste.MinHeap.{MinHeap, create_heap, insert_data, extract_min}
use process_management_syste.MinHeap.Laws.{
  Valid, create_heap-Valid, insert_data-Inserted, extract_min-Extracted,
}

-- insert_data of each process in turn.
unfoldable pub insert_all : List Process → MinHeap → Option MinHeap
insert_all [] h = some h
insert_all (p ∷ ps) h = do h' ← insert_data h p; insert_all ps h'

-- What `n` calls of extract_min return.
unfoldable pub extract_all : ℕ → MinHeap → Option (List Process)
extract_all zero h = some []
extract_all (suc n) h = do
  (min, h') ← extract_min h
  p ← min
  rest ← extract_all n h'
  some (p ∷ rest)

-- No process stands before one that goes before it.
abbrev pub Ordered : List Process → Type 0
Ordered [] = Unit
Ordered (p ∷ ps) = ((q : Process) → Mem q ps → after p q ≡ false) × Ordered ps

empty-perm : (ps : List Process) → length ps ≡ 0 → Perm [] ps
empty-perm [] e = Perm.refl []
empty-perm (p ∷ ps) e = absurd (omega arith)

append-perm : (ps : List Process) {qs rs : List Process} → Perm qs rs → Perm (ps ++ qs) (ps ++ rs)
append-perm [] same = same
append-perm (p ∷ ps) same = Perm.cons p (append-perm ps same)

module _ (d : Process) where
  insert_all-Valid :
      (ps : List Process) (h : MinHeap)
      → Valid d h
      → Returns (λ h'. Valid d h' × Perm h'.items (ps ++ h.items)) (insert_all ps h)
  unfolding insert_all
  insert_all-Valid [] h v = returns (v, Perm.refl h.items)
  insert_all-Valid (p ∷ ps) h v = Returns-bind (insert_data-Inserted d h p v) λ h' i.
      Returns-mono (insert_all-Valid ps h' i.valid) λ g (w, same).
        (w, Perm.trans same (Perm.trans (append-perm ps i.same) (perm_middle {a = p} ps h.items)))

  extract_all-Ordered :
      (n : ℕ) (h : MinHeap)
      → Valid d h
      → length h.items ≡ n
      → Returns (λ out. Perm out h.items × Ordered out) (extract_all n h)
  unfolding extract_all
  extract_all-Ordered zero h v e = returns (empty-perm h.items e, tt)
  extract_all-Ordered (suc n) h v e =
      Returns-bind (extract_min-Extracted d h v (omega arith)) λ r x. rw x.returned (
        Returns-bind (extract_all-Ordered n r.1 x.valid (omega (arith, length-perm x.same)))
          λ rest (same, ordered).
            let whole = Perm.trans (Perm.cons x.min same) x.same in
            returns (
              whole,
              ((λ q m. x.first q ((Perm.mem_iff whole).0 (mem-cons_of_mem x.min m))), ordered),
            ))

  session_from :
      (ps : List Process)
      → Returns
          (λ out. Perm out ps × Ordered out)
          (do h ← insert_all ps create_heap; extract_all (length ps) h)
  unfolding create_heap
  session_from ps =
      Returns-bind (insert_all-Valid ps create_heap (create_heap-Valid d)) λ h (v, same).
        let all : Perm h.items ps = simp append-nil at same in
        Returns-mono (extract_all-Ordered (length ps) h v (length-perm all))
          λ out (perm, ordered). (Perm.trans perm all, ordered)

-- From an empty heap, as many calls of extract_min as there were of insert_data do not fault: they
-- return the inserted processes, each as often as it was inserted, in the order that
-- compare_process puts them in, whatever their number and the order of their insertion.
pub insert_all-extract_all :
    (ps : List Process)
    → Returns
        (λ out. Perm out ps × Ordered out)
        (do h ← insert_all ps create_heap; extract_all (length ps) h)
unfolding insert_all extract_all
insert_all-extract_all [] = returns (Perm.refl [], tt)
insert_all-extract_all (p ∷ ps) = session_from p (p ∷ ps)
