-- ===== src/MinHeap/Up.antt =====
-- up_heap of src/min_heap.c.
use mathlib.Core.List.Perm
use process_management_syste.Base.{
  ℕ, zero, suc, ◌<◌, ◌≡◌, ◌≢◌, false, true, List, arith, ltb, Returns, returns, Returns-if,
}
use process_management_syste.Base.Lists.{length}
use process_management_syste.ProcessData.{Process, compare_process}
use process_management_syste.ProcessData.Order.{after, after_trans, after-asymm}
use process_management_syste.MinHeap.{cell, parent, up_heap, load-some}
use process_management_syste.MinHeap.Order.{
  IsBridged, Sifted, swapped, length-swapped, cell-swapped, Sifted-swapped,
}

module _ (d : Process) where
  -- Only the edge above `i` may be out of order.
  pub record UpInv (a : List Process) (i : ℕ) : Type 0 where
    pub bridged : IsBridged d a i
    pub edges :
        (cell_at : ℕ)
        → 0 < cell_at
        → cell_at < length a
        → cell_at ≢ i
        → after (cell d a (parent cell_at)) (cell d a cell_at) ≡ false
    pub inside : i < length a

  swapped-UpInv :
      (a : List Process) (i : ℕ)
      → UpInv a i
      → 0 < i
      → after (cell d a (parent i)) (cell d a i) ≡ true
      → UpInv (swapped d a i (parent i)) (parent i)
  swapped-UpInv a i v pos above =
      let size = length-swapped d a i (parent i) in
      let at = cell-swapped d a i (parent i) v.inside (omega arith) in
      record {
        inside = omega arith;
        edges = λ c p q r. ground (
          arith,
          at c,
          at (parent c),
          v.edges c,
          v.bridged c,
          after-asymm _ _ above,
          after_trans (cell d a i) (cell d a (parent i)) (cell d a c),
        );
        bridged = λ c p q r t. ground (
          arith,
          at c,
          at (parent (parent i)),
          v.edges c,
          v.edges (parent i),
          after_trans (cell d a (parent (parent i))) (cell d a (parent i)) (cell d a c),
        );
      }

  pub up_heap-Sifted :
      (k : ℕ) (a : List Process) (i : ℕ)
      → i < k
      → UpInv a i
      → Returns (Sifted d a) (up_heap k compare_process a i)
  unfolding up_heap
  up_heap-Sifted zero a i f v = absurd (omega arith)
  up_heap-Sifted (suc k) a i f v =
      let above : parent i < length a = omega arith in
      Returns-if (ltb 0 i)
        (λ pos.
          rw (load-some d a (parent i) above, load-some d a i v.inside)
            (Returns-if (after (cell d a (parent i)) (cell d a i))
              (λ gt. Sifted-swapped d a i (parent i) v.inside above (
                up_heap-Sifted k (swapped d a i (parent i)) (parent i) (ground arith)
                  (swapped-UpInv a i v (ground arith) gt)))
              (λ settled. returns (λ c p q. ground (arith, v.edges c), Perm.rfl))))
        (λ root. returns (λ c p q. v.edges c p q (ground arith), Perm.rfl))
