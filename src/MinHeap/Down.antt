-- ===== src/MinHeap/Down.antt =====
-- down_heap of src/min_heap.c.
use mathlib.Core.List.Perm
use process_management_syste.Base.{
  ℕ, zero, suc, ◌+◌, ◌-◌, ◌*◌, ◌<◌, ◌≡◌, ◌≢◌, ◌⊎◌, inl, false, List, arith, Returns, returns,
  Returns-if, Returns-bind, ◌==◌, refl, ltb, true,
}
use process_management_syste.Base.Lists.{length}
use process_management_syste.ProcessData.{Process, compare_process}
use process_management_syste.ProcessData.Order.{after, after_trans, after-asymm}
use process_management_syste.MinHeap.{cell, parent, smaller, down_heap, load-some, swap-some}
use process_management_syste.MinHeap.Order.{
  IsBridged, Sifted, swapped, length-swapped, cell-swapped, Sifted-swapped, after_refl,
}

module _ (d : Process) where
  -- Only the edges below `i` may be out of order.
  pub record DownInv (a : List Process) (i : ℕ) : Type 0 where
    pub bridged : IsBridged d a i
    pub edges :
        (cell_at : ℕ)
        → 0 < cell_at
        → cell_at < length a
        → parent cell_at ≢ i
        → after (cell d a (parent cell_at)) (cell d a cell_at) ≡ false
    pub inside : i < length a

  -- Of `s` and `c`, where `c` may lie outside, `m` holds the process that goes first.
  record IsFirst (a : List Process) (s c m : ℕ) : Type 0 where
    inside : m < length a
    one_of : (m ≡ s) ⊎ ((m ≡ c) × (after (cell d a s) (cell d a m) ≡ true))
    before_s : after (cell d a m) (cell d a s) ≡ false
    before_c : c < length a → after (cell d a m) (cell d a c) ≡ false

  smaller-IsFirst :
      (a : List Process) (s c : ℕ)
      → s < length a
      → Returns (IsFirst a s c) (smaller compare_process a s c)
  unfolding smaller
  smaller-IsFirst a s c hs =
      Returns-if (ltb c (length a))
        (λ e.
          let hc : c < length a = ground arith in
          rw (load-some d a s hs, load-some d a c hc)
            (returns (record {
              inside = ground arith;
              one_of = ground arith;
              before_s =
                  ground (arith, after_refl (cell d a s), after-asymm (cell d a s) (cell d a c));
              before_c = λ _. ground (arith, after_refl (cell d a c));
            })))
        (λ e. returns (record {
          inside = hs;
          one_of = inl refl;
          before_s = after_refl (cell d a s);
          before_c = ground arith;
        }))

  -- Of `i` and its children, `m` holds the process that goes first.
  record IsLeast (a : List Process) (i m : ℕ) : Type 0 where
    inside : m < length a
    one_of : (m ≡ i) ⊎ ((parent m ≡ i) × (i < m) × (after (cell d a i) (cell d a m) ≡ true))
    before : (c : ℕ) → 0 < c → c < length a → parent c ≡ i → after (cell d a m) (cell d a c) ≡ false

  IsFirst-IsLeast :
      {a : List Process} {i s m : ℕ}
      → IsFirst a i (2 * i + 1) s
      → IsFirst a s (2 * i + 2) m
      → IsLeast a i m
  IsFirst-IsLeast {a} {i} {s} {m} f g = record {
    inside = g.inside;
    one_of = ground (arith, after_trans (cell d a i) (cell d a m) (cell d a s));
    before = λ c p q r. ground (arith, after_trans (cell d a m) (cell d a s) (cell d a c));
  }

  swapped-DownInv :
      (a : List Process) (i m : ℕ)
      → DownInv a i
      → IsLeast a i m
      → m ≢ i
      → DownInv (swapped d a i m) m
  swapped-DownInv a i m v l moved =
      let size = length-swapped d a i m in
      let at = cell-swapped d a i m v.inside l.inside in
      record {
        inside = omega arith;
        edges = λ c p q r. ground (
          arith,
          at c,
          at (parent c),
          v.edges c,
          v.bridged m,
          l.before c,
          after-asymm (cell d a i) (cell d a m),
        );
        bridged = λ c p q r t. ground (arith, at c, at (parent m), v.edges c);
      }

  pub down_heap-Sifted :
      (k : ℕ) (a : List Process) (i : ℕ)
      → length a - i < k
      → DownInv a i
      → Returns (Sifted d a) (down_heap k compare_process a i)
  unfolding down_heap
  down_heap-Sifted zero a i f v = absurd (omega arith)
  down_heap-Sifted (suc k) a i f v =
      Returns-bind (smaller-IsFirst a i (2 * i + 1) v.inside) λ s first.
        Returns-bind (smaller-IsFirst a s (2 * i + 2) first.inside) λ m second.
          let l = IsFirst-IsLeast first second in
          Returns-if (m == i)
            (λ e. returns (λ c p q. ground (arith, v.edges c, l.before c), Perm.rfl))
            (λ e. rw (swap-some d a i m v.inside l.inside) (
              Sifted-swapped d a i m v.inside l.inside (
                down_heap-Sifted k (swapped d a i m) m (ground (arith, length-swapped d a i m))
                  (swapped-DownInv a i m v l (ground arith)))))
