-- ===== src/MinHeap/Order.antt =====
-- The heap order, and what a swap does to the array of src/min_heap.c.
use mathlib.Core.List.Perm
use process_management_syste.Base.{
  ℕ, zero, suc, ◌≤◌, ◌<◌, ◌≡◌, false, List, Perm, arith, Option, Returns, Returns-mono, ◌==◌,
  if◌then◌else◌,
}
use process_management_syste.Base.Lists.{length, set, length-set, get_or-set, set-perm}
use process_management_syste.ProcessData.{Process}
use process_management_syste.ProcessData.Order.{after, after_trans, after-asymm}
use process_management_syste.MinHeap.{cell, parent}

pub after_refl : (p : Process) → after p p ≡ false
after_refl p = ground (arith, after-asymm p p)

module _ (d : Process) where
  -- No child goes before its parent.
  abbrev pub IsHeap : List Process → Type 0
  IsHeap a = (c : ℕ) → 0 < c → c < length a → after (cell d a (parent c)) (cell d a c) ≡ false

  -- The edges past `i`, from its parent to its children, are in order.
  abbrev pub IsBridged : List Process → ℕ → Type 0
  IsBridged a i =
      (c : ℕ)
      → 0 < c
      → c < length a
      → parent c ≡ i
      → 0 < i
      → after (cell d a (parent i)) (cell d a c) ≡ false

  -- `b` holds the processes of `a`, in heap order.
  abbrev pub Sifted : List Process → List Process → Type 0
  Sifted a b = IsHeap b × Perm b a

  abbrev pub swapped : List Process → ℕ → ℕ → List Process
  swapped a i j = set (set a i (cell d a j)) j (cell d a i)

  pub length-swapped : (a : List Process) (i j : ℕ) → length (swapped a i j) ≡ length a
  length-swapped a i j = simp length-set

  module _ (a : List Process) (i j : ℕ) (hi : i < length a) (hj : j < length a) where
    pub cell-swapped :
        (c : ℕ)
        → cell d (swapped a i j) c
          ≡ (if j == c then cell d a i else if i == c then cell d a j else cell d a c)
    cell-swapped c = rw (
      get_or-set d (set a i (cell d a j)) j c (cell d a i) (rw length-set hj),
      get_or-set d a i c (cell d a j) hi,
    )

    swapped-perm : Perm (swapped a i j) a
    swapped-perm =
        let b = set a i (cell d a j) in
        let kept : cell d b j ≡ cell d a j = ground (arith, get_or-set d a i j (cell d a j) hi) in
        let second = rw kept at (set-perm d b j (cell d a i) (rw length-set hj)) in
        Perm.cons_inv (Perm.trans second (set-perm d a i (cell d a j) hi))

    pub Sifted-swapped :
        {r : Option (List Process)} → Returns (Sifted (swapped a i j)) r → Returns (Sifted a) r
    Sifted-swapped run = Returns-mono run λ b s. (s.0, Perm.trans s.1 swapped-perm)

  root-first_below :
      (k : ℕ) (a : List Process) (i : ℕ)
      → IsHeap a
      → i < k
      → i < length a
      → after (cell d a 0) (cell d a i) ≡ false
  root-first_below zero a i h f p = absurd (omega arith)
  root-first_below (suc k) a zero h f p = after_refl (cell d a 0)
  root-first_below (suc k) a (suc i) h f p =
      after_trans _ _ _ (root-first_below k a (parent (suc i)) h (omega arith) (omega arith))
        (h (suc i) (omega arith) p)

  -- No process of a heap goes before the root.
  pub root-first :
      (a : List Process) (i : ℕ) → IsHeap a → i < length a → after (cell d a 0) (cell d a i) ≡ false
  root-first a i h p = root-first_below (suc i) a i h (omega arith) p

-- A heap that insert_data and extract_min keep: in order, and within a capacity that doubling grows.
pub record IsValid (d : Process) (items : List Process) (capacity : ℕ) : Type 0 where
  pub heap : IsHeap d items
  pub fits : length items ≤ capacity
  pub grows : 0 < capacity
