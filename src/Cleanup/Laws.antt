-- ===== src/Cleanup/Laws.antt =====
-- What free_process of src/process_data.c gives back, called by free_list of src/linked_list.c, and
-- free_heap of src/min_heap.c.
use mathlib.Core.List.{map}
use process_management_syste.Base.{
  Bool-cases, inl, inr, Ptr, ℕ, ◌+◌, ◌≡◌, ◌<◌, refl, List, [], ◌∷◌, arith, ◌==◌, if◌then◌else◌,
  Returns, returns, Returns-bind,
}
use process_management_syste.Base.Lists.{sum_by}
use process_management_syste.NodeList.{Cell}
use process_management_syste.LinkedList.{Heap, ListT, free_list}
use process_management_syste.LinkedList.Links.{Holds}
use process_management_syste.LinkedList.Ends.{FreedAll, free_list-Freed}
use process_management_syste.Cleanup.{
  Resources, Held, HeldHeap, free_address, close, free_process, free_heap,
}

-- How often a list has a number.
abbrev pub is_at : ℕ → ℕ → ℕ
is_at n m = if m == n then 1 else 0

abbrev pub count : ℕ → List ℕ → ℕ
count n = sum_by (is_at n)

pub free_address-count :
    (p : Ptr) (l : List Ptr)
    → 0 < count p l
    → Returns (λ l'. (n : Ptr) → count n l ≡ is_at n p + count n l') (free_address p l)
unfolding free_address
free_address-count p [] f = absurd (omega arith)
free_address-count p (q ∷ l) f = elim (Bool-cases (q == p)) [
  | inl e ↦ rw e (returns λ n. ground (arith, e))
  | inr e ↦ rw e (
      Returns-bind (free_address-count p l (ground (arith, e, f)))
        λ l' h. returns λ n. omega (arith, h n))
]

close-count :
    (fd : ℕ) (l : List ℕ) → 0 < count fd l → (n : ℕ) → count n l ≡ is_at n fd + count n (close fd l)
unfolding close
close-count fd [] f n = absurd (omega arith)
close-count fd (x ∷ l) f n = elim (Bool-cases (x == fd)) [
  | inl e ↦ rw e (ground (arith, e))
  | inr e ↦ rw e (omega (arith, close-count fd l (ground (arith, e, f)) n))
]

-- How often a process has an address, and how often a descriptor.
abbrev pub addresses : ℕ → Held → ℕ
addresses n p = is_at n p.name_address + is_at n p.address

abbrev pub descriptors : ℕ → Held → ℕ
descriptors n p = is_at n p.process.fd_in.0 + is_at n p.process.fd_out.1

-- The resources are those of the processes and some others, with the multiplicities given.
abbrev pub HeldBy : (ℕ → ℕ) → (ℕ → ℕ) → List Held → Resources → Type 0
HeldBy others other_fds ps r =
    ((n : ℕ) → count n r.allocated ≡ sum_by (addresses n) ps + others n)
    × ((n : ℕ) → count n r.opened ≡ sum_by (descriptors n) ps + other_fds n)

pub is_at-same : (n : ℕ) → is_at n n ≡ 1
is_at-same n = ground arith

module _ (others other_fds : ℕ → ℕ) where
  free_process-HeldBy :
      (p : Held) (ps : List Held) (r : Resources)
      → HeldBy others other_fds (p ∷ ps) r
      → Returns (HeldBy others other_fds ps) (free_process p r)
  unfolding free_process
  free_process-HeldBy p ps r (blocks, fds) =
      let fd_in = p.process.fd_in.0 in
      let fd_out = p.process.fd_out.1 in
      let c : (n : ℕ) → count n r.opened ≡ is_at n fd_in + count n (close fd_in r.opened) =
        close-count fd_in r.opened (omega (arith, fds fd_in, is_at-same fd_in)) in
      let d =
        close-count fd_out (close fd_in r.opened)
          (omega (arith, fds fd_out, c fd_out, is_at-same fd_out)) in
      Returns-bind
        (free_address-count p.name_address r.allocated
          (omega (arith, blocks p.name_address, is_at-same p.name_address)))
        λ a h.
          Returns-bind
            (free_address-count p.address a
              (omega (arith, blocks p.address, h p.address, is_at-same p.address)))
            λ b k.
              returns (λ n. omega (arith, blocks n, h n, k n), λ n. omega (arith, fds n, c n, d n))

  -- free_list with free_process, where the allocated addresses are those of the processes of the list,
  -- of their names and some others, and the open descriptors two of each process and some others: it
  -- does not fault, frees each node of the list, and each process and its name once, closes the two
  -- descriptors of each, and leaves every other address and descriptor.
  pub free_list-free_process :
      (xs : List (Cell Held)) (stale : Ptr) (l : ListT) (h : Heap Held) (r : Resources)
      → Holds stale l h xs
      → HeldBy others other_fds (map (λ x. x.content) xs) r
      → Returns (FreedAll (HeldBy others other_fds) xs h) (free_list free_process l h r)
  free_list-free_process =
      free_list-Freed free_process (HeldBy others other_fds) free_process-HeldBy

-- free_heap frees the heap and its array, where both are allocated, and leaves every other address.
pub free_heap-HeldBy :
    (heap : HeldHeap) (others : ℕ → ℕ) (r : Resources)
    → ((n : ℕ) → count n r.allocated ≡ is_at n heap.data_address + is_at n heap.address + others n)
    → Returns
        (λ r'. ((n : ℕ) → count n r'.allocated ≡ others n) × (r'.opened ≡ r.opened))
        (free_heap heap r)
unfolding free_heap
free_heap-HeldBy heap others r blocks =
    Returns-bind
      (free_address-count heap.data_address r.allocated
        (omega (arith, blocks heap.data_address, is_at-same heap.data_address)))
      λ a h.
        Returns-bind
          (free_address-count heap.address a
            (omega (arith, blocks heap.address, h heap.address, is_at-same heap.address)))
          λ b k. returns (λ n. omega (arith, blocks n, h n, k n), refl)
