-- ===== src/MinHeap/Laws.antt =====
-- create_heap, insert_data and extract_min of src/min_heap.c as a priority queue.
use mathlib.Core.List.{not-mem-nil, forall_mem-cons, Mem}
use mathlib.Core.List.Perm
use mathlib.Core.Bool.{Bool-set}
use process_management_syste.Base.{
  ℕ, suc, ◌+◌, ◌-◌, ◌*◌, ◌≤◌, ◌<◌, ◌≡◌, refl, ◌∙◌, false, Option, some, List, [], ◌∷◌, ◌++◌, Perm,
  arith, Returns, returns, Returns-if, Returns-bind, ltb, leb, ◌==◌, if◌then◌else◌,
}
use process_management_syste.Base.Lists.{
  length, set, take, length-append, length-set, length-perm, snoc-perm, get_or, get_or-append,
  get_or-set, get_or-take, take-snoc, set-perm,
}
use process_management_syste.ProcessData.{Process}
use process_management_syste.ProcessData.Order.{after}
use process_management_syste.MinHeap.{
  MinHeap, cell, parent, create_heap, insert_data, extract_min, load-some,
}
use process_management_syste.MinHeap.Order.{IsHeap, IsValid, root-first}
use process_management_syste.MinHeap.Up.{UpInv, up_heap-Sifted}
use process_management_syste.MinHeap.Down.{DownInv, down_heap-Sifted}

module _ (d : Process) where
  abbrev pub Valid : MinHeap → Type 0
  Valid h = IsValid d h.items h.capacity

  -- What insert_data leaves: a valid heap of one process more.
  pub record Inserted (h : MinHeap) (p : Process) (h' : MinHeap) : Type 0 where
    pub valid : Valid h'
    pub same : Perm h'.items (p ∷ h.items)
    pub kept : h.capacity ≤ h'.capacity

  pub create_heap-Valid : Valid create_heap
  unfolding create_heap
  create_heap-Valid = record {
    heap = λ c p q. absurd (omega arith);
    fits = omega arith;
    grows = omega arith;
  }

  snoc-UpInv : (a : List Process) (p : Process) → IsHeap d a → UpInv d (a ++ p ∷ []) (length a)
  snoc-UpInv a p v =
      let size : length (a ++ p ∷ []) ≡ length a + 1 = length-append a (p ∷ []) in
      record {
        inside = omega arith;
        edges = λ c q r s.
            ground
              (arith, v c, get_or-append d a (p ∷ []) c, get_or-append d a (p ∷ []) (parent c));
        bridged = λ c q r s. absurd (omega arith);
      }

  -- insert_data on a valid heap does not fault, even where the array is full: the heap that is
  -- left is valid, holds the old processes and the new one, and has no smaller capacity.
  pub insert_data-Inserted :
      (h : MinHeap) (p : Process) → Valid h → Returns (Inserted h p) (insert_data h p)
  unfolding insert_data
  insert_data-Inserted h p v =
      let n = length h.items in
      Returns-if (ltb n (if leb h.capacity n then h.capacity * 2 else h.capacity))
        (λ room.
          Returns-bind
            (up_heap-Sifted d (n + 1) (h.items ++ p ∷ []) n (omega arith)
              (snoc-UpInv h.items p v.heap))
            λ a (heap, perm).
              let size = length-append h.items (p ∷ []) in
              let more = length-perm perm in
              returns (record {
                valid = record {
                  heap = heap;
                  fits = ground arith;
                  grows = ground (arith, v.grows);
                };
                same = Perm.trans perm (snoc-perm h.items p);
                kept = ground arith;
              }))
        (λ full. absurd (ground (arith, v.grows, v.fits)))

  first_of_cells :
      (m : Process) (a : List Process)
      → ((i : ℕ) → i < length a → after m (cell d a i) ≡ false)
      → (p : Process) → Mem p a
      → after m p ≡ false
  unfolding get_or
  first_of_cells m [] h = λ p i. absurd (not-mem-nil i)
  first_of_cells m (x ∷ a) h =
      (forall_mem-cons λ p. Bool-set _ _).1
        (h 0 (omega arith), first_of_cells m a λ i p. h (suc i) (omega arith))

  -- What extract_min returns and leaves: a process that none goes before, and a valid heap of the
  -- others.
  pub record Extracted (h : MinHeap) (r : Option Process × MinHeap) : Type 0 where
    pub min : Process
    pub returned : r.0 ≡ some min
    pub valid : Valid r.1
    pub same : Perm (min ∷ r.1.items) h.items
    pub first : (p : Process) → Mem p h.items → after min p ≡ false

  module _ (a : List Process) (n : ℕ) (size : length a ≡ suc n) (more : 0 < n) where
    -- The array that extract_min hands to down_heap.
    abbrev moved : List Process
    moved = take n (set a 0 (cell d a n))

    moved-perm : Perm (cell d a 0 ∷ moved) a
    moved-perm =
        let last = cell d a n in
        let b = set a 0 last in
        let whole : moved ++ last ∷ [] ≡ b = ground (
          arith,
          take-snoc d n b (length-set a 0 last ∙ size),
          get_or-set d a 0 n last (omega arith),
        ) in
        let traded : Perm (cell d a 0 ∷ moved ++ last ∷ []) (last ∷ a) =
          rw whole (set-perm d a 0 last (omega arith)) in
        let back = Perm.symm (Perm.cons (cell d a 0) (snoc-perm moved last)) in
        Perm.cons_inv (Perm.trans (Perm.swap (cell d a 0) last moved) (Perm.trans back traded))

    length-moved : length moved ≡ n
    length-moved = omega (arith, length-perm moved-perm)

    moved-DownInv : IsHeap d a → DownInv d moved 0
    moved-DownInv v =
        let kept = get_or-take d n (set a 0 (cell d a n)) in
        let at = get_or-set d a 0 in
        let shorter = length-perm moved-perm in
        record {
          inside = omega arith;
          edges = λ c p q r.
              ground (
                arith,
                v c,
                kept c,
                kept (parent c),
                at c (cell d a n),
                at (parent c) (cell d a n),
              );
          bridged = λ c p q r t. absurd (omega arith);
        }

  single-perm : (a : List Process) → length a ≡ 1 → Perm (cell d a 0 ∷ []) a
  unfolding get_or
  single-perm [] h = absurd (omega arith)
  single-perm (x ∷ []) h = Perm.refl (x ∷ [])
  single-perm (x ∷ y ∷ a) h = absurd (omega arith)

  -- extract_min on a valid heap that is not empty does not fault and returns a process that
  -- compare_process puts behind no other of the heap; the heap that is left holds exactly the
  -- others and is valid.
  pub extract_min-Extracted :
      (h : MinHeap) → Valid h → 0 < length h.items → Returns (Extracted h) (extract_min h)
  unfolding extract_min
  extract_min-Extracted h v some_left =
      let n = length h.items - 1 in
      let least = first_of_cells _ h.items λ i p. root-first d h.items i v.heap p in
      Returns-if (length h.items == 0) (λ e. absurd (ground arith))
        λ _.
          Returns-if (n == 0)
            (λ e. rw (load-some d h.items 0 some_left) (
              returns (record {
                min = cell d h.items 0;
                returned = refl;
                valid = record {
                  heap = λ c p q. absurd (omega arith);
                  fits = omega arith;
                  grows = v.grows;
                };
                same = single-perm h.items (ground arith);
                first = least;
              })))
            (λ e.
              rw (load-some d h.items 0 some_left, load-some d h.items n (omega arith))
                (Returns-bind
                  (down_heap-Sifted d (n + 1) (moved h.items n (omega arith) (ground arith)) 0
                    (omega (arith, length-moved h.items n (omega arith) (ground arith)))
                    (moved-DownInv h.items n (omega arith) (ground arith) v.heap))
                  λ a (heap, perm).
                    let same =
                      Perm.trans (Perm.cons _ perm)
                        (moved-perm h.items n (omega arith) (ground arith)) in
                    returns (record {
                      min = cell d h.items 0;
                      returned = refl;
                      valid = record {
                        heap = heap;
                        fits = omega (arith, length-perm same, v.fits);
                        grows = v.grows;
                      };
                      same = same;
                      first = least;
                    })))
