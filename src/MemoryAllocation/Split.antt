-- ===== src/MemoryAllocation/Split.antt =====
-- split of src/memory_allocation.c keeps the invariant.
use mathlib.Core.Path.{subst}
use process_management_syste.Base.{
  ◌+◌, ◌-◌, ◌≤◌, ◌<◌, ◌≡◌, refl, sym, true, false, none, some, List, [], ◌∷◌, ◌++◌, arith, ◌==◌,
  if◌then◌else◌, Returns, returns, Returns-bind, Returns-if, Ptr,
}
use process_management_syste.NodeList.Nodes.{
  has, Distinct, Distinct-out, Distinct-insert, Distinct-left, has-insert, has-append,
  get_data-resize, get_data-insert, get_data-missing, set_data_here, get_data_here, get_prev_here,
  get_next_here, delete_node_here, split_at,
}
use process_management_syste.ProcessData.{Process, set_block_node}
use process_management_syste.MemoryAllocation.{
  Block, Node, Memory, node, is_hole, hole, process, get_data, split, insert_node_sorted,
}
use process_management_syste.MemoryAllocation.Holes.{
  Listed, Ascending-transfer, Added, insert_node_sorted-Added,
}
use process_management_syste.MemoryAllocation.Tiles.{
  Apart, Apart-split, Apart-join, Apart-weaken, insert_node_here,
}
use process_management_syste.MemoryAllocation.Invariant.{
  Layout, IsValid, new_left, new_around, Layout-replace,
}

-- The block that split makes for a process at the start of a hole.
abbrev pub cut : Process → Block → Block
cut p old = record { type = process; start_address = old.start_address; size = p.mem_requirement }

-- The hole that is left.
abbrev pub rest_of : Process → Block → Block
rest_of p old = record {
  type = hole;
  start_address = old.start_address + p.mem_requirement;
  size = old.size - p.mem_requirement;
}

-- What split leaves of a memory with the hole `n`.
pub record Allocated (m : Memory) (p : Process) (n : Ptr) (old : Block) (m' : Memory) : Type 0 where
  pub valid : IsValid m'
  pub placed : get_data m'.memory m.fresh ≡ some (cut p old)
  pub kept :
      (q : Ptr)
      → (n == q) ≡ false
      → (m.fresh == q) ≡ false
      → get_data m'.memory q ≡ get_data m.memory q
  pub gone : (b : Block) → get_data m'.memory n ≡ some b → is_hole b.type ≡ true
  pub next_fresh : m'.fresh ≡ m.fresh + 1

module _ (left right : List Node) (n fresh : Ptr) (old : Block) (p : Process) (holes : List Ptr)
    (v : Layout (left ++ node n old ∷ right) fresh)
    (hs : Listed (left ++ node n old ∷ right) (some n) holes)
    (apart : Apart false (left ++ node n old ∷ right)) (is : is_hole old.type ≡ true)
    (room : p.mem_requirement ≤ old.size) where
  abbrev before : List Node
  before = left ++ node n old ∷ right

  abbrev start : Memory
  start = record { memory = before; holes = holes; fresh = fresh }

  fresh_out : has fresh (left ++ right) ≡ false
  fresh_out = ground (arith, v.below fresh, has-insert n old right fresh left)

  fresh_left : has fresh left ≡ false
  fresh_left = ground (arith, fresh_out, has-append fresh left right)

  -- What the memory reads at `q` when the hole is used up.
  fits_read :
      (q : Ptr)
      → get_data (left ++ node fresh (cut p old) ∷ right) q
        ≡ (if fresh == q then some (cut p old) else if n == q then none else get_data before q)
  fits_read q = ground (
    arith,
    get_data-insert fresh (cut p old) right q left fresh_left,
    get_data-insert n old right q left (new_left left right n old fresh v),
    get_data-missing (left ++ right) n (new_around left right n old fresh v),
  )

  unread : get_data before fresh ≡ none
  unread = get_data-missing before fresh (ground (arith, v.below fresh))

  fits-Listed : Listed (left ++ node fresh (cut p old) ∷ right) none holes
  fits-Listed = record {
    exact = λ q. ground (arith, hs.exact q, fits_read q, unread);
    once = hs.once;
    ascending =
        Ascending-transfer before _ holes (λ q m. ground (arith, hs.exact q, fits_read q, unread))
          hs.ascending;
  }

  fits-Layout :
      old.size - p.mem_requirement ≡ 0 → Layout (left ++ node fresh (cut p old) ∷ right) (fresh + 1)
  fits-Layout z =
      Layout-replace left right n old fresh v (node fresh (cut p old) ∷ []) (fresh + 1)
        (Distinct-insert (node fresh (cut p old)) right left fresh_out
          (Distinct-out (node n old) right left v.distinct).2)
        (λ q h. ground (
          arith,
          v.below q,
          has-insert n old right q left,
          has-insert fresh (cut p old) right q left,
        ))
        (omega arith) (λ s e. (e, tt))

  fits-Apart : Apart false (left ++ node fresh (cut p old) ∷ right)
  fits-Apart =
      let (a, b) = Apart-split (node n old ∷ right) left false apart in
      Apart-join (node fresh (cut p old) ∷ right) left false a
        (ground arith, Apart-weaken right (is_hole old.type) false b.1 (λ e. cc))

  abbrev resized : List Node
  resized = left ++ node n (rest_of p old) ∷ right

  abbrev larger : List Node
  larger = left ++ node fresh (cut p old) ∷ node n (rest_of p old) ∷ right

  n-lt-fresh : n < fresh
  n-lt-fresh = v.below n (ground (arith, has-insert n old right n left))

  -- What the memory reads at `q` when a smaller hole is left.
  resized_read :
      (q : Ptr) → get_data resized q ≡ (if n == q then some (rest_of p old) else get_data before q)
  resized_read q =
      get_data-resize n old right q left (rest_of p old) (new_left left right n old fresh v)

  larger_read :
      (q : Ptr) → get_data larger q ≡ (if fresh == q then some (cut p old) else get_data resized q)
  larger_read q =
      get_data-insert fresh (cut p old) (node n (rest_of p old) ∷ right) q left fresh_left

  resized-Distinct : Distinct resized
  resized-Distinct =
      Distinct-insert (node n (rest_of p old)) right left (new_around left right n old fresh v)
        (Distinct-out (node n old) right left v.distinct).2

  larger-Listed : {r : List Ptr} → Added resized n holes r → Listed larger none r
  larger-Listed {r} ad = record {
    exact = λ q.
        ground (arith, ad.members q, hs.exact q, larger_read q, resized_read q, unread, n-lt-fresh);
    once = ad.once;
    ascending =
        Ascending-transfer resized larger r
          (λ q m. ground (arith, ad.members q, hs.exact q, larger_read q, unread, n-lt-fresh))
          ad.ascending;
  }

  larger-Layout : Layout larger (fresh + 1)
  larger-Layout =
      Layout-replace left right n old fresh v (node fresh (cut p old) ∷ node n (rest_of p old) ∷ [])
        (fresh + 1)
        (Distinct-insert (node fresh (cut p old)) (node n (rest_of p old) ∷ right) left
          (ground (arith, fresh_out, has-insert n (rest_of p old) right fresh left, n-lt-fresh))
          resized-Distinct)
        (λ q h. ground (
          arith,
          v.below q,
          has-insert n old right q left,
          has-insert n (rest_of p old) right q left,
          has-insert fresh (cut p old) (node n (rest_of p old) ∷ right) q left,
        ))
        (omega arith) (λ s e. (e, (omega arith, tt)))

  larger-Apart : Apart false larger
  larger-Apart =
      let (a, b) = Apart-split (node n old ∷ right) left false apart in
      Apart-join (node fresh (cut p old) ∷ node n (rest_of p old) ∷ right) left false a
        (ground arith, (refl, Apart-weaken right (is_hole old.type) true b.1 (λ e. is)))

  add_rest : Returns (Added resized n holes) (insert_node_sorted resized holes n)
  add_rest =
      insert_node_sorted-Added resized n (rest_of p old) holes (ground (arith, resized_read n))
        (ground (arith, hs.exact n)) hs.once
        (Ascending-transfer before resized holes (λ q m. ground (arith, hs.exact q, resized_read q))
          hs.ascending)
        (λ q m. ground (arith, hs.exact q, resized_read q))

  left-Distinct : Distinct left
  left-Distinct = Distinct-left left (node n old ∷ right) v.distinct

  split_around :
      Returns
        (λ r. Allocated start p n old r.0 × (r.1 ≡ set_block_node p (some fresh)))
        (split p n start)
  unfolding split
  split_around =
      rw
        (
          get_data_here n old right left (new_left left right n old fresh v),
          set_data_here n old right left (rest_of p old) (new_left left right n old fresh v),
          get_prev_here n (rest_of p old) right left (new_left left right n old fresh v),
        )
        (Returns-if (old.size - p.mem_requirement == 0)
          (λ z.
            rw
              (
                get_next_here n (rest_of p old) right left (new_left left right n old fresh v),
                delete_node_here n (rest_of p old) right left (new_left left right n old fresh v),
                insert_node_here left right (node fresh (cut p old)) left-Distinct,
              )
              (returns (
                record {
                  valid = record {
                    layout = fits-Layout (ground arith);
                    listed = fits-Listed;
                    apart = fits-Apart;
                  };
                  placed = ground (arith, fits_read fresh);
                  kept = λ q a b. ground (arith, fits_read q);
                  gone = λ b e. ground (arith, fits_read n, n-lt-fresh);
                  next_fresh = refl;
                },
                refl,
              )))
          (λ z. Returns-bind add_rest λ r ad.
            rw
              (insert_node_here left (node n (rest_of p old) ∷ right) (node fresh (cut p old))
                left-Distinct)
              (returns (
                record {
                  valid = record {
                    layout = larger-Layout;
                    listed = larger-Listed ad;
                    apart = larger-Apart;
                  };
                  placed = ground (arith, larger_read fresh);
                  kept = λ q a b. ground (arith, larger_read q, resized_read q);
                  gone = λ b e. ground (arith, larger_read n, resized_read n, n-lt-fresh);
                  next_fresh = refl;
                },
                refl,
              ))))

-- split at a hole of any memory that has left the list of holes.
pub split-Allocated :
    (l : List Node) (n fresh : Ptr) (old : Block) (p : Process) (holes : List Ptr)
    → get_data l n ≡ some old
    → Layout l fresh
    → Listed l (some n) holes
    → Apart false l
    → is_hole old.type ≡ true
    → p.mem_requirement ≤ old.size
    → Returns
        (λ r.
          Allocated (record { memory = l; holes = holes; fresh = fresh }) p n old r.0
          × (r.1 ≡ set_block_node p (some fresh)))
        (split p n (record { memory = l; holes = holes; fresh = fresh }))
split-Allocated l n fresh old p holes found v hs apart is room =
    let r = split_at l n old found in
    subst
      (λ l.
        Layout l fresh
        → Listed l (some n) holes
        → Apart false l
        → Returns
            (λ (r : Memory × Process).
              Allocated (record { memory = l; holes = holes; fresh = fresh }) p n old r.0
              × (r.1 ≡ set_block_node p (some fresh)))
            (split p n (record { memory = l; holes = holes; fresh = fresh })))
      (sym r.whole)
      (λ v hs apart. split_around r.left r.right n fresh old p holes v hs apart is room) v hs apart
