-- ===== src/MemoryAllocation/Update.antt =====
-- update_memory of src/memory_allocation.c, which merges one of two neighbours into the other.
use mathlib.Core.List.{append_assoc}
use process_management_syste.Base.{
  ◌+◌, ◌≡◌, refl, inl, inr, true, false, none, some, List, [], ◌∷◌, ◌++◌, arith, ◌==◌,
  if◌then◌else◌, Returns, returns, Returns-bind, ltb, Ptr,
}
use process_management_syste.NodeList.Nodes.{
  has, has-append, get_data-missing, set_data_here, delete_node_here,
}
use process_management_syste.MemoryAllocation.{
  Block, Node, Memory, node, is_hole, get_data, set_data, delete_node, update_memory,
}
use process_management_syste.MemoryAllocation.Holes.{
  Listed, Ascending-transfer, Erased, delete_node_by_data-Erased,
}
use process_management_syste.MemoryAllocation.Invariant.{Layout}
use process_management_syste.MemoryAllocation.Pair.{
  Covers, Kept, facts, get_first, get_second, read, merged_read, merged-Layout,
}

-- The block that update_memory gives to the node that stays.
abbrev pub merged : Block → Block → Block
merged b h = record b {
  start_address = if ltb h.start_address b.start_address then h.start_address else b.start_address;
  size = b.size + h.size;
}

-- What a merge of a hole with the block `h` into the node `n` leaves.
pub record Merged (l left right : List Node) (n fresh : Ptr) (b h : Block) (m : Memory)
    : Type 0 where
  pub holes : List Ptr
  pub shape :
      m ≡ record { memory = left ++ node n (merged b h) ∷ right; holes = holes; fresh = fresh }
  pub layout : Layout (left ++ node n (merged b h) ∷ right) fresh
  pub listed : Listed (left ++ node n (merged b h) ∷ right) (some n) holes
  pub covers : Covers b (merged b h)
  pub kept : Kept n l (left ++ node n (merged b h) ∷ right)
  pub back : Kept n (left ++ node n (merged b h) ∷ right) l

-- The second of two neighbours.
module _ (left right : List Node) (x : Node) (q : Ptr) (b : Block)
    (out : has q (left ++ x ∷ []) ≡ false) where
  set_second :
      (c : Block) → set_data (left ++ x ∷ node q b ∷ right) q c ≡ left ++ x ∷ node q c ∷ right
  set_second c = simp append_assoc at (set_data_here q b right (left ++ x ∷ []) c out)

  delete_second : delete_node (left ++ x ∷ node q b ∷ right) q ≡ left ++ x ∷ right
  delete_second = simp append_assoc at (delete_node_here q b right (left ++ x ∷ []) out)

module _ (left right : List Node) (holes : List Ptr) (n c fresh : Ptr) (b h : Block)
    (free : is_hole b.type ≡ true) (is : is_hole h.type ≡ true) where
  abbrev result : List Node
  result = left ++ node n (merged b h) ∷ right

  -- The list of holes, once `c` is out of it, at any list that reads as the merged one should.
  merged-Listed :
      (l : List Node) {r : List Ptr}
      → Listed l (some n) holes
      → Erased l c holes r
      → ((q : Ptr) → (n == q) ≡ false → get_data result q ≡ (if c == q then none else get_data l q))
      → Listed result (some n) r
  merged-Listed l {r} v er reads = record {
    exact = λ q. ground (arith, er.members q, v.exact q, reads q);
    once = er.once;
    ascending =
        Ascending-transfer l result r (λ q m. ground (arith, er.members q, v.exact q, reads q))
          er.ascending;
  }

  module _ (v : Layout (left ++ node n b ∷ node c h ∷ right) fresh)
      (hs : Listed (left ++ node n b ∷ node c h ∷ right) (some n) holes) where
    abbrev both : List Node
    both = left ++ node n b ∷ node c h ∷ right

    right_reads :
        (q : Ptr)
        → (n == q) ≡ false
        → get_data result q ≡ (if c == q then none else get_data both q)
    right_reads q ne =
        let f = facts left right (node n b) (node c h) fresh v in
        ground (
          arith,
          read left right (node n b) (node c h) fresh v q,
          merged_read left right (node n b) (node c h) fresh v (node n (merged b h)) f.x_out q,
          get_data-missing (left ++ right) c f.y_out,
        )

    pub merge_right :
        Returns
          (Merged both left right n fresh b h)
          (update_memory (record { memory = both; holes = holes; fresh = fresh }) n c)
    unfolding update_memory
    merge_right =
        let f = facts left right (node n b) (node c h) fresh v in
        let out = has-append c left (node n (merged b h) ∷ []) in
        rw
          (
            get_second left right (node n b) (node c h) fresh v,
            get_first left right (node n b) (node c h) fresh v,
            set_data_here n b (node c h ∷ right) left (merged b h) f.x_left,
            delete_second left right (node n (merged b h)) c h
                (ground (arith, out, f.y_left, f.apart)),
          )
          (Returns-bind
            (delete_node_by_data-Erased both c holes
              (ground
                (arith, hs.exact c, get_second left right (node n b) (node c h) fresh v, f.apart))
              hs.once hs.ascending)
            λ r er. returns (record {
              holes = r;
              shape = refl;
              layout =
                  merged-Layout left right (node n b) (node c h) fresh v (node n (merged b h))
                    f.x_out (inl refl) (ground (arith, f.follows)) (omega arith);
              listed = merged-Listed both hs er right_reads;
              covers = record {
                free = free;
                from = ground (arith, f.follows);
                to = ground (arith, f.follows);
              };
              kept = λ q d g p ne.
                  ground
                    (arith, right_reads q ne, get_second left right (node n b) (node c h) fresh v);
              back = λ q d g p ne. ground (arith, right_reads q ne);
            }))

  module _ (v : Layout (left ++ node c h ∷ node n b ∷ right) fresh)
      (hs : Listed (left ++ node c h ∷ node n b ∷ right) (some n) holes) where
    abbrev pair : List Node
    pair = left ++ node c h ∷ node n b ∷ right

    left_reads :
        (q : Ptr)
        → (n == q) ≡ false
        → get_data result q ≡ (if c == q then none else get_data pair q)
    left_reads q ne =
        let f = facts left right (node c h) (node n b) fresh v in
        ground (
          arith,
          read left right (node c h) (node n b) fresh v q,
          merged_read left right (node c h) (node n b) fresh v (node n (merged b h)) f.y_out q,
          get_data-missing (left ++ right) c f.x_out,
        )

    pub merge_left :
        Returns
          (Merged pair left right n fresh b h)
          (update_memory (record { memory = pair; holes = holes; fresh = fresh }) n c)
    unfolding update_memory
    merge_left =
        let f = facts left right (node c h) (node n b) fresh v in
        rw
          (
            get_first left right (node c h) (node n b) fresh v,
            get_second left right (node c h) (node n b) fresh v,
            set_second left right (node c h) n b
                (ground (arith, has-append n left (node c h ∷ []), f.y_left, f.apart)) (merged b h),
            delete_node_here c h (node n (merged b h) ∷ right) left f.x_left,
          )
          (Returns-bind
            (delete_node_by_data-Erased pair c holes
              (ground
                (arith, hs.exact c, get_first left right (node c h) (node n b) fresh v, f.apart))
              hs.once hs.ascending)
            λ r er. returns (record {
              holes = r;
              shape = refl;
              layout =
                  merged-Layout left right (node c h) (node n b) fresh v (node n (merged b h))
                    f.y_out (inr refl) (ground (arith, f.follows)) (omega arith);
              listed = merged-Listed pair hs er left_reads;
              covers = record {
                free = free;
                from = ground (arith, f.follows);
                to = ground (arith, f.follows);
              };
              kept = λ q d g p ne.
                  ground
                    (arith, left_reads q ne, get_first left right (node c h) (node n b) fresh v);
              back = λ q d g p ne. ground (arith, left_reads q ne);
            }))
