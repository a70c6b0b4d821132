-- ===== src/MemoryAllocation/Release.antt =====
-- deallocate_memory of src/memory_allocation.c: the freed block takes in the holes on both of its
-- sides.
use mathlib.Core.Path.{subst}
use process_management_syste.Base.{
  ℕ, suc, ◌≡◌, refl, sym, true, false, none, some, List, ◌∷◌, ◌++◌, arith, ◌==◌, if◌then◌else◌,
  Returns, returns, Returns-bind, ◌>>=◌, Bool-cases, inl, inr, Ptr,
}
use process_management_syste.Base.Lists.{length, length-append}
use process_management_syste.Base.Text.{streq}
use process_management_syste.NodeList.Nodes.{
  get_data_here, set_data_here, get_next_here, get_prev_here, to_snoc, split_at, get_data-resize,
}
use process_management_syste.ProcessData.{Process, set_block_node, get_block_node}
use process_management_syste.MemoryAllocation.{
  Block, Node, Memory, node, is_hole, hole, get_data, merge_sides, release, deallocate_memory,
  best_fit_name, infinity_name, insert_node_sorted,
}
use process_management_syste.MemoryAllocation.Holes.{
  Listed, Ascending-transfer, insert_node_sorted-Added,
}
use process_management_syste.MemoryAllocation.Tiles.{
  Apart, last_hole, Apart-split, Apart-join, Apart-weaken,
}
use process_management_syste.MemoryAllocation.Invariant.{Layout, IsValid, new_left, Layout-retype}
use process_management_syste.MemoryAllocation.Pair.{Covers, Kept}
use process_management_syste.MemoryAllocation.Merges.{
  Opened, Opened-widen, merge_loop-right, merge_loop-left, check_if-merge_loop,
}

-- The block at `n` has become part of a hole that covers its addresses, the blocks of the other
-- processes have stayed, and the memory is valid.
pub record Released (m : Memory) (n : Ptr) (b : Block) (m' : Memory) : Type 0 where
  pub valid : IsValid m'
  pub now : Block
  pub placed : get_data m'.memory n ≡ some now
  pub covers : Covers (record b { type = hole }) now
  pub kept : Kept n m.memory m'.memory
  pub back : Kept n m'.memory m.memory
  pub same_fresh : m'.fresh ≡ m.fresh

module _ (left right : List Node) (n fresh : Ptr) (b : Block) (holes : List Ptr)
    (v : Layout (left ++ node n b ∷ right) fresh)
    (hs : Listed (left ++ node n b ∷ right) none holes)
    (apart : Apart false (left ++ node n b ∷ right)) (used : is_hole b.type ≡ false) where
  abbrev freed : Block
  freed = record b { type = hole }

  abbrev marked : List Node
  marked = left ++ node n freed ∷ right

  marked_read :
      (q : Ptr)
      → get_data marked q ≡ (if n == q then some freed else get_data (left ++ node n b ∷ right) q)
  marked_read q = get_data-resize n b right q left freed (new_left left right n b fresh v)

  marked-Layout : Layout marked fresh
  marked-Layout = Layout-retype left right n b fresh v freed refl refl

  here : get_data (left ++ node n b ∷ right) n ≡ some b
  here = get_data_here n b right left (new_left left right n b fresh v)

  marked-Listed : Listed marked (some n) holes
  marked-Listed = record {
    exact = λ q. ground (arith, hs.exact q, marked_read q, here);
    once = hs.once;
    ascending =
        Ascending-transfer (left ++ node n b ∷ right) marked holes
          (λ q m. ground (arith, hs.exact q, marked_read q, here)) hs.ascending;
  }

  close :
      {left' right' : List Node} {m : Memory}
      → Opened (left ++ node n b ∷ right) left' right' n fresh freed m
      → Apart false left'
      → last_hole false left' ≡ false
      → Apart true right'
      → Returns
          (λ m'.
            Released
              (record { memory = left ++ node n b ∷ right; holes = holes; fresh = fresh })
              n
              b
              m')
          (insert_node_sorted m.memory m.holes n >>= λ r. some (record m { holes = r }))
  close {left'} {right'} o a settled c =
      let now_here =
        get_data_here n o.now right' left' (new_left left' right' n o.now fresh o.layout) in
      rw o.shape (
        Returns-bind
          (insert_node_sorted-Added (left' ++ node n o.now ∷ right') n o.now o.holes now_here
            (ground (arith, o.listed.exact n)) o.listed.once o.listed.ascending
            (λ q i. ground (arith, o.listed.exact q)))
          λ r ad. returns (record {
            valid = record {
              layout = o.layout;
              listed = record {
                exact =
                    λ q. ground (arith, ad.members q, o.listed.exact q, now_here, o.covers.free);
                once = ad.once;
                ascending = ad.ascending;
              };
              apart =
                  Apart-join (node n o.now ∷ right') left' false a
                    (ground arith, Apart-weaken right' true (is_hole o.now.type) c (λ e. refl));
            };
            now = o.now;
            placed = now_here;
            covers = o.covers;
            kept = o.kept;
            back = o.back;
            same_fresh = refl;
          }))

  release_around :
      Returns
        (Released (record { memory = left ++ node n b ∷ right; holes = holes; fresh = fresh }) n b)
        (merge_sides (record { memory = marked; holes = holes; fresh = fresh }) n)
  unfolding merge_sides
  release_around =
      let (la, ra) = Apart-split (node n b ∷ right) left false apart in
      let right_run =
        merge_loop-right (suc (length marked)) left right holes n fresh freed (is_hole b.type)
          (omega (arith, length-append left (node n freed ∷ right))) refl marked-Layout
          marked-Listed ra.1 in
      rw (check_if-merge_loop, get_next_here n freed right left (new_left left right n b fresh v))
        (Returns-bind right_run λ m r.
          let o = r.opened in
          rw
            (
              o.shape,
              check_if-merge_loop,
              get_prev_here n o.now r.right left (new_left left r.right n o.now fresh o.layout),
            )
            (Returns-bind
              (merge_loop-left (suc (length (left ++ node n o.now ∷ r.right))) (to_snoc left)
                r.right o.holes n fresh o.now
                (omega (arith, length-append left (node n o.now ∷ r.right))) o.covers.free o.layout
                o.listed la)
              λ m' l.
                close
                  (Opened-widen o.covers
                    (λ q d g p ne. o.kept q d (ground (arith, marked_read q)) p ne)
                    (λ q d g p ne. let g' = o.back q d g p ne in ground (arith, marked_read q, g'))
                    l.opened)
                  l.apart l.settled r.apart))

abbrev ReleaseRun : Process → Ptr → Block → List Ptr → Ptr → List Node → Type 0
ReleaseRun p n b holes fresh l =
    Layout l fresh
    → Listed l none holes
    → Apart false l
    → Returns
        (λ (r : Memory × Process).
          Released (record { memory = l; holes = holes; fresh = fresh }) n b r.0
          × (r.1 ≡ set_block_node p none))
        (release p (record { memory = l; holes = holes; fresh = fresh }))

release_run :
    (p : Process) (n : Ptr) (b : Block) (holes : List Ptr) (fresh : Ptr) (left right : List Node)
    → p.block_node ≡ some n
    → is_hole b.type ≡ false
    → ReleaseRun p n b holes fresh (left ++ node n b ∷ right)
unfolding release get_block_node
release_run p n b holes fresh left right e used v hs apart =
    rw
      (
        e,
        get_data_here n b right left (new_left left right n b fresh v),
        set_data_here n b right left (record b { type = hole }) (new_left left right n b fresh v),
      )
      (Returns-bind (release_around left right n fresh b holes v hs apart used)
        λ m r. returns (r, refl))

-- Where its block is in use, a process is released without a fault.
pub release-Released :
    (m : Memory) (p : Process) (n : Ptr) (b : Block)
    → IsValid m
    → p.block_node ≡ some n
    → get_data m.memory n ≡ some b
    → is_hole b.type ≡ false
    → Returns (λ r. Released m n b r.0 × (r.1 ≡ set_block_node p none)) (release p m)
release-Released m p n b v e found used =
    let r = split_at m.memory n b found in
    subst (ReleaseRun p n b m.holes m.fresh) (sym r.whole)
      (release_run p n b m.holes m.fresh r.left r.right e used) v.layout v.listed v.apart

-- deallocate_memory under best-fit: where the process holds a block in use, the call does not
-- fault, the block becomes part of a hole that covers its addresses and has no hole beside it, the
-- blocks of other processes stay where they are, no block comes into use, the process holds no block
-- any more, and the memory is valid.
pub deallocate_memory-Released :
    (m : Memory) (p : Process) (n : Ptr) (b : Block)
    → IsValid m
    → p.block_node ≡ some n
    → get_data m.memory n ≡ some b
    → is_hole b.type ≡ false
    → Returns
        (λ r. Released m n b r.0 × (r.1 ≡ set_block_node p none))
        (deallocate_memory p m best_fit_name)
unfolding deallocate_memory streq
deallocate_memory-Released = release-Released

-- Under every strategy but best-fit, the name "infinite" of the command line included, a call of
-- deallocate_memory changes nothing.
pub deallocate_memory-unchanged :
    (m : Memory) (p : Process) (strategy : List ℕ)
    → streq strategy best_fit_name ≡ false
    → deallocate_memory p m strategy ≡ some (m, p)
unfolding deallocate_memory
deallocate_memory-unchanged m p strategy other = elim (Bool-cases (streq strategy infinity_name)) [
  | inl e ↦ rw e
  | inr e ↦ rw (e, other)
]
