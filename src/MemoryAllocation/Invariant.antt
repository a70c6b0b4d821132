-- ===== src/MemoryAllocation/Invariant.antt =====
-- The invariant of the memory of src/memory_allocation.c.
use process_management_syste.Base.{
  ℕ, ◌<◌, ◌≡◌, refl, ◌∙◌, true, false, none, List, [], ◌∷◌, ◌++◌, arith, Ptr,
}
use process_management_syste.NodeList.Nodes.{
  has, Distinct, Distinct-out, Distinct-insert, has-insert, has-append,
}
use process_management_syste.MemoryAllocation.{
  Block, Node, Memory, node, mem_capacity, get_data, initialise_memory,
}
use process_management_syste.MemoryAllocation.Holes.{Listed}
use process_management_syste.MemoryAllocation.Tiles.{
  Tiles, total, Apart, Tiles-split, Tiles-replace, total-replace,
}

-- The nodes: each address once and handed out before, and blocks that cover the whole memory.
pub record Layout (l : List Node) (fresh : Ptr) : Type 0 where
  pub distinct : Distinct l
  pub below : (q : Ptr) → has q l ≡ true → q < fresh
  pub tiles : Tiles 0 l
  pub full : total l ≡ mem_capacity

pub record IsValid (m : Memory) : Type 0 where
  pub layout : Layout m.memory m.fresh
  pub listed : Listed m.memory none m.holes
  pub apart : Apart false m.memory

-- The memory that initialise_memory makes is valid: its blocks cover 2048 MB without gap or
-- overlap, its holes are listed once each in the order of their sizes, and no two holes touch.
pub initialise_memory-IsValid : IsValid initialise_memory
unfolding initialise_memory get_data
initialise_memory-IsValid = record {
  layout = record {
    distinct = (refl, tt);
    below = λ q h. ground arith;
    tiles = (refl, tt);
    full = refl;
  };
  listed = record { exact = λ q. ground arith; once = (refl, tt); ascending = (tt, tt) };
  apart = (refl, tt);
}

-- Around one node.
module _ (left right : List Node) (p : Ptr) (b : Block) (fresh : Ptr)
    (v : Layout (left ++ node p b ∷ right) fresh) where
  pub new_left : has p left ≡ false
  new_left = (Distinct-out (node p b) right left v.distinct).0

  pub new_right : has p right ≡ false
  new_right = (Distinct-out (node p b) right left v.distinct).1

  pub new_around : has p (left ++ right) ≡ false
  new_around = ground (arith, has-append p left right, new_left, new_right)

  pub start_here : b.start_address ≡ total left
  start_here = (Tiles-split (node p b ∷ right) left 0 (total left) (omega arith) v.tiles).1.0

  -- Nodes at fresh addresses and at `p` take the place of the node.
  pub Layout-replace :
      (mid : List Node) (fresh' : Ptr)
      → Distinct (left ++ (mid ++ right))
      → ((q : Ptr) → has q (left ++ (mid ++ right)) ≡ true → q < fresh')
      → total mid ≡ b.size
      → ((s : ℕ) → b.start_address ≡ s → Tiles s mid)
      → Layout (left ++ (mid ++ right)) fresh'
  Layout-replace mid fresh' d low same again = record {
    distinct = d;
    below = low;
    tiles = Tiles-replace left (node p b ∷ []) mid right (omega arith) (λ s t. again s t.0) v.tiles;
    full = total-replace left (node p b ∷ []) mid right (omega arith) (λ s t. again s t.0) ∙ v.full;
  }

  -- What the node holds may change in kind.
  pub Layout-retype :
      (c : Block)
      → c.start_address ≡ b.start_address
      → c.size ≡ b.size
      → Layout (left ++ node p c ∷ right) fresh
  Layout-retype c e f =
      Layout-replace (node p c ∷ []) fresh
        (Distinct-insert (node p c) right left new_around
          (Distinct-out (node p b) right left v.distinct).2)
        (λ q h.
          v.below q (ground (arith, has-insert p b right q left, has-insert p c right q left)))
        (omega arith) (λ s g. (e ∙ g, tt))
