-- ===== src/MemoryAllocation/Pair.antt =====
-- Two neighbours in the list of nodes.
use mathlib.Core.List.{append_assoc}
use process_management_syste.Base.{
  ◌+◌, ◌≤◌, ◌≡◌, ◌∙◌, ◌⊎◌, true, false, some, List, [], ◌∷◌, ◌++◌, arith, ◌==◌, if◌then◌else◌, Ptr,
}
use process_management_syste.NodeList.Nodes.{
  has, Distinct, Distinct-out, Distinct-insert, has-insert, has-append, get_data-insert,
  get_data_here, get_next_here,
}
use process_management_syste.MemoryAllocation.{Block, Node, is_hole, get_data, get_next, first_addr}
use process_management_syste.MemoryAllocation.Tiles.{
  total, Tiles-replace, total-replace, Tiles-split,
}
use process_management_syste.MemoryAllocation.Invariant.{Layout}

-- The hole `c` in place of `b` covers its addresses.
pub record Covers (b c : Block) : Type 0 where
  pub free : is_hole c.type ≡ true
  pub from : c.start_address ≤ b.start_address
  pub to : b.start_address + b.size ≤ c.start_address + c.size

-- Blocks of processes stay, at least at the other nodes.
abbrev pub Kept : Ptr → List Node → List Node → Type 0
Kept n l l' =
    (q : Ptr) (b : Block)
    → get_data l q ≡ some b
    → is_hole b.type ≡ false
    → (n == q) ≡ false
    → get_data l' q ≡ some b

module _ (left right : List Node) (x y : Node) (fresh : Ptr)
    (v : Layout (left ++ x ∷ y ∷ right) fresh) where
  pub record Facts : Type 0 where
    pub x_left : has x.addr left ≡ false
    pub y_left : has y.addr left ≡ false
    pub apart : (x.addr == y.addr) ≡ false
    pub x_out : has x.addr (left ++ right) ≡ false
    pub y_out : has y.addr (left ++ right) ≡ false
    pub distinct : Distinct (left ++ right)
    pub follows : y.content.start_address ≡ x.content.start_address + x.content.size

  pub facts : Facts
  facts =
      let (a, b, c) = Distinct-out x (y ∷ right) left v.distinct in
      let (d, e, f) = Distinct-out y right left c in
      let t = (Tiles-split (x ∷ y ∷ right) left 0 (total left) (omega arith) v.tiles).1 in
      record {
        x_left = a;
        y_left = d;
        apart = ground arith;
        x_out = ground (arith, has-append x.addr left right);
        y_out = ground (arith, has-append y.addr left right);
        distinct = f;
        follows = omega arith;
      }

  pub get_first : get_data (left ++ x ∷ y ∷ right) x.addr ≡ some x.content
  get_first = get_data_here x.addr x.content (y ∷ right) left facts.x_left

  y_before : has y.addr (left ++ x ∷ []) ≡ false
  y_before = ground (arith, facts.y_left, facts.apart, has-append y.addr left (x ∷ []))

  pub get_second : get_data (left ++ x ∷ y ∷ right) y.addr ≡ some y.content
  get_second = rw append_assoc at (get_data_here y.addr y.content right (left ++ x ∷ []) y_before)

  pub next_second : get_next (left ++ x ∷ y ∷ right) y.addr ≡ first_addr right
  next_second = rw append_assoc at (get_next_here y.addr y.content right (left ++ x ∷ []) y_before)

  pub read :
      (q : Ptr)
      → get_data (left ++ x ∷ y ∷ right) q ≡ (
          if x.addr == q
          then some x.content
          else if y.addr == q
          then some y.content
          else get_data (left ++ right) q)
  read q = ground (
    arith,
    get_data-insert x.addr x.content (y ∷ right) q left facts.x_left,
    get_data-insert y.addr y.content right q left facts.y_left,
  )

  -- A node `z`, at the address of one of the two, in their place.
  module _ (z : Node) (at : has z.addr (left ++ right) ≡ false) where
    pub merged_read :
        (q : Ptr)
        → get_data (left ++ z ∷ right) q
          ≡ (if z.addr == q then some z.content else get_data (left ++ right) q)
    merged_read q =
        get_data-insert z.addr z.content right q left (ground (arith, has-append z.addr left right))

    pub merged-Layout :
        (z.addr ≡ x.addr) ⊎ (z.addr ≡ y.addr)
        → z.content.start_address ≡ x.content.start_address
        → z.content.size ≡ x.content.size + y.content.size
        → Layout (left ++ z ∷ right) fresh
    merged-Layout which s e = record {
      distinct = Distinct-insert z right left at facts.distinct;
      below = λ q h. v.below q (
          ground (
            arith,
            has-insert z.addr z.content right q left,
            has-insert x.addr x.content (y ∷ right) q left,
            has-insert y.addr y.content right q left,
          ));
      tiles =
          Tiles-replace left (x ∷ y ∷ []) (z ∷ []) right (omega arith) (λ a t. (s ∙ t.0, tt))
            v.tiles;
      full =
          total-replace left (x ∷ y ∷ []) (z ∷ []) right (omega arith) (λ a t. (s ∙ t.0, tt))
          ∙ v.full;
    }
