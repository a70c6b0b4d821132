-- ===== src/MemoryAllocation/Tiles.antt =====
-- How the nodes of src/memory_allocation.c cover the memory: blocks that follow one another, and no
-- two holes side by side.
use mathlib.Core.List.{append_assoc}
use process_management_syste.Base.{
  ℕ, ◌+◌, ◌≡◌, refl, Bool, true, false, ◌&&◌, none, some, List, [], ◌∷◌, ◌++◌, arith,
}
use process_management_syste.NodeList.Nodes.{
  Distinct, Distinct-out, last_addr, last_addr-snoc, Snoc, empty, snoc, to_snoc, insert_after-snoc,
  same_ptr_refl,
}
use process_management_syste.MemoryAllocation.{Node, is_hole, first_addr, insert_node}

-- Block after block from address `s` on.
abbrev pub Tiles : ℕ → List Node → Type 0
Tiles s [] = Unit
Tiles s (x ∷ l) = (x.content.start_address ≡ s) × Tiles (s + x.content.size) l

abbrev pub total : List Node → ℕ
total [] = 0
total (x ∷ l) = x.content.size + total l

-- No hole follows a hole; `b` says whether one stands to the left of the list.
abbrev pub Apart : Bool → List Node → Type 0
Apart b [] = Unit
Apart b (x ∷ l) = ((b && is_hole x.content.type) ≡ false) × Apart (is_hole x.content.type) l

abbrev pub last_hole : Bool → List Node → Bool
last_hole b [] = b
last_hole b (x ∷ l) = last_hole (is_hole x.content.type) l

pub total-append : (xs ys : List Node) → total (xs ++ ys) ≡ total xs + total ys
total-append [] ys = omega arith
total-append (x ∷ xs) ys = omega (arith, total-append xs ys)

module _ (ys : List Node) where
  pub Tiles-split :
      (xs : List Node) (s e : ℕ) → e ≡ s + total xs → Tiles s (xs ++ ys) → Tiles s xs × Tiles e ys
  Tiles-split [] s e h t = let k : e ≡ s = omega arith in (tt, rw k t)
  Tiles-split (x ∷ xs) s e h t =
      let r = Tiles-split xs (s + x.content.size) e (omega arith) t.1 in ((t.0, r.0), r.1)

  pub Tiles-join :
      (xs : List Node) (s e : ℕ) → e ≡ s + total xs → Tiles s xs → Tiles e ys → Tiles s (xs ++ ys)
  Tiles-join [] s e h t u = let k : s ≡ e = omega arith in rw k u
  Tiles-join (x ∷ xs) s e h t u = (t.0, Tiles-join xs (s + x.content.size) e (omega arith) t.1 u)

  pub Apart-split :
      (xs : List Node) (b : Bool) → Apart b (xs ++ ys) → Apart b xs × Apart (last_hole b xs) ys
  Apart-split [] b a = (tt, a)
  Apart-split (x ∷ xs) b a = let r = Apart-split xs _ a.1 in ((a.0, r.0), r.1)

  pub Apart-join :
      (xs : List Node) (b : Bool) → Apart b xs → Apart (last_hole b xs) ys → Apart b (xs ++ ys)
  Apart-join [] b a c = c
  Apart-join (x ∷ xs) b a c = (a.0, Apart-join xs _ a.1 c)

pub Apart-weaken : (l : List Node) (b c : Bool) → Apart b l → (c ≡ true → b ≡ true) → Apart c l
Apart-weaken [] b c a h = tt
Apart-weaken (x ∷ l) b c a h = (ground arith, a.1)

-- A new node where a list is cut in two.
insert_node_cut :
    {left : List Node} (s : Snoc left) (right : List Node) (new : Node)
    → Distinct left
    → insert_node (left ++ right) new (last_addr none left) (first_addr right)
      ≡ some (left ++ new ∷ right)
unfolding insert_node
insert_node_cut empty right new d = rw (same_ptr_refl (first_addr right))
insert_node_cut (snoc l x) right new d =
    let out = Distinct-out x [] l d in
    rw (last_addr-snoc l x none, append_assoc, append_assoc) (insert_after-snoc l right x new out.0)

pub insert_node_here :
    (left right : List Node) (new : Node)
    → Distinct left
    → insert_node (left ++ right) new (last_addr none left) (first_addr right)
      ≡ some (left ++ new ∷ right)
insert_node_here left = insert_node_cut (to_snoc left)

-- A stretch of nodes is replaced by one that covers the same addresses.
module _ (left mid mid' right : List Node) (same : total mid' ≡ total mid)
    (again : (s : ℕ) → Tiles s mid → Tiles s mid') where
  pub Tiles-replace : Tiles 0 (left ++ (mid ++ right)) → Tiles 0 (left ++ (mid' ++ right))
  Tiles-replace t =
      let a = total left in
      let u = Tiles-split (mid ++ right) left 0 a (omega arith) t in
      let v = Tiles-split right mid a (a + total mid) refl u.1 in
      Tiles-join (mid' ++ right) left 0 a (omega arith) u.0
        (Tiles-join right mid' a (a + total mid) (omega arith) (again a v.0) v.1)

  pub total-replace : total (left ++ (mid' ++ right)) ≡ total (left ++ (mid ++ right))
  total-replace = simp total-append (omega arith)
