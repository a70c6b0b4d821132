-- ===== src/LinkedList/ByData.antt =====
-- delete_node_by_data of src/linked_list.c on linked nodes does what the function of that name in
-- MemoryAllocation does on the list of holes.
use mathlib.Core.Path.{subst}
use mathlib.Core.List.{map}
use process_management_syste.Base.{
  Ptr, ℕ, zero, suc, ◌+◌, ◌<◌, ◌≡◌, ◌≢◌, refl, sym, ap, ◌∙◌, false, Option, none, some, List, [],
  ◌∷◌, ◌++◌, arith, ◌==◌, Bool-cases, inl, inr, Returns, returns, Returns-bind,
}
use process_management_syste.Base.Lists.{length}
use process_management_syste.NodeList.{Cell, node}
use process_management_syste.NodeList.Nodes.{has, has-append}
use process_management_syste.LinkedList.{
  Node, Heap, ListT, null, write, get_data, get_next, free_node, find_data, delete_node_by_data,
}
use process_management_syste.LinkedList.Links.{
  Links, first, Holds, SameOutside, Links-frame, load-some, free-some,
}
use process_management_syste.LinkedList.Middle.{delete_around, out, parts}
use process_management_syste.MemoryAllocation

abbrev contents : List (Cell Ptr) → List Ptr
contents xs = map (λ x. x.content) xs

-- Where the walk stops: at the first node with the data `p`.
record Found (p : Ptr) (xs : List (Cell Ptr)) (r : Option Ptr) : Type 0 where
  left : List (Cell Ptr)
  right : List (Cell Ptr)
  addr : Ptr
  whole : xs ≡ left ++ node addr p ∷ right
  run : r ≡ some addr
  model : MemoryAllocation.delete_node_by_data (contents xs) p ≡ some (contents (left ++ right))

find_data-Found :
    (k : ℕ) (p : Ptr) (xs : List (Cell Ptr)) (h : Heap Ptr) (b : Ptr)
    → length xs < k
    → Links h b null xs
    → MemoryAllocation.delete_node_by_data (contents xs) p ≢ none
    → Found p xs (find_data k h p (first null xs))
unfolding find_data get_data get_next MemoryAllocation.delete_node_by_data
find_data-Found zero p xs h b f k some_p = absurd (omega arith)
find_data-Found (suc n) p [] h b f k some_p = absurd (some_p refl)
find_data-Found (suc n) p (x ∷ xs) h b f k some_p =
    let n' : Node Ptr = record { content = x.content; next = first null xs; prev = b } in
    elim (Bool-cases (x.content == p)) [
      | inl e ↦
          rw (load-some h x.addr n' k.1 k.0, e)
            (record {
              left = [];
              right = xs;
              addr = x.addr;
              whole = ap (λ c. node x.addr c ∷ xs) (ground (arith, e));
              run = refl;
              model = rw e refl;
            })
      | inr e ↦
          let r =
            find_data-Found n p xs h x.addr (omega arith) k.2
              (λ gone. some_p (rw (e, gone) refl)) in
          rw (load-some h x.addr n' k.1 k.0, e)
            (record {
              left = x ∷ r.left;
              right = r.right;
              addr = r.addr;
              whole = ap (◌∷◌ x) r.whole;
              run = r.run;
              model = rw (e, r.model) refl;
            })
    ]

some-none : (ps : List Ptr) → some ps ≡ none → ⊥
some-none ps e = cc

some-inj : {ps qs : List Ptr} → some ps ≡ some qs → ps ≡ qs
some-inj e = cc

free-Holds :
    (ys : List (Cell Ptr)) (l : ListT) (h : Heap Ptr) (a : Ptr)
    → Holds null l h ys
    → has a ys ≡ false
    → Holds null l (write h a none) ys
unfolding write
free-Holds ys l h a v apart = record {
  links = Links-frame ys h _ null null v.links λ q m. ground (arith, apart);
  distinct = v.distinct;
  head = v.head;
  tail = v.tail;
  count = v.count;
}

other_node :
    (left right : List (Cell Ptr)) (a p q : Ptr)
    → has q (left ++ node a p ∷ right) ≡ false
    → (q == a) ≡ false
other_node [] right a p q m = ground (arith, m)
other_node (x ∷ left) right a p q m = other_node left right a p q (ground (arith, m))

module _ {ℓ} {D : Type ℓ} where
  -- What delete_node_by_data leaves: a list of the data `ps`, and the node `p` freed.
  pub record Removed (p : Ptr) (xs : List (Cell Ptr)) (h : Heap Ptr) (g : Heap D) (ps : List Ptr)
      (r : ListT × Heap Ptr × Heap D) : Type ℓ where
    pub nodes : List (Cell Ptr)
    pub holds : Holds null r.0 r.1 nodes
    pub data_left : map (λ x. x.content) nodes ≡ ps
    pub same : SameOutside xs h r.1
    pub freed : r.2 p ≡ none
    pub others : (q : Ptr) → q ≢ p → r.2 q ≡ g q

  delete_here :
      (left right : List (Cell Ptr)) (a p : Ptr) (l : ListT) (h : Heap Ptr) (g : Heap D)
      (n : Node D)
      → Holds null l h (left ++ node a p ∷ right)
      → find_data (l.num_items + 1) h p l.head ≡ some a
      → p ≢ null
      → g p ≡ some n
      → Returns
          (Removed p (left ++ node a p ∷ right) h g (contents (left ++ right)))
          (delete_node_by_data l p h g)
  unfolding delete_node_by_data get_data free_node write
  delete_here left right a p l h g n v run ne_p has_p =
      let k = (parts left right a p h v.links v.distinct).1 in
      let o = out left right a p h v.links v.distinct in
      rw run (
        Returns-bind (delete_around left right a p l h v) λ (l', h') d.
          let kept = d.own ∙ k.0 in
          rw
            (
              load-some h' a _ k.1 kept,
              load-some g p n ne_p has_p,
              free-some g p n ne_p has_p,
              free-some h' a _ k.1 kept,
            )
            (returns (record {
              nodes = left ++ right;
              holds =
                  free-Holds (left ++ right) l' h' a d.holds
                    (ground (arith, o.0, o.1, has-append a left right));
              data_left = refl;
              same = λ q m. rw (other_node left right a p q m) (d.same q m);
              freed = ground arith;
              others = λ q ne. ground arith;
            })))

  -- delete_node_by_data on a list of addresses, one of which is that of a node of another list, where
  -- the head has NULL to its left: the walk ends at the first node with that address and the call does
  -- not fault. The nodes that are left hold what delete_node_by_data of the memory model leaves of
  -- the list of holes; the node with that address is freed, no other node of its list changes, and
  -- nothing outside of the list of addresses does.
  pub delete_node_by_data-Removed :
      (xs : List (Cell Ptr)) (p : Ptr) (ps : List Ptr) (l : ListT) (h : Heap Ptr) (g : Heap D)
      (n : Node D)
      → Holds null l h xs
      → MemoryAllocation.delete_node_by_data (map (λ x. x.content) xs) p ≡ some ps
      → p ≢ null
      → g p ≡ some n
      → Returns (Removed p xs h g ps) (delete_node_by_data l p h g)
  delete_node_by_data-Removed xs p ps l h g n v e ne_p has_p =
      let r =
        find_data-Found (l.num_items + 1) p xs h null (omega (arith, v.count)) v.links
          (λ gone. some-none ps (sym e ∙ gone)) in
      let left_over : contents (r.left ++ r.right) ≡ ps = some-inj (sym r.model ∙ e) in
      subst (λ xs. Returns (Removed p xs h g ps) (delete_node_by_data l p h g)) (sym r.whole)
        (subst
          (λ ps.
            Returns (Removed p (r.left ++ node r.addr p ∷ r.right) h g ps)
              (delete_node_by_data l p h g))
          left_over
          (delete_here r.left r.right r.addr p l h g n (subst (Holds null l h) r.whole v)
            (rw v.head r.run) ne_p has_p))
