-- ===== src/LinkedList/Turns.antt =====
-- The two writes to neighbours that delete_node and insert_node of src/linked_list.c share.
use process_management_syste.Base.{
  Ptr, ◌≢◌, refl, some, List, [], ◌∷◌, arith, ◌==◌, if◌then◌else◌, Returns, returns,
}
use process_management_syste.NodeList.{Cell}
use process_management_syste.NodeList.Nodes.{
  Distinct, Distinct-out, has-append, Snoc, empty, snoc, to_snoc,
}
use process_management_syste.LinkedList.{Heap, null, write, set_next, set_prev}
use process_management_syste.LinkedList.Links.{
  Links, first, last, SameOutside, Links-append, Links-join, Links-frame, last-append, ne_null,
  set_next-some, set_prev-some,
}

module _ {ℓ} {D : Type ℓ} where
  -- The links of `xs` have been turned to new neighbours, and no other node has changed.
  pub record Turned (h : Heap D) (b a : Ptr) (xs : List (Cell D)) (g : Heap D) : Type ℓ where
    pub links : Links g b a xs
    pub same : SameOutside xs h g

  -- The first node gets a new neighbour to its left, if there is a first node.
  pub turn_first :
      (xs : List (Cell D)) (h : Heap D) (b a c : Ptr)
      → Links h b null xs
      → Distinct xs
      → Returns
          (Turned h c null xs)
          (if first null xs == null then some h else set_prev h (first null xs) c)
  unfolding write
  turn_first [] h b a c k d = returns (record { links = tt; same = λ q m. refl })
  turn_first (x ∷ xs) h b a c k d =
      rw
        (
          ne_null x.addr k.1,
          set_prev-some h x.addr c (record { content = x.content; next = first null xs; prev = b })
              k.1 k.0,
        )
        (returns (record {
          links =
              (ground arith, k.1, Links-frame xs h _ x.addr null k.2 λ q m. ground (arith, d.0));
          same = λ q m. ground arith;
        }))

  -- The last node gets a new neighbour to its right, if there is a last node.
  turn-Snoc :
      {xs : List (Cell D)} (s : Snoc xs) (h : Heap D) (a c : Ptr)
      → Links h null a xs
      → Distinct xs
      → Returns
          (Turned h null c xs)
          (if last null xs == null then some h else set_next h (last null xs) c)
  unfolding write
  turn-Snoc empty h a c k d = returns (record { links = tt; same = λ q m. refl })
  turn-Snoc (snoc l z) h a c k d =
      let parts = Links-append l (z ∷ []) h null a k in
      let out = Distinct-out z [] l d in
      rw
        (
          last-append l (z ∷ []) null,
          ne_null z.addr parts.1.1,
          set_next-some h z.addr c (record { content = z.content; next = a; prev = last null l })
              parts.1.1 parts.1.0,
        )
        (returns (record {
          links =
              Links-join l (z ∷ []) _ null c
                (Links-frame l h _ null z.addr parts.0 λ q m. ground (arith, out.0))
                (ground arith, parts.1.1, tt);
          same = λ q m. ground (arith, has-append q l (z ∷ []));
        }))

  pub turn_last :
      (xs : List (Cell D)) (h : Heap D) (a c : Ptr)
      → Links h null a xs
      → Distinct xs
      → Returns
          (Turned h null c xs)
          (if last null xs == null then some h else set_next h (last null xs) c)
  turn_last xs = turn-Snoc (to_snoc xs)

  pub last-ne :
      (xs : List (Cell D)) (h : Heap D) (b a : Ptr) → b ≢ null → Links h b a xs → last b xs ≢ null
  last-ne [] h b a ne k = ne
  last-ne (x ∷ xs) h b a ne k = last-ne xs h x.addr a k.1 k.2
