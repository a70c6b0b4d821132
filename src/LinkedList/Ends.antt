-- ===== src/LinkedList/Ends.antt =====
-- enqueue, dequeue and free_list of src/linked_list.c.
use mathlib.Core.List.{map, append_assoc, append-nil}
use process_management_syste.Base.{
  Ptr, ℕ, zero, suc, ◌+◌, ◌<◌, ◌≡◌, ◌≢◌, refl, sym, ◌∙◌, Bool, true, false, Option, none, some,
  List, [], ◌∷◌, ◌++◌, arith, ◌==◌, if◌then◌else◌, Returns, returns, Returns-mono, Returns-bind,
}
use process_management_syste.Base.Lists.{length, length-append}
use process_management_syste.NodeList.{Cell, node}
use process_management_syste.NodeList.Nodes.{
  has, Distinct, Distinct-out, Distinct-insert, has-append, Snoc, empty, snoc, to_snoc,
}
use process_management_syste.LinkedList.{
  Node, Heap, ListT, null, write, enqueue, dequeue, create_node, free_list, free_nodes,
}
use process_management_syste.LinkedList.Links.{
  Links, first, last, Holds, SameOutside, Links-append, Links-join, Links-frame, last-append,
  first-append, not-has, first-ne, load-some, ne_null, set_next-some, free-some,
}

-- What the head of a list has to its left once a node is added: a list that was empty starts anew.
abbrev pub stale_after {ℓ} : {D : Type ℓ} → Ptr → List (Cell D) → Ptr
stale_after s [] = null
stale_after s (x ∷ l) = s

module _ {ℓ} {D : Type ℓ} where
  stale_after-snoc : (s : Ptr) (l : List (Cell D)) (z : Cell D) → stale_after s (l ++ z ∷ []) ≡ s
  stale_after-snoc s [] z = refl
  stale_after-snoc s (x ∷ l) z = refl

  first-any :
      (l : List (Cell D)) (z : Cell D) (a b : Ptr) → first a (l ++ z ∷ []) ≡ first b (l ++ z ∷ [])
  first-any [] z a b = refl
  first-any (x ∷ l) z a b = refl

module _ {ℓ} {D : Type ℓ} (fresh stale : Ptr) (h : Heap D) (d : D) (ne : fresh ≢ null)
    (unused : h fresh ≡ none) where
  abbrev Enqueued : List (Cell D) → Bool × ListT × Heap D → Type ℓ
  Enqueued xs (done, l', g) =
      (done ≡ true)
      × Holds (stale_after stale xs) l' g (xs ++ node fresh d ∷ [])
      × SameOutside (xs ++ node fresh d ∷ []) h g

  enqueue-Snoc :
      {xs : List (Cell D)} (l : ListT)
      → Snoc xs
      → Holds stale l h xs
      → Returns (Enqueued xs) (enqueue fresh l (some d) h)
  unfolding enqueue create_node write
  enqueue-Snoc l empty v = rw v.head (
      returns (
        refl,
        record {
          links = (ground (arith, v.tail), ne, tt);
          distinct = (refl, tt);
          head = refl;
          tail = refl;
          count = omega (arith, v.count);
        },
        λ q m. ground arith,
      ))
  enqueue-Snoc l (snoc ys z) v =
      let parts = Links-append ys (z ∷ []) h stale null v.links in
      let head_ne : (l.head == null) ≡ false =
        ground (arith, first-ne ys z h stale v.links, v.head) in
      let at_tail : l.tail ≡ z.addr = v.tail ∙ last-append ys (z ∷ []) null in
      let new = create_node h fresh d null z.addr in
      let out : has fresh (ys ++ z ∷ []) ≡ false =
        not-has (ys ++ z ∷ []) h stale null fresh v.links unused in
      let z_ne : (z.addr == fresh) ≡ false = ground (arith, out, has-append fresh ys (z ∷ [])) in
      let z_out = Distinct-out z [] ys v.distinct in
      rw
        (
          head_ne,
          at_tail,
          set_next-some new z.addr fresh
              (record { content = z.content; next = null; prev = last stale ys }) parts.1.1
              (ground (arith, parts.1.0)),
        )
        (returns (
          refl,
          record {
            links =
                rw (append_assoc, stale_after-snoc)
                  (Links-join ys (z ∷ node fresh d ∷ []) _ stale null
                    (Links-frame ys h _ stale z.addr parts.0
                      λ q m. ground (arith, z_out.0, has-append fresh ys (z ∷ []), out))
                    (ground arith, parts.1.1, (ground (arith, z_ne), ne, tt)));
            distinct =
                Distinct-insert (node fresh d) [] (ys ++ z ∷ []) (rw append-nil out)
                  (rw append-nil v.distinct);
            head =
                v.head
                ∙ first-any ys z null fresh
                ∙ sym (first-append (ys ++ z ∷ []) (node fresh d ∷ []) null);
            tail = sym (last-append (ys ++ z ∷ []) (node fresh d ∷ []) null);
            count = omega (arith, v.count, length-append (ys ++ z ∷ []) (node fresh d ∷ []));
          },
          λ q m.
              ground
                (arith, has-append q (ys ++ z ∷ []) (node fresh d ∷ []), has-append q ys (z ∷ [])),
        ))

  -- enqueue of data appends a node: given a fresh address, the call does not fault, it reports
  -- success, the list holds the old nodes and the new one at its end, and no other address changes.
  pub enqueue-append :
      (xs : List (Cell D)) (l : ListT)
      → Holds stale l h xs
      → Returns (Enqueued xs) (enqueue fresh l (some d) h)
  enqueue-append xs l v = enqueue-Snoc l (to_snoc xs) v

module _ {ℓ} {D : Type ℓ} where
  pub enqueue-null :
      (fresh : Ptr) (l : ListT) (h : Heap D) → enqueue fresh l none h ≡ some (false, l, h)
  unfolding enqueue
  enqueue-null fresh l h = refl

  -- What dequeue of a list with first node `x` returns and leaves.
  pub record Dequeued (x : Cell D) (xs : List (Cell D)) (h : Heap D) (r : Option D × ListT × Heap D)
      : Type ℓ where
    pub returned : r.0 ≡ some x.content
    pub holds : Holds x.addr r.1 r.2 xs
    pub freed : r.2 x.addr ≡ none
    pub same : SameOutside (x ∷ []) h r.2

  rest_tail :
      (x : Cell D) (xs : List (Cell D)) (h : Heap D) (b t : Ptr)
      → Links h b null (x ∷ xs)
      → t ≡ last null (x ∷ xs)
      → (if first null xs == null then null else t) ≡ last null xs
  rest_tail x [] h b t k e = refl
  rest_tail x (y ∷ xs) h b t k e = rw (ne_null y.addr k.2.1) e

  -- dequeue of a list that is not empty returns the data of its first node, frees that node and
  -- leaves the others; the head then has the freed node to its left.
  pub dequeue-cons :
      (x : Cell D) (xs : List (Cell D)) (stale : Ptr) (l : ListT) (h : Heap D)
      → Holds stale l h (x ∷ xs)
      → Returns (Dequeued x xs h) (dequeue l h)
  unfolding dequeue write
  dequeue-cons x xs stale l h v =
      let n : Node D = record { content = x.content; next = first null xs; prev = stale } in
      rw
        (
          v.head,
          ne_null x.addr v.links.1,
          load-some h x.addr n v.links.1 v.links.0,
          free-some h x.addr n v.links.1 v.links.0,
        )
        (returns (record {
          returned = refl;
          holds = record {
            links = Links-frame xs h _ x.addr null v.links.2 λ q m. ground (arith, v.distinct.0);
            distinct = v.distinct.1;
            head = refl;
            tail = rest_tail x xs h stale l.tail v.links v.tail;
            count = omega (arith, v.count);
          };
          freed = ground arith;
          same = λ q m. ground arith;
        }))

  -- dequeue of the empty list returns NULL and changes nothing.
  pub dequeue-nil :
      (stale : Ptr) (l : ListT) (h : Heap D) → Holds stale l h [] → dequeue l h ≡ some (none, l, h)
  unfolding dequeue
  dequeue-nil stale l h v = ground (arith, v.head)

  abbrev pub Freed : List (Cell D) → Heap D → Heap D → Type ℓ
  Freed xs h g = (q : Ptr) → g q ≡ (if has q xs then none else h q)

module _ {ℓ κ} {D : Type ℓ} {R : Type κ} (Left : List D → R → Type κ) where
  abbrev pub FreedAll : List (Cell D) → Heap D → Heap D × R → Type (ℓ ⊔ κ)
  FreedAll xs h (g, r) = Freed xs h g × Left [] r

module _ {ℓ κ} {D : Type ℓ} {R : Type κ} (free_data : D → R → Option R) (Left : List D → R → Type κ)
    (step : (d : D) (ds : List D) (r : R)
      → Left (d ∷ ds) r
      → Returns (Left ds) (free_data d r)) where
  free_nodes-FreedAll :
      (k : ℕ) (xs : List (Cell D)) (h : Heap D) (b : Ptr) (r : R)
      → length xs < k
      → Links h b null xs
      → Distinct xs
      → Left (map (λ x. x.content) xs) r
      → Returns (FreedAll Left xs h) (free_nodes free_data k (first null xs) h r)
  unfolding free_nodes write
  free_nodes-FreedAll zero xs h b r f k d left = absurd (omega arith)
  free_nodes-FreedAll (suc n) [] h b r f k d left = returns (λ q. refl, left)
  free_nodes-FreedAll (suc n) (x ∷ xs) h b r f k d left =
      let node' : Node D = record { content = x.content; next = first null xs; prev = b } in
      rw (ne_null x.addr k.1, load-some h x.addr node' k.1 k.0, free-some h x.addr node' k.1 k.0)
        (Returns-bind (step x.content (map (λ x. x.content) xs) r left) λ r' left'.
          Returns-mono
            (free_nodes-FreedAll n xs _ x.addr r' (omega arith)
              (Links-frame xs h _ x.addr null k.2 λ q m. ground (arith, d.0)) d.1 left')
            λ (g, s) (e, l). (λ q. ground (arith, e q), l))

  -- free_list frees every node of the list once, and no other, and calls free_data on the data of
  -- each, in their order: where no call of free_data faults from a state that has them left, it does
  -- not fault, and no node and no data are left.
  pub free_list-Freed :
      (xs : List (Cell D)) (stale : Ptr) (l : ListT) (h : Heap D) (r : R)
      → Holds stale l h xs
      → Left (map (λ x. x.content) xs) r
      → Returns (FreedAll Left xs h) (free_list free_data l h r)
  unfolding free_list
  free_list-Freed xs stale l h r v left = rw v.head (
      free_nodes-FreedAll (l.num_items + 1) xs h stale r (omega (arith, v.count)) v.links v.distinct
        left)
