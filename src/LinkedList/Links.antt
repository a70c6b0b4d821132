-- ===== src/LinkedList/Links.antt =====
-- When the nodes on the heap are a list: each holds its data and the addresses of its neighbours.
use process_management_syste.Base.{
  Ptr, ◌≡◌, ◌≢◌, refl, true, false, none, some, List, [], ◌∷◌, ◌++◌, arith, ◌==◌,
}
use process_management_syste.Base.Lists.{length}
use process_management_syste.NodeList.{Cell}
use process_management_syste.NodeList.Nodes.{has, Distinct}
use process_management_syste.LinkedList.{
  Node, Heap, ListT, null, write, load, set_next, set_prev, free,
}

pub ne_null : (p : Ptr) → p ≢ null → (p == null) ≡ false
ne_null p ne = ground arith

module _ {ℓ} {D : Type ℓ} where
  abbrev pub first : Ptr → List (Cell D) → Ptr
  first after [] = after
  first after (x ∷ l) = x.addr

  abbrev pub last : Ptr → List (Cell D) → Ptr
  last before [] = before
  last before (x ∷ l) = last x.addr l

  -- From the node `before` on the left the links lead through `l` to `after` on the right, and back.
  abbrev pub Links : Heap D → Ptr → Ptr → List (Cell D) → Type ℓ
  Links h before after [] = Unit
  Links h before after (x ∷ l) =
      (h x.addr ≡ some (record { content = x.content; next = first after l; prev = before }))
      × (x.addr ≢ null)
      × Links h x.addr after l

  pub Links-append :
      (xs ys : List (Cell D)) (h : Heap D) (b a : Ptr)
      → Links h b a (xs ++ ys)
      → Links h b (first a ys) xs × Links h (last b xs) a ys
  Links-append [] ys h b a k = (tt, k)
  Links-append (x ∷ []) ys h b a k = ((k.0, k.1, tt), k.2)
  Links-append (x ∷ y ∷ xs) ys h b a k =
      let r = Links-append (y ∷ xs) ys h x.addr a k.2 in ((k.0, k.1, r.0), r.1)

  pub Links-join :
      (xs ys : List (Cell D)) (h : Heap D) (b a : Ptr)
      → Links h b (first a ys) xs
      → Links h (last b xs) a ys
      → Links h b a (xs ++ ys)
  Links-join [] ys h b a k m = m
  Links-join (x ∷ []) ys h b a k m = (k.0, k.1, m)
  Links-join (x ∷ y ∷ xs) ys h b a k m = (k.0, k.1, Links-join (y ∷ xs) ys h x.addr a k.2 m)

  -- Links survive any change elsewhere.
  pub Links-frame :
      (l : List (Cell D)) (h g : Heap D) (b a : Ptr)
      → Links h b a l
      → ((q : Ptr) → has q l ≡ true → g q ≡ h q)
      → Links g b a l
  Links-frame [] h g b a k same = tt
  Links-frame (x ∷ l) h g b a k same = (
    ground (arith, same x.addr),
    k.1,
    Links-frame l h g x.addr a k.2 λ q m. same q (ground arith),
  )

  pub first-append : (xs ys : List (Cell D)) (a : Ptr) → first a (xs ++ ys) ≡ first (first a ys) xs
  first-append [] ys a = refl
  first-append (x ∷ xs) ys a = refl

  pub last-append : (xs ys : List (Cell D)) (b : Ptr) → last b (xs ++ ys) ≡ last (last b xs) ys
  last-append [] ys b = refl
  last-append (x ∷ xs) ys b = last-append xs ys x.addr

  -- The list_t `l` and the heap hold the nodes `xs`. `stale` is what the head has for a node to its
  -- left: NULL, or what dequeue has left there.
  pub record Holds (stale : Ptr) (l : ListT) (h : Heap D) (xs : List (Cell D)) : Type ℓ where
    pub links : Links h stale null xs
    pub distinct : Distinct xs
    pub head : l.head ≡ first null xs
    pub tail : l.tail ≡ last null xs
    pub count : l.num_items ≡ length xs

  -- Nothing but the nodes of `xs` differs.
  abbrev pub SameOutside : List (Cell D) → Heap D → Heap D → Type ℓ
  SameOutside xs h g = (q : Ptr) → has q xs ≡ false → g q ≡ h q

module _ {ℓ} {D : Type ℓ} where
  pub not-has :
      (l : List (Cell D)) (h : Heap D) (b a q : Ptr) → Links h b a l → h q ≡ none → has q l ≡ false
  not-has [] h b a q k e = refl
  not-has (x ∷ l) h b a q k e = ground (arith, not-has l h x.addr a q k.2)

  pub first-ne :
      (l : List (Cell D)) (z : Cell D) (h : Heap D) (b : Ptr)
      → Links h b null (l ++ z ∷ [])
      → first null (l ++ z ∷ []) ≢ null
  first-ne [] z h b k = k.1
  first-ne (x ∷ l) z h b k = k.1

  pub load-some : (h : Heap D) (p : Ptr) (n : Node D) → p ≢ null → h p ≡ some n → load h p ≡ some n
  unfolding load
  load-some h p n ne e = ground arith

  pub set_next-some :
      (h : Heap D) (p q : Ptr) (n : Node D)
      → p ≢ null
      → h p ≡ some n
      → set_next h p q ≡ some (write h p (some (record n { next = q })))
  unfolding set_next
  set_next-some h p q n ne e = rw (load-some h p n ne e)

  pub set_prev-some :
      (h : Heap D) (p q : Ptr) (n : Node D)
      → p ≢ null
      → h p ≡ some n
      → set_prev h p q ≡ some (write h p (some (record n { prev = q })))
  unfolding set_prev
  set_prev-some h p q n ne e = rw (load-some h p n ne e)

  pub free-some :
      (h : Heap D) (p : Ptr) (n : Node D)
      → p ≢ null
      → h p ≡ some n
      → free h p ≡ some (write h p none)
  unfolding free
  free-some h p n ne e = rw (load-some h p n ne e)
