-- ===== src/LinkedList/Sorted.antt =====
-- insert_node_sorted of src/linked_list.c: the walk to the place, and the links at it.
use mathlib.Core.Path.{subst}
use process_management_syste.Base.{
  Ptr, ℕ, zero, suc, ◌+◌, ◌<◌, ◌≡◌, ◌≢◌, refl, sym, ap, ◌∙◌, Bool, false, Option, none, some, List,
  [], ◌∷◌, ◌++◌, arith, ◌==◌, if◌then◌else◌, Bool-cases, inl, inr, Returns, returns, Returns-mono,
  Returns-inv,
}
use process_management_syste.Base.Lists.{length}
use process_management_syste.NodeList.{Cell, node}
use process_management_syste.LinkedList.{
  Node, Heap, ListT, null, insert_node, find_place, insert_node_sorted, is_empty_list,
}
use process_management_syste.LinkedList.Links.{
  Links, Holds, Links-append, first, last, load-some, ne_null,
}
use process_management_syste.LinkedList.Turns.{last-ne}
use process_management_syste.LinkedList.Between.{Inserted, insert_node-between}

-- Where the new node goes: behind the longest run of nodes at the head that compare below it.
abbrev pub place {ℓ} : {D : Type ℓ} → (D → Bool) → Cell D → List (Cell D) → List (Cell D)
place below new [] = new ∷ []
place below new (x ∷ l) = if below x.content then x ∷ place below new l else new ∷ x ∷ l

module _ {ℓ} {D : Type ℓ} (below : D → Bool) (less : D → Option Bool)
    (agrees : (d : D) → less d ≡ some (below d)) where
  -- The walk stops between `left` and `right`.
  record Stopped (xs : List (Cell D)) (b : Ptr) (r : Ptr × Ptr) : Type ℓ where
    left : List (Cell D)
    right : List (Cell D)
    whole : xs ≡ left ++ right
    prev : r.0 ≡ last b left
    curr : r.1 ≡ first null right
    placed : (new : Cell D) → place below new xs ≡ left ++ new ∷ right

  find_place-Stopped :
      (k : ℕ) (xs : List (Cell D)) (h : Heap D) (s b : Ptr)
      → length xs < k
      → Links h s null xs
      → Returns (Stopped xs b) (find_place less k h b (first null xs))
  unfolding find_place
  find_place-Stopped zero xs h s b f k = absurd (omega arith)
  find_place-Stopped (suc n) [] h s b f k = returns (record {
    left = [];
    right = [];
    whole = refl;
    prev = refl;
    curr = refl;
    placed = λ new. refl;
  })
  find_place-Stopped (suc n) (x ∷ xs) h s b f k =
      let nd : Node D = record { content = x.content; next = first null xs; prev = s } in
      rw (ne_null x.addr k.1, load-some h x.addr nd k.1 k.0, agrees x.content)
        (elim (Bool-cases (below x.content)) [
          | inl e ↦ rw e (
              Returns-mono (find_place-Stopped n xs h x.addr x.addr (omega arith) k.2) λ r q.
                record {
                  left = x ∷ q.left;
                  right = q.right;
                  whole = ap (◌∷◌ x) q.whole;
                  prev = q.prev;
                  curr = q.curr;
                  placed = λ new. rw e (ap (◌∷◌ x) (q.placed new));
                })
          | inr e ↦ rw e (
              returns (record {
                left = [];
                right = x ∷ xs;
                whole = refl;
                prev = refl;
                curr = refl;
                placed = λ new. rw e refl;
              }))
        ])

pair : {r : Ptr × Ptr} {a b : Ptr} → r.0 ≡ a → r.1 ≡ b → r ≡ (a, b)
pair e f = λ i. (e i, f i)

-- The four branches are those of insert_node.
module _ {ℓ} {D : Type ℓ} where
  branches :
      (fresh : Ptr) (l : ListT) (d : D) (prev curr : Ptr) (h : Heap D) (less : D → Option Bool)
      → is_empty_list l ≡ (if prev == null then curr == null else false)
      → find_place less (l.num_items + 1) h null l.head ≡ some (prev, curr)
      → insert_node_sorted fresh l d less h ≡ insert_node fresh l d prev curr h
  unfolding insert_node_sorted insert_node
  branches fresh l d prev curr h less empty found =
      rw (found, empty)
        (elim (Bool-cases (prev == null)) [
          | inl e ↦ elim (Bool-cases (curr == null)) [
            | inl f ↦ rw (e, f) refl
            | inr f ↦ rw (e, f) refl
          ]
          | inr e ↦ elim (Bool-cases (curr == null)) [
            | inl f ↦ rw (e, f) refl
            | inr f ↦ rw (e, f) refl
          ]
        ])

  -- A list is empty where the walk stops between NULL and NULL.
  empty_at :
      (left right : List (Cell D)) (h : Heap D) (l : ListT)
      → Holds null l h (left ++ right)
      → is_empty_list l ≡ (if last null left == null then first null right == null else false)
  unfolding is_empty_list
  empty_at [] [] h l v = rw v.count (ground arith)
  empty_at [] (x ∷ right) h l v = rw (v.count, ne_null x.addr v.links.1) (ground arith)
  empty_at (x ∷ left) right h l v =
      let parts = Links-append (x ∷ left) right h null null v.links in
      rw
        (
          v.count,
          ne_null (last x.addr left) (last-ne left h x.addr (first null right) parts.0.1 parts.0.2),
        )
        (ground arith)

  at_place :
      (left right : List (Cell D)) (less : D → Option Bool) (fresh : Ptr) (d : D) (l : ListT)
      (h : Heap D)
      → Holds null l h (left ++ right)
      → fresh ≢ null
      → h fresh ≡ none
      → find_place less (l.num_items + 1) h null l.head ≡ some (last null left, first null right)
      → Returns
          (Inserted h l (left ++ right) (left ++ node fresh d ∷ right))
          (insert_node_sorted fresh l d less h)
  at_place left right less fresh d l h v ne unused found =
      rw
        (branches fresh l d (last null left) (first null right) h less (empty_at left right h l v)
          found)
        (insert_node-between left right fresh d l h v ne unused)

  -- insert_node_sorted with a comparison that always answers, on a list whose head has NULL to its
  -- left: the walk ends within the list, the call does not fault, and the new node stands behind the
  -- longest run of nodes at the head that compare below it; the other nodes keep their order, and
  -- nothing outside of the list changes.
  pub insert_node_sorted-place :
      (below : D → Bool) (less : D → Option Bool) (xs : List (Cell D)) (fresh : Ptr) (d : D)
      → (l : ListT) (h : Heap D) → ((e : D) → less e ≡ some (below e))
      → Holds null l h xs
      → fresh ≢ null
      → h fresh ≡ none
      → Returns
          (Inserted h l xs (place below (node fresh d) xs))
          (insert_node_sorted fresh l d less h)
  insert_node_sorted-place below less xs fresh d l h agrees v ne unused =
      let (r, run, q) = Returns-inv (
        find_place-Stopped below less agrees (l.num_items + 1) xs h null null
          (omega (arith, v.count)) v.links) in
      let found : find_place less (l.num_items + 1) h null l.head
          ≡ some (last null q.left, first null q.right) =
        rw v.head (run ∙ ap some (pair q.prev q.curr)) in
      rw (q.placed (node fresh d)) (
        subst
          (λ ys.
            Returns (Inserted h l ys (q.left ++ node fresh d ∷ q.right))
              (insert_node_sorted fresh l d less h))
          (sym q.whole)
          (at_place q.left q.right less fresh d l h (subst (Holds null l h) q.whole v) ne unused
            found))
