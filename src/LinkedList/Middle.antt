-- ===== src/LinkedList/Middle.antt =====
-- delete_node of src/linked_list.c does to the nodes what NodeList does to their list.
use mathlib.Core.Path.{subst}
use process_management_syste.Base.{
  Ptr, ◌≡◌, ◌≢◌, sym, ◌∙◌, false, some, List, [], ◌∷◌, ◌++◌, arith, ◌==◌, if◌then◌else◌, Returns,
  returns, Returns-mono, Returns-bind,
}
use process_management_syste.Base.Lists.{length-append}
use process_management_syste.NodeList
use process_management_syste.NodeList.{Cell, node}
use process_management_syste.NodeList.Nodes.{
  has, Distinct, Distinct-out, Distinct-left, Distinct-right, Distinct-apart, has-append, Snoc,
  empty, snoc, to_snoc, delete_node_here, split_at,
}
use process_management_syste.LinkedList.{Node, Heap, ListT, null, unlink, delete_node}
use process_management_syste.LinkedList.Links.{
  Links, first, last, Holds, SameOutside, Links-append, Links-join, Links-frame, last-append,
  load-some, ne_null,
}
use process_management_syste.LinkedList.Turns.{turn_first, turn_last, last-ne}

module _ {ℓ} {D : Type ℓ} where
  -- What delete_node leaves of the nodes `xs` with `p` among them.
  pub record Deleted (h : Heap D) (p : Ptr) (xs ys : List (Cell D)) (r : ListT × Heap D)
      : Type ℓ where
    pub holds : Holds null r.0 r.1 ys
    pub own : r.1 p ≡ h p
    pub same : SameOutside xs h r.1

  -- A node among others.
  module _ (left right : List (Cell D)) (p : Ptr) (d : D) (h : Heap D)
      (v : Links h null null (left ++ node p d ∷ right))
      (u : Distinct (left ++ node p d ∷ right)) where
    pub parts : Links h null p left × Links h (last null left) null (node p d ∷ right)
    parts = Links-append left (node p d ∷ right) h null null v

    pub out : (has p left ≡ false) × (has p right ≡ false) × Distinct (left ++ right)
    out = Distinct-out (node p d) right left u

    abbrev own_node : Node D
    own_node = record { content = d; next = first null right; prev = last null left }

    pub record Unlinked (g : Heap D) : Type ℓ where
      pub links : Links g null null (left ++ right)
      pub own : g p ≡ h p
      pub same : SameOutside (left ++ node p d ∷ right) h g

    unlink-Unlinked : Returns Unlinked (unlink p h)
    unfolding unlink
    unlink-Unlinked = rw (load-some h p own_node parts.1.1 parts.1.0) (
        Returns-bind
          (turn_first right h p null (last null left) parts.1.2 (Distinct-right left right out.2))
          λ g t. rw (load-some g p own_node parts.1.1 (t.same p out.1 ∙ parts.1.0)) (
            Returns-mono
              (turn_last left g p (first null right)
                (Links-frame left h g null p parts.0
                  λ q m. t.same q (Distinct-apart left right q out.2 m))
                (Distinct-left left right out.2))
              λ g' w. record {
                links = Links-join left right g' null null w.links (
                    Links-frame right g g' (last null left) null t.links
                      λ q m. w.same q (ground (arith, Distinct-apart left right q out.2)));
                own = w.same p out.0 ∙ t.same p out.1;
                same =
                    λ q m. ground (arith, w.same q, t.same q, has-append q left (node p d ∷ right));
              }))

  -- The head and the tail once the node is gone.
  module _ (p : Ptr) (d : D) where
    first-ne_around :
        (left right : List (Cell D)) (h : Heap D)
        → Links h null null (left ++ node p d ∷ right)
        → first null (left ++ node p d ∷ right) ≢ null
    first-ne_around [] right h k = k.1
    first-ne_around (x ∷ left) right h k = k.1

    new_head :
        (left right : List (Cell D))
        → Distinct (left ++ node p d ∷ right)
        → (if first null (left ++ node p d ∷ right) == p
            then first null right
            else first null (left ++ node p d ∷ right))
          ≡ first null (left ++ right)
    new_head [] right u = ground arith
    new_head (x ∷ left) right u = ground (arith, u.0, has-append x.addr left (node p d ∷ right))

    new_tail :
        {right : List (Cell D)} (s : Snoc right) (left : List (Cell D))
        → has p right ≡ false
        → (if last p right == p then last null left else last p right) ≡ last (last null left) right
    new_tail empty left u = ground arith
    new_tail (snoc r z) left u =
        rw (last-append r (z ∷ []) p, last-append r (z ∷ []) (last null left))
          (ground (arith, u, has-append p r (z ∷ [])))

  pub delete_around :
      (left right : List (Cell D)) (p : Ptr) (d : D) (l : ListT) (h : Heap D)
      → Holds null l h (left ++ node p d ∷ right)
      → Returns (Deleted h p (left ++ node p d ∷ right) (left ++ right)) (delete_node l p h)
  unfolding delete_node
  delete_around left right p d l h v =
      let k = (parts left right p d h v.links v.distinct).1 in
      let o = out left right p d h v.links v.distinct in
      let tail : l.tail ≡ last p right = v.tail ∙ last-append left (node p d ∷ right) null in
      rw
        (
          v.head,
          tail,
          ne_null (first null (left ++ node p d ∷ right))
              (first-ne_around p d left right h v.links),
          ne_null (last p right) (last-ne right h p null k.1 k.2),
          ne_null p k.1,
          load-some h p (own_node left right p d h v.links v.distinct) k.1 k.0,
        )
        (Returns-bind (unlink-Unlinked left right p d h v.links v.distinct) λ g w. returns (record {
          holds = record {
            links = w.links;
            distinct = o.2;
            head = new_head p d left right v.distinct;
            tail = new_tail p d (to_snoc right) left o.1 ∙ sym (last-append left right null);
            count =
                omega
                  (arith, v.count, length-append left (node p d ∷ right), length-append left right);
          };
          own = w.own;
          same = w.same;
        }))

  -- delete_node of a node of the list, where the head has NULL to its left: the call does not
  -- fault, the nodes are those that NodeList.delete_node leaves, the node keeps its own links, and
  -- nothing outside of the list changes.
  pub delete_node-delete_node :
      (xs : List (Cell D)) (p : Ptr) (d : D) (l : ListT) (h : Heap D)
      → Holds null l h xs
      → NodeList.get_data xs p ≡ some d
      → Returns (Deleted h p xs (NodeList.delete_node xs p)) (delete_node l p h)
  delete_node-delete_node xs p d l h v found =
      let r = split_at xs p d found in
      let v' = subst (Holds null l h) r.whole v in
      subst (λ xs. Returns (Deleted h p xs (NodeList.delete_node xs p)) (delete_node l p h))
        (sym r.whole)
        (rw (delete_node_here p d r.right r.left r.new_left)
          (delete_around r.left r.right p d l h v'))
