-- ===== src/LinkedList/Between.antt =====
-- insert_node of src/linked_list.c puts a node between two neighbours.
use process_management_syste.Base.{
  Ptr, ◌≡◌, ◌≢◌, refl, sym, ◌∙◌, false, none, List, [], ◌∷◌, ◌++◌, arith, ◌==◌, if◌then◌else◌,
  Returns, returns, Returns-bind,
}
use process_management_syste.Base.Lists.{length-append}
use process_management_syste.NodeList.{Cell, node}
use process_management_syste.NodeList.Nodes.{
  has, Distinct-insert, Distinct-left, Distinct-right, Distinct-apart, has-append,
}
use process_management_syste.LinkedList.{Heap, ListT, null, write, create_node, insert_node}
use process_management_syste.LinkedList.Links.{
  Links, first, last, Holds, SameOutside, Links-append, Links-join, Links-frame, last-append,
  first-append, not-has, ne_null,
}
use process_management_syste.LinkedList.Turns.{turn_first, turn_last, last-ne}

module _ {ℓ} {D : Type ℓ} where
  -- What insert_node leaves.
  pub record Inserted (h : Heap D) (l : ListT) (xs ys : List (Cell D)) (r : ListT × Heap D)
      : Type ℓ where
    pub holds : Holds null r.0 r.1 ys
    pub same : SameOutside ys h r.1

  insert_head :
      (left right : List (Cell D)) (h : Heap D) (a fresh : Ptr)
      → Links h null a left
      → (if last null left == null then fresh else first null (left ++ right)) ≡ first fresh left
  insert_head [] right h a fresh k = refl
  insert_head (x ∷ left) right h a fresh k =
      rw (ne_null (last x.addr left) (last-ne left h x.addr a k.1 k.2))

  insert_tail :
      (right : List (Cell D)) (h : Heap D) (b c fresh : Ptr)
      → Links h b null right
      → (if first null right == null then fresh else last c right) ≡ last fresh right
  insert_tail [] h b c fresh k = refl
  insert_tail (x ∷ right) h b c fresh k = rw (ne_null x.addr k.1)

  -- insert_node with the last node of `left` and the first of `right` for neighbours.
  pub insert_node-between :
      (left right : List (Cell D)) (fresh : Ptr) (d : D) (l : ListT) (h : Heap D)
      → Holds null l h (left ++ right)
      → fresh ≢ null
      → h fresh ≡ none
      → Returns
          (Inserted h l (left ++ right) (left ++ node fresh d ∷ right))
          (insert_node fresh l d (last null left) (first null right) h)
  unfolding insert_node create_node write
  insert_node-between left right fresh d l h v ne unused =
      let parts = Links-append left right h null null v.links in
      let new = create_node h fresh d (first null right) (last null left) in
      let no = not-has (left ++ right) h null null fresh v.links unused in
      let no_left : has fresh left ≡ false = ground (arith, no, has-append fresh left right) in
      let no_right : has fresh right ≡ false = ground (arith, no, has-append fresh left right) in
      let apart = λ (q : Ptr). Distinct-apart left right q v.distinct in
      Returns-bind
        (turn_last left new (first null right) fresh
          (Links-frame left h new null (first null right) parts.0 λ q m. ground (arith, no_left))
          (Distinct-left left right v.distinct))
        λ g t.
          Returns-bind
            (turn_first right g (last null left) null fresh
              (Links-frame right h g (last null left) null parts.1
                λ q m. ground (arith, no_right, t.same q, apart q))
              (Distinct-right left right v.distinct))
            λ g' w. returns (record {
              holds = record {
                links =
                    Links-join left (node fresh d ∷ right) g' null null
                      (Links-frame left g g' null fresh t.links λ q m. w.same q (apart q m))
                      (ground (arith, t.same fresh no_left, w.same fresh no_right), ne, w.links);
                distinct = Distinct-insert (node fresh d) right left no v.distinct;
                head =
                    rw v.head (insert_head left right h (first null right) fresh parts.0)
                    ∙ sym (first-append left (node fresh d ∷ right) null);
                tail =
                    rw (v.tail, last-append left right null)
                      (insert_tail right h (last null left) (last null left) fresh parts.1)
                    ∙ sym (last-append left (node fresh d ∷ right) null);
                count = omega (
                  arith,
                  v.count,
                  length-append left right,
                  length-append left (node fresh d ∷ right),
                );
              };
              same = λ q m.
                  ground (arith, t.same q, w.same q, has-append q left (node fresh d ∷ right));
            })
