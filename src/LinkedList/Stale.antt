-- ===== src/LinkedList/Stale.antt =====
-- dequeue of src/linked_list.c does not reset the link that the new head has to its left. delete_node
-- of that head writes through it.
use process_management_syste.Base.{
  Ptr, ◌≡◌, ◌≢◌, refl, ◌∙◌, none, List, ◌∷◌, arith, Returns, Returns-mono, Returns-inv,
}
use process_management_syste.NodeList.{Cell}
use process_management_syste.NodeList.Nodes.{Distinct}
use process_management_syste.LinkedList.{
  Node, Heap, ListT, null, load, set_next, unlink, delete_node, dequeue,
}
use process_management_syste.LinkedList.Links.{
  Links, first, last, Holds, not-has, load-some, ne_null,
}
use process_management_syste.LinkedList.Ends.{dequeue-cons}
use process_management_syste.LinkedList.Turns.{turn_first, last-ne}

module _ {ℓ} {D : Type ℓ} where
  set_next-freed : (h : Heap D) (p q : Ptr) → h p ≡ none → set_next h p q ≡ none
  unfolding set_next load
  set_next-freed h p q e = ground (arith, e)

  unlink-stale :
      (y : Cell D) (xs : List (Cell D)) (s : Ptr) (h : Heap D)
      → Links h s null (y ∷ xs)
      → Distinct (y ∷ xs)
      → s ≢ null
      → h s ≡ none
      → unlink y.addr h ≡ none
  unfolding unlink
  unlink-stale y xs s h k d ne gone =
      let n : Node D = record { content = y.content; next = first null xs; prev = s } in
      let (g, run, t) = Returns-inv (turn_first xs h y.addr null s k.2 d.1) in
      let apart = not-has xs h y.addr null s k.2 gone in
      rw
        (
          load-some h y.addr n k.1 k.0,
          run,
          load-some g y.addr n k.1 (t.same y.addr d.0 ∙ k.0),
          ne_null s ne,
          set_next-freed g s (first null xs) (t.same s apart ∙ gone),
        )
        refl

  delete_node-stale :
      (y : Cell D) (xs : List (Cell D)) (s : Ptr) (l : ListT) (h : Heap D)
      → Holds s l h (y ∷ xs)
      → s ≢ null
      → h s ≡ none
      → delete_node l y.addr h ≡ none
  unfolding delete_node
  delete_node-stale y xs s l h v ne gone =
      let n : Node D = record { content = y.content; next = first null xs; prev = s } in
      rw
        (
          v.head,
          v.tail,
          ne_null y.addr v.links.1,
          ne_null (last y.addr xs) (last-ne xs h y.addr null v.links.1 v.links.2),
          load-some h y.addr n v.links.1 v.links.0,
          unlink-stale y xs s h v.links v.distinct ne gone,
        )
        refl

  -- After dequeue of a list of two nodes or more, delete_node of the new head faults: it writes to
  -- the node that dequeue has freed.
  pub dequeue-delete_node :
      (x y : Cell D) (xs : List (Cell D)) (stale : Ptr) (l : ListT) (h : Heap D)
      → Holds stale l h (x ∷ y ∷ xs)
      → Returns (λ r. delete_node r.1 y.addr r.2 ≡ none) (dequeue l h)
  dequeue-delete_node x y xs stale l h v =
      Returns-mono (dequeue-cons x (y ∷ xs) stale l h v)
        λ r q. delete_node-stale y xs x.addr r.1 r.2 q.holds v.links.1 q.freed
