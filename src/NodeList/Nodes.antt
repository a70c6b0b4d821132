-- ===== src/NodeList/Nodes.antt =====
-- Lists of nodes with distinct addresses: what the operations of NodeList do around a node.
use process_management_syste.Base.{
  Ptr, ◌≡◌, refl, Bool, true, false, ◌||◌, Option, none, some, List, [], ◌∷◌, ◌++◌, arith, ◌==◌,
  if◌then◌else◌, ap, Bool-cases, inl, inr,
}
use process_management_syste.NodeList.{
  Cell, node, first_addr, get_data, set_data, get_next, get_prev, prev_from, delete_node,
  insert_after, same_ptr,
}

pub same_ptr_refl : (o : Option Ptr) → same_ptr o o ≡ true
same_ptr_refl none = refl
same_ptr_refl (some p) = ground arith

module _ {ℓ} {A : Type ℓ} where
  abbrev pub has : Ptr → List (Cell A) → Bool
  has p [] = false
  has p (x ∷ l) = (x.addr == p) || has p l

  abbrev pub Distinct : List (Cell A) → Type 0
  Distinct [] = Unit
  Distinct (x ∷ l) = (has x.addr l ≡ false) × Distinct l

  -- `at` is the address of the last node, or `before` for the empty list.
  abbrev pub last_addr : Option Ptr → List (Cell A) → Option Ptr
  last_addr before [] = before
  last_addr before (x ∷ l) = last_addr (some x.addr) l

  pub has-append : (p : Ptr) (xs ys : List (Cell A)) → has p (xs ++ ys) ≡ (has p xs || has p ys)
  has-append p [] ys = refl
  has-append p (x ∷ xs) ys = ground (arith, has-append p xs ys)

  -- The list around one of its nodes.
  pub record Around (l : List (Cell A)) (p : Ptr) (b : A) : Type ℓ where
    pub left : List (Cell A)
    pub right : List (Cell A)
    pub whole : l ≡ left ++ node p b ∷ right
    pub new_left : has p left ≡ false

  pub split_at : (l : List (Cell A)) (p : Ptr) (b : A) → get_data l p ≡ some b → Around l p b
  unfolding get_data
  split_at [] p b h = cc
  split_at (x ∷ l) p b h = elim (Bool-cases (x.addr == p)) [
    | inl e ↦ record { left = []; right = l; whole = ground arith; new_left = refl }
    | inr e ↦
        let r = split_at l p b (ground arith) in
        record {
          left = x ∷ r.left;
          right = r.right;
          whole = ap (◌∷◌ x) r.whole;
          new_left = ground (arith, r.new_left);
        }
  ]

  -- Around a node whose address does not occur to its left.
  module _ (p : Ptr) (b : A) (right : List (Cell A)) where
    pub get_data_here :
        (left : List (Cell A)) → has p left ≡ false → get_data (left ++ node p b ∷ right) p ≡ some b
    unfolding get_data
    get_data_here [] h = ground arith
    get_data_here (x ∷ left) h = ground (arith, get_data_here left)

    pub set_data_here :
        (left : List (Cell A)) (c : A)
        → has p left ≡ false
        → set_data (left ++ node p b ∷ right) p c ≡ left ++ node p c ∷ right
    unfolding set_data
    set_data_here [] c h = ground arith
    set_data_here (x ∷ left) c h = ground (arith, set_data_here left c)

    pub delete_node_here :
        (left : List (Cell A))
        → has p left ≡ false
        → delete_node (left ++ node p b ∷ right) p ≡ left ++ right
    unfolding delete_node
    delete_node_here [] h = ground arith
    delete_node_here (x ∷ left) h = ground (arith, delete_node_here left)

    pub get_next_here :
        (left : List (Cell A))
        → has p left ≡ false
        → get_next (left ++ node p b ∷ right) p ≡ first_addr right
    unfolding get_next
    get_next_here [] h = ground arith
    get_next_here (x ∷ left) h = ground (arith, get_next_here left)

    prev_from_here :
        (left : List (Cell A)) (before : Option Ptr)
        → has p left ≡ false
        → prev_from before (left ++ node p b ∷ right) p ≡ last_addr before left
    unfolding prev_from
    prev_from_here [] before h = ground arith
    prev_from_here (x ∷ left) before h = ground (arith, prev_from_here left (some x.addr))

    pub get_prev_here :
        (left : List (Cell A))
        → has p left ≡ false
        → get_prev (left ++ node p b ∷ right) p ≡ last_addr none left
    unfolding get_prev
    get_prev_here left h = prev_from_here left none h

  -- A list is empty, or has a last node.
  pub data Snoc : List (Cell A) → Type ℓ where
    empty : Snoc []
    snoc : (l : List (Cell A)) (x : (Cell A)) → Snoc (l ++ x ∷ [])

  extend : (x : (Cell A)) {l : List (Cell A)} → Snoc l → Snoc (x ∷ l)
  extend x empty = snoc [] x
  extend x (snoc l y) = snoc (x ∷ l) y

  pub to_snoc : (l : List (Cell A)) → Snoc l
  to_snoc [] = empty
  to_snoc (x ∷ l) = extend x (to_snoc l)

  pub last_addr-snoc :
      (l : List (Cell A)) (x : (Cell A)) (before : Option Ptr)
      → last_addr before (l ++ x ∷ []) ≡ some x.addr
  last_addr-snoc [] x before = refl
  last_addr-snoc (y ∷ l) x before = last_addr-snoc l x (some y.addr)

  -- A new node between the last node of one list and the first of another.
  pub insert_after-snoc :
      (l right : List (Cell A)) (x new : Cell A)
      → has x.addr l ≡ false
      → insert_after (l ++ x ∷ right) new x.addr (first_addr right) ≡ some (l ++ x ∷ new ∷ right)
  unfolding insert_after
  insert_after-snoc [] right x new h = ground (arith, same_ptr_refl (first_addr right))
  insert_after-snoc (y ∷ l) right x new h = ground (arith, insert_after-snoc l right x new)

  -- What a change at a node does to every read.
  module _ (p : Ptr) (b : A) (right : List (Cell A)) (q : Ptr) where
    pub get_data-resize :
        (left : List (Cell A)) (c : A)
        → has p left ≡ false
        → get_data (left ++ node p c ∷ right) q
          ≡ (if p == q then some c else get_data (left ++ node p b ∷ right) q)
    unfolding get_data
    get_data-resize [] c h = ground arith
    get_data-resize (x ∷ left) c h = ground (arith, get_data-resize left c)

    pub get_data-insert :
        (left : List (Cell A))
        → has p left ≡ false
        → get_data (left ++ node p b ∷ right) q
          ≡ (if p == q then some b else get_data (left ++ right) q)
    unfolding get_data
    get_data-insert [] h = ground arith
    get_data-insert (x ∷ left) h = ground (arith, get_data-insert left)

    pub has-insert :
        (left : List (Cell A))
        → has q (left ++ node p b ∷ right) ≡ ((p == q) || has q (left ++ right))
    has-insert [] = ground arith
    has-insert (x ∷ left) = ground (arith, has-insert left)

  pub get_data-missing : (l : List (Cell A)) (p : Ptr) → has p l ≡ false → get_data l p ≡ none
  unfolding get_data
  get_data-missing [] p h = refl
  get_data-missing (x ∷ l) p h = ground (arith, get_data-missing l p)

  pub has_of_get_data :
      (l : List (Cell A)) (p : Ptr) (b : A) → get_data l p ≡ some b → has p l ≡ true
  unfolding get_data
  has_of_get_data [] p b h = cc
  has_of_get_data (x ∷ l) p b h = ground (arith, has_of_get_data l p b)

  -- Distinct addresses, around a node.
  module _ (x : (Cell A)) (right : List (Cell A)) where
    pub Distinct-out :
        (left : List (Cell A))
        → Distinct (left ++ x ∷ right)
        → (has x.addr left ≡ false) × (has x.addr right ≡ false) × Distinct (left ++ right)
    Distinct-out [] d = (refl, d.0, d.1)
    Distinct-out (y ∷ left) d =
        let (a, b, c) = Distinct-out left d.1 in
        (
          ground (arith, has-insert x.addr x.content right y.addr left),
          b,
          (ground (arith, has-insert x.addr x.content right y.addr left), c),
        )

    pub Distinct-insert :
        (left : List (Cell A))
        → has x.addr (left ++ right) ≡ false
        → Distinct (left ++ right)
        → Distinct (left ++ x ∷ right)
    Distinct-insert [] h d = (h, d)
    Distinct-insert (y ∷ left) h d = (
      ground (arith, has-insert x.addr x.content right y.addr left),
      Distinct-insert left (ground arith) d.1,
    )

  pub Distinct-left : (left right : List (Cell A)) → Distinct (left ++ right) → Distinct left
  Distinct-left [] right d = tt
  Distinct-left (x ∷ left) right d =
      (ground (arith, d.0, has-append x.addr left right), Distinct-left left right d.1)

  pub Distinct-right : (left right : List (Cell A)) → Distinct (left ++ right) → Distinct right
  Distinct-right [] right d = d
  Distinct-right (x ∷ left) right d = Distinct-right left right d.1

  pub Distinct-apart :
      (left right : List (Cell A)) (q : Ptr)
      → Distinct (left ++ right)
      → has q left ≡ true
      → has q right ≡ false
  Distinct-apart [] right q d m = cc
  Distinct-apart (x ∷ left) right q d m =
      ground (arith, has-append x.addr left right, Distinct-apart left right q d.1)
