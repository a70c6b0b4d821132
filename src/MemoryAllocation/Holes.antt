-- ===== src/MemoryAllocation/Holes.antt =====
-- The list of holes of src/memory_allocation.c: each hole once, in ascending order of size.
use process_management_syste.Base.{
  ℕ, ◌≤◌, ◌<◌, ◌≡◌, refl, Bool, true, false, ◌||◌, Option, none, some, List, [], ◌∷◌, arith, ◌==◌,
  if◌then◌else◌, Returns, returns, Returns-bind, Returns-if, Returns-mono, ltb, leb, Ptr,
}
use process_management_syste.MemoryAllocation.{
  Block, Node, is_hole, same_ptr, get_data, insert_sized, insert_node_sorted, delete_node_by_data,
  find_fit,
}

abbrev pub mem : Ptr → List Ptr → Bool
mem p [] = false
mem p (h ∷ hs) = (h == p) || mem p hs

abbrev pub Once : List Ptr → Type 0
Once [] = Unit
Once (h ∷ hs) = (mem h hs ≡ false) × Once hs

abbrev pub hole_in : Option Block → Bool
hole_in none = false
hole_in (some b) = is_hole b.type

abbrev pub size_in : Option Block → ℕ
size_in none = 0
size_in (some b) = b.size

abbrev pub AtLeast : List Node → ℕ → List Ptr → Type 0
AtLeast l s [] = Unit
AtLeast l s (h ∷ hs) = (s ≤ size_in (get_data l h)) × AtLeast l s hs

abbrev pub Ascending : List Node → List Ptr → Type 0
Ascending l [] = Unit
Ascending l (h ∷ hs) = AtLeast l (size_in (get_data l h)) hs × Ascending l hs

-- `hs` lists the holes of `l`, but for the node `skip`.
pub record Listed (l : List Node) (skip : Option Ptr) (hs : List Ptr) : Type 0 where
  pub exact :
      (q : Ptr) → mem q hs ≡ (if same_ptr skip (some q) then false else hole_in (get_data l q))
  pub once : Once hs
  pub ascending : Ascending l hs

AtLeast-trans : (l : List Node) {s t : ℕ} (hs : List Ptr) → s ≤ t → AtLeast l t hs → AtLeast l s hs
AtLeast-trans l [] h a = tt
AtLeast-trans l (x ∷ hs) h a = (omega arith, AtLeast-trans l hs h a.1)

pub AtLeast-mem :
    (l : List Node) (s : ℕ) (hs : List Ptr) (q : Ptr)
    → AtLeast l s hs
    → mem q hs ≡ true
    → s ≤ size_in (get_data l q)
AtLeast-mem l s [] q a m = cc
AtLeast-mem l s (h ∷ hs) q a m = ground (arith, AtLeast-mem l s hs q)

-- The order depends only on the sizes of the holes.
module _ (l l' : List Node) where
  AtLeast-transfer :
      (s : ℕ) (hs : List Ptr)
      → ((q : Ptr) → mem q hs ≡ true → get_data l' q ≡ get_data l q)
      → AtLeast l s hs
      → AtLeast l' s hs
  AtLeast-transfer s [] same a = tt
  AtLeast-transfer s (h ∷ hs) same a =
      (ground (arith, same h), AtLeast-transfer s hs (λ q m. same q (ground arith)) a.1)

  pub Ascending-transfer :
      (hs : List Ptr)
      → ((q : Ptr) → mem q hs ≡ true → get_data l' q ≡ get_data l q)
      → Ascending l hs
      → Ascending l' hs
  Ascending-transfer [] same a = tt
  Ascending-transfer (h ∷ hs) same a = (
    rw (same h (ground arith)) (AtLeast-transfer _ hs (λ q m. same q (ground arith)) a.0),
    Ascending-transfer hs (λ q m. same q (ground arith)) a.1,
  )

-- What delete_node_by_data leaves.
pub record Erased (l : List Node) (p : Ptr) (hs : List Ptr) (r : List Ptr) : Type 0 where
  pub members : (q : Ptr) → mem q r ≡ (if p == q then false else mem q hs)
  pub once : Once r
  pub ascending : Ascending l r
  pub bound : (s : ℕ) → AtLeast l s hs → AtLeast l s r

pub delete_node_by_data-Erased :
    (l : List Node) (p : Ptr) (hs : List Ptr)
    → mem p hs ≡ true
    → Once hs
    → Ascending l hs
    → Returns (Erased l p hs) (delete_node_by_data hs p)
unfolding delete_node_by_data
delete_node_by_data-Erased l p [] m o a = cc
delete_node_by_data-Erased l p (h ∷ hs) m o a =
    Returns-if (h == p)
      (λ e.
        returns
          (record { members = λ q. ground arith; once = o.1; ascending = a.1; bound = λ s b. b.1 }))
      (λ e. Returns-bind (delete_node_by_data-Erased l p hs (ground arith) o.1 a.1) λ r er.
        returns (record {
          members = λ q. ground (arith, er.members q);
          once = (ground (arith, er.members h), er.once);
          ascending = (er.bound _ a.0, er.ascending);
          bound = λ s b. (b.0, er.bound s b.1);
        }))

pub hole-some :
    (o : Option Block) → hole_in o ≡ true → (b : Block) × (o ≡ some b) × (is_hole b.type ≡ true)
hole-some none h = cc
hole-some (some b) h = (b, refl, h)

-- What insert_node_sorted leaves.
pub record Added (l : List Node) (p : Ptr) (hs : List Ptr) (r : List Ptr) : Type 0 where
  pub members : (q : Ptr) → mem q r ≡ (if p == q then true else mem q hs)
  pub once : Once r
  pub ascending : Ascending l r
  pub bound : (s : ℕ) → s ≤ size_in (get_data l p) → AtLeast l s hs → AtLeast l s r

insert_sized-Added :
    (l : List Node) (size : ℕ) (p : Ptr) (hs : List Ptr)
    → size ≡ size_in (get_data l p)
    → mem p hs ≡ false
    → Once hs
    → Ascending l hs
    → ((q : Ptr) → mem q hs ≡ true → hole_in (get_data l q) ≡ true)
    → Returns (Added l p hs) (insert_sized l size p hs)
unfolding insert_sized
insert_sized-Added l size p [] e m o a live = returns (record {
  members = λ q. ground arith;
  once = (refl, tt);
  ascending = (tt, tt);
  bound = λ s b c. (b, tt);
})
insert_sized-Added l size p (h ∷ hs) e m o a live =
    let (b, found, _) = hole-some (get_data l h) (live h (ground arith)) in
    let at : size_in (get_data l h) ≡ b.size = ground arith in
    rw found (
      Returns-if (ltb b.size size)
        (λ lt.
          Returns-bind
            (insert_sized-Added l size p hs e (ground arith) o.1 a.1 (λ q i. live q (ground arith)))
            λ r ad. returns (record {
              members = λ q. ground (arith, ad.members q);
              once = (ground (arith, ad.members h), ad.once);
              ascending = (ad.bound _ (ground arith) a.0, ad.ascending);
              bound = λ s c d. (d.0, ad.bound s c d.1);
            }))
        (λ ge. returns (record {
          members = λ q. ground arith;
          once = (m, o);
          ascending = ((ground arith, AtLeast-trans l hs (ground arith) a.0), a);
          bound = λ s c d. (c, d);
        })))

pub insert_node_sorted-Added :
    (l : List Node) (p : Ptr) (b : Block) (hs : List Ptr)
    → get_data l p ≡ some b
    → mem p hs ≡ false
    → Once hs
    → Ascending l hs
    → ((q : Ptr) → mem q hs ≡ true → hole_in (get_data l q) ≡ true)
    → Returns (Added l p hs) (insert_node_sorted l hs p)
unfolding insert_node_sorted
insert_node_sorted-Added l p b hs found m o a live =
    rw found (insert_sized-Added l b.size p hs (ground arith) m o a live)

-- What the loop of best_fit finds: the smallest hole that is large enough, if there is one.
pub record Best (l : List Node) (need : ℕ) (hs : List Ptr) (h : Ptr) : Type 0 where
  pub listed : mem h hs ≡ true
  pub enough : need ≤ size_in (get_data l h)
  pub smallest :
      (q : Ptr)
      → mem q hs ≡ true
      → need ≤ size_in (get_data l q)
      → size_in (get_data l h) ≤ size_in (get_data l q)

abbrev pub Fit : List Node → ℕ → List Ptr → Option Ptr → Type 0
Fit l need hs none = (q : Ptr) → mem q hs ≡ true → size_in (get_data l q) < need
Fit l need hs (some h) = Best l need hs h

Fit-cons :
    (l : List Node) (need : ℕ) (h : Ptr) (hs : List Ptr)
    → size_in (get_data l h) < need
    → (r : Option Ptr) → Fit l need hs r
    → Fit l need (h ∷ hs) r
Fit-cons l need h hs small none f = λ q m. ground (arith, f q)
Fit-cons l need h hs small (some g) f = record {
  listed = ground (arith, f.listed);
  enough = f.enough;
  smallest = λ q m n. ground (arith, f.smallest q);
}

pub find_fit-Fit :
    (l : List Node) (need : ℕ) (hs : List Ptr)
    → Ascending l hs
    → ((q : Ptr) → mem q hs ≡ true → hole_in (get_data l q) ≡ true)
    → Returns (Fit l need hs) (find_fit l need hs)
unfolding find_fit
find_fit-Fit l need [] a live = returns (λ q m. cc)
find_fit-Fit l need (h ∷ hs) a live =
    let (b, found, _) = hole-some (get_data l h) (live h (ground arith)) in
    rw found (
      Returns-if (leb need b.size)
        (λ le. returns (record {
          listed = ground arith;
          enough = ground arith;
          smallest = λ q m n. ground (arith, AtLeast-mem l _ hs q a.0);
        }))
        (λ gt.
          Returns-mono (find_fit-Fit l need hs a.1 (λ q i. live q (ground arith)))
            (Fit-cons l need h hs (ground arith))))
