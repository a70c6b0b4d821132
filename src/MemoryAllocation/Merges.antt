-- ===== src/MemoryAllocation/Merges.antt =====
-- check_direction of src/memory_allocation.c, once on each side of a block that is freed.
use mathlib.Core.List.{append_assoc}
use native.Mathlib.Numerals.{add-one}
use process_management_syste.Base.{
  ℕ, zero, suc, ◌<◌, ◌≡◌, refl, ◌∙◌, Bool, true, false, Option, none, some, List, [], ◌∷◌, ◌++◌,
  arith, Returns, returns, Returns-bind, Returns-if, Returns-mono, Option-cases, inl, inr, Ptr,
}
use process_management_syste.Base.Lists.{length, length-append}
use process_management_syste.NodeList.Nodes.{
  get_prev_here, last_addr, last_addr-snoc, Snoc, empty, snoc, to_snoc,
}
use process_management_syste.MemoryAllocation.{
  Block, Node, Memory, node, is_hole, first_addr, get_next, get_prev, merge_loop, check_if,
  check_direction,
}
use process_management_syste.MemoryAllocation.Holes.{Listed}
use process_management_syste.MemoryAllocation.Tiles.{Apart, last_hole, Apart-split}
use process_management_syste.MemoryAllocation.Invariant.{Layout}
use process_management_syste.MemoryAllocation.Pair.{
  Covers, Kept, facts, get_first, get_second, next_second,
}
use process_management_syste.MemoryAllocation.Update.{merged, merge_right, merge_left}

-- The memory while the hole `n` is not listed yet; `l` is what it was before.
pub record Opened (l left right : List Node) (n fresh : Ptr) (b : Block) (m : Memory) : Type 0 where
  pub now : Block
  pub holes : List Ptr
  pub shape : m ≡ record { memory = left ++ node n now ∷ right; holes = holes; fresh = fresh }
  pub layout : Layout (left ++ node n now ∷ right) fresh
  pub listed : Listed (left ++ node n now ∷ right) (some n) holes
  pub covers : Covers b now
  pub kept : Kept n l (left ++ node n now ∷ right)
  pub back : Kept n (left ++ node n now ∷ right) l

Covers-trans : {b c d : Block} → Covers b c → Covers c d → Covers b d
Covers-trans x y = record { free = y.free; from = omega arith; to = omega arith }

-- No hole is left to the right.
pub record ClosedRight (l left : List Node) (n fresh : Ptr) (b : Block) (m : Memory) : Type 0 where
  pub right : List Node
  pub opened : Opened l left right n fresh b m
  pub apart : Apart true right

pub Opened-widen :
    {l l' left right : List Node} {n fresh : Ptr} {b b' : Block} {m : Memory}
    → Covers b b'
    → Kept n l l'
    → Kept n l' l
    → Opened l' left right n fresh b' m
    → Opened l left right n fresh b m
Opened-widen c k j o = record {
  now = o.now;
  holes = o.holes;
  shape = o.shape;
  layout = o.layout;
  listed = o.listed;
  covers = Covers-trans c o.covers;
  kept = λ q d g p ne. o.kept q d (k q d g p ne) p ne;
  back = λ q d g p ne. j q d (o.back q d g p ne) p ne;
}

-- Nothing is merged.
Opened-refl :
    (left right : List Node) (holes : List Ptr) (n fresh : Ptr) (b : Block)
    → is_hole b.type ≡ true
    → Layout (left ++ node n b ∷ right) fresh
    → Listed (left ++ node n b ∷ right) (some n) holes
    → Opened
        (left ++ node n b ∷ right)
        left
        right
        n
        fresh
        b
        (record { memory = left ++ node n b ∷ right; holes = holes; fresh = fresh })
Opened-refl left right holes n fresh b free v hs = record {
  now = b;
  holes = holes;
  shape = refl;
  layout = v;
  listed = hs;
  covers = record { free = free; from = omega arith; to = omega arith };
  kept = λ q d g p ne. g;
  back = λ q d g p ne. g;
}

pub merge_loop-right :
    (k : ℕ) (left right : List Node) (holes : List Ptr) (n fresh : Ptr) (b : Block) (t : Bool)
    → length right < k
    → is_hole b.type ≡ true
    → Layout (left ++ node n b ∷ right) fresh
    → Listed (left ++ node n b ∷ right) (some n) holes
    → Apart t right
    → Returns (ClosedRight (left ++ node n b ∷ right) left n fresh b) (
        merge_loop get_next k
          (record { memory = left ++ node n b ∷ right; holes = holes; fresh = fresh })
          n
          (first_addr right))
unfolding merge_loop
merge_loop-right zero left right holes n fresh b t f free v hs a = absurd (omega arith)
merge_loop-right (suc k) left [] holes n fresh b t f free v hs a =
    returns
      (record { right = []; opened = Opened-refl left [] holes n fresh b free v hs; apart = tt })
merge_loop-right (suc k) left (x ∷ right) holes n fresh b t f free v hs a =
    rw (get_second left right (node n b) x fresh v, next_second left right (node n b) x fresh v)
      (Returns-if (is_hole x.content.type)
        (λ is.
          Returns-bind (merge_right left right holes n x.addr fresh b x.content free is v hs)
            λ m mg. rw mg.shape (
              Returns-mono
                (merge_loop-right k left right mg.holes n fresh (merged b x.content)
                  (is_hole x.content.type) (omega arith) free mg.layout mg.listed a.1)
                λ m' c. record {
                  right = c.right;
                  opened = Opened-widen mg.covers mg.kept mg.back c.opened;
                  apart = c.apart;
                }))
        (λ not. returns (record {
          right = x ∷ right;
          opened = Opened-refl left (x ∷ right) holes n fresh b free v hs;
          apart = (ground arith, a.1);
        })))

-- No hole is left to the left.
pub record ClosedLeft (l right : List Node) (n fresh : Ptr) (b : Block) (m : Memory) : Type 0 where
  pub left : List Node
  pub opened : Opened l left right n fresh b m
  pub apart : Apart false left
  pub settled : last_hole false left ≡ false

last_hole-snoc :
    (l : List Node) (x : Node) (b : Bool) → last_hole b (l ++ x ∷ []) ≡ is_hole x.content.type
last_hole-snoc [] x b = refl
last_hole-snoc (y ∷ l) x b = last_hole-snoc l x _

pub merge_loop-left :
    (k : ℕ) {left : List Node} (s : Snoc left) (right : List Node) (holes : List Ptr)
    (n fresh : Ptr) (b : Block)
    → length left < k
    → is_hole b.type ≡ true
    → Layout (left ++ node n b ∷ right) fresh
    → Listed (left ++ node n b ∷ right) (some n) holes
    → Apart false left
    → Returns (ClosedLeft (left ++ node n b ∷ right) right n fresh b) (
        merge_loop get_prev k
          (record { memory = left ++ node n b ∷ right; holes = holes; fresh = fresh })
          n
          (last_addr none left))
unfolding merge_loop
merge_loop-left zero s right holes n fresh b f free v hs a = absurd (omega arith)
merge_loop-left (suc k) empty right holes n fresh b f free v hs a = returns (record {
  left = [];
  opened = Opened-refl [] right holes n fresh b free v hs;
  apart = tt;
  settled = refl;
})
merge_loop-left (suc k) (snoc l x) right holes n fresh b f free v hs a =
    let w = rw append_assoc at v in
    let hs' = rw append_assoc at hs in
    let apart = Apart-split (x ∷ []) l false a in
    rw
      (
        last_addr-snoc l x none,
        append_assoc,
        get_first l right x (node n b) fresh w,
        get_prev_here x.addr x.content (node n b ∷ right) l
            (facts l right x (node n b) fresh w).x_left,
      )
      (Returns-if (is_hole x.content.type)
        (λ is.
          Returns-bind (merge_left l right holes n x.addr fresh b x.content free is w hs') λ m mg.
            rw mg.shape (
              Returns-mono
                (merge_loop-left k (to_snoc l) right mg.holes n fresh (merged b x.content)
                  (omega (arith, length-append l (x ∷ []))) free mg.layout mg.listed apart.0)
                λ m' c. record {
                  left = c.left;
                  opened = Opened-widen mg.covers mg.kept mg.back c.opened;
                  apart = c.apart;
                  settled = c.settled;
                }))
        (λ not. returns (record {
          left = l ++ x ∷ [];
          opened = rw append_assoc at (Opened-refl (l ++ x ∷ []) right holes n fresh b free v hs);
          apart = a;
          settled = last_hole-snoc l x false ∙ not;
        })))

-- The guard of deallocate_memory and check_direction together are one run of the loop.
pub check_if-merge_loop :
    (get_dir : List Node → Ptr → Option Ptr) (m : Memory) (n : Ptr)
    → check_if get_dir m n ≡ merge_loop get_dir (suc (length m.memory)) m n (get_dir m.memory n)
unfolding check_if check_direction merge_loop
check_if-merge_loop get_dir m n = elim (Option-cases (get_dir m.memory n)) [
  | inl e ↦ rw (e, check_if)
  | inr (c, e) ↦ rw (e, check_if, e, add-one)
]
