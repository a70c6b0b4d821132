-- ===== src/MemoryAllocation.antt =====
-- src/memory_allocation.c: best-fit allocation of a 2048 MB memory.
-- The list `memory` is the list of its nodes from head to tail, each with its address and the block
-- that it holds; `holes` is the list of the addresses that its nodes hold. malloc returns `fresh`.
-- An int is a natural: requirements are taken to be non-negative and far below 2 ^ 31. A read
-- through an address that no node has faults.
pub mod Holes
pub mod Tiles
pub mod Invariant
pub mod Split
pub mod Fit
pub mod Pair
pub mod Update
pub mod Merges
pub mod Release
pub mod Allocate
pub mod Holders
pub mod Owners
pub mod Conserve
pub mod Holding
pub mod Free
pub mod Clear
mod Tests
use process_management_syste.Base.{
  ℕ, zero, suc, ◌+◌, ◌-◌, Bool, true, false, Option, none, some, List, [], ◌∷◌, ◌++◌, Ordering,
  compare, ◌>>=◌, ltb, leb, ◌==◌, if◌then◌else◌,
}
use process_management_syste.Base.Lists.{length}
use process_management_syste.Base.Text.{streq, codes}
use process_management_syste.NodeList.{Cell}
unfoldable pub use process_management_syste.NodeList.{
  node, first_addr, get_data, set_data, get_next, get_prev, prev_from, delete_node, insert_node,
  insert_after, same_ptr,
}
use process_management_syste.Base.{Ptr}
use process_management_syste.ProcessData.{Process, set_block_node, get_block_node}

pub data BlockType : Type 0 where
  process hole : BlockType

abbrev pub is_hole : BlockType → Bool
is_hole process = false
is_hole hole = true

pub record Block : Type 0 where
  pub type : BlockType
  pub start_address : ℕ
  pub size : ℕ

abbrev pub Node : Type 0
Node = Cell Block

pub record Memory : Type 0 where
  pub memory : List Node
  pub holes : List Ptr
  pub fresh : Ptr

abbrev pub mem_capacity : ℕ
mem_capacity = 2048

unfoldable pub create_block : BlockType → ℕ → ℕ → Block
create_block type start size = record { type = type; start_address = start; size = size }

-- The sign of the int that the C function returns.
unfoldable pub compare_ints : ℕ → ℕ → Ordering
compare_ints a b = compare a b

abbrev pub is_lt : Ordering → Bool
is_lt Ordering.lt = true
is_lt _ = false

unfoldable pub get_size : Block → ℕ
get_size b = b.size

-- The walk of insert_node_sorted over `holes`, for a node whose block has the given size.
unfoldable pub insert_sized : List Node → ℕ → Ptr → List Ptr → Option (List Ptr)
unfolding get_data get_size compare_ints
insert_sized l size p [] = some (p ∷ [])
insert_sized l size p (h ∷ hs) =
    let further : Option (List Ptr) = (do r ← insert_sized l size p hs; some (h ∷ r)) in
    do
      b ← get_data l h
      if is_lt (compare_ints (get_size b) size) then further else some (p ∷ h ∷ hs)

unfoldable pub insert_node_sorted : List Node → List Ptr → Ptr → Option (List Ptr)
unfolding insert_sized get_data get_size
insert_node_sorted l holes p = do b ← get_data l p; insert_sized l (get_size b) p holes

-- delete_node_by_data on `holes`: the walk runs off the list where the data is missing.
unfoldable pub delete_node_by_data : List Ptr → Ptr → Option (List Ptr)
delete_node_by_data [] p = none
delete_node_by_data (h ∷ hs) p =
    let further : Option (List Ptr) = (do r ← delete_node_by_data hs p; some (h ∷ r)) in
    if h == p then some hs else further

unfoldable pub initialise_memory : Memory
unfolding create_block
initialise_memory = record {
  memory = node 1 (create_block hole 0 mem_capacity) ∷ [];
  holes = 1 ∷ [];
  fresh = 2;
}

-- The loop of best_fit: the first hole of the list that is large enough.
unfoldable pub find_fit : List Node → ℕ → List Ptr → Option (Option Ptr)
unfolding get_data
find_fit l need [] = some none
find_fit l need (h ∷ hs) =
    let further = find_fit l need hs in
    do b ← get_data l h; if leb need b.size then some (some h) else further

unfoldable pub split : Process → Ptr → Memory → Option (Memory × Process)
unfolding get_data set_data get_next get_prev delete_node insert_node insert_node_sorted
    create_block set_block_node
split p n m = do
  old ← get_data m.memory n
  let new_size = p.mem_requirement
  let new_block = create_block process old.start_address new_size
  let rest = create_block hole (old.start_address + new_size) (old.size - new_size)
  let resized = set_data m.memory n rest
  let prev = get_prev resized n
  let fits : Option (Memory × Process) = do
    l ← insert_node (delete_node resized n) (node m.fresh new_block) prev (get_next resized n)
    some (record m { memory = l; fresh = m.fresh + 1 }, set_block_node p (some m.fresh))
  let larger : Option (Memory × Process) = do
    holes ← insert_node_sorted resized m.holes n
    l ← insert_node resized (node m.fresh new_block) prev (some n)
    some
        (record { memory = l; holes = holes; fresh = m.fresh + 1 }, set_block_node p (some m.fresh))
  if rest.size == 0 then fits else larger

-- The result says whether there was space.
unfoldable pub best_fit : Memory → Process → Option (Bool × Memory × Process)
unfolding find_fit delete_node_by_data split
best_fit m p = do
  fit ← find_fit m.memory p.mem_requirement m.holes
  elim fit [
    | none ↦ some (false, m, p)
    | some h ↦ do
      holes ← delete_node_by_data m.holes h
      (m', p') ← split p h (record m { holes = holes })
      some (true, m', p')
  ]

unfoldable pub update_memory : Memory → Ptr → Ptr → Option Memory
unfolding get_data set_data delete_node delete_node_by_data
update_memory m main adj = do
  a ← get_data m.memory adj
  b ← get_data m.memory main
  let start = if ltb a.start_address b.start_address then a.start_address else b.start_address
  let merged = record b { start_address = start; size = b.size + a.size }
  let l = delete_node (set_data m.memory main merged) adj
  holes ← delete_node_by_data m.holes adj
  some (record m { memory = l; holes = holes })

-- The loop of check_direction at `curr`; a merge removes a node, so `length memory` rounds are enough.
unfoldable pub merge_loop :
    (List Node → Ptr → Option Ptr) → ℕ → Memory → Ptr → Option Ptr → Option Memory
merge_loop get_dir zero m main curr = none
merge_loop get_dir (suc k) m main none = some m
merge_loop get_dir (suc k) m main (some curr) = do
  b ← get_data m.memory curr
  let next = get_dir m.memory curr
  let merge = update_memory m main curr >>= λ m'. merge_loop get_dir k m' main next
  if is_hole b.type then merge else some m

unfoldable pub check_direction : (List Node → Ptr → Option Ptr) → Memory → Ptr → Option Memory
check_direction get_dir m main = do
  curr ← get_dir m.memory main
  merge_loop get_dir (length m.memory + 1) m main (some curr)

-- `if (get_dir(block_node)) check_direction(...)`
unfoldable pub check_if : (List Node → Ptr → Option Ptr) → Memory → Ptr → Option Memory
check_if get_dir m main = elim (get_dir m.memory main) [
  | none ↦ some m
  | some _ ↦ check_direction get_dir m main
]

abbrev pub best_fit_name : List ℕ
best_fit_name = codes "best-fit"

abbrev pub infinite_name : List ℕ
infinite_name = codes "infinite"

-- The name that deallocate_memory compares with: it is not the one of the command line.
abbrev pub infinity_name : List ℕ
infinity_name = codes "infinity"

-- The merges to the right and to the left of the node that has become a hole, and its listing.
unfoldable pub merge_sides : Memory → Ptr → Option Memory
merge_sides m n = do
  right ← check_if get_next m n
  both ← check_if get_prev right n
  holes ← insert_node_sorted both.memory both.holes n
  some (record both { holes = holes })

-- The branch of deallocate_memory for best-fit.
unfoldable pub release : Process → Memory → Option (Memory × Process)
release p m = do
  n ← get_block_node p
  b ← get_data m.memory n
  m' ← merge_sides (record m { memory = set_data m.memory n (record b { type = hole }) }) n
  some (m', set_block_node p none)

unfoldable pub deallocate_memory : Process → Memory → List ℕ → Option (Memory × Process)
deallocate_memory p m strategy =
    if streq strategy infinity_name
    then some (m, p)
    else if streq strategy best_fit_name
    then release p m
    else some (m, p)
