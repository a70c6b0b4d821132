-- ===== src/MemoryAllocation/Holding.antt =====
-- The processes that allocate_memory of src/memory_allocation.c moves under best-fit hold blocks of
-- their own.
use mathlib.Core.Path.{subst}
use process_management_syste.Base.{
  Ptr, ℕ, ◌≤◌, ◌<◌, ◌≡◌, refl, sym, ap, ◌∙◌, Bool, true, false, Option, some, List, [], ◌∷◌, ◌++◌,
  Perm, ◌>>=◌, arith, if◌then◌else◌, Returns, returns, Returns-bind, Returns-mono, Bool-cases, inl,
  inr,
}
use process_management_syste.Base.Lists.{length, sum_by, sum_by-append, sum_by_perm}
use process_management_syste.Base.Text.{streq, streq-eq, strcmp}
use process_management_syste.ProcessData.{Process, State, set_state, get_block_node}
use process_management_syste.ReadyQueue.{ReadyQueue}
use process_management_syste.ReadyQueue.Laws.{QueueLaws}
use process_management_syste.MemoryAllocation.{Memory, best_fit_name}
use process_management_syste.MemoryAllocation.Invariant.{IsValid}
use process_management_syste.MemoryAllocation.Fit.{BestFit, Placed, Refused, best_fit-BestFit}
use process_management_syste.MemoryAllocation.Allocate.{
  Event, Allocation, process_ready, move_fitting, allocate_memory,
}
use process_management_syste.MemoryAllocation.Conserve.{
  allocate_memory-Conserved, Readied, process_ready-Readied, get_block_node-set_block_node,
}
use process_management_syste.MemoryAllocation.Holders.{
  Owned, Owned-same, Owned-Placed, holder, blockless,
}
use process_management_syste.MemoryAllocation.Owners.{Blocks}

holder-ready : (k : Ptr) (p : Process) (s : State) → holder k (set_state p s) ≡ holder k p
unfolding set_state
holder-ready k p s = refl

blockless-ready : (p : Process) (s : State) → blockless (set_state p s) ≡ blockless p
unfolding set_state
blockless-ready p s = refl

module _ (weight : Process → ℕ) where
  sum_readied :
      (others : List Process) (p' q : Process) (before after : List Process)
      → Perm after (q ∷ before)
      → weight q ≡ weight p'
      → sum_by weight (others ++ after) ≡ sum_by weight (p' ∷ (others ++ before))
  sum_readied others p' q before after perm same = omega (
    arith,
    sum_by-append weight others after,
    sum_by-append weight others before,
    sum_by_perm weight perm,
    same,
  )

module _ (r : ReadyQueue) (laws : QueueLaws r) (others : List Process) where
  -- The memory and the queue of a run, with the `others` that hold blocks too.
  pub record Holding (input : List Process) (a : Allocation r) : Type 0 where
    pub owned : Owned a.memory (others ++ laws.contents a.queue)
    pub fewer : length a.input ≤ length input

  -- The rest of the loop, for a process that has been placed.
  move-Placed :
      (time : ℕ) (strategy : List ℕ) (m m' : Memory) (p p' : Process) (input : List Process)
      → (q : r.Queue) (log : List Event) → IsValid m
      → laws.IsValid q
      → Owned m (others ++ laws.contents q)
      → Placed m p m' p'
      → ((q' : r.Queue) (log' : List Event)
          → laws.IsValid q'
          → Owned m' (others ++ laws.contents q')
          → Returns (Holding input) (move_fitting r time strategy m' input q' log'))
      → Returns (Holding input) (
          process_ready r p' time strategy m' q log >>= λ (queue', log').
          move_fitting r time strategy m' input queue' log')
  unfolding Readied
  move-Placed time strategy m m' p p' input q log v w own b k =
      let own' = Owned-Placed m m' p p' (others ++ laws.contents q) v own b in
      Returns-bind
        (process_ready-Readied r laws p' time strategy m' q log w (λ e. (
          m.fresh,
          _,
          ap get_block_node b.owner ∙ get_block_node-set_block_node p (some m.fresh),
          b.allocated.placed,
        )))
        λ (q', log') (w', perm). k q' log' w' (
          Owned-same m' (p' ∷ (others ++ laws.contents q)) _ own'
            (sum_readied blockless others p' _ (laws.contents q) (laws.contents q') perm
              (blockless-ready p' State.ready))
            (λ i.
              sum_readied (holder i) others p' _ (laws.contents q) (laws.contents q') perm
                (holder-ready i p' State.ready)))

  rest_of_loop :
      ℕ
      → List ℕ
      → List Process
      → r.Queue
      → List Event
      → Bool × Memory × Process
      → Option (Allocation r)
  rest_of_loop time strategy input q log (is_space, m', p') =
      if is_space
      then (process_ready r p' time strategy m' q log >>= λ (queue', log').
          move_fitting r time strategy m' input queue' log')
      else (move_fitting r time strategy m' input q log >>= λ a.
          some (record a { input = p' ∷ a.input }))

  move-BestFit :
      (time : ℕ) (strategy : List ℕ) (m : Memory) (p : Process) (input : List Process) (q : r.Queue)
      → (log : List Event) → IsValid m
      → laws.IsValid q
      → Owned m (others ++ laws.contents q)
      → (o : Bool × Memory × Process) → BestFit m p o
      → ((m' : Memory) (q' : r.Queue) (log' : List Event)
          → IsValid m'
          → laws.IsValid q'
          → Owned m' (others ++ laws.contents q')
          → Returns (Holding input) (move_fitting r time strategy m' input q' log'))
      → Returns (Holding (p ∷ input)) (rest_of_loop time strategy input q log o)
  unfolding rest_of_loop
  move-BestFit time strategy m p input q log v w own (true, m', p') b k =
      Returns-mono
        (move-Placed time strategy m m' p p' input q log v w own b
          (λ q' log'. k m' q' log' b.allocated.valid))
        λ a c. record { owned = c.owned; fewer = omega (arith, c.fewer) }
  move-BestFit time strategy m p input q log v w own (false, m', p') b k =
      Returns-bind (k m' q log (rw b.same_memory v) w (rw b.same_memory own))
        λ a c. returns (record { owned = c.owned; fewer = omega (arith, c.fewer) })

  pub move_fitting-Holding :
      (time : ℕ) (strategy : List ℕ) (m : Memory) (input : List Process) (q : r.Queue)
      (log : List Event)
      → IsValid m
      → laws.IsValid q
      → Owned m (others ++ laws.contents q)
      → Returns (Holding input) (move_fitting r time strategy m input q log)
  unfolding move_fitting rest_of_loop
  move_fitting-Holding time strategy m [] q log v w own =
      returns (record { owned = own; fewer = omega arith })
  move_fitting-Holding time strategy m (p ∷ input) q log v w own =
      Returns-bind (best_fit-BestFit m p v) λ o b.
        move-BestFit time strategy m p input q log v w own o b
          (λ m' q' log'. move_fitting-Holding time strategy m' input q' log')

  best_fit-Holding :
      (a : Allocation r) (time : ℕ)
      → IsValid a.memory
      → laws.IsValid a.queue
      → Blocks (streq best_fit_name best_fit_name) a.memory (others ++ laws.contents a.queue)
      → Returns
          (λ a'.
            Blocks (streq best_fit_name best_fit_name) a'.memory (others ++ laws.contents a'.queue))
          (allocate_memory r a best_fit_name time)
  unfolding allocate_memory streq strcmp
  best_fit-Holding a time v w own =
      Returns-mono (move_fitting-Holding time best_fit_name a.memory a.input a.queue a.log v w own)
        λ a' c. c.owned

  -- allocate_memory on a valid memory and a valid ready queue, whatever the strategy: if under best-fit
  -- each process of the queue and each of some others holds a block in use, no two the same, and
  -- these are all the blocks in use, then this holds of the memory and the queue that the call
  -- leaves.
  pub allocate_memory-Blocks :
      (a : Allocation r) (strategy : List ℕ) (time : ℕ)
      → IsValid a.memory
      → laws.IsValid a.queue
      → Blocks (streq strategy best_fit_name) a.memory (others ++ laws.contents a.queue)
      → Returns
          (λ a'. Blocks (streq strategy best_fit_name) a'.memory (others ++ laws.contents a'.queue))
          (allocate_memory r a strategy time)
  allocate_memory-Blocks a strategy time v w own =
      elim (Bool-cases (streq strategy best_fit_name)) [
        | inl e ↦
            subst
              (λ s.
                Blocks (streq s best_fit_name) a.memory (others ++ laws.contents a.queue)
                → Returns
                    (λ a'.
                      Blocks (streq s best_fit_name) a'.memory (others ++ laws.contents a'.queue))
                    (allocate_memory r a s time))
              (sym (streq-eq strategy best_fit_name e)) (best_fit-Holding a time v w) own
        | inr e ↦
            Returns-mono (allocate_memory-Conserved r laws a strategy time v w)
              λ a' c. subst (λ b. Blocks b a'.memory (others ++ laws.contents a'.queue)) (sym e) tt
      ]

  first_placed :
      (time : ℕ) (strategy : List ℕ) (m : Memory) (p : Process) (input : List Process) (q : r.Queue)
      → (log : List Event) → IsValid m
      → laws.IsValid q
      → Owned m (others ++ laws.contents q)
      → ((m' : Memory) (p' : Process) → Refused m p m' p' → ⊥)
      → (o : Bool × Memory × Process) → BestFit m p o
      → Returns
          (λ a'. length a'.input < length (p ∷ input))
          (rest_of_loop time strategy input q log o)
  unfolding rest_of_loop
  first_placed time strategy m p input q log v w own fits (true, m', p') b =
      Returns-mono
        (move-Placed time strategy m m' p p' input q log v w own b
          (λ q' log'. move_fitting-Holding time strategy m' input q' log' b.allocated.valid))
        λ a c. omega (arith, c.fewer)
  first_placed time strategy m p input q log v w own fits (false, m', p') b = absurd (fits m' p' b)

  -- Where the first process of the input fits, it is moved.
  pub best_fit-first :
      (p : Process) (a : Allocation r) (input : List Process) (time : ℕ)
      → IsValid a.memory
      → laws.IsValid a.queue
      → Blocks true a.memory (others ++ laws.contents a.queue)
      → ((m' : Memory) (p' : Process) → Refused a.memory p m' p' → ⊥)
      → a.input ≡ p ∷ input
      → Returns (λ a'. length a'.input < length a.input) (allocate_memory r a best_fit_name time)
  unfolding allocate_memory streq strcmp move_fitting rest_of_loop
  best_fit-first p a input time v w own fits e = rw e (
      Returns-bind (best_fit-BestFit a.memory p v)
        (first_placed time best_fit_name a.memory p input a.queue a.log v w own fits))
