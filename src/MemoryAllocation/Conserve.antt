-- ===== src/MemoryAllocation/Conserve.antt =====
-- What allocate_memory of src/memory_allocation.c keeps, over any ready queue.
use mathlib.Core.List.{map, perm_middle}
use mathlib.Core.List.Perm
use process_management_syste.Base.{
  ℕ, ◌≡◌, ◌≢◌, refl, ap, ◌∙◌, Bool, true, false, Option, none, some, List, [], ◌∷◌, ◌++◌, Perm,
  ◌>>=◌, Ptr, Returns, returns, Returns-bind, Returns-mono, Returns-if, arith, if◌then◌else◌,
}
use process_management_syste.Base.Text.{streq, streq-eq, strcmp}
use process_management_syste.ProcessData.{Process, State, set_state, set_block_node, get_block_node}
use process_management_syste.ReadyQueue.{ReadyQueue}
use process_management_syste.ReadyQueue.Laws.{QueueLaws}
use process_management_syste.MemoryAllocation.{
  Block, Memory, get_data, best_fit_name, infinite_name,
}
use process_management_syste.MemoryAllocation.Invariant.{IsValid}
use process_management_syste.MemoryAllocation.Fit.{BestFit, best_fit-BestFit}
use process_management_syste.MemoryAllocation.Allocate.{
  Event, Allocation, process_ready, move_all, move_fitting, allocate_memory,
}

-- A process but for its state and its block, which allocate_memory sets.
unfoldable pub ident : Process → Process
ident p = set_state (set_block_node p none) State.idle

ident-set_state : (p : Process) (s : State) → ident (set_state p s) ≡ ident p
unfolding ident set_state set_block_node
ident-set_state p s = refl

ident-set_block_node : (p : Process) (n : Option Ptr) → ident (set_block_node p n) ≡ ident p
unfolding ident set_state set_block_node
ident-set_block_node p n = refl

get_block_node-set_state :
    (p : Process) (s : State) → get_block_node (set_state p s) ≡ get_block_node p
unfolding get_block_node set_state
get_block_node-set_state p s = refl

pub get_block_node-set_block_node :
    (p : Process) (n : Option Ptr) → get_block_node (set_block_node p n) ≡ n
unfolding get_block_node set_block_node
get_block_node-set_block_node p n = refl

pub names_differ : (s : List ℕ) → streq s infinite_name ≡ true → streq s best_fit_name ≡ false
unfolding streq strcmp
names_differ s e = rw (streq-eq s infinite_name e) refl

-- A process of the input that has gone to the queue.
moved-perm :
    (p p' : Process) (added qs input : List Process)
    → Perm added (p' ∷ qs)
    → ident p' ≡ ident p
    → Perm (map ident (added ++ input)) (map ident (qs ++ p ∷ input))
moved-perm p p' added qs input perm same =
    Perm.trans (Perm.map ident (Perm.append_right input perm))
      (rw same (Perm.symm (Perm.map ident (perm_middle {a = p} qs input))))

-- A process that has stayed in the input.
stayed-perm :
    (p p' : Process) (before after input input' : List Process)
    → p' ≡ p
    → Perm (map ident (after ++ input')) (map ident (before ++ input))
    → Perm (map ident (after ++ p' ∷ input')) (map ident (before ++ p ∷ input))
stayed-perm p p' before after input input' same perm = rw same (
    Perm.trans (Perm.map ident (perm_middle {a = p} after input')) (
      Perm.trans (Perm.cons (ident p) perm)
        (Perm.symm (Perm.map ident (perm_middle {a = p} before input)))))

own_name : streq infinite_name infinite_name ≢ false
unfolding streq strcmp
own_name e = ground (arith, e)

module _ (r : ReadyQueue) (laws : QueueLaws r) where
  -- What a run leaves of the memory `m`, the queue `q` and the input.
  pub record Conserved (q : r.Queue) (input : List Process) (a : Allocation r) : Type 0 where
    pub memory : IsValid a.memory
    pub queue : laws.IsValid a.queue
    pub same :
        Perm (map ident (laws.contents a.queue ++ a.input)) (map ident (laws.contents q ++ input))

  unfoldable pub Readied : Process → r.Queue → r.Queue × List Event → Type 0
  Readied p q (q', log') =
      laws.IsValid q' × Perm (laws.contents q') (set_state p State.ready ∷ laws.contents q)

  -- Under best-fit the process must own a block.
  pub process_ready-Readied :
      (p : Process) (time : ℕ) (strategy : List ℕ) (m : Memory) (q : r.Queue) (log : List Event)
      → laws.IsValid q
      → (streq strategy best_fit_name ≡ true
          → (n : Ptr) × (b : Block) × (get_block_node p ≡ some n) × (get_data m.memory n ≡ some b))
      → Returns (Readied p q) (process_ready r p time strategy m q log)
  unfolding process_ready Readied
  process_ready-Readied p time strategy m q log v owns =
      Returns-bind (laws.insert_added q (set_state p State.ready) v) λ q' added.
        Returns-if (streq strategy best_fit_name)
          (λ e.
            let (n, b, own, found) = owns e in
            rw (get_block_node-set_state p State.ready ∙ own, found) (returns added))
          (λ e. returns added)

  move_all-Conserved :
      (time : ℕ) (strategy : List ℕ) (m : Memory) (input : List Process) (q : r.Queue)
      (log : List Event)
      → IsValid m
      → laws.IsValid q
      → streq strategy best_fit_name ≡ false
      → Returns (Conserved q input) (move_all r time strategy m input q log)
  unfolding move_all Readied
  move_all-Conserved time strategy m [] q log v w plain =
      returns (record { memory = v; queue = w; same = Perm.rfl })
  move_all-Conserved time strategy m (p ∷ input) q log v w plain =
      Returns-bind
        (process_ready-Readied p time strategy m q log w (λ e. absurd (ground (arith, e, plain))))
        λ (q', log') (w', perm).
          Returns-mono (move_all-Conserved time strategy m input q' log' v w' plain) λ a c. record {
            memory = c.memory;
            queue = c.queue;
            same = Perm.trans c.same (
                moved-perm p (set_state p State.ready) (laws.contents q') (laws.contents q) input
                  perm (ident-set_state p State.ready));
          }

  move_all-empty :
      (time : ℕ) (strategy : List ℕ) (m : Memory) (input : List Process) (q : r.Queue)
      (log : List Event)
      → laws.IsValid q
      → streq strategy best_fit_name ≡ false
      → Returns (λ a. a.input ≡ []) (move_all r time strategy m input q log)
  unfolding move_all Readied
  move_all-empty time strategy m [] q log w plain = returns refl
  move_all-empty time strategy m (p ∷ input) q log w plain =
      Returns-bind
        (process_ready-Readied p time strategy m q log w (λ e. absurd (ground (arith, e, plain))))
        λ (q', log') (w', perm). move_all-empty time strategy m input q' log' w' plain

  -- Under "infinite" no process stays in the input.
  pub allocate_memory-empty :
      (a : Allocation r) (time : ℕ)
      → laws.IsValid a.queue
      → Returns (λ a'. a'.input ≡ []) (allocate_memory r a infinite_name time)
  unfolding allocate_memory
  allocate_memory-empty a time w =
      Returns-if (streq infinite_name infinite_name)
        (λ e.
          move_all-empty time infinite_name a.memory a.input a.queue a.log w
            (names_differ infinite_name e))
        (λ e. absurd (own_name e))

  -- The rest of the loop after `best_fit`.
  after-BestFit :
      (time : ℕ) (strategy : List ℕ) (m : Memory) (p : Process) (input : List Process) (q : r.Queue)
      → (log : List Event) → IsValid m
      → laws.IsValid q
      → (o : Bool × Memory × Process) → BestFit m p o
      → ((m' : Memory) (q' : r.Queue) (log' : List Event)
          → IsValid m'
          → laws.IsValid q'
          → Returns (Conserved q' input) (move_fitting r time strategy m' input q' log'))
      → Returns (Conserved q (p ∷ input)) (
          if o.0
          then (process_ready r o.2 time strategy o.1 q log >>= λ (queue', log').
              move_fitting r time strategy o.1 input queue' log')
          else (move_fitting r time strategy o.1 input q log >>= λ a.
              some (record a { input = o.2 ∷ a.input })))
  unfolding Readied
  after-BestFit time strategy m p input q log v w (true, m', p') b k =
      Returns-bind
        (process_ready-Readied p' time strategy m' q log w (λ e. (
          m.fresh,
          _,
          ap get_block_node b.owner ∙ get_block_node-set_block_node p (some m.fresh),
          b.allocated.placed,
        )))
        λ (q', log') (w', perm). Returns-mono (k m' q' log' b.allocated.valid w') λ a c. record {
          memory = c.memory;
          queue = c.queue;
          same = Perm.trans c.same (
              moved-perm p (set_state p' State.ready) (laws.contents q') (laws.contents q) input
                perm
                (ident-set_state p' State.ready ∙ ap ident b.owner ∙ ident-set_block_node p _));
        }
  after-BestFit time strategy m p input q log v w (false, m', p') b k =
      Returns-bind (k m' q log (rw b.same_memory v) w) λ a c. returns (record {
        memory = c.memory;
        queue = c.queue;
        same =
            stayed-perm p p' (laws.contents q) (laws.contents a.queue) input a.input b.same_process
              c.same;
      })

  move_fitting-Conserved :
      (time : ℕ) (strategy : List ℕ) (m : Memory) (input : List Process) (q : r.Queue)
      (log : List Event)
      → IsValid m
      → laws.IsValid q
      → Returns (Conserved q input) (move_fitting r time strategy m input q log)
  unfolding move_fitting
  move_fitting-Conserved time strategy m [] q log v w =
      returns (record { memory = v; queue = w; same = Perm.rfl })
  move_fitting-Conserved time strategy m (p ∷ input) q log v w =
      Returns-bind (best_fit-BestFit m p v) λ o b.
        after-BestFit time strategy m p input q log v w o b
          (λ m' q' log'. move_fitting-Conserved time strategy m' input q' log')

  -- allocate_memory never faults on a valid memory and a valid ready queue, whatever the strategy. It
  -- leaves both valid, and no process is lost or doubled: those of the queue and of the input together
  -- are the same as before, in some order, but for the state and the block of those that moved.
  pub allocate_memory-Conserved :
      (a : Allocation r) (strategy : List ℕ) (time : ℕ)
      → IsValid a.memory
      → laws.IsValid a.queue
      → Returns (Conserved a.queue a.input) (allocate_memory r a strategy time)
  unfolding allocate_memory
  allocate_memory-Conserved a strategy time v w =
      Returns-if (streq strategy infinite_name)
        (λ e.
          move_all-Conserved time strategy a.memory a.input a.queue a.log v w
            (names_differ strategy e))
        (λ e.
          Returns-if (streq strategy best_fit_name)
            (λ e. move_fitting-Conserved time strategy a.memory a.input a.queue a.log v w)
            (λ e. returns (record { memory = v; queue = w; same = Perm.rfl })))
