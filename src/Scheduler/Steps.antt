-- ===== src/Scheduler/Steps.antt =====
-- What the functions of src/main.c that a round calls keep: a valid queue and memory, a started process
-- for each pid, and the processes themselves.
use mathlib.Core.Path.{subst}
use mathlib.Core.List.{map, append_assoc}
use mathlib.Core.List.Perm
use process_management_syste.Base.{
  ℕ, ◌≤◌, ◌≡◌, refl, sym, ap, ◌∙◌, List, [], ◌∷◌, ◌++◌, Perm, arith, Returns, returns, Returns-bind,
  Returns-both,
}
use process_management_syste.Base.Text.{streq}
use process_management_syste.ProcessData.{Process, set_state, set_block_node}
use process_management_syste.ReadyQueue.{ReadyQueue}
use process_management_syste.ReadyQueue.Laws.{QueueLaws}
use process_management_syste.MemoryAllocation.{best_fit_name}
use process_management_syste.MemoryAllocation.Owners.{Blocks}
use process_management_syste.MemoryAllocation.Holding.{allocate_memory-Blocks}
use process_management_syste.MemoryAllocation.Invariant.{IsValid}
use process_management_syste.MemoryAllocation.Conserve.{ident, allocate_memory-Conserved}
use process_management_syste.Scheduler.Ending.Work.{work, work-append, work_perm, work-ident}
use process_management_syste.Scheduler.System.{System, update_input, allocate}
use process_management_syste.Scheduler.Arrivals.{update_input-Arrived}
use process_management_syste.Scheduler.Pids.{
  Mark, Good, Good-fewer, owners, owners-append, owners_perm,
}

-- What identifies a process from its line of the input to the end of its run.
unfoldable pub ticket : Process → ℕ × ℕ × ℕ × List ℕ
ticket p = (p.arrival_time, p.service_time, p.mem_requirement, p.name)

pub map_append {ℓ κ} :
    {A : Type ℓ} {B : Type κ} (f : A → B) (xs ys : List A) → map f (xs ++ ys) ≡ map f xs ++ map f ys
map_append f [] ys = refl
map_append f (x ∷ xs) ys = ap (◌∷◌ (f x)) (map_append f xs ys)

ticket-ident : (ps : List Process) → map ticket (map ident ps) ≡ map ticket ps
unfolding ticket ident set_state set_block_node
ticket-ident [] = refl
ticket-ident (p ∷ ps) = ap (◌∷◌ (ticket p)) (ticket-ident ps)

owners-ident : (k : Mark) (ps : List Process) → owners k (map ident ps) ≡ owners k ps
unfolding owners ident set_state set_block_node
owners-ident k [] = refl
owners-ident k (p ∷ ps) = omega (arith, owners-ident k ps)

-- A change of the processes in the middle.
tickets_around :
    (before xs ys after : List Process)
    → Perm (map ticket xs) (map ticket ys)
    → Perm (map ticket (before ++ (xs ++ after))) (map ticket (before ++ (ys ++ after)))
tickets_around before xs ys after perm =
    rw
      (
        map_append ticket before (xs ++ after),
        map_append ticket before (ys ++ after),
        map_append ticket xs after,
        map_append ticket ys after,
      )
      (Perm.append_left (map ticket before) (Perm.append_right (map ticket after) perm))

tickets_around-two :
    (before xs xs' ys ys' after : List Process)
    → Perm (map ticket (xs ++ xs')) (map ticket (ys ++ ys'))
    → Perm
        (map ticket (before ++ (xs ++ (xs' ++ after))))
        (map ticket (before ++ (ys ++ (ys' ++ after))))
tickets_around-two before xs xs' ys ys' after perm =
    rw (sym (append_assoc xs xs' after), sym (append_assoc ys ys' after))
      (tickets_around before (xs ++ xs') (ys ++ ys') after perm)

module _ (r : ReadyQueue) (laws : QueueLaws r) where
  -- The processes that have not finished, with `current` the running one, if there is one.
  unfoldable pub pending : List Process → System r → List Process
  pending current s = current ++ (laws.contents s.queue ++ (s.input ++ s.processes))

module _ (r : ReadyQueue) (laws : QueueLaws r) (strategy : List ℕ) where
  -- The queue and the memory are valid, each pid has its process, and under best-fit the running
  -- process and those of the queue hold blocks of their own.
  pub record Sound (current : List Process) (s : System r) : Type 0 where
    pub queue : laws.IsValid s.queue
    pub memory : IsValid s.memory
    pub good : Good s.os (pending r laws current s)
    pub blocks : Blocks (streq strategy best_fit_name) s.memory (current ++ laws.contents s.queue)

  -- A step that finishes no process.
  pub record Moved (c : List Process) (s : System r) (c' : List Process) (s' : System r)
      : Type 0 where
    pub sound : Sound c' s'
    pub same : Perm (map ticket (pending r laws c' s')) (map ticket (pending r laws c s))
    pub finished : s'.finished ≡ s.finished
    pub less : (k : ℕ) → work k (pending r laws c' s') ≤ work k (pending r laws c s)

  pub update_input-Moved :
      (c : List Process) (s : System r) (time : ℕ) → Sound c s → Moved c s c (update_input r s time)
  unfolding pending update_input
  update_input-Moved c s time v =
      let (a, whole) = update_input-Arrived r s time in
      let s' = update_input r s time in
      let together : s'.input ++ s'.processes ≡ s.input ++ s.processes =
        ap (λ l. l ++ s'.processes) a.appended
        ∙ append_assoc s.input a.moved s'.processes
        ∙ ap (λ l. s.input ++ l) (sym a.split) in
      let unchanged : pending r laws c s' ≡ pending r laws c s =
        ap (λ l. c ++ (laws.contents s.queue ++ l)) together in
      record {
        sound = record {
          queue = v.queue;
          memory = v.memory;
          blocks = v.blocks;
          good =
              Good-fewer s.os (pending r laws c s) (pending r laws c s') v.good
                λ k. omega (arith, ap (owners k) unchanged);
        };
        same =
            subst (λ l. Perm (map ticket l) (map ticket (pending r laws c s))) (sym unchanged)
              Perm.rfl;
        finished = refl;
        less = λ k. omega (arith, ap (work k) unchanged);
      }

  pub allocate-Moved :
      (c : List Process) (s : System r) (time : ℕ)
      → Sound c s
      → Returns (Moved c s c) (allocate r s strategy time)
  unfolding pending allocate
  allocate-Moved c s time v =
      Returns-bind
        (Returns-both (allocate_memory-Conserved r laws _ strategy time v.memory v.queue)
          (allocate_memory-Blocks r laws c _ strategy time v.memory v.queue v.blocks))
        λ a (k, held).
          let perm : Perm (map ticket (laws.contents a.queue ++ a.input))
              (map ticket (laws.contents s.queue ++ s.input)) =
            subst (λ l. Perm l (map ticket (laws.contents s.queue ++ s.input))) (ticket-ident _)
              (subst (Perm (map ticket (map ident (laws.contents a.queue ++ a.input))))
                (ticket-ident _) (Perm.map ticket k.same)) in
          returns (record {
            sound = record {
              queue = k.queue;
              memory = k.memory;
              blocks = held;
              good = Good-fewer s.os _ _ v.good λ i. omega (
                arith,
                owners_perm i k.same,
                owners-ident i (laws.contents a.queue ++ a.input),
                owners-ident i (laws.contents s.queue ++ s.input),
                owners-append i (laws.contents a.queue) a.input,
                owners-append i (laws.contents s.queue) s.input,
                owners-append i a.input s.processes,
                owners-append i s.input s.processes,
                owners-append i (laws.contents a.queue) (a.input ++ s.processes),
                owners-append i (laws.contents s.queue) (s.input ++ s.processes),
                owners-append i c (laws.contents a.queue ++ (a.input ++ s.processes)),
                owners-append i c (laws.contents s.queue ++ (s.input ++ s.processes)),
              );
            };
            same =
                tickets_around-two c (laws.contents a.queue) a.input (laws.contents s.queue) s.input
                  s.processes perm;
            finished = refl;
            less = λ i. omega (
              arith,
              work_perm i k.same,
              work-ident i (laws.contents a.queue ++ a.input),
              work-ident i (laws.contents s.queue ++ s.input),
              work-append i (laws.contents a.queue) a.input,
              work-append i (laws.contents s.queue) s.input,
              work-append i a.input s.processes,
              work-append i s.input s.processes,
              work-append i (laws.contents a.queue) (a.input ++ s.processes),
              work-append i (laws.contents s.queue) (s.input ++ s.processes),
              work-append i c (laws.contents a.queue ++ (a.input ++ s.processes)),
              work-append i c (laws.contents s.queue ++ (s.input ++ s.processes)),
            );
          })
