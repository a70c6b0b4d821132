-- ===== src/Scheduler/Ending/Waiting.antt =====
-- When cycle of src/main.c has no process to run: all that are left have not arrived.
use mathlib.Core.Path.{subst}
use mathlib.Core.List.{map}
use process_management_syste.Base.{
  ℕ, ◌+◌, ◌≤◌, ◌≡◌, ◌⊎◌, inl, inr, refl, sym, ap, ◌∙◌, true, false, Option, none, some, List, [],
  ◌∷◌, ◌++◌, arith, Perm, leb, ◌==◌, if◌then◌else◌, Bool-cases, Returns, returns, Returns-bind,
  Returns-mono,
}
use process_management_syste.Base.Lists.{sum_by, sum_by_perm}
use process_management_syste.Base.Text.{streq, streq-eq, strcmp}
use process_management_syste.ProcessData.{Process}
use process_management_syste.ReadyQueue.{ReadyQueue}
use process_management_syste.ReadyQueue.Laws.{QueueLaws}
use process_management_syste.MemoryAllocation.{mem_capacity, best_fit_name, infinite_name}
use process_management_syste.MemoryAllocation.Owners.{Blocks}
use process_management_syste.MemoryAllocation.Clear.{best_fit-IsClear}
use process_management_syste.MemoryAllocation.Conserve.{
  allocate_memory-empty, allocate_memory-Conserved,
}
use process_management_syste.Scheduler.System.{System, allocate}
use process_management_syste.Scheduler.Arrivals.{NoneArrived}
use process_management_syste.Scheduler.Steps.{ticket, pending, Sound}
use process_management_syste.Scheduler.Loops.{as_list, everyone, Stays}
use process_management_syste.Scheduler.Cycle.{Loop}

-- 1 for a process that can never be placed.
unfoldable pub misfit : ℕ × ℕ × ℕ × List ℕ → ℕ
misfit t = if leb t.2 mem_capacity then 0 else 1

unfoldable pub misfits : List Process → ℕ
misfits ps = sum_by misfit (map ticket ps)

misfits-append : (ps qs : List Process) → misfits (ps ++ qs) ≡ misfits ps + misfits qs
unfolding misfits
misfits-append [] qs = omega arith
misfits-append (p ∷ ps) qs = omega (arith, misfits-append ps qs)

pub misfits_perm :
    (ps qs : List Process) → Perm (map ticket ps) (map ticket qs) → misfits ps ≡ misfits qs
unfolding misfits
misfits_perm ps qs perm = sum_by_perm misfit perm

first_fits :
    (p : Process) (ps : List Process) → misfits (p ∷ ps) ≡ 0 → p.mem_requirement ≤ mem_capacity
unfolding misfits misfit ticket
first_fits p ps none_misfits = ground (arith, none_misfits)

-- Under best-fit each process must fit into the memory.
abbrev pub CanFinish : List ℕ → List Process → Type 0
CanFinish strategy ps = (strategy ≡ infinite_name) ⊎ ((strategy ≡ best_fit_name) × (misfits ps ≡ 0))

module _ (r : ReadyQueue) (laws : QueueLaws r) where
  -- No process waits for memory or for its turn, and the first that is to come comes after `time`.
  pub record Idle (time : ℕ) (s : System r) : Type 0 where
    pub queue : laws.contents s.queue ≡ []
    pub input : s.input ≡ []
    pub processes : NoneArrived time s.processes

module _ (r : ReadyQueue) (laws : QueueLaws r) (strategy : List ℕ) where
  pub CanFinish-Stays :
      (l l' : Loop r)
      → Stays r laws strategy l l'
      → CanFinish strategy (everyone r laws strategy l)
      → CanFinish strategy (everyone r laws strategy l')
  CanFinish-Stays l l' t can = elim can [
    | inl e ↦ inl e
    | inr (e, fit) ↦
        inr
          (e, misfits_perm (everyone r laws strategy l') (everyone r laws strategy l) t.same ∙ fit)
  ]

  pub CanFinish-input :
      (l : Loop r)
      → CanFinish strategy (everyone r laws strategy l)
      → CanFinish strategy l.system.input
  unfolding everyone pending
  CanFinish-input l can = elim can [
    | inl e ↦ inl e
    | inr (e, fit) ↦
        let s = l.system in
        let c = as_list l.current in
        inr (
          e,
          omega (
            arith,
            fit,
            misfits-append s.finished (c ++ (laws.contents s.queue ++ (s.input ++ s.processes))),
            misfits-append c (laws.contents s.queue ++ (s.input ++ s.processes)),
            misfits-append (laws.contents s.queue) (s.input ++ s.processes),
            misfits-append s.input s.processes,
          ),
        )
  ]

  -- What allocate leaves if no process is the current one.
  pub record Cleared (s s' : System r) : Type 0 where
    pub processes : s'.processes ≡ s.processes
    pub clear : CanFinish strategy s.input → laws.contents s'.queue ≡ [] → s'.input ≡ []

infinite-Cleared :
    (r : ReadyQueue) (laws : QueueLaws r) (s : System r) (time : ℕ)
    → Sound r laws infinite_name [] s
    → Returns (Cleared r laws infinite_name s) (allocate r s infinite_name time)
unfolding allocate
infinite-Cleared r laws s time v =
    Returns-bind (allocate_memory-empty r laws _ time v.queue)
      λ a e. returns (record { processes = refl; clear = λ can nothing. e })

best_fit-Blocks :
    (r : ReadyQueue) (laws : QueueLaws r) (s : System r)
    → Sound r laws best_fit_name [] s
    → Blocks true s.memory (laws.contents s.queue)
unfolding streq strcmp
best_fit-Blocks r laws s v = v.blocks

best_fit-Cleared :
    (r : ReadyQueue) (laws : QueueLaws r) (s : System r) (time : ℕ)
    → Sound r laws best_fit_name [] s
    → misfits s.input ≡ 0
    → Returns (Cleared r laws best_fit_name s) (allocate r s best_fit_name time)
unfolding allocate
best_fit-Cleared r laws s time v fit =
    Returns-bind
      (best_fit-IsClear r laws _ time v.memory v.queue (best_fit-Blocks r laws s v)
        (λ p rest e. first_fits p rest (ap misfits (sym e) ∙ fit)))
      λ a h. returns (record { processes = refl; clear = λ can. h })

differ_infinite : (s : List ℕ) → streq s infinite_name ≡ false → s ≡ infinite_name → ⊥
unfolding streq strcmp
differ_infinite s n e = let h = subst (λ t. streq t infinite_name ≡ false) e n in cc

differ_best_fit : (s : List ℕ) → streq s best_fit_name ≡ false → s ≡ best_fit_name → ⊥
unfolding streq strcmp
differ_best_fit s n e = let h = subst (λ t. streq t best_fit_name ≡ false) e n in cc

some-none : (p : Process) → some p ≡ none → ⊥
some-none p e = cc

module _ (r : ReadyQueue) (laws : QueueLaws r) (strategy : List ℕ) where
  allocate-processes :
      (c : List Process) (s : System r) (time : ℕ)
      → Sound r laws strategy c s
      → Returns (λ s'. s'.processes ≡ s.processes) (allocate r s strategy time)
  unfolding allocate
  allocate-processes c s time v =
      Returns-bind (allocate_memory-Conserved r laws _ strategy time v.memory v.queue)
        λ a k. returns refl

  -- Where nothing is promised.
  cannot :
      (s : System r) (time : ℕ)
      → Sound r laws strategy [] s
      → (CanFinish strategy s.input → ⊥)
      → Returns (Cleared r laws strategy s) (allocate r s strategy time)
  cannot s time v never =
      Returns-mono (allocate-processes [] s time v)
        λ s' e. record { processes = e; clear = λ can. absurd (never can) }

  none-Cleared :
      (s : System r) (time : ℕ)
      → Sound r laws strategy [] s
      → Returns (Cleared r laws strategy s) (allocate r s strategy time)
  none-Cleared s time v = elim (Bool-cases (streq strategy infinite_name)) [
    | inl e ↦
        subst (λ t. Sound r laws t [] s → Returns (Cleared r laws t s) (allocate r s t time))
          (sym (streq-eq strategy infinite_name e)) (infinite-Cleared r laws s time) v
    | inr n ↦ elim (Bool-cases (streq strategy best_fit_name)) [
      | inl e ↦ elim (Bool-cases (misfits s.input == 0)) [
        | inl fit ↦
            subst (λ t. Sound r laws t [] s → Returns (Cleared r laws t s) (allocate r s t time))
              (sym (streq-eq strategy best_fit_name e))
              (λ v. best_fit-Cleared r laws s time v (ground (arith, fit))) v
        | inr big ↦ cannot s time v λ can. elim can [
          | inl e ↦ differ_infinite strategy n e
          | inr (e, fit) ↦ absurd (ground (arith, big, fit))
        ]
      ]
      | inr m ↦ cannot s time v λ can. elim can [
        | inl e ↦ differ_infinite strategy n e
        | inr (e, fit) ↦ differ_best_fit strategy m e
      ]
    ]
  ]

  pub allocate-Cleared :
      (c : Option Process) (s : System r) (time : ℕ)
      → Sound r laws strategy (as_list c) s
      → Returns
          (λ s'.
            (s'.processes ≡ s.processes)
            × (CanFinish strategy s.input → c ≡ none → laws.contents s'.queue ≡ [] → s'.input ≡ []))
          (allocate r s strategy time)
  allocate-Cleared none s time v =
      Returns-mono (none-Cleared s time v) λ s' c. (c.processes, λ can e. c.clear can)
  allocate-Cleared (some p) s time v =
      Returns-mono (allocate-processes (p ∷ []) s time v)
        λ s' e. (e, λ can e. absurd (some-none p e))
