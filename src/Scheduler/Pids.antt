-- ===== src/Scheduler/Pids.antt =====
-- The started processes of src/main.c and the processes that own them by their pids.
use mathlib.Core.Path.{subst}
use mathlib.Core.List.{Permᴰ}
use mathlib.Core.Logic.{∥∥₁_elim}
use native.Mathlib.Nat.{ℕ_set}
use process_management_syste.Base.{
  ℕ, ◌+◌, ◌≤◌, ◌<◌, ◌≡◌, ◌≢◌, refl, ap, ◌∙◌, true, false, some, List, [], ◌∷◌, ◌++◌, Perm, arith,
  ◌==◌, if◌then◌else◌, Bool-cases, inl, inr,
}
use process_management_syste.ProcessData.{Process, get_name}
use process_management_syste.ChildProcess.{Child, is_option}
use process_management_syste.Scheduler.Real.{Children, Os, find_child, set_child, remove_child}
use process_management_syste.Scheduler.Protocol.{Started, find_child-set_child, find_child-other}

-- What is counted: the processes with a pid, or those with a name that is an option of the child.
pub data Mark : Type 0 where
  has_pid : ℕ → Mark
  is_dashed : Mark

abbrev pub weight : Mark → ℕ → List ℕ → ℕ
weight (has_pid k) pid name = if pid == k then 1 else 0
weight is_dashed pid name = if is_option name then 1 else 0

-- How many of the processes have the mark.
unfoldable pub owners : Mark → List Process → ℕ
owners k [] = 0
owners k (p ∷ ps) = weight k p.pid p.name + owners k ps

==_sound : (a b : ℕ) → (a == b) ≡ true → a ≡ b
==_sound a b e = ground (arith, e)

pub owners-append :
    (k : Mark) (ps qs : List Process) → owners k (ps ++ qs) ≡ owners k ps + owners k qs
unfolding owners
owners-append k [] qs = omega arith
owners-append k (p ∷ ps) qs = omega (arith, owners-append k ps qs)

owners-permᴰ : (k : Mark) {ps qs : List Process} → Permᴰ ps qs → owners k ps ≡ owners k qs
unfolding owners
owners-permᴰ k Permᴰ.nil = refl
owners-permᴰ k (Permᴰ.cons e p) = omega (arith, ap (λ p. weight k p.pid p.name) e, owners-permᴰ k p)
owners-permᴰ k (Permᴰ.swap x y) =
    omega (arith, ap (λ p. weight k p.pid p.name) x, ap (λ p. weight k p.pid p.name) y)
owners-permᴰ k (Permᴰ.trans p q) = owners-permᴰ k p ∙ owners-permᴰ k q

pub owners_perm : (k : Mark) {ps qs : List Process} → Perm ps qs → owners k ps ≡ owners k qs
owners_perm k p = ∥∥₁_elim p (ℕ_set _ _) (owners-permᴰ k)

pub Alive : Children → ℕ → Type 0
Alive cs k = (c : Child) × (find_child cs k ≡ some c)

-- No two of the processes share a pid, each that has one, 0 is none, has a started process, and no
-- name is an option of the child.
pub record Good (os : Os) (ps : List Process) : Type 0 where
  pub once : (k : ℕ) → 0 < k → owners (has_pid k) ps ≤ 1
  pub born : (k : ℕ) → 0 < k → 0 < owners (has_pid k) ps → k < os.next_pid
  pub child : (k : ℕ) → 0 < k → 0 < owners (has_pid k) ps → Alive os.children k
  pub started : 0 < os.next_pid
  pub plain : owners is_dashed ps ≡ 0

pub Good-fewer :
    (os : Os) (ps qs : List Process)
    → Good os ps
    → ((m : Mark) → owners m qs ≤ owners m ps)
    → Good os qs
Good-fewer os ps qs g fewer = record {
  once = λ k pos. omega (arith, g.once k pos, fewer (has_pid k));
  born = λ k pos has. g.born k pos (omega (arith, fewer (has_pid k)));
  child = λ k pos has. g.child k pos (omega (arith, fewer (has_pid k)));
  started = g.started;
  plain = omega (arith, g.plain, fewer is_dashed);
}

pub Good-set_child :
    (os : Os) (ps : List Process) (j : ℕ) (c : Child)
    → Good os ps
    → Good (record os { children = set_child os.children j c }) ps
unfolding Alive
Good-set_child os ps j c g = record {
  once = g.once;
  born = g.born;
  child = λ k pos has. elim (Bool-cases (j == k)) [
    | inl e ↦ (
      c,
      subst (λ i. find_child (set_child os.children j c) i ≡ some c) (==_sound j k e)
          (find_child-set_child os.children j c),
    )
    | inr e ↦
        let (d, found) = g.child k pos has in
        (d, find_child-other os.children j k c (λ s. absurd (ground (arith, e, s))) ∙ found)
  ];
  started = g.started;
  plain = g.plain;
}

find_child-remove_child :
    (cs : Children) (j k : ℕ) → j ≢ k → find_child (remove_child cs j) k ≡ find_child cs k
unfolding find_child remove_child
find_child-remove_child [] j k ne = refl
find_child-remove_child ((i, c) ∷ cs) j k ne = ground (arith, find_child-remove_child cs j k ne)

pub Good-remove_child :
    (os : Os) (p : Process) (ps : List Process)
    → 0 < p.pid
    → Good os (p ∷ ps)
    → Good (record os { children = remove_child os.children p.pid }) ps
unfolding Alive owners
Good-remove_child os p ps pos g = record {
  once = λ k pos'. omega (arith, g.once k pos');
  born = λ k pos' has. g.born k pos' (omega arith);
  child = λ k pos' has.
      let (c, found) = g.child k pos' (omega arith) in
      (
        c,
        find_child-remove_child os.children p.pid k
              (λ s. absurd (ground (arith, g.once k pos', has, s)))
            ∙ found,
      );
  started = g.started;
  plain = omega (arith, g.plain);
}

pub Good-Started :
    (os os' : Os) (p q : Process) (time : ℕ) (ps : List Process)
    → p.pid ≡ 0
    → Good os (p ∷ ps)
    → Started p time os q os'
    → Good os' (q ∷ ps)
unfolding Alive owners get_name
Good-Started os os' p q time ps new g s = record {
  once = λ k pos. ground (arith, g.once k pos, g.born k pos, s.pid);
  born = λ k pos has. ground (arith, g.born k pos, s.pid, s.fresh);
  child = λ k pos has. elim (Bool-cases (os.next_pid == k)) [
    | inl e ↦ subst (Alive os'.children) (s.pid ∙ ==_sound os.next_pid k e) (_, s.child)
    | inr e ↦
        let (d, found) = g.child k pos (ground (arith, has, e, s.pid)) in
        (d, s.others k (λ s. absurd (ground (arith, e, s))) ∙ found)
  ];
  started = omega (arith, s.fresh);
  plain = ap (λ n. weight is_dashed 0 n + owners is_dashed ps) s.name ∙ g.plain;
}

-- The process of a pid has a child.
pub Good-head :
    (os : Os) (p : Process) (ps : List Process)
    → Good os (p ∷ ps)
    → 0 < p.pid
    → (c : Child) × (find_child os.children p.pid ≡ some c)
unfolding Alive owners
Good-head os p ps g pos = g.child p.pid pos (ground arith)

-- The name of a process is no option.
pub Good-plain :
    (os : Os) (p : Process) (ps : List Process) → Good os (p ∷ ps) → is_option p.name ≡ false
unfolding owners
Good-plain os p ps g = ground (arith, g.plain)
