-- ===== src/Scheduler/Ending/Work.antt =====
-- How many rounds of cycle of src/main.c the processes still need at most.
use mathlib.Core.List.{map}
use native.Mathlib.Nat.{div-eq-sub-div, div-mul-le_self, le-div_iff_mul-le, div-zero}
use process_management_syste.Base.{
  ℕ, zero, suc, ◌+◌, ◌-◌, ◌/◌, ◌≤◌, ◌<◌, ◌≡◌, refl, List, [], ◌∷◌, ◌++◌, Perm, arith,
}
use process_management_syste.Base.Lists.{sum_by, sum_by-append, sum_by_perm}
use process_management_syste.ProcessData.{Process, set_state, set_block_node}
use process_management_syste.MemoryAllocation.Conserve.{ident}

-- The rounds in which the process is the current one, the one that finishes it included.
unfoldable pub rounds_left : ℕ → Process → ℕ
rounds_left quantum p = p.service_time_left / quantum + 1

unfoldable pub work : ℕ → List Process → ℕ
work quantum ps = sum_by (rounds_left quantum) ps

pub work-cons :
    (k : ℕ) (p : Process) (ps : List Process) → work k (p ∷ ps) ≡ rounds_left k p + work k ps
unfolding work
work-cons k p ps = refl

pub work-append : (k : ℕ) (ps qs : List Process) → work k (ps ++ qs) ≡ work k ps + work k qs
unfolding work
work-append k ps qs = sum_by-append (rounds_left k) ps qs

pub work_perm : (k : ℕ) {ps qs : List Process} → Perm ps qs → work k ps ≡ work k qs
unfolding work
work_perm k perm = sum_by_perm (rounds_left k) perm

pub work-ident : (k : ℕ) (ps : List Process) → work k (map ident ps) ≡ work k ps
unfolding work rounds_left ident set_state set_block_node
work-ident k [] = refl
work-ident k (p ∷ ps) = omega (arith, work-ident k ps)

pub rounds_left-pos : (k : ℕ) (p : Process) → 0 < rounds_left k p
unfolding rounds_left
rounds_left-pos k p = omega arith

pub div_mono : (a b k : ℕ) → a ≤ b → a / k ≤ b / k
div_mono a b zero h = omega (arith, div-zero a, div-zero b)
div_mono a b (suc k) h =
    (le-div_iff_mul-le (omega arith)).1 (omega (arith, div-mul-le_self a (suc k)))

pub rounds_left_mono :
    (k : ℕ) (p q : Process)
    → q.service_time_left ≤ p.service_time_left
    → rounds_left k q ≤ rounds_left k p
unfolding rounds_left
rounds_left_mono k p q h = omega (arith, div_mono q.service_time_left p.service_time_left k h)

-- A round of the length `quantum` takes one off.
pub rounds_left-less :
    (quantum : ℕ) (p q : Process)
    → 0 < quantum
    → quantum ≤ p.service_time_left
    → q.service_time_left ≡ p.service_time_left - quantum
    → rounds_left quantum q < rounds_left quantum p
unfolding rounds_left
rounds_left-less quantum p q pos long e =
    let less = div-eq-sub-div pos long in rw e (omega (arith, less))
