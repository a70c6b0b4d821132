-- ===== src/Scheduler/Order/Turns.antt =====
-- The order in which processes get their turn, by what identifies them: arrival time, service time,
-- memory and name.
use mathlib.Core.List.{map, append_assoc, Mem, mem-cons_self, mem-cons_of_mem}
use process_management_syste.Base.{
  ℕ, ◌+◌, ◌≤◌, ◌≡◌, refl, sym, ap, ◌∙◌, Bool, false, List, [], ◌∷◌, ◌++◌, Perm, arith,
  if◌then◌else◌, compare, is_gt,
}
use process_management_syste.Base.Lists.{sum_by, sum_by-append, sum_by_perm}
use process_management_syste.Base.Text.{strcmp, or_next}
use process_management_syste.ProcessData.{Process, compare_process}
use process_management_syste.ProcessData.Order.{after, service_time-le}
use process_management_syste.Scheduler.Steps.{ticket}

abbrev pub Ticket : Type 0
Ticket = ℕ × ℕ × ℕ × List ℕ

-- compare_process on what it looks at.
unfoldable pub later : Ticket → Ticket → Bool
later t u = is_gt (or_next (compare t.1 u.1) (or_next (compare t.0 u.0) (strcmp t.3 u.3)))

pub later-after : (p q : Process) → later (ticket p) (ticket q) ≡ after p q
unfolding later ticket compare_process
later-after p q = refl

-- How many of the processes `t` comes after.
unfoldable pub overtaken : Ticket → List Ticket → ℕ
overtaken t us = sum_by (λ u. if later t u then 1 else 0) us

-- The tickets in front are in order, and none of them comes after one of the others.
unfoldable pub InFront : List Ticket → List Ticket → Type 0
InFront [] others = Unit {0}
InFront (t ∷ ts) others = (overtaken t (ts ++ others) ≡ 0) × InFront ts others

-- compare_process does not put `p` behind one of these, and none has a shorter service time.
unfoldable pub NoneBefore : Process → List Process → Type 0
NoneBefore p [] = Unit {0}
NoneBefore p (q ∷ qs) = (after p q ≡ false) × (p.service_time ≤ q.service_time) × NoneBefore p qs

unfoldable pub InTurn : List Process → Type 0
InTurn [] = Unit {0}
InTurn (p ∷ ps) = NoneBefore p ps × InTurn ps

overtaken-append :
    (t : Ticket) (us vs : List Ticket) → overtaken t (us ++ vs) ≡ overtaken t us + overtaken t vs
unfolding overtaken
overtaken-append t us vs = sum_by-append (λ u. if later t u then 1 else 0) us vs

overtaken_perm : (t : Ticket) (us vs : List Ticket) → Perm us vs → overtaken t us ≡ overtaken t vs
unfolding overtaken
overtaken_perm t us vs perm = sum_by_perm (λ u. if later t u then 1 else 0) perm

pub overtaken-none :
    (p : Process) (ps : List Process)
    → ((q : Process) → Mem q ps → after p q ≡ false)
    → overtaken (ticket p) (map ticket ps) ≡ 0
unfolding overtaken
overtaken-none p [] h = refl
overtaken-none p (q ∷ ps) h =
    let rest = overtaken-none p ps λ r m. h r (mem-cons_of_mem q m) in
    ground (arith, rest, h q mem-cons_self, later-after p q)

pub InFront-take :
    (ts : List Ticket) (t : Ticket) (others others' : List Ticket)
    → InFront ts others
    → Perm others (t ∷ others')
    → overtaken t others' ≡ 0
    → InFront (ts ++ t ∷ []) others'
unfolding InFront
InFront-take [] t others others' v perm first = (first, tt)
InFront-take (s ∷ ts) t others others' v perm first = (
  omega (
    arith,
    v.0,
    overtaken-append s ts others,
    overtaken_perm s others (t ∷ others') perm,
    ap (overtaken s) (append_assoc ts (t ∷ []) others'),
    overtaken-append s ts (t ∷ others'),
  ),
  InFront-take ts t others others' v.1 perm first,
)

pub InFront-drop :
    (ts us others : List Ticket) → InFront (ts ++ us) others → InFront ts (us ++ others)
unfolding InFront
InFront-drop [] us others v = tt
InFront-drop (t ∷ ts) us others v =
    (ap (overtaken t) (sym (append_assoc ts us others)) ∙ v.0, InFront-drop ts us others v.1)

overtaken-NoneBefore :
    (p : Process) (ps : List Process) (others : List Ticket)
    → overtaken (ticket p) (map ticket ps ++ others) ≡ 0
    → NoneBefore p ps
unfolding NoneBefore overtaken
overtaken-NoneBefore p [] others h = tt
overtaken-NoneBefore p (q ∷ ps) others h =
    let e : after p q ≡ false = ground (arith, h, later-after p q) in
    (e, service_time-le p q e, overtaken-NoneBefore p ps others (ground (arith, h)))

pub InFront-InTurn :
    (ps : List Process) (others : List Ticket) → InFront (map ticket ps) others → InTurn ps
unfolding InFront InTurn
InFront-InTurn [] others v = tt
InFront-InTurn (p ∷ ps) others v =
    (overtaken-NoneBefore p ps others v.0, InFront-InTurn ps others v.1)
