-- ===== src/Scheduler/Greatest.antt =====
-- max of src/main.c is the greatest of the values.
use mathlib.Core.Path.{subst}
use native.Mathlib.Nat.{mul-le-mul_right, le_of_mul-le-mul_right, mul_right_comm}
use process_management_syste.Base.{
  ◌*◌, ◌≤◌, ◌<◌, ◌≡◌, refl, true, false, List, [], ◌∷◌, arith, ◌⊎◌, inl, inr, Bool-cases, Returns,
  returns,
}
use process_management_syste.ProcessData.{Process, Value, Ratio, get_value}
use process_management_syste.Scheduler.Statistics.{gt_ratio, max_loop, max}

-- x ≤ y
pub AtMost : Ratio → Ratio → Type 0
AtMost x y = x.num * y.den ≤ y.num * x.den

AtMost-refl : (x : Ratio) → AtMost x x
unfolding AtMost
AtMost-refl x = omega arith

AtMost-trans : (x y z : Ratio) → 0 < y.den → AtMost x y → AtMost y z → AtMost x z
unfolding AtMost
AtMost-trans x y z pos h k =
    le_of_mul-le-mul_right {m = x.num * z.den} {n = z.num * x.den} {k = y.den}
      (omega (
        arith,
        mul-le-mul_right z.den h,
        mul-le-mul_right x.den k,
        mul_right_comm x.num y.den z.den,
        mul_right_comm y.num x.den z.den,
        mul_right_comm z.num y.den x.den,
      ))
      pos

gt_ratio-AtMost : (x y : Ratio) → gt_ratio x y ≡ false → AtMost x y
unfolding gt_ratio AtMost
gt_ratio-AtMost x y e = ground (arith, e)

AtMost-gt_ratio : (x y : Ratio) → gt_ratio x y ≡ true → AtMost y x
unfolding gt_ratio AtMost
AtMost-gt_ratio x y e = ground (arith, e)

-- Every value is at most `m`.
pub Bounds : Value → Ratio → List Process → Type 0
Bounds field m [] = Unit {0}
Bounds field m (p ∷ ps) = AtMost (get_value p field) m × Bounds field m ps

-- Some value is `m`.
pub Attains : Value → Ratio → List Process → Type 0
Attains field m [] = Unit {0} → ⊥
Attains field m (p ∷ ps) = (get_value p field ≡ m) ⊎ Attains field m ps

-- No value is a quotient by zero.
unfoldable pub Finite : Value → List Process → Type 0
Finite field [] = Unit {0}
Finite field (p ∷ ps) = (0 < (get_value p field).den) × Finite field ps

record Largest (field : Value) (best m : Ratio) (ps : List Process) : Type 0 where
  over_best : AtMost best m
  bounds : Bounds field m ps
  attained : (best ≡ m) ⊎ Attains field m ps

max_loop-Largest :
    (field : Value) (best : Ratio) (ps : List Process)
    → 0 < best.den
    → Finite field ps
    → Largest field best (max_loop field best ps) ps
unfolding max_loop Bounds Attains Finite
max_loop-Largest field best [] pos fin = record {
  over_best = AtMost-refl best;
  bounds = tt;
  attained = inl refl;
}
max_loop-Largest field best (p ∷ ps) pos fin =
    let x = get_value p field in
    elim (Bool-cases (gt_ratio x best)) [
      | inl e ↦
          let l = max_loop-Largest field x ps fin.0 fin.1 in
          rw e (record {
            over_best = AtMost-trans best x _ fin.0 (AtMost-gt_ratio x best e) l.over_best;
            bounds = (l.over_best, l.bounds);
            attained = inr l.attained;
          })
      | inr e ↦
          let l = max_loop-Largest field best ps pos fin.1 in
          rw e (record {
            over_best = l.over_best;
            bounds = (AtMost-trans x best _ pos (gt_ratio-AtMost x best e) l.over_best, l.bounds);
            attained = elim l.attained [ inl s ↦ inl s | inr s ↦ inr (inr s) ];
          })
    ]

-- max of a list that is not empty, where no value is a quotient by zero, returns a value of one of
-- its processes that is at least the value of each.
pub max-Greatest :
    (p : Process) (ps : List Process) (field : Value)
    → Finite field (p ∷ ps)
    → Returns (λ m. Bounds field m (p ∷ ps) × Attains field m (p ∷ ps)) (max (p ∷ ps) field)
unfolding max Attains Finite
max-Greatest p ps field fin =
    let l = max_loop-Largest field (get_value p field) (p ∷ ps) fin.0 fin in
    returns (l.bounds, elim l.attained [ inl e ↦ inl e | inr e ↦ e ])

-- No value is a quotient by zero, so the one that is attained is none.
pub Attains-Finite :
    (field : Value) (m : Ratio) (ps : List Process)
    → Finite field ps
    → Attains field m ps
    → 0 < m.den
unfolding Attains Finite
Attains-Finite field m [] fin a = absurd (a tt)
Attains-Finite field m (p ∷ ps) fin a = elim a [
  | inl e ↦ subst (λ x. 0 < x.den) e fin.0
  | inr b ↦ Attains-Finite field m ps fin.1 b
]
