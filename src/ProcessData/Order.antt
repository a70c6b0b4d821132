-- ===== src/ProcessData/Order.antt =====
-- The order of processes that compare_process of src/process_data.c decides.
use process_management_syste.Base.{
  ℕ, ◌≤◌, ◌≡◌, refl, true, false, List, [], ◌∷◌, Bool, arith, is_gt,
}
use process_management_syste.Base.Text.{strcmp}
use process_management_syste.ProcessData.{Process, compare_process}

-- The test `compare_process(p, q) > 0`.
abbrev pub after : Process → Process → Bool
after p q = is_gt (compare_process p q)

strcmp_trans :
    (s t u : List ℕ)
    → is_gt (strcmp s t) ≡ false
    → is_gt (strcmp t u) ≡ false
    → is_gt (strcmp s u) ≡ false
unfolding strcmp
strcmp_trans [] t [] h k = refl
strcmp_trans [] t (c ∷ u) h k = refl
strcmp_trans (a ∷ s) [] u h k = cc
strcmp_trans (a ∷ s) (b ∷ t) [] h k = cc
strcmp_trans (a ∷ s) (b ∷ t) (c ∷ u) h k = ground (arith, strcmp_trans s t u)

strcmp-asymm : (s t : List ℕ) → is_gt (strcmp s t) ≡ true → is_gt (strcmp t s) ≡ false
unfolding strcmp
strcmp-asymm [] [] h = refl
strcmp-asymm [] (c ∷ t) h = cc
strcmp-asymm (b ∷ s) [] h = refl
strcmp-asymm (b ∷ s) (c ∷ t) h = ground (arith, strcmp-asymm s t)

pub after_trans : (p q r : Process) → after p q ≡ false → after q r ≡ false → after p r ≡ false
unfolding compare_process
after_trans p q r h k = ground (arith, strcmp_trans p.name q.name r.name)

pub after-asymm : (p q : Process) → after p q ≡ true → after q p ≡ false
unfolding compare_process
after-asymm p q h = ground (arith, strcmp-asymm p.name q.name)

-- Of two processes in order the first has the shorter service time.
pub service_time-le : (p q : Process) → after p q ≡ false → p.service_time ≤ q.service_time
unfolding compare_process
service_time-le p q h = ground arith
