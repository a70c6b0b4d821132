-- ===== src/Base/Lists.antt =====
-- Lists as arrays, measured and indexed by native numbers.
use Prim.Native.Nat.{ℕ, zero, suc, ◌+◌, ◌<◌}
use mathlib.Core.Path.{◌≡◌, refl, ap, ◌∙◌}
use mathlib.Core.Logic.{∥∥₁_elim}
use mathlib.Core.Option.{Option, none, some}
use mathlib.Core.List.{List, [], ◌∷◌, ◌++◌, Perm, Permᴰ, perm_middle, append-nil}
use mathlib.Core.List.Perm
use native.Mathlib.Nat.{ℕ_set}
use native.Mathlib.Omega.{arith}
use process_management_syste.Base.Tests.{◌==◌, if◌then◌else◌}

module _ {ℓ} {A : Type ℓ} where
  abbrev pub length : List A → ℕ
  length [] = 0
  length (x ∷ xs) = suc (length xs)

  abbrev pub get_elem? : List A → ℕ → Option A
  get_elem? [] i = none
  get_elem? (x ∷ xs) zero = some x
  get_elem? (x ∷ xs) (suc i) = get_elem? xs i

  -- A write out of bounds changes nothing.
  abbrev pub set : List A → ℕ → A → List A
  set [] i v = []
  set (x ∷ xs) zero v = v ∷ xs
  set (x ∷ xs) (suc i) v = x ∷ set xs i v

  abbrev pub take : ℕ → List A → List A
  take zero xs = []
  take (suc n) [] = []
  take (suc n) (x ∷ xs) = x ∷ take n xs

  abbrev pub drop : ℕ → List A → List A
  drop zero xs = xs
  drop (suc n) [] = []
  drop (suc n) (x ∷ xs) = drop n xs

  abbrev pub replicate : ℕ → A → List A
  replicate zero a = []
  replicate (suc n) a = a ∷ replicate n a

  unfoldable pub get_or : List A → ℕ → A → A
  get_or [] i d = d
  get_or (x ∷ xs) zero d = x
  get_or (x ∷ xs) (suc i) d = get_or xs i d

  pub length-append : (xs ys : List A) → length (xs ++ ys) ≡ length xs + length ys
  length-append [] ys = omega arith
  length-append (x ∷ xs) ys = omega (arith, length-append xs ys)

  pub length-set : (xs : List A) (i : ℕ) (v : A) → length (set xs i v) ≡ length xs
  length-set [] i v = refl
  length-set (x ∷ xs) zero v = refl
  length-set (x ∷ xs) (suc i) v = ap suc (length-set xs i v)

  Permᴰ-length : {before after : List A} → Permᴰ before after → length before ≡ length after
  Permᴰ-length (Permᴰ.trans first second) = Permᴰ-length first ∙ Permᴰ-length second
  Permᴰ-length (Permᴰ.swap one other) = refl
  Permᴰ-length (Permᴰ.cons same rest) = ap suc (Permᴰ-length rest)
  Permᴰ-length Permᴰ.nil = refl

  pub length-perm : {xs ys : List A} → Perm xs ys → length xs ≡ length ys
  length-perm p = ∥∥₁_elim p (ℕ_set _ _) Permᴰ-length

  pub snoc-perm : (xs : List A) (v : A) → Perm (xs ++ v ∷ []) (v ∷ xs)
  snoc-perm xs v = rw (append-nil xs) at (perm_middle {a = v} xs [])

-- The sum of a weight over a list.
module _ {ℓ} {A : Type ℓ} (weight : A → ℕ) where
  abbrev pub sum_by : List A → ℕ
  sum_by [] = 0
  sum_by (x ∷ xs) = weight x + sum_by xs

  pub sum_by-append : (xs ys : List A) → sum_by (xs ++ ys) ≡ sum_by xs + sum_by ys
  sum_by-append [] ys = omega arith
  sum_by-append (x ∷ xs) ys = omega (arith, sum_by-append xs ys)

  sum_by-permᴰ : {xs ys : List A} → Permᴰ xs ys → sum_by xs ≡ sum_by ys
  sum_by-permᴰ (Permᴰ.trans p q) = sum_by-permᴰ p ∙ sum_by-permᴰ q
  sum_by-permᴰ (Permᴰ.swap x y) = omega (arith, ap weight x, ap weight y)
  sum_by-permᴰ (Permᴰ.cons e p) = omega (arith, ap weight e, sum_by-permᴰ p)
  sum_by-permᴰ Permᴰ.nil = refl

  pub sum_by_perm : {xs ys : List A} → Perm xs ys → sum_by xs ≡ sum_by ys
  sum_by_perm p = ∥∥₁_elim p (ℕ_set _ _) sum_by-permᴰ

-- Reads with a default, which stands for what lies outside the array.
module _ {ℓ} {A : Type ℓ} (d : A) where
  pub get_elem?-get_or :
      (xs : List A) (i : ℕ) → i < length xs → get_elem? xs i ≡ some (get_or xs i d)
  unfolding get_or
  get_elem?-get_or [] i h = absurd (omega arith)
  get_elem?-get_or (x ∷ xs) zero h = refl
  get_elem?-get_or (x ∷ xs) (suc i) h = get_elem?-get_or xs i (omega arith)

  pub get_or-set :
      (xs : List A) (i j : ℕ) (v : A)
      → i < length xs
      → get_or (set xs i v) j d ≡ (if i == j then v else get_or xs j d)
  unfolding get_or
  get_or-set [] i j v h = absurd (omega arith)
  get_or-set (x ∷ xs) zero zero v h = refl
  get_or-set (x ∷ xs) (suc i) (suc j) v h = ground (arith, get_or-set xs i j v)
  get_or-set (x ∷ xs) i j v h = ground arith

  pub get_or-append :
      (xs ys : List A) (i : ℕ) → i < length xs → get_or (xs ++ ys) i d ≡ get_or xs i d
  unfolding get_or
  get_or-append [] ys i h = absurd (omega arith)
  get_or-append (x ∷ xs) ys zero h = refl
  get_or-append (x ∷ xs) ys (suc i) h = get_or-append xs ys i (omega arith)

  pub get_or-take : (n : ℕ) (xs : List A) (i : ℕ) → i < n → get_or (take n xs) i d ≡ get_or xs i d
  unfolding get_or
  get_or-take zero xs i h = absurd (omega arith)
  get_or-take (suc n) [] i h = refl
  get_or-take (suc n) (x ∷ xs) zero h = refl
  get_or-take (suc n) (x ∷ xs) (suc i) h = get_or-take n xs i (omega arith)

  pub take-snoc : (n : ℕ) (xs : List A) → length xs ≡ suc n → take n xs ++ get_or xs n d ∷ [] ≡ xs
  unfolding get_or
  take-snoc zero (x ∷ []) h = refl
  take-snoc (suc n) (x ∷ xs) h = ap (◌∷◌ x) (take-snoc n xs (omega arith))
  take-snoc n xs h = absurd (omega arith)

  -- A write trades the old entry for the new one.
  pub set-perm :
      (xs : List A) (i : ℕ) (v : A) → i < length xs → Perm (get_or xs i d ∷ set xs i v) (v ∷ xs)
  unfolding get_or
  set-perm [] i v h = absurd (omega arith)
  set-perm (x ∷ xs) zero v h = Perm.swap v x xs
  set-perm (x ∷ xs) (suc i) v h =
      let rest = Perm.cons x (set-perm xs i v (omega arith)) in
      Perm.trans (Perm.swap x _ _) (Perm.trans rest (Perm.swap v x xs))
