-- ===== src/Base/Slices.antt =====
-- Parts of a list, and a list made of parts.
use Prim.Native.Nat.{ℕ, zero, suc, ◌+◌, ◌≤◌}
use mathlib.Core.Path.{◌≡◌, refl, ap}
use mathlib.Core.List.{List, [], ◌∷◌, ◌++◌}
use native.Mathlib.Omega.{arith}
use process_management_syste.Base.Lists.{length, set, take, drop, replicate}

module _ {ℓ} {A : Type ℓ} where
  pub take_all : (xs : List A) (n : ℕ) → length xs ≡ n → take n xs ≡ xs
  take_all [] zero e = refl
  take_all [] (suc n) e = refl
  take_all (x ∷ xs) zero e = absurd (omega arith)
  take_all (x ∷ xs) (suc n) e = ap (λ l. x ∷ l) (take_all xs n (omega arith))

  pub take-append : (xs ys : List A) (n : ℕ) → n ≤ length xs → take n (xs ++ ys) ≡ take n xs
  take-append xs ys zero h = refl
  take-append [] ys (suc n) h = absurd (omega arith)
  take-append (x ∷ xs) ys (suc n) h = ap (λ l. x ∷ l) (take-append xs ys n (omega arith))

  pub drop-append : (xs ys : List A) (n : ℕ) → n ≤ length xs → drop n (xs ++ ys) ≡ drop n xs ++ ys
  drop-append xs ys zero h = refl
  drop-append [] ys (suc n) h = absurd (omega arith)
  drop-append (x ∷ xs) ys (suc n) h = drop-append xs ys n (omega arith)

  pub take-drop : (n : ℕ) (xs : List A) → take n xs ++ drop n xs ≡ xs
  take-drop zero xs = refl
  take-drop (suc n) [] = refl
  take-drop (suc n) (x ∷ xs) = ap (λ l. x ∷ l) (take-drop n xs)

  pub take-add : (n a b : ℕ) (xs : List A) → n ≡ a + b → take n xs ≡ take a xs ++ take b (drop a xs)
  take-add n zero b xs e = ap (λ k. take k xs) (omega arith)
  take-add zero (suc a) b xs e = absurd (omega arith)
  take-add (suc n) (suc a) zero [] e = refl
  take-add (suc n) (suc a) (suc b) [] e = refl
  take-add (suc n) (suc a) b (x ∷ xs) e = ap (λ l. x ∷ l) (take-add n a b xs (omega arith))

  pub drop-drop : (n a b : ℕ) (xs : List A) → n ≡ a + b → drop b (drop a xs) ≡ drop n xs
  drop-drop n zero b xs e = ap (λ k. drop k xs) (omega arith)
  drop-drop zero (suc a) b xs e = absurd (omega arith)
  drop-drop (suc n) (suc a) zero [] e = refl
  drop-drop (suc n) (suc a) (suc b) [] e = refl
  drop-drop (suc n) (suc a) b (x ∷ xs) e = drop-drop n a b xs (omega arith)

  pub length-take : (n : ℕ) (xs : List A) → n ≤ length xs → length (take n xs) ≡ n
  length-take zero xs h = refl
  length-take (suc n) [] h = absurd (omega arith)
  length-take (suc n) (x ∷ xs) h = ap suc (length-take n xs (omega arith))

  pub length-drop : (n : ℕ) (xs : List A) → n ≤ length xs → length (drop n xs) + n ≡ length xs
  length-drop zero xs h = omega arith
  length-drop (suc n) [] h = absurd (omega arith)
  length-drop (suc n) (x ∷ xs) h = omega (arith, length-drop n xs)

  pub length-replicate : (n : ℕ) (a : A) → length (replicate n a) ≡ n
  length-replicate zero a = refl
  length-replicate (suc n) a = ap suc (length-replicate n a)

  pub replicate-add :
      (n a b : ℕ) (v : A) → n ≡ a + b → replicate n v ≡ replicate a v ++ replicate b v
  replicate-add n zero b v e = ap (λ k. replicate k v) (omega arith)
  replicate-add zero (suc a) b v e = absurd (omega arith)
  replicate-add (suc n) (suc a) b v e = ap (λ l. v ∷ l) (replicate-add n a b v (omega arith))

  -- A write at the first place after `xs`.
  pub set-append :
      (xs ys : List A) (n : ℕ) (y v : A) → length xs ≡ n → set (xs ++ y ∷ ys) n v ≡ xs ++ v ∷ ys
  set-append [] ys zero y v e = refl
  set-append [] ys (suc n) y v e = absurd (omega arith)
  set-append (x ∷ xs) ys zero y v e = absurd (omega arith)
  set-append (x ∷ xs) ys (suc n) y v e = ap (λ l. x ∷ l) (set-append xs ys n y v (omega arith))
