-- ===== src/Base/Text.antt =====
-- The strings of C, as the bytes before the terminator, and strcmp of the C library.
use Prim.Native.Nat.{ℕ, Ordering, compare}
use Prim.Native.Char.{code}
use Prim.Native.String.{String}
use mathlib.Core.Path.{◌≡◌, refl, ap, ◌∙◌}
use mathlib.Core.Bool.{Bool, true, false}
use mathlib.Core.List.{List, [], ◌∷◌}
use native.Mathlib.Omega.{arith}

abbrev pub codes : String → List ℕ
codes String.[] = []
codes (String.◌∷◌ c s) = code c ∷ codes s

-- `if (a < b) return -1; else if (a > b) return 1; else` the rest
abbrev pub or_next : Ordering → Ordering → Ordering
or_next Ordering.lt rest = Ordering.lt
or_next Ordering.gt rest = Ordering.gt
or_next Ordering.eq rest = rest

-- The sign of the result; bytes are compared as unsigned characters.
unfoldable pub strcmp : List ℕ → List ℕ → Ordering
strcmp [] [] = Ordering.eq
strcmp [] (c ∷ t) = Ordering.lt
strcmp (b ∷ s) [] = Ordering.gt
strcmp (b ∷ s) (c ∷ t) = or_next (compare b c) (strcmp s t)

abbrev is_eq : Ordering → Bool
is_eq Ordering.eq = true
is_eq _ = false

-- `strcmp(s, t) == 0`
unfoldable pub streq : List ℕ → List ℕ → Bool
unfolding strcmp
streq s t = is_eq (strcmp s t)

compare_eq : (a b : ℕ) → compare a b ≡ Ordering.eq → a ≡ b
compare_eq a b = ground arith

or_next-is_eq :
    (c rest : Ordering) → is_eq (or_next c rest) ≡ true → (c ≡ Ordering.eq) × (is_eq rest ≡ true)
or_next-is_eq Ordering.lt rest e = absurd (ground (arith, e))
or_next-is_eq Ordering.gt rest e = absurd (ground (arith, e))
or_next-is_eq Ordering.eq rest e = (refl, e)

-- Strings that strcmp does not tell apart are equal.
pub streq-eq : (s t : List ℕ) → streq s t ≡ true → s ≡ t
unfolding streq strcmp
streq-eq [] [] e = refl
streq-eq [] (c ∷ t) e = absurd (ground (arith, e))
streq-eq (b ∷ s) [] e = absurd (ground (arith, e))
streq-eq (b ∷ s) (c ∷ t) e =
    let (first, rest) = or_next-is_eq (compare b c) (strcmp s t) e in
    ap (λ x. x ∷ s) (compare_eq b c first) ∙ ap (◌∷◌ c) (streq-eq s t rest)
