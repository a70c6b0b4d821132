-- ===== src/Base/Scan.antt =====
-- What fscanf and atoi of the C library do with the characters of a text: white space, words and
-- decimal numbers.
use Prim.Native.Nat.{ℕ, zero, suc, ◌+◌, ◌-◌, ◌*◌, ◌/◌, ◌%◌, ◌<◌}
use mathlib.Core.Path.{◌≡◌, refl, ◌∙◌}
use mathlib.Core.Bool.{Bool, true, false, ◌&&◌, ◌||◌}
use mathlib.Core.List.{List, [], ◌∷◌, ◌++◌}
use mathlib.Core.Logic.{inl, inr}
use native.Mathlib.Omega.{arith}
use process_management_syste.Base.Tests.{ltb, leb, ◌==◌, if◌then◌else◌, Bool-cases}

-- isspace
abbrev pub is_space : ℕ → Bool
is_space c = (c == 32) || (leb 9 c && leb c 13)

-- isdigit
abbrev pub is_digit : ℕ → Bool
is_digit c = leb b'0' c && leb c b'9'

unfoldable pub skip_space : List ℕ → List ℕ
skip_space [] = []
skip_space (c ∷ s) = let rest = skip_space s in if is_space c then rest else c ∷ s

-- The digits at the start of a text, behind the number `acc`, and what follows them.
unfoldable pub read_digits : ℕ → List ℕ → ℕ × List ℕ
read_digits acc [] = (acc, [])
read_digits acc (c ∷ s) =
    let more = read_digits (acc * 10 + (c - b'0')) s in if is_digit c then more else (acc, c ∷ s)

-- The characters up to the next white space, and what follows them.
unfoldable pub read_word : List ℕ → List ℕ × List ℕ
read_word [] = ([], [])
read_word (c ∷ s) = let (w, rest) = read_word s in if is_space c then ([], c ∷ s) else (c ∷ w, rest)

-- No white space and no terminator.
abbrev pub IsWord : List ℕ → Type 0
IsWord [] = Unit {0}
IsWord (c ∷ w) = (is_space c ≡ false) × (0 < c) × IsWord w

-- A text that does not go on with a digit.
abbrev pub StopsDigits : List ℕ → Type 0
StopsDigits [] = Unit {0}
StopsDigits (c ∷ s) = is_digit c ≡ false

abbrev pub StopsWord : List ℕ → Type 0
StopsWord [] = Unit {0}
StopsWord (c ∷ s) = is_space c ≡ true

pub skip_space-stop : (c : ℕ) (s : List ℕ) → is_space c ≡ false → skip_space (c ∷ s) ≡ c ∷ s
unfolding skip_space
skip_space-stop c s e = rw e refl

pub skip_space-blank : (c : ℕ) (s : List ℕ) → is_space c ≡ true → skip_space (c ∷ s) ≡ skip_space s
unfolding skip_space
skip_space-blank c s e = rw e refl

pub read_digits-stop : (acc : ℕ) (s : List ℕ) → StopsDigits s → read_digits acc s ≡ (acc, s)
unfolding read_digits
read_digits-stop acc [] h = refl
read_digits-stop acc (c ∷ s) h = rw h refl

pub read_word-append : (w s : List ℕ) → IsWord w → StopsWord s → read_word (w ++ s) ≡ (w, s)
unfolding read_word
read_word-append [] [] h k = refl
read_word-append [] (c ∷ s) h k = rw k refl
read_word-append (c ∷ w) s h k = rw (h.0, read_word-append w s h.2 k) refl

-- The decimal digits of a number, before `out`; `k` bounds their number.
unfoldable pub digits_of : ℕ → ℕ → List ℕ → List ℕ
digits_of zero n out = out
digits_of (suc k) n out =
    let more = digits_of k (n / 10) ((b'0' + n % 10) ∷ out) in
    if ltb n 10 then (b'0' + n % 10) ∷ out else more

unfoldable pub decimal : ℕ → List ℕ
decimal n = digits_of (suc n) n []

pub record Starts (l : List ℕ) : Type 0 where
  pub head : ℕ
  pub tail : List ℕ
  pub whole : l ≡ head ∷ tail
  pub digit : is_digit head ≡ true

last_digit : (n : ℕ) → is_digit (b'0' + n % 10) ≡ true
last_digit n = ground arith

digits_of-Starts : (k n : ℕ) (out : List ℕ) → Starts out → Starts (digits_of k n out)
unfolding digits_of
digits_of-Starts zero n out h = h
digits_of-Starts (suc k) n out h =
    let more : Starts ((b'0' + n % 10) ∷ out) = record {
      head = b'0' + n % 10;
      tail = out;
      whole = refl;
      digit = last_digit n;
    } in
    elim (Bool-cases (ltb n 10)) [
      | inl e ↦ rw e more
      | inr e ↦ rw e (digits_of-Starts k (n / 10) ((b'0' + n % 10) ∷ out) more)
    ]

pub decimal-Starts : (n : ℕ) → Starts (decimal n)
unfolding decimal digits_of
decimal-Starts n =
    let more : Starts ((b'0' + n % 10) ∷ []) = record {
      head = b'0' + n % 10;
      tail = [];
      whole = refl;
      digit = last_digit n;
    } in
    elim (Bool-cases (ltb n 10)) [
      | inl e ↦ rw e more
      | inr e ↦ rw e (digits_of-Starts n (n / 10) ((b'0' + n % 10) ∷ []) more)
    ]

read_digits-digit :
    (acc n : ℕ) (s : List ℕ)
    → acc * 10 + n % 10 ≡ n
    → read_digits acc ((b'0' + n % 10) ∷ s) ≡ read_digits n s
unfolding read_digits
read_digits-digit acc n s e =
    let same : acc * 10 + (b'0' + n % 10 - b'0') ≡ n = omega (arith, e) in
    rw (last_digit n, same) refl

read_digits-digits_of :
    (k n : ℕ) (out rest : List ℕ)
    → n < k
    → read_digits 0 (digits_of k n out ++ rest) ≡ read_digits n (out ++ rest)
unfolding digits_of
read_digits-digits_of zero n out rest h = absurd (omega arith)
read_digits-digits_of (suc k) n out rest h = elim (Bool-cases (ltb n 10)) [
  | inl e ↦ rw e (read_digits-digit 0 n (out ++ rest) (ground (arith, e)))
  | inr e ↦ rw e (
      read_digits-digits_of k (n / 10) ((b'0' + n % 10) ∷ out) rest (ground (arith, e))
      ∙ read_digits-digit (n / 10) n (out ++ rest) (omega arith))
]

-- A decimal number is read back, up to the text that follows it.
pub read_digits-decimal :
    (n : ℕ) (rest : List ℕ) → StopsDigits rest → read_digits 0 (decimal n ++ rest) ≡ (n, rest)
unfolding decimal
read_digits-decimal n rest h =
    read_digits-digits_of (suc n) n [] rest (omega arith) ∙ read_digits-stop n rest h
