-- ===== src/ChildProcess/Rfc.antt =====
-- What RFC 6234 says of the hash of a block, in its own words: the functions of section 5.1 and the
-- steps of section 6.2. The constants are computed as section 5.1 defines them, from the cube roots of
-- the first sixty-four primes. No function of src/process.c is used.
use Prim.Native.Nat.{bit_and, bit_or, bit_xor}
use process_management_syste.Base.{
  ℕ, zero, suc, ◌+◌, ◌-◌, ◌*◌, ◌/◌, ◌%◌, ◌^◌, ◌<◌, ◌≡◌, Bool, true, false, List, [], ◌∷◌, ltb, leb,
  ◌==◌, if◌then◌else◌,
}
use process_management_syste.Base.Lists.{get_or}

-- Addition of words.
abbrev pub plus : ℕ → ℕ → ℕ
plus x y = (x + y) % 2 ^ 32

-- SHR and ROTR
abbrev shift_right : ℕ → ℕ → ℕ
shift_right n x = x / 2 ^ n

abbrev rotate_right : ℕ → ℕ → ℕ
rotate_right n x = bit_or (x / 2 ^ n) (x * 2 ^ (32 - n) % 2 ^ 32)

-- CH and MAJ
abbrev choice : ℕ → ℕ → ℕ → ℕ
choice x y z = bit_xor (bit_and x y) (bit_and (2 ^ 32 - 1 - x) z)

abbrev majority : ℕ → ℕ → ℕ → ℕ
majority x y z = bit_xor (bit_xor (bit_and x y) (bit_and x z)) (bit_and y z)

-- BSIG0 and BSIG1
abbrev big_sigma0 : ℕ → ℕ
big_sigma0 x = bit_xor (bit_xor (rotate_right 2 x) (rotate_right 13 x)) (rotate_right 22 x)

abbrev big_sigma1 : ℕ → ℕ
big_sigma1 x = bit_xor (bit_xor (rotate_right 6 x) (rotate_right 11 x)) (rotate_right 25 x)

-- SSIG0 and SSIG1
abbrev pub small_sigma0 : ℕ → ℕ
small_sigma0 x = bit_xor (bit_xor (rotate_right 7 x) (rotate_right 18 x)) (shift_right 3 x)

abbrev pub small_sigma1 : ℕ → ℕ
small_sigma1 x = bit_xor (bit_xor (rotate_right 17 x) (rotate_right 19 x)) (shift_right 10 x)

-- No number from 2 on, below `n`, divides `p`; `k` of them are left to try.
unfoldable pub is_prime : ℕ → ℕ → ℕ → Bool
is_prime zero n p = true
is_prime (suc k) n p = let rest = is_prime k (n + 1) p in if p % n == 0 then false else rest

-- The primes from `n` on, among the next `k` numbers.
unfoldable pub primes : ℕ → ℕ → List ℕ
unfolding is_prime
primes zero n = []
primes (suc k) n = let rest = primes k (n + 1) in if is_prime (n - 2) 2 n then n ∷ rest else rest

-- The greatest number with a cube of at most `n`, where `r` has been found and `b` bits are left.
unfoldable pub cube_root : ℕ → ℕ → ℕ → ℕ
cube_root zero r n = r
cube_root (suc b) r n =
    let larger = r + 2 ^ b in cube_root b (if leb (larger ^ 3) n then larger else r) n

-- The first thirty-two bits of the fractional part of the cube root.
unfoldable pub root_bits : ℕ → ℕ
unfolding cube_root
root_bits p = cube_root 36 0 (p * 2 ^ 96) % 2 ^ 32

unfoldable pub constants : List ℕ → List ℕ
unfolding root_bits
constants [] = []
constants (p ∷ ps) = root_bits p ∷ constants ps

-- The constants K_0 to K_63.
unfoldable pub rfc_constants : List ℕ
unfolding primes constants
rfc_constants = constants (primes 310 2)

-- The word M_t of a block of bytes, which stand the most significant first.
abbrev pub message_word : List ℕ → ℕ → ℕ
message_word block t =
    ((get_or block (4 * t) 0 * 256 + get_or block (4 * t + 1) 0) * 256 + get_or block (4 * t + 2) 0)
      * 256
    + get_or block (4 * t + 3) 0

-- The words W_0 to W_63, by the equations of step 1.
abbrev pub IsSchedule : List ℕ → (ℕ → ℕ) → Type 0
IsSchedule block w =
    (t : ℕ)
    → t < 64
    → w t ≡ (
        if ltb t 16
        then message_word block t
        else plus (plus (plus (small_sigma1 (w (t - 2))) (w (t - 7))) (small_sigma0 (w (t - 15))))
            (w (t - 16)))

-- The working variables.
pub record Working : Type 0 where
  pub a : ℕ
  pub b : ℕ
  pub c : ℕ
  pub d : ℕ
  pub e : ℕ
  pub f : ℕ
  pub g : ℕ
  pub h : ℕ

-- Step 3, with the constant `k` and the word `w`.
unfoldable pub step : ℕ → ℕ → Working → Working
step k w v =
    let t1 = plus (plus (plus (plus v.h (big_sigma1 v.e)) (choice v.e v.f v.g)) k) w in
    let t2 = plus (big_sigma0 v.a) (majority v.a v.b v.c) in
    record { h = v.g; g = v.f; f = v.e; e = plus v.d t1; d = v.c; c = v.b; b = v.a; a = plus t1 t2 }

-- `n` of the steps, from the step `t` on.
unfoldable pub steps_from : (ℕ → ℕ) → ℕ → ℕ → Working → Working
unfolding step rfc_constants
steps_from w zero t v = v
steps_from w (suc n) t v = steps_from w n (t + 1) (step (get_or rfc_constants t 0) (w t) v)

-- Step 2: the working variables are the hash words.
unfoldable pub start : List ℕ → Working
start hash = record {
  a = get_or hash 0 0;
  b = get_or hash 1 0;
  c = get_or hash 2 0;
  d = get_or hash 3 0;
  e = get_or hash 4 0;
  f = get_or hash 5 0;
  g = get_or hash 6 0;
  h = get_or hash 7 0;
}

-- Step 4.
abbrev pub add_words : List ℕ → Working → List ℕ
add_words hash v =
    plus v.a (get_or hash 0 0)
    ∷ plus v.b (get_or hash 1 0)
    ∷ plus v.c (get_or hash 2 0)
    ∷ plus v.d (get_or hash 3 0)
    ∷ plus v.e (get_or hash 4 0)
    ∷ plus v.f (get_or hash 5 0)
    ∷ plus v.g (get_or hash 6 0)
    ∷ plus v.h (get_or hash 7 0)
    ∷ []

-- The new hash words, for the words `w` of the schedule.
unfoldable pub compress : (ℕ → ℕ) → List ℕ → List ℕ
unfolding steps_from start
compress w hash = add_words hash (steps_from w 64 0 (start hash))

-- The word W_t of a block, computed by the equations of step 1; any `k` above `t` is enough.
unfoldable pub word_at : ℕ → List ℕ → ℕ → ℕ
word_at zero block t = 0
word_at (suc k) block t =
    let recursive =
      plus
        (plus (plus (small_sigma1 (word_at k block (t - 2))) (word_at k block (t - 7)))
          (small_sigma0 (word_at k block (t - 15))))
        (word_at k block (t - 16)) in
    if ltb t 16 then message_word block t else recursive

-- The greatest number with a square of at most `n`, where `r` has been found and `b` bits are left.
unfoldable pub square_root : ℕ → ℕ → ℕ → ℕ
square_root zero r n = r
square_root (suc b) r n =
    let larger = r + 2 ^ b in square_root b (if leb (larger ^ 2) n then larger else r) n

-- The first thirty-two bits of the fractional parts of the square roots.
unfoldable pub initial : List ℕ → List ℕ
unfolding square_root
initial [] = []
initial (p ∷ ps) = square_root 37 0 (p * 2 ^ 64) % 2 ^ 32 ∷ initial ps

-- The initial hash words of section 6.1, from the first eight primes.
unfoldable pub initial_hash : List ℕ
unfolding primes initial
initial_hash = initial (primes 18 2)
