-- ===== src/ChildProcess/Compression.antt =====
-- sha256_process of src/process.c against the definition of the hash of a block in RFC 6234, section
-- 6.2.
use mathlib.Core.Path.{subst}
use process_management_syste.Base.{
  ℕ, zero, suc, ◌+◌, ◌-◌, ◌%◌, ◌≤◌, ◌<◌, ◌≡◌, refl, sym, ap, ◌∙◌, List, [], ◌∷◌, ◌++◌, arith, ltb,
  ◌==◌, if◌then◌else◌, Bool-cases, inl, inr,
}
use process_management_syste.Base.Lists.{get_or, length, length-append, get_or-append}
use process_management_syste.ChildProcess.Rfc.{
  Working, IsSchedule, plus, message_word, step, steps_from, rfc_constants, add_words, start,
  compress,
}
use process_management_syste.ChildProcess.Sha256.{
  Vars, block_word, load_vars, round, round_constants, rounds, schedule, sha256_process, ssig0,
  ssig1, word_mod, bsig0, bsig1, sha_ch, sha_maj,
}

-- The values of `w` from `t` on.
abbrev values : (ℕ → ℕ) → ℕ → ℕ → List ℕ
values w t zero = []
values w t (suc n) = w t ∷ values w (t + 1) n

-- Those before `t`.
abbrev table : (ℕ → ℕ) → ℕ → List ℕ
table w zero = []
table w (suc n) = table w n ++ w n ∷ []

length-table : (w : ℕ → ℕ) (n : ℕ) → length (table w n) ≡ n
length-table w zero = refl
length-table w (suc n) = omega (arith, length-append (table w n) (w n ∷ []), length-table w n)

get_or-last : (xs : List ℕ) (y : ℕ) → get_or (xs ++ y ∷ []) (length xs) 0 ≡ y
unfolding get_or
get_or-last [] y = refl
get_or-last (x ∷ xs) y = get_or-last xs y

get_or-table : (w : ℕ → ℕ) (n i : ℕ) → i < n → get_or (table w n) i 0 ≡ w i
get_or-table w zero i h = absurd (omega arith)
get_or-table w (suc n) i h = elim (Bool-cases (i == n)) [
  | inl e ↦
      let last : i ≡ n = ground (arith, e) in
      subst (λ i. get_or (table w (suc n)) i 0 ≡ w i) (sym last)
        (subst (λ k. get_or (table w (suc n)) k 0 ≡ w n) (length-table w n)
          (get_or-last (table w n) (w n)))
  | inr e ↦
      let earlier : i < n = ground (arith, e) in
      get_or-append 0 (table w n) (w n ∷ []) i (omega (arith, earlier, length-table w n))
      ∙ get_or-table w n i earlier
]

-- The equations of the schedule, in the functions of the code.
abbrev CodeSchedule : List ℕ → (ℕ → ℕ) → Type 0
CodeSchedule block w =
    (t : ℕ)
    → t < 64
    → w t ≡ (
        if ltb t 16
        then block_word block t
        else (ssig1 (w (t - 2)) + w (t - 7) + ssig0 (w (t - 15)) + w (t - 16)) % word_mod)

block_word-message_word : (block : List ℕ) (t : ℕ) → block_word block t ≡ message_word block t
unfolding block_word
block_word-message_word block t = omega arith

plus_four : (x y z u : ℕ) → plus (plus (plus x y) z) u ≡ (x + y + z + u) % word_mod
plus_four x y z u = omega arith

IsSchedule-CodeSchedule : (block : List ℕ) (w : ℕ → ℕ) → IsSchedule block w → CodeSchedule block w
IsSchedule-CodeSchedule block w is t h = elim (Bool-cases (ltb t 16)) [
  | inl e ↦ let here = rw e at (is t h) in rw e (here ∙ sym (block_word-message_word block t))
  | inr e ↦
      let here = rw e at (is t h) in
      rw e (here ∙ plus_four (ssig1 (w (t - 2))) (w (t - 7)) (ssig0 (w (t - 15))) (w (t - 16)))
]

module _ (block : List ℕ) (w : ℕ → ℕ) (is : CodeSchedule block w) where
  next_word :
      (t : ℕ)
      → t < 64
      → (if ltb t 16
          then block_word block t
          else (ssig1 (get_or (table w t) (t - 2) 0)
              + get_or (table w t) (t - 7) 0
              + ssig0 (get_or (table w t) (t - 15) 0)
              + get_or (table w t) (t - 16) 0)
            % word_mod)
        ≡ w t
  next_word t h = elim (Bool-cases (ltb t 16)) [
    | inl e ↦ let here = rw e at (is t h) in rw e (sym here)
    | inr e ↦
        let late : 16 ≤ t = ground (arith, e) in
        let here = rw e at (is t h) in
        rw
          (
            e,
            get_or-table w t (t - 2) (omega (arith, late)),
            get_or-table w t (t - 7) (omega (arith, late)),
            get_or-table w t (t - 15) (omega (arith, late)),
            get_or-table w t (t - 16) (omega (arith, late)),
          )
          (sym here)
  ]

  schedule-table : (n t : ℕ) → t + n ≤ 64 → schedule n block t (table w t) ≡ table w (t + n)
  unfolding schedule
  schedule-table zero t h = let same : t ≡ t + 0 = omega arith in ap (table w) same
  schedule-table (suc n) t h =
      let next : suc t ≡ t + 1 = omega arith in
      let further : t + 1 + n ≡ t + suc n = omega arith in
      ap (λ x. schedule n block (t + 1) (table w t ++ x ∷ [])) (next_word t (omega arith))
      ∙ ap (λ k. schedule n block (t + 1) (table w k)) next
      ∙ schedule-table n (t + 1) (omega arith)
      ∙ ap (table w) further

-- The end of sha256_process.
abbrev add_vars : Vars → Vars → List ℕ
add_vars u v =
    (u.a + v.a) % word_mod
    ∷ (u.b + v.b) % word_mod
    ∷ (u.c + v.c) % word_mod
    ∷ (u.d + v.d) % word_mod
    ∷ (u.e + v.e) % word_mod
    ∷ (u.f + v.f) % word_mod
    ∷ (u.g + v.g) % word_mod
    ∷ (u.h + v.h) % word_mod
    ∷ []

-- The variables of the code as the working variables of the RFC.
abbrev working : Vars → Working
working v = record { a = v.a; b = v.b; c = v.c; d = v.d; e = v.e; f = v.f; g = v.g; h = v.h }

plus_five : (x y z u v : ℕ) → (x + y + z + u + v) % word_mod ≡ plus (plus (plus (plus x y) z) u) v
plus_five x y z u v = omega arith

round-step : (k w : ℕ) (v : Vars) → working (round k w v) ≡ step k w (working v)
unfolding round step
round-step k w v =
    let t1 = plus_five v.h (bsig1 v.e) (sha_ch v.e v.f v.g) k w in
    let t2 = (bsig0 v.a + sha_maj v.a v.b v.c) % word_mod in
    λ i. record {
      a = plus (t1 i) t2;
      b = v.a;
      c = v.b;
      d = v.c;
      e = plus v.d (t1 i);
      f = v.e;
      g = v.f;
      h = v.g;
    }

rounds-steps_from :
    (w : ℕ → ℕ) (n t : ℕ) (v : Vars)
    → working (rounds (values (λ i. get_or rfc_constants i 0) t n) (values w t n) v)
      ≡ steps_from w n t (working v)
unfolding rounds steps_from
rounds-steps_from w zero t v = refl
rounds-steps_from w (suc n) t v =
    rounds-steps_from w n (t + 1) _
    ∙ ap (steps_from w n (t + 1)) (round-step (get_or rfc_constants t 0) (w t) v)

-- The constants of the code are those that the primes give.
round_constants-rfc_constants : round_constants ≡ values (λ i. get_or rfc_constants i 0) 0 64
unfolding round_constants rfc_constants get_or
round_constants-rfc_constants = refl

table-values : (w : ℕ → ℕ) → table w 64 ≡ values w 0 64
table-values w = refl

plus_swap : (x y : ℕ) → (x + y) % word_mod ≡ plus y x
plus_swap x y = omega arith

add_vars_swap :
    (hash : List ℕ) (v : Vars) → add_vars (load_vars hash) v ≡ add_words hash (working v)
unfolding load_vars
add_vars_swap hash v = λ i.
    plus_swap (get_or hash 0 0) v.a i
    ∷ plus_swap (get_or hash 1 0) v.b i
    ∷ plus_swap (get_or hash 2 0) v.c i
    ∷ plus_swap (get_or hash 3 0) v.d i
    ∷ plus_swap (get_or hash 4 0) v.e i
    ∷ plus_swap (get_or hash 5 0) v.f i
    ∷ plus_swap (get_or hash 6 0) v.g i
    ∷ plus_swap (get_or hash 7 0) v.h i
    ∷ []

-- sha256_process computes the hash words that RFC 6234, section 6.2, defines for a block, with the
-- functions and the constants of its section 5.1: whatever sequence of words meets the equations of the
-- message schedule for the first 64 places, the new hash is that of the 64 steps with these words and
-- the first thirty-two bits of the fractional parts of the cube roots of the first 64 primes.
pub sha256_process-compress :
    (block hash : List ℕ) (w : ℕ → ℕ)
    → IsSchedule block w
    → sha256_process block hash ≡ compress w hash
unfolding sha256_process compress load_vars start
sha256_process-compress block hash w is =
    let code = IsSchedule-CodeSchedule block w is in
    let words : schedule 64 block 0 [] ≡ values w 0 64 =
      schedule-table block w code 64 0 (omega arith) ∙ table-values w in
    add_vars_swap hash (rounds round_constants (schedule 64 block 0 []) (load_vars hash))
    ∙ ap (λ ws. add_words hash (working (rounds round_constants ws (load_vars hash)))) words
    ∙ ap (λ ks. add_words hash (working (rounds ks (values w 0 64) (load_vars hash))))
        round_constants-rfc_constants
    ∙ ap (add_words hash) (rounds-steps_from w 64 0 (load_vars hash))
