-- ===== src/ChildProcess/Standard.antt =====
-- The hash of src/process.c against the hash of RFC 6234, section 6, as a whole: its padding, its
-- initial words, its message schedule and its steps.
use process_management_syste.Base.{
  ℕ, zero, suc, ◌-◌, ◌/◌, ◌≤◌, ◌<◌, ◌≡◌, refl, ap, ◌∙◌, List, arith, ltb, Bool-cases, inl, inr,
  if◌then◌else◌,
}
use process_management_syste.Base.Lists.{length, take, drop}
use process_management_syste.ChildProcess.Sha256.{digest, sha256_h0}
use process_management_syste.ChildProcess.Rfc.{
  IsSchedule, word_at, compress, initial_hash, message_word, plus, small_sigma0, small_sigma1,
}
use process_management_syste.ChildProcess.Compression.{sha256_process-compress}
use process_management_syste.ChildProcess.Blocks.{hash_blocks, padded, rfc_digest}
use process_management_syste.ChildProcess.Padding.{digest-rfc_digest}

-- The hash words after `n` blocks of a padded message.
unfoldable pub compress_blocks : ℕ → List ℕ → List ℕ → List ℕ
compress_blocks zero m hash = hash
compress_blocks (suc n) m hash =
    compress_blocks n (drop 64 m) (compress (word_at 64 (take 64 m)) hash)

-- The hash words of a message.
unfoldable pub standard : List ℕ → List ℕ
unfolding compress_blocks
standard m = compress_blocks (length (padded m) / 64) (padded m) initial_hash

word_at-enough :
    (k j : ℕ) (block : List ℕ) (t : ℕ) → t < k → t < j → word_at k block t ≡ word_at j block t
unfolding word_at
word_at-enough zero j block t h i = absurd (omega arith)
word_at-enough (suc k) zero block t h i = absurd (omega arith)
word_at-enough (suc k) (suc j) block t h i = elim (Bool-cases (ltb t 16)) [
  | inl e ↦ rw e refl
  | inr e ↦
      let late : 16 ≤ t = ground (arith, e) in
      let earlier : (n : ℕ) → 0 < n → n ≤ 16 → word_at k block (t - n) ≡ word_at j block (t - n) =
        λ n pos few. word_at-enough k j block (t - n) (omega (arith, late)) (omega (arith, late)) in
      rw
        (
          e,
          earlier 2 (omega arith) (omega arith),
          earlier 7 (omega arith) (omega arith),
          earlier 15 (omega arith) (omega arith),
          earlier 16 (omega arith) (omega arith),
        )
        refl
]

word_at-suc :
    (k : ℕ) (block : List ℕ) (t : ℕ)
    → word_at (suc k) block t ≡ (
        if ltb t 16
        then message_word block t
        else plus
            (plus
              (plus (small_sigma1 (word_at k block (t - 2))) (word_at k block (t - 7)))
              (small_sigma0 (word_at k block (t - 15))))
            (word_at k block (t - 16)))
unfolding word_at
word_at-suc k block t = refl

word_at-step :
    (k : ℕ) (block : List ℕ) (t : ℕ)
    → t < k
    → word_at k block t ≡ (
        if ltb t 16
        then message_word block t
        else plus
            (plus
              (plus (small_sigma1 (word_at k block (t - 2))) (word_at k block (t - 7)))
              (small_sigma0 (word_at k block (t - 15))))
            (word_at k block (t - 16)))
word_at-step k block t h =
    word_at-enough k (suc k) block t h (omega (arith, h)) ∙ word_at-suc k block t

-- The computed words meet the equations.
word_at-IsSchedule : (block : List ℕ) → IsSchedule block (word_at 64 block)
word_at-IsSchedule block t h = word_at-step 64 block t h

hash_blocks-compress_blocks :
    (n : ℕ) (m hash : List ℕ) → hash_blocks n m hash ≡ compress_blocks n m hash
unfolding hash_blocks compress_blocks
hash_blocks-compress_blocks zero m hash = refl
hash_blocks-compress_blocks (suc n) m hash =
    ap (hash_blocks n (drop 64 m)) (
      sha256_process-compress (take 64 m) hash (word_at 64 (take 64 m))
        (word_at-IsSchedule (take 64 m)))
    ∙ hash_blocks-compress_blocks n (drop 64 m) (compress (word_at 64 (take 64 m)) hash)

sha256_h0-initial_hash : sha256_h0 ≡ initial_hash
unfolding sha256_h0 initial_hash
sha256_h0-initial_hash = refl

-- The hash words of the first `nbyte` bytes of a buffer that has as many are those that RFC 6234
-- defines for them: padded by its section 4.1, from the initial words that the square roots of the
-- first eight primes give, block by block, with its message schedule, its functions and the constants
-- that the cube roots of the first 64 primes give.
pub digest-standard :
    (buf : List ℕ) (nbyte : ℕ) → nbyte ≤ length buf → digest buf nbyte ≡ standard (take nbyte buf)
unfolding rfc_digest standard
digest-standard buf nbyte h =
    let m = padded (take nbyte buf) in
    digest-rfc_digest buf nbyte h
    ∙ ap (hash_blocks (length m / 64) m) sha256_h0-initial_hash
    ∙ hash_blocks-compress_blocks (length m / 64) m initial_hash
