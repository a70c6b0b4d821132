-- ===== src/ChildProcess/Tests.antt =====
-- src/process.c against the expected output of cases/extra/skip.out.
use mathlib.Core.Path.{subst}
use process_management_syste.Base.{
  ◌≡◌, refl, sym, zero, suc, ◌+◌, ◌-◌, ◌<◌, Bool, true, ◌&&◌, ltb, ◌==◌, if◌then◌else◌, Bool-cases,
  inl, inr, ℕ, Option, some, List, [], ◌∷◌, ◌>>=◌, arith, Returns,
}
use process_management_syste.Base.Lists.{replicate, length, take, get_or, drop}
use process_management_syste.Base.Text.{codes}
use process_management_syste.ChildProcess.Rfc.{
  IsSchedule, compress, plus, message_word, small_sigma0, small_sigma1,
}
use process_management_syste.ChildProcess.Standard.{standard, digest-standard}
use process_management_syste.ChildProcess.Compression.{sha256_process-compress}
use process_management_syste.ChildProcess.{
  boot, on_sigterm, store, Child, Op, content_size, on_sigcont, on_sigtstp,
}
use process_management_syste.ChildProcess.Sha256.{
  sha256_hash, digest, full_blocks, sha256_process_final, sha256_init, sha256_h0, sha256_process,
  set_length, uint32_array_to_hex_string, schedule, block_word,
}
use process_management_syste.ChildProcess.Life.{
  History, Lives, booted, continued, stopped, remembered, Lives-Fit,
}
use process_management_syste.ChildProcess.Digits.{AllHex, sha256_hash-AllHex}
use process_management_syste.ChildProcess.Blocks.{rfc_digest}
use process_management_syste.ChildProcess.Padding.{digest-rfc_digest}
use process_management_syste.ChildProcess.Store.{IsValid, Kept, store-Kept}

-- The process "P" starts at time 0 and is terminated at time 1.
one_run : Option (List ℕ)
one_run = do (_, c) ← boot (codes "P") (0 ∷ 0 ∷ 0 ∷ 0 ∷ []); on_sigterm (0 ∷ 0 ∷ 0 ∷ 1 ∷ []) c

one_run_hash :
    one_run ≡ some (codes "facb1f1db4cfa000d9f28051983e38e2d56d5e66ab72c525656e454345e8a38e")
unfolding one_run boot on_sigterm sha256_hash digest full_blocks sha256_process_final sha256_init
    sha256_h0 sha256_process set_length uint32_array_to_hex_string
one_run_hash = refl

abbrev zeros : Child
zeros = record { hash_content = replicate 128 0; dest_index = 118 }

zeros-IsValid : IsValid zeros
zeros-IsValid = record { size = refl; inside = omega arith }

store-Kept_example : Kept zeros (store (codes "P") zeros)
store-Kept_example = store-Kept (codes "P") zeros zeros-IsValid

sha256_hash-AllHex_example :
    (length (sha256_hash (codes "P") 1) ≡ 64) × AllHex (sha256_hash (codes "P") 1)
sha256_hash-AllHex_example = sha256_hash-AllHex (codes "P") 1

-- A full block, and 56 bytes, which leave no room for the length.
digest-rfc_digest_example : digest (replicate 120 7) 120 ≡ rfc_digest (take 120 (replicate 120 7))
digest-rfc_digest_example = digest-rfc_digest (replicate 120 7) 120 (omega arith)

digest-standard_example : digest (replicate 120 7) 120 ≡ standard (take 120 (replicate 120 7))
digest-standard_example = digest-standard (replicate 120 7) 120 (omega arith)

-- A block of the bytes 1 to 64.
abbrev bytes_from : ℕ → ℕ → List ℕ
bytes_from n zero = []
bytes_from n (suc k) = n ∷ bytes_from (n + 1) k

abbrev sample : List ℕ
sample = bytes_from 1 64

sample_word : ℕ → ℕ
sample_word t = get_or (schedule 64 sample 0 []) t 0

abbrev equation : ℕ → ℕ
equation t =
    if ltb t 16
    then message_word sample t
    else plus
        (plus (plus (small_sigma1 (sample_word (t - 2))) (sample_word (t - 7)))
          (small_sigma0 (sample_word (t - 15))))
        (sample_word (t - 16))

abbrev all_below : ℕ → (ℕ → Bool) → Bool
all_below zero test = true
all_below (suc n) test = test n && all_below n test

==_exact : (t n : ℕ) → (t == n) ≡ true → t ≡ n
==_exact t n e = ground (arith, e)

all_below-true : (n : ℕ) (test : ℕ → Bool) (t : ℕ) → all_below n test ≡ true → t < n → test t ≡ true
all_below-true zero test t e h = absurd (omega arith)
all_below-true (suc n) test t e h = elim (Bool-cases (t == n)) [
  | inl same ↦ subst (λ i. test i ≡ true) (sym (==_exact t n same)) (ground (arith, e))
  | inr other ↦ all_below-true n test t (ground (arith, e)) (ground (arith, other))
]

sample_checks : all_below 64 (λ t. sample_word t == equation t) ≡ true
unfolding sample_word schedule block_word get_or
sample_checks = refl

sample-IsSchedule : IsSchedule sample sample_word
sample-IsSchedule t h =
    ==_exact (sample_word t) (equation t)
      (all_below-true 64 (λ t. sample_word t == equation t) t sample_checks h)

sha256_process-compress_example : sha256_process sample sha256_h0 ≡ compress sample_word sha256_h0
sha256_process-compress_example =
    sha256_process-compress sample sha256_h0 sample_word sample-IsSchedule

-- The process "P" is started at time 0, suspended at time 1 and continued at time 3.
abbrev history : History
history =
    (Op.continue, 0 ∷ 0 ∷ 0 ∷ 3 ∷ [])
    ∷ (Op.stop, 0 ∷ 0 ∷ 0 ∷ 1 ∷ [])
    ∷ (Op.start, 0 ∷ 0 ∷ 0 ∷ 0 ∷ [])
    ∷ []

history-Lives : Lives (codes "P") history (remembered (codes "P") history)
unfolding boot on_sigcont on_sigtstp remembered
history-Lives = continued (stopped (booted refl) refl) refl

Lives-Fit_example :
    (remembered (codes "P") history ≡ remembered (codes "P") history)
    × IsValid (remembered (codes "P") history)
    × (drop content_size (remembered (codes "P") history).hash_content ≡ replicate 9 0)
    × Returns
        (λ sha. (length sha ≡ 64) × AllHex sha)
        (on_sigterm (0 ∷ 0 ∷ 0 ∷ 4 ∷ []) (remembered (codes "P") history))
Lives-Fit_example =
    Lives-Fit (codes "P") history (remembered (codes "P") history) 0 0 0 4 history-Lives
