-- ===== src/ChildProcess/Digits.antt =====
-- The string that sha256_hash of src/process.c writes.
use process_management_syste.Base.{
  ℕ, zero, suc, ◌*◌, ◌≤◌, ◌<◌, ◌≡◌, ◌⊎◌, inl, inr, refl, ap, ◌∙◌, List, [], ◌∷◌, ◌++◌, arith, ltb,
  Bool-cases,
}
use process_management_syste.Base.Lists.{length, length-append}
use process_management_syste.ChildProcess.Sha256.{
  hex_digit, hex_word, uint32_array_to_hex_string, digest, sha256_hash, sha256_process_final,
  sha256_process,
}

-- A digit of `%x`.
unfoldable pub IsHexDigit : ℕ → Type 0
IsHexDigit c = ((48 ≤ c) × (c ≤ 57)) ⊎ ((97 ≤ c) × (c ≤ 102))

unfoldable pub AllHex : List ℕ → Type 0
AllHex [] = Unit {0}
AllHex (c ∷ cs) = IsHexDigit c × AllHex cs

hex_digit-IsHexDigit : (n : ℕ) → n < 16 → IsHexDigit (hex_digit n)
unfolding hex_digit IsHexDigit
hex_digit-IsHexDigit n h = elim (Bool-cases (ltb n 10)) [
  | inl e ↦ rw e (inl (omega arith, ground (arith, e)))
  | inr e ↦ rw e (inr (omega arith, ground (arith, e, h)))
]

hex_word-AllHex : (n w : ℕ) → AllHex (hex_word n w)
unfolding hex_word AllHex
hex_word-AllHex zero w = tt
hex_word-AllHex (suc n) w = (hex_digit-IsHexDigit _ (omega arith), hex_word-AllHex n w)

length-hex_word : (n w : ℕ) → length (hex_word n w) ≡ n
unfolding hex_word
length-hex_word zero w = refl
length-hex_word (suc n) w = ap suc (length-hex_word n w)

AllHex-append : (cs ds : List ℕ) → AllHex cs → AllHex ds → AllHex (cs ++ ds)
unfolding AllHex
AllHex-append [] ds h k = k
AllHex-append (c ∷ cs) ds h k = (h.0, AllHex-append cs ds h.1 k)

-- Eight digits for each word.
hex_string-AllHex : (ws : List ℕ) → AllHex (uint32_array_to_hex_string ws)
unfolding uint32_array_to_hex_string AllHex
hex_string-AllHex [] = tt
hex_string-AllHex (w ∷ ws) =
    AllHex-append (hex_word 8 w) _ (hex_word-AllHex 8 w) (hex_string-AllHex ws)

length-hex_string : (ws : List ℕ) → length (uint32_array_to_hex_string ws) ≡ 8 * length ws
unfolding uint32_array_to_hex_string
length-hex_string [] = refl
length-hex_string (w ∷ ws) = omega (
  arith,
  length-append (hex_word 8 w) (uint32_array_to_hex_string ws),
  length-hex_word 8 w,
  length-hex_string ws,
)

length-sha256_process : (block hash : List ℕ) → length (sha256_process block hash) ≡ 8
unfolding sha256_process
length-sha256_process block hash = refl

length-final :
    (nbyte leftover : ℕ) (last hash : List ℕ)
    → length (sha256_process_final nbyte leftover last hash) ≡ 8
unfolding sha256_process_final
length-final nbyte leftover last hash = elim (Bool-cases (ltb 55 leftover)) [
  | inl e ↦ rw e (length-sha256_process _ _)
  | inr e ↦ rw e (length-sha256_process _ _)
]

length-digest : (buf : List ℕ) (nbyte : ℕ) → length (digest buf nbyte) ≡ 8
unfolding digest
length-digest buf nbyte = length-final nbyte _ _ _

-- Whatever the content and its length, the hash is 64 characters long, as many as the scheduler
-- reads, and each is a digit or a letter from a to f.
pub sha256_hash-AllHex :
    (buf : List ℕ) (nbyte : ℕ)
    → (length (sha256_hash buf nbyte) ≡ 64) × AllHex (sha256_hash buf nbyte)
unfolding sha256_hash
sha256_hash-AllHex buf nbyte = (
  length-hex_string (digest buf nbyte) ∙ ap (λ n. 8 * n) (length-digest buf nbyte),
  hex_string-AllHex (digest buf nbyte),
)
