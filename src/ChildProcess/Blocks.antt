-- ===== src/ChildProcess/Blocks.antt =====
-- The padding of RFC 6234, and the blocks that sha256_process of src/process.c mixes in one after
-- another.
use mathlib.Core.List.{append_assoc}
use process_management_syste.Base.{
  ℕ, zero, suc, ◌+◌, ◌-◌, ◌*◌, ◌/◌, ◌%◌, ◌^◌, ◌≤◌, ◌≡◌, refl, sym, ap, ◌∙◌, List, [], ◌∷◌, ◌++◌,
  arith,
}
use process_management_syste.Base.Lists.{length, length-append, take, drop, replicate}
use process_management_syste.Base.Slices.{
  take_all, take-append, drop-append, take-drop, drop-drop, length-take, length-drop, set-append,
}
use process_management_syste.ChildProcess.Sha256.{
  sha256_h0, sha256_process, set_length, length_byte, full_blocks,
}

-- `n` blocks from the start of a message.
unfoldable pub hash_blocks : ℕ → List ℕ → List ℕ → List ℕ
hash_blocks zero m hash = hash
hash_blocks (suc n) m hash = hash_blocks n (drop 64 m) (sha256_process (take 64 m) hash)

-- The last `n` bytes of a number, the most significant first.
unfoldable pub big_endian : ℕ → ℕ → List ℕ
big_endian zero x = []
big_endian (suc n) x = x / 256 ^ n % 256 ∷ big_endian n x

-- The length in bits, modulo 2 ^ 64.
unfoldable pub bit_length : ℕ → List ℕ
unfolding big_endian
bit_length n = big_endian 8 (n * 8 % 2 ^ 64)

-- A bit 1, the fewest zeros that leave 8 bytes of a block, and the length.
unfoldable pub padded : List ℕ → List ℕ
padded m = m ++ 128 ∷ replicate ((119 - length m % 64) % 64) 0 ++ bit_length (length m)

-- The hash of a message by its definition.
unfoldable pub rfc_digest : List ℕ → List ℕ
rfc_digest m = hash_blocks (length (padded m) / 64) (padded m) sha256_h0

pub hash_blocks-append :
    (n k j : ℕ) (xs ys hash : List ℕ)
    → length xs ≡ 64 * n
    → j ≡ n + k
    → hash_blocks j (xs ++ ys) hash ≡ hash_blocks k ys (hash_blocks n xs hash)
unfolding hash_blocks
hash_blocks-append zero k j [] ys hash e s =
    let same : j ≡ k = omega arith in ap (λ i. hash_blocks i ys hash) same
hash_blocks-append zero k j (x ∷ xs) ys hash e s = absurd (omega arith)
hash_blocks-append (suc n) k zero xs ys hash e s = absurd (omega arith)
hash_blocks-append (suc n) k (suc j) xs ys hash e s =
    rw (take-append xs ys 64 (omega arith), drop-append xs ys 64 (omega arith))
      (hash_blocks-append n k j (drop 64 xs) ys (sha256_process (take 64 xs) hash)
        (omega (arith, length-drop 64 xs)) (omega arith))

pub hash_blocks-one :
    (m hash : List ℕ) → length m ≡ 64 → hash_blocks 1 m hash ≡ sha256_process m hash
unfolding hash_blocks
hash_blocks-one m hash e = ap (λ l. sha256_process l hash) (take_all m 64 e)

full_blocks-drop :
    (n at : ℕ) (buf hash : List ℕ) → full_blocks n at buf hash ≡ hash_blocks n (drop at buf) hash
unfolding full_blocks hash_blocks
full_blocks-drop zero at buf hash = refl
full_blocks-drop (suc n) at buf hash =
    rw (drop-drop (at + 64) at 64 buf refl)
      (full_blocks-drop n (at + 64) buf (sha256_process (take 64 (drop at buf)) hash))

pub full_blocks-take :
    (n : ℕ) (buf hash : List ℕ)
    → 64 * n ≤ length buf
    → full_blocks n 0 buf hash ≡ hash_blocks n (take (64 * n) buf) hash
unfolding hash_blocks
full_blocks-take n buf hash h =
    full_blocks-drop n 0 buf hash
    ∙ ap (λ l. hash_blocks n l hash) (sym (take-drop (64 * n) buf))
    ∙ hash_blocks-append n 0 n (take (64 * n) buf) (drop (64 * n) buf) hash
        (length-take (64 * n) buf h) (omega arith)

-- The bytes that set_length writes.
unfoldable pub length_bytes : ℕ → ℕ → ℕ → List ℕ
length_bytes nbyte i zero = []
length_bytes nbyte i (suc n) = length_byte nbyte i ∷ length_bytes nbyte (i + 1) n

pub set_length-append :
    (xs : List ℕ) (nbyte i n : ℕ)
    → length xs ≡ 56 + i
    → set_length (xs ++ replicate n 0) nbyte i n ≡ xs ++ length_bytes nbyte i n
unfolding set_length length_bytes
set_length-append xs nbyte i zero e = refl
set_length-append xs nbyte i (suc n) e =
    let b = length_byte nbyte i in
    rw (set-append xs (replicate n 0) (56 + i) 0 b e) (
      simp append_assoc at (
        set_length-append (xs ++ b ∷ []) nbyte (i + 1) n
          (omega (arith, length-append xs (b ∷ [])))))

pub length_bytes-bit_length : (nbyte : ℕ) → length_bytes nbyte 0 8 ≡ bit_length nbyte
unfolding length_bytes length_byte bit_length big_endian
length_bytes-bit_length nbyte = refl

pub length-bit_length : (nbyte : ℕ) → length (bit_length nbyte) ≡ 8
unfolding bit_length big_endian
length-bit_length nbyte = refl
