-- ===== src/ChildProcess/Padding.antt =====
-- sha256_hash and sha256_process_final of src/process.c against the padding of RFC 6234, section 4.1,
-- that the code cites.
use mathlib.Core.List.{append_assoc}
use process_management_syste.Base.{
  ℕ, ◌+◌, ◌-◌, ◌*◌, ◌/◌, ◌%◌, ◌≤◌, ◌<◌, ◌≡◌, inl, inr, refl, sym, ap, ◌∙◌, List, ◌∷◌, ◌++◌, arith,
  ltb, ◌==◌, true, false, Bool-cases,
}
use process_management_syste.Base.Lists.{length, length-append, take, drop, replicate}
use process_management_syste.Base.Slices.{
  take-add, length-take, length-drop, length-replicate, replicate-add, set-append,
}
use process_management_syste.ChildProcess.Sha256.{
  sha256_init, sha256_h0, sha256_process, sha256_process_final, set_length, full_blocks, digest,
}
use process_management_syste.ChildProcess.Blocks.{
  hash_blocks, bit_length, padded, rfc_digest, hash_blocks-append, hash_blocks-one,
  full_blocks-take, set_length-append, length_bytes-bit_length, length-bit_length,
}

final_block :
    (start : List ℕ) (nbyte : ℕ) (hash : List ℕ)
    → length start ≡ 56
    → sha256_process (set_length (start ++ replicate 8 0) nbyte 0 8) hash
      ≡ hash_blocks 1 (start ++ bit_length nbyte) hash
final_block start nbyte hash e =
    rw (set_length-append start nbyte 0 8 (omega arith), length_bytes-bit_length nbyte)
      (sym (
        hash_blocks-one (start ++ bit_length nbyte) hash
          (omega (arith, length-append start (bit_length nbyte), length-bit_length nbyte))))

-- The last block or the last two.
final-one :
    (nbyte r : ℕ) (tail hash : List ℕ)
    → length tail ≡ r
    → r < 56
    → sha256_process_final nbyte r (tail ++ replicate (64 - r) 0) hash
      ≡ hash_blocks 1 (tail ++ 128 ∷ replicate (55 - r) 0 ++ bit_length nbyte) hash
unfolding sha256_process_final
final-one nbyte r tail hash e h =
    let less : ltb 55 r ≡ false = ground arith in
    let start = tail ++ 128 ∷ replicate (55 - r) 0 in
    let size : length start ≡ 56 = omega (
      arith,
      length-append tail (128 ∷ replicate (55 - r) 0),
      length-replicate {A = ℕ} (55 - r) 0,
    ) in
    rw
      (
        less,
        replicate-add {A = ℕ} (64 - r) 1 (63 - r) 0 (omega arith),
        set-append tail (replicate (63 - r) 0) r 0 128 e,
        replicate-add {A = ℕ} (63 - r) (55 - r) 8 0 (omega arith),
      )
      (simp append_assoc (simp append_assoc at (final_block start nbyte hash size)))

final-two :
    (nbyte r : ℕ) (tail hash : List ℕ)
    → length tail ≡ r
    → 55 < r
    → r < 64
    → sha256_process_final nbyte r (tail ++ replicate (64 - r) 0) hash
      ≡ hash_blocks 2 (tail ++ 128 ∷ replicate (119 - r) 0 ++ bit_length nbyte) hash
unfolding sha256_process_final
final-two nbyte r tail hash e h below =
    let more : ltb 55 r ≡ true = ground arith in
    let start = tail ++ 128 ∷ replicate (63 - r) 0 in
    let size : length start ≡ 64 = omega (
      arith,
      length-append tail (128 ∷ replicate (63 - r) 0),
      length-replicate {A = ℕ} (63 - r) 0,
    ) in
    let rest = replicate 56 0 ++ bit_length nbyte in
    let last =
      final_block (replicate 56 0) nbyte (sha256_process start hash) refl
      ∙ ap (hash_blocks 1 rest) (sym (hash_blocks-one start hash size))
      ∙ sym (hash_blocks-append 1 1 2 start rest hash size refl) in
    rw
      (
        more,
        replicate-add {A = ℕ} (64 - r) 1 (63 - r) 0 (omega arith),
        set-append tail (replicate (63 - r) 0) r 0 128 e,
        replicate-add {A = ℕ} (119 - r) (63 - r) 56 0 (omega arith),
      )
      (simp append_assoc (simp append_assoc at last))

rfc-split :
    (q k r z n : ℕ) (xs tail : List ℕ)
    → length xs ≡ 64 * q
    → length tail ≡ r
    → n ≡ 64 * q + r
    → r < 64
    → z ≡ (119 - r) % 64
    → r + z + 9 ≡ 64 * k
    → rfc_digest (xs ++ tail)
      ≡ hash_blocks k (tail ++ 128 ∷ replicate z 0 ++ bit_length n) (hash_blocks q xs sha256_h0)
unfolding rfc_digest padded
rfc-split q k r z n xs tail ex et en h ez ek =
    let size : length (xs ++ tail) ≡ n = omega (arith, length-append xs tail) in
    let fill : (119 - n % 64) % 64 ≡ z = omega arith in
    let rest = tail ++ 128 ∷ replicate z 0 ++ bit_length n in
    let length_rest : length rest ≡ 64 * k = omega (
      arith,
      length-append (tail ++ 128 ∷ replicate z 0) (bit_length n),
      length-append tail (128 ∷ replicate z 0),
      length-replicate {A = ℕ} z 0,
      length-bit_length n,
    ) in
    let whole : xs ++ tail ++ 128 ∷ replicate z 0 ++ bit_length n ≡ xs ++ rest =
      simp append_assoc refl in
    rw (size, fill, whole)
      (hash_blocks-append q k (length (xs ++ rest) / 64) xs rest sha256_h0 ex
        (omega (arith, length-append xs rest, length_rest)))

digest-final :
    (buf : List ℕ) (nbyte : ℕ)
    → digest buf nbyte
      ≡ sha256_process_final nbyte
          (nbyte % 64)
          (take (nbyte % 64) (drop (64 * (nbyte / 64)) buf) ++ replicate (64 - nbyte % 64) 0)
          (full_blocks (nbyte / 64) 0 buf sha256_h0)
unfolding digest sha256_init
digest-final buf nbyte =
    let back : nbyte / 64 + 1 - 1 ≡ nbyte / 64 = omega arith in
    let swap : nbyte / 64 * 64 ≡ 64 * (nbyte / 64) = omega arith in
    elim (Bool-cases (nbyte % 64 == 0)) [
      | inl e ↦ rw (e, swap) refl
      | inr e ↦ rw (e, back, swap) refl
    ]

-- Where the buffer has the bytes that are hashed, sha256_hash computes the eight words that RFC 6234
-- defines for them, with sha256_process as its compression function: the blocks that it hashes are
-- those of the message with the padding after it, its length in bits modulo 2 ^ 64 included.
pub digest-rfc_digest :
    (buf : List ℕ) (nbyte : ℕ) → nbyte ≤ length buf → digest buf nbyte ≡ rfc_digest (take nbyte buf)
digest-rfc_digest buf nbyte h =
    let q = nbyte / 64 in
    let r = nbyte % 64 in
    let xs = take (64 * q) buf in
    let tail = take r (drop (64 * q) buf) in
    let parts : take nbyte buf ≡ xs ++ tail = take-add nbyte (64 * q) r buf (omega arith) in
    let ex : length xs ≡ 64 * q = length-take (64 * q) buf (omega arith) in
    let et : length tail ≡ r =
      length-take r (drop (64 * q) buf) (omega (arith, length-drop (64 * q) buf)) in
    rw (digest-final buf nbyte, full_blocks-take q buf sha256_h0 (omega arith), parts)
      (elim (Bool-cases (ltb 55 r)) [
        | inl e ↦
            final-two nbyte r tail _ et (ground arith) (omega arith)
            ∙ sym (
                rfc-split q 2 r (119 - r) nbyte xs tail ex et (omega arith) (omega arith)
                  (ground arith) (ground arith))
        | inr e ↦
            final-one nbyte r tail _ et (ground arith)
            ∙ sym (
                rfc-split q 1 r (55 - r) nbyte xs tail ex et (omega arith) (omega arith)
                  (ground arith) (ground arith))
      ])
