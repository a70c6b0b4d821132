-- ===== src/ChildProcess/Sha256.antt =====
-- SHA-256 of src/process.c. A uint32_t is a natural below 2 ^ 32.
use Prim.Native.Nat.{bit_and, bit_or, bit_xor}
use process_management_syste.Base.{
  ℕ, zero, suc, ◌+◌, ◌-◌, ◌*◌, ◌/◌, ◌%◌, ◌^◌, List, [], ◌∷◌, ◌++◌, ltb, ◌==◌, if◌then◌else◌,
}
use process_management_syste.Base.Lists.{get_or, set, take, drop, replicate}

abbrev pub word_mod : ℕ
word_mod = 2 ^ 32

abbrev pub shr : ℕ → ℕ → ℕ
shr bits w = w / 2 ^ bits

abbrev pub shl : ℕ → ℕ → ℕ
shl bits w = w * 2 ^ bits % word_mod

-- `~x`
abbrev pub complement : ℕ → ℕ
complement x = word_mod - 1 - x

abbrev pub rotr : ℕ → ℕ → ℕ
rotr bits w = bit_or (shr bits w) (shl (32 - bits) w)

abbrev pub sha_ch : ℕ → ℕ → ℕ → ℕ
sha_ch x y z = bit_xor (bit_and x y) (bit_and (complement x) z)

abbrev pub sha_maj : ℕ → ℕ → ℕ → ℕ
sha_maj x y z = bit_xor (bit_xor (bit_and x y) (bit_and x z)) (bit_and y z)

abbrev pub bsig0 : ℕ → ℕ
bsig0 w = bit_xor (bit_xor (rotr 2 w) (rotr 13 w)) (rotr 22 w)

abbrev pub bsig1 : ℕ → ℕ
bsig1 w = bit_xor (bit_xor (rotr 6 w) (rotr 11 w)) (rotr 25 w)

abbrev pub ssig0 : ℕ → ℕ
ssig0 w = bit_xor (bit_xor (rotr 7 w) (rotr 18 w)) (shr 3 w)

abbrev pub ssig1 : ℕ → ℕ
ssig1 w = bit_xor (bit_xor (rotr 17 w) (rotr 19 w)) (shr 10 w)

unfoldable pub sha256_h0 : List ℕ
sha256_h0 =
    0x6a09e667 ∷ 0xbb67ae85 ∷ 0x3c6ef372 ∷ 0xa54ff53a ∷ 0x510e527f ∷ 0x9b05688c ∷ 0x1f83d9ab
    ∷ 0x5be0cd19 ∷ []

unfoldable pub round_constants : List ℕ
round_constants =
    0x428a2f98 ∷ 0x71374491 ∷ 0xb5c0fbcf ∷ 0xe9b5dba5 ∷ 0x3956c25b ∷ 0x59f111f1 ∷ 0x923f82a4
    ∷ 0xab1c5ed5 ∷ 0xd807aa98 ∷ 0x12835b01 ∷ 0x243185be ∷ 0x550c7dc3 ∷ 0x72be5d74 ∷ 0x80deb1fe
    ∷ 0x9bdc06a7 ∷ 0xc19bf174 ∷ 0xe49b69c1 ∷ 0xefbe4786 ∷ 0x0fc19dc6 ∷ 0x240ca1cc ∷ 0x2de92c6f
    ∷ 0x4a7484aa ∷ 0x5cb0a9dc ∷ 0x76f988da ∷ 0x983e5152 ∷ 0xa831c66d ∷ 0xb00327c8 ∷ 0xbf597fc7
    ∷ 0xc6e00bf3 ∷ 0xd5a79147 ∷ 0x06ca6351 ∷ 0x14292967 ∷ 0x27b70a85 ∷ 0x2e1b2138 ∷ 0x4d2c6dfc
    ∷ 0x53380d13 ∷ 0x650a7354 ∷ 0x766a0abb ∷ 0x81c2c92e ∷ 0x92722c85 ∷ 0xa2bfe8a1 ∷ 0xa81a664b
    ∷ 0xc24b8b70 ∷ 0xc76c51a3 ∷ 0xd192e819 ∷ 0xd6990624 ∷ 0xf40e3585 ∷ 0x106aa070 ∷ 0x19a4c116
    ∷ 0x1e376c08 ∷ 0x2748774c ∷ 0x34b0bcb5 ∷ 0x391c0cb3 ∷ 0x4ed8aa4a ∷ 0x5b9cca4f ∷ 0x682e6ff3
    ∷ 0x748f82ee ∷ 0x78a5636f ∷ 0x84c87814 ∷ 0x8cc70208 ∷ 0x90befffa ∷ 0xa4506ceb ∷ 0xbef9a3f7
    ∷ 0xc67178f2 ∷ []

-- sha256_init copies the eight words.
unfoldable pub sha256_init : List ℕ
sha256_init = sha256_h0

-- The bytes of a block, four to a word, the most significant first.
unfoldable pub block_word : List ℕ → ℕ → ℕ
block_word block t =
    get_or block (4 * t) 0 * 2 ^ 24
    + get_or block (4 * t + 1) 0 * 2 ^ 16
    + get_or block (4 * t + 2) 0 * 2 ^ 8
    + get_or block (4 * t + 3) 0

-- The loop that prepares the message schedule, at `t`, with `n` rounds left; `w` holds w[0 .. t - 1].
unfoldable pub schedule : ℕ → List ℕ → ℕ → List ℕ → List ℕ
schedule zero block t w = w
schedule (suc n) block t w =
    let next =
      if ltb t 16
      then block_word block t
      else (ssig1 (get_or w (t - 2) 0)
          + get_or w (t - 7) 0
          + ssig0 (get_or w (t - 15) 0)
          + get_or w (t - 16) 0)
        % word_mod in
    schedule n block (t + 1) (w ++ next ∷ [])

pub record Vars : Type 0 where
  pub a : ℕ
  pub b : ℕ
  pub c : ℕ
  pub d : ℕ
  pub e : ℕ
  pub f : ℕ
  pub g : ℕ
  pub h : ℕ

-- One round of the main hash computation.
unfoldable pub round : ℕ → ℕ → Vars → Vars
round k w v =
    let t1 = (v.h + bsig1 v.e + sha_ch v.e v.f v.g + k + w) % word_mod in
    let t2 = (bsig0 v.a + sha_maj v.a v.b v.c) % word_mod in
    record {
      a = (t1 + t2) % word_mod;
      b = v.a;
      c = v.b;
      d = v.c;
      e = (v.d + t1) % word_mod;
      f = v.e;
      g = v.f;
      h = v.g;
    }

unfoldable pub rounds : List ℕ → List ℕ → Vars → Vars
unfolding round
rounds [] ws v = v
rounds (k ∷ ks) [] v = v
rounds (k ∷ ks) (w ∷ ws) v = rounds ks ws (round k w v)

unfoldable pub load_vars : List ℕ → Vars
unfolding get_or
load_vars hash = record {
  a = get_or hash 0 0;
  b = get_or hash 1 0;
  c = get_or hash 2 0;
  d = get_or hash 3 0;
  e = get_or hash 4 0;
  f = get_or hash 5 0;
  g = get_or hash 6 0;
  h = get_or hash 7 0;
}

unfoldable pub sha256_process : List ℕ → List ℕ → List ℕ
unfolding get_or schedule block_word rounds load_vars round_constants
sha256_process block hash =
    let u = load_vars hash in
    let v = rounds round_constants (schedule 64 block 0 []) u in
    (u.a + v.a) % word_mod
    ∷ (u.b + v.b) % word_mod
    ∷ (u.c + v.c) % word_mod
    ∷ (u.d + v.d) % word_mod
    ∷ (u.e + v.e) % word_mod
    ∷ (u.f + v.f) % word_mod
    ∷ (u.g + v.g) % word_mod
    ∷ (u.h + v.h) % word_mod
    ∷ []

-- Byte `i` of the length in bits, at 56 + i of the last block.
unfoldable pub length_byte : ℕ → ℕ → ℕ
length_byte nbyte i = nbyte * 8 % 2 ^ 64 / 2 ^ (56 - 8 * i) % 256

unfoldable pub set_length : List ℕ → ℕ → ℕ → ℕ → List ℕ
unfolding length_byte
set_length block nbyte i zero = block
set_length block nbyte i (suc n) =
    set_length (set block (56 + i) (length_byte nbyte i)) nbyte (i + 1) n

unfoldable pub sha256_process_final : ℕ → ℕ → List ℕ → List ℕ → List ℕ
sha256_process_final nbyte leftover last_block hash =
    let marked = set last_block leftover 128 in
    let zeros = replicate 64 0 in
    if ltb 55 leftover
    then sha256_process (set_length zeros nbyte 0 8) (sha256_process marked hash)
    else sha256_process (set_length marked nbyte 0 8) hash

-- The loop over the full blocks, with `n` of them left from byte `at` on.
unfoldable pub full_blocks : ℕ → ℕ → List ℕ → List ℕ → List ℕ
unfolding sha256_process
full_blocks zero at buf hash = hash
full_blocks (suc n) at buf hash =
    full_blocks n (at + 64) buf (sha256_process (take 64 (drop at buf)) hash)

unfoldable pub hex_digit : ℕ → ℕ
hex_digit n = if ltb n 10 then b'0' + n else b'a' + (n - 10)

-- `%08x`
unfoldable pub hex_word : ℕ → ℕ → List ℕ
unfolding hex_digit
hex_word zero w = []
hex_word (suc n) w = hex_digit (w / 2 ^ (4 * n) % 16) ∷ hex_word n w

unfoldable pub uint32_array_to_hex_string : List ℕ → List ℕ
unfolding hex_word
uint32_array_to_hex_string [] = []
uint32_array_to_hex_string (w ∷ ws) = hex_word 8 w ++ uint32_array_to_hex_string ws

unfoldable pub digest : List ℕ → ℕ → List ℕ
digest buf nbyte =
    let leftover = nbyte % 64 in
    let num_blocks = if leftover == 0 then nbyte / 64 else nbyte / 64 + 1 in
    let full = if leftover == 0 then num_blocks else num_blocks - 1 in
    let tail = take leftover (drop (full * 64) buf) in
    sha256_process_final nbyte leftover (tail ++ replicate (64 - leftover) 0)
      (full_blocks full 0 buf sha256_init)

-- The hash of the first `nbyte` bytes, as 64 hexadecimal digits.
unfoldable pub sha256_hash : List ℕ → ℕ → List ℕ
sha256_hash buf nbyte = uint32_array_to_hex_string (digest buf nbyte)

unfoldable pub xor_byte : ℕ → ℕ → ℕ
xor_byte a b = bit_xor a b
