-- ===== src/ChildProcess/Store.antt =====
-- The bounds of `store` of src/process.c.
use process_management_syste.Base.{
  ℕ, zero, suc, ◌+◌, ◌%◌, ◌<◌, ◌≡◌, refl, ◌∙◌, List, [], ◌∷◌, arith,
}
use process_management_syste.Base.Lists.{length, drop, set, length-set, get_or}
use process_management_syste.ChildProcess.{Child, content_size, store_loop, store}
use process_management_syste.ChildProcess.Sha256.{xor_byte}

-- 128 bytes, and the index inside of the part that is hashed.
pub record IsValid (c : Child) : Type 0 where
  pub size : length c.hash_content ≡ 128
  pub inside : c.dest_index < content_size

drop-set : (n : ℕ) (xs : List ℕ) (i v : ℕ) → i < n → drop n (set xs i v) ≡ drop n xs
drop-set n [] i v h = refl
drop-set zero (x ∷ xs) i v h = absurd (omega arith)
drop-set (suc n) (x ∷ xs) zero v h = refl
drop-set (suc n) (x ∷ xs) (suc i) v h = drop-set n xs i v (omega arith)

-- What a write of `store` keeps.
pub record Kept (c c' : Child) : Type 0 where
  pub valid : IsValid c'
  pub rest : drop content_size c'.hash_content ≡ drop content_size c.hash_content

store_loop-Kept : (i : ℕ) (buf : List ℕ) (c : Child) → IsValid c → Kept c (store_loop i buf c)
unfolding store_loop
store_loop-Kept i [] c v = record { valid = v; rest = refl }
store_loop-Kept i (b ∷ buf) c v =
    let at = (c.dest_index + i) % content_size in
    let c1 : Child = record {
      hash_content = set c.hash_content at (xor_byte (get_or c.hash_content at 0) b);
      dest_index = at;
    } in
    let k =
      store_loop-Kept (i + 1) buf c1
        (record { size = length-set _ at _ ∙ v.size; inside = omega arith }) in
    record {
      valid = k.valid;
      rest = k.rest ∙ drop-set content_size c.hash_content at _ (omega arith);
    }

-- `store` writes only inside of the part that is hashed, whatever the bytes and their number: the
-- content stays 128 bytes long, the index below 119, and the bytes from 119 on stand.
pub store-Kept : (buf : List ℕ) (c : Child) → IsValid c → Kept c (store buf c)
unfolding store
store-Kept buf c v = store_loop-Kept 0 buf c v
