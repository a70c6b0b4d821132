-- ===== src/ChildProcess/Life.antt =====
-- The life of a process of src/process.c, from main's start on: the signals that it handles, one after
-- another, each with the four bytes that stand in the pipe to its stdin.
use mathlib.Core.Path.{subst}
use process_management_syste.Base.{
  Bool-cases, inl, inr, ℕ, ◌≡◌, refl, sym, ap, ◌∙◌, Option, none, some, List, [], ◌∷◌, arith,
  Returns, returns,
}
use process_management_syste.Base.Lists.{length, drop, replicate}
use process_management_syste.ChildProcess.{
  Child, Op, op_code, content_size, boot, is_option, on_sigcont, on_sigtstp, on_sigterm,
  read_store_dword, store, store_process_name,
}
use process_management_syste.ChildProcess.Digits.{AllHex, sha256_hash-AllHex}
use process_management_syste.ChildProcess.Store.{IsValid, store-Kept}

-- The messages that a process has had, the latest first.
abbrev pub History : Type 0
History = List (Op × List ℕ)

-- The process `name` has got to its state by handling these.
pub data Lives (name : List ℕ) : History → Child → Type 0 where
  booted :
      {inbox : List ℕ} {echo : Option ℕ} {c : Child}
      → boot name inbox ≡ some (echo, c)
      → Lives name ((Op.start, inbox) ∷ []) c
  continued :
      {h : History} {inbox : List ℕ} {echo : Option ℕ} {c c' : Child}
      → Lives name h c
      → on_sigcont inbox c ≡ some (echo, c')
      → Lives name ((Op.continue, inbox) ∷ h) c'
  stopped :
      {h : History} {inbox : List ℕ} {echo : Option ℕ} {c c' : Child}
      → Lives name h c
      → on_sigtstp inbox c ≡ some (echo, c')
      → Lives name ((Op.stop, inbox) ∷ h) c'

abbrev blank_child : Child
blank_child = record { hash_content = replicate 128 0; dest_index = 0 }

-- The name and the messages, mixed in one after another.
unfoldable pub remembered : List ℕ → History → Child
remembered name [] = store_process_name name blank_child
remembered name ((op, inbox) ∷ h) = store (op_code op ∷ inbox) (remembered name h)

pair-inj : {a b : Option ℕ × Child} → some a ≡ some b → a.1 ≡ b.1
pair-inj e = cc

none-some : {a : Option ℕ × Child} → none ≡ some a → ⊥
none-some e = cc

-- A message that is taken is mixed in.
read_store_dword-store :
    (op : Op) (inbox : List ℕ) (c : Child) (r : Option ℕ × Child)
    → read_store_dword op inbox c ≡ some r
    → r.1 ≡ store (op_code op ∷ inbox) c
unfolding read_store_dword
read_store_dword-store op (a ∷ b ∷ d ∷ e ∷ []) c r is = sym (pair-inj is)
read_store_dword-store op [] c r is = absurd (none-some is)
read_store_dword-store op (a ∷ []) c r is = absurd (none-some is)
read_store_dword-store op (a ∷ b ∷ []) c r is = absurd (none-some is)
read_store_dword-store op (a ∷ b ∷ d ∷ []) c r is = absurd (none-some is)
read_store_dword-store op (a ∷ b ∷ d ∷ e ∷ f ∷ more) c r is = absurd (none-some is)

Lives-remembered :
    (name : List ℕ) (h : History) (c : Child) → Lives name h c → c ≡ remembered name h
unfolding remembered boot on_sigcont on_sigtstp
Lives-remembered name _ c (booted {inbox} e) = elim (Bool-cases (is_option name)) [
  | inl o ↦ absurd (none-some (rw o at e))
  | inr o ↦ read_store_dword-store Op.start inbox _ _ (rw o at e)
]
Lives-remembered name _ c' (continued {h} {inbox} {c = c} life e) =
    read_store_dword-store Op.continue inbox c _ e
    ∙ ap (store (op_code Op.continue ∷ inbox)) (Lives-remembered name h c life)
Lives-remembered name _ c' (stopped {h} {inbox} {c = c} life e) =
    read_store_dword-store Op.stop inbox c _ e
    ∙ ap (store (op_code Op.stop ∷ inbox)) (Lives-remembered name h c life)

-- The state is valid, and the bytes behind the part that is hashed are still zero.
record Fit (c : Child) : Type 0 where
  valid : IsValid c
  rest : drop content_size c.hash_content ≡ replicate 9 0

store-Fit : (buf : List ℕ) (c : Child) → Fit c → Fit (store buf c)
store-Fit buf c f =
    let k = store-Kept buf c f.valid in record { valid = k.valid; rest = k.rest ∙ f.rest }

remembered-Fit : (name : List ℕ) (h : History) → Fit (remembered name h)
unfolding remembered store_process_name
remembered-Fit name [] =
    store-Fit name blank_child
      (record { valid = record { size = refl; inside = omega arith }; rest = refl })
remembered-Fit name ((op, inbox) ∷ h) =
    store-Fit (op_code op ∷ inbox) (remembered name h) (remembered-Fit name h)

-- Whatever signals a process has handled since it started, in whatever order, its 128 bytes and its
-- index are those that its name and the messages give, mixed in one after another; the index is
-- inside of the part that is hashed, and the nine bytes behind it are still zero. With four bytes in
-- its pipe, SIGTERM then ends it with a hash of 64 hexadecimal digits.
pub Lives-Fit :
    (name : List ℕ) (h : History) (c : Child) (b1 b2 b3 b4 : ℕ)
    → Lives name h c
    → (c ≡ remembered name h)
      × IsValid c
      × (drop content_size c.hash_content ≡ replicate 9 0)
      × Returns (λ sha. (length sha ≡ 64) × AllHex sha) (on_sigterm (b1 ∷ b2 ∷ b3 ∷ b4 ∷ []) c)
unfolding on_sigterm read_store_dword
Lives-Fit name h c b1 b2 b3 b4 life =
    let e = Lives-remembered name h c life in
    let f = subst Fit (sym e) (remembered-Fit name h) in
    (e, f.valid, f.rest, returns (sha256_hash-AllHex _ content_size))
