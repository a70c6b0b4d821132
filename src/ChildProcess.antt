-- ===== src/ChildProcess.antt =====
-- src/process.c: the process that the scheduler starts. Its signal handlers read the time that the
-- scheduler has sent, mix it into 128 bytes and answer; SIGTERM answers with their SHA-256.
-- Verbose output and the signal masks are left out. `inbox` is what stands in the pipe to stdin when
-- a handler reads it: with fewer than four bytes the read would block, with more the process exits.
pub mod Sha256
pub mod Store
pub mod Digits
pub mod Blocks
pub mod Padding
pub mod Rfc
pub mod Compression
pub mod Standard
pub mod Life
mod Tests
use process_management_syste.Base.{
  ℕ, zero, suc, ◌+◌, ◌-◌, ◌%◌, Bool, true, false, Option, none, some, List, [], ◌∷◌, ◌>>=◌, ltb,
  ◌==◌, if◌then◌else◌,
}
use process_management_syste.Base.Lists.{length, get_or, set, replicate}
use process_management_syste.ChildProcess.Sha256.{sha256_hash, xor_byte}

pub data Op : Type 0 where
  start stop continue term : Op

unfoldable pub op_code : Op → ℕ
op_code start = 0
op_code stop = 1
op_code continue = 2
op_code term = 3

pub record Child : Type 0 where
  pub hash_content : List ℕ
  pub dest_index : ℕ

-- The part of the content that is mixed and hashed: 128 - 9 bytes.
abbrev pub content_size : ℕ
content_size = 119

-- The loop of `store` at `i`.
unfoldable pub store_loop : ℕ → List ℕ → Child → Child
unfolding get_or xor_byte
store_loop i [] c = c
store_loop i (b ∷ buf) c =
    let at = (c.dest_index + i) % content_size in
    store_loop (i + 1) buf (record {
      hash_content = set c.hash_content at (xor_byte (get_or c.hash_content at 0) b);
      dest_index = at;
    })

unfoldable pub store : List ℕ → Child → Child
unfolding store_loop
store buf c = store_loop 0 buf c

unfoldable pub store_process_name : List ℕ → Child → Child
unfolding store
store_process_name name c = store name c

unfoldable pub echoes : Op → Bool
echoes start = true
echoes continue = true
echoes _ = false

-- The result is the byte written to stdout, if one is.
unfoldable pub read_store_dword : Op → List ℕ → Child → Option (Option ℕ × Child)
unfolding store op_code echoes
read_store_dword op (b1 ∷ b2 ∷ b3 ∷ b4 ∷ []) c =
    some (if echoes op then some b4 else none, store (op_code op ∷ b1 ∷ b2 ∷ b3 ∷ b4 ∷ []) c)
read_store_dword op _ c = none

-- What getopt_long takes for an option, or for the end of the options: a dash and more.
unfoldable pub is_option : List ℕ → Bool
is_option [] = false
is_option (c ∷ []) = false
is_option (c ∷ d ∷ name) = c == b'-'

-- main up to the loop, for the one argument with which it is called and the first time sent. `none` is
-- an exit: where the argument is an option, help ends the process, and after any other no argument is
-- left for the name. (Help prints its text to the pipe first; that a process has ended whose answer is
-- awaited counts as a fault, even where the first letter of the text is the byte expected.)
unfoldable pub boot : List ℕ → List ℕ → Option (Option ℕ × Child)
unfolding is_option store_process_name read_store_dword
boot name inbox =
    let run : Option (Option ℕ × Child) =
      read_store_dword start inbox
        (store_process_name name (record { hash_content = replicate 128 0; dest_index = 0 })) in
    if is_option name then none else run

-- The handlers of the loop of main. SIGTERM writes the hash and ends the process.
unfoldable pub on_sigcont : List ℕ → Child → Option (Option ℕ × Child)
unfolding read_store_dword
on_sigcont inbox c = read_store_dword continue inbox c

unfoldable pub on_sigtstp : List ℕ → Child → Option (Option ℕ × Child)
unfolding read_store_dword
on_sigtstp inbox c = read_store_dword stop inbox c

unfoldable pub on_sigterm : List ℕ → Child → Option (List ℕ)
unfolding read_store_dword sha256_hash
on_sigterm inbox c = do
  (_, c') ← read_store_dword term inbox c
  some (sha256_hash c'.hash_content content_size)
