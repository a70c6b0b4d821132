-- ===== src/Loading/Stuck.antt =====
-- What load_processes of src/process_data.c makes of a file in another format.
use mathlib.Core.List.{append_assoc}
use process_management_syste.Base.{
  ℕ, zero, suc, ◌^◌, ◌≤◌, ◌<◌, ◌≡◌, ◌+◌, refl, ap, ◌∙◌, false, none, some, List, [], ◌∷◌, ◌++◌,
  arith, ltb, ◌==◌,
}
use process_management_syste.Base.Lists.{length, length-append}
use process_management_syste.Base.Scan.{
  is_digit, is_space, skip_space, IsWord, StopsWord, read_word-append, skip_space-stop,
  skip_space-blank,
}
use process_management_syste.ProcessData.{Process}
use process_management_syste.ReadyQueue.{enqueue}
use process_management_syste.Loading.{
  Line, blank_line, max_name_len, scan_number, scan_unsigned, scan_name, scan_rest, scan_at,
  scan_line, new_process, read_process, load_loop, load_processes,
}
use process_management_syste.Loading.Format.{print_line, scan_line-decimal}

-- A character that starts no number.
pub record IsForeign (c : ℕ) : Type 0 where
  pub solid : is_space c ≡ false
  pub digit : is_digit c ≡ false
  pub plus : (c == b'+') ≡ false
  pub minus : (c == b'-') ≡ false

scan_line-foreign :
    (s : List ℕ) (c : ℕ) (t : List ℕ)
    → IsForeign c
    → skip_space s ≡ c ∷ t
    → scan_line s ≡ some (some blank_line, c ∷ t)
unfolding scan_line scan_at scan_number scan_unsigned
scan_line-foreign s c t f e = ap scan_at e ∙ rw (f.plus, f.minus, f.digit) refl

read_process-foreign :
    (p : Process) (s : List ℕ) (c : ℕ) (t : List ℕ)
    → IsForeign c
    → skip_space s ≡ c ∷ t
    → read_process p s ≡ some (some (new_process p blank_line), c ∷ t)
unfolding read_process
read_process-foreign p s c t f e = rw (scan_line-foreign s c t f e) refl

-- A process without a name for each of `n` calls of malloc, from the one with the number `m` on.
unfoldable pub nameless : (ℕ → Process) → ℕ → ℕ → List Process
nameless fresh m zero = []
nameless fresh m (suc n) = new_process (fresh m) blank_line ∷ nameless fresh (m + 1) n

one_round :
    (k : ℕ) (fresh : ℕ → Process) (ps : List Process) (s : List ℕ) (c : ℕ) (t : List ℕ)
    → IsForeign c
    → skip_space s ≡ c ∷ t
    → load_loop (suc k) fresh ps s
      ≡ load_loop k fresh (ps ++ new_process (fresh (length ps)) blank_line ∷ []) (c ∷ t)
unfolding load_loop enqueue
one_round k fresh ps s c t f e = rw (read_process-foreign (fresh (length ps)) s c t f e) refl

load_loop-foreign :
    (n k : ℕ) (fresh : ℕ → Process) (ps : List Process) (s : List ℕ) (c : ℕ) (t : List ℕ)
    → IsForeign c
    → skip_space s ≡ c ∷ t
    → load_loop (suc n + k) fresh ps s
      ≡ load_loop k fresh (ps ++ nameless fresh (length ps) (suc n)) (c ∷ t)
unfolding nameless
load_loop-foreign zero k fresh ps s c t f e =
    let one : 1 + k ≡ suc k = omega arith in
    ap (λ n. load_loop n fresh ps s) one ∙ one_round k fresh ps s c t f e
load_loop-foreign (suc n) k fresh ps s c t f e =
    let p = new_process (fresh (length ps)) blank_line in
    let further : suc (suc n) + k ≡ suc (suc n + k) = omega arith in
    let again = skip_space-stop c t f.solid in
    ap (λ n. load_loop n fresh ps s) further
    ∙ one_round (suc n + k) fresh ps s c t f e
    ∙ load_loop-foreign n k fresh (ps ++ p ∷ []) (c ∷ t) c t f again
    ∙ ap (λ m. load_loop k fresh ((ps ++ p ∷ []) ++ nameless fresh m (suc n)) (c ∷ t))
        (length-append ps (p ∷ []))
    ∙ ap (λ l. load_loop k fresh l (c ∷ t))
        (append_assoc ps (p ∷ []) (nameless fresh (length ps + 1) (suc n)))

-- With no round left, the loop has not returned.
load_loop-none :
    (k : ℕ) (fresh : ℕ → Process) (s : List ℕ) (c : ℕ) (t : List ℕ)
    → IsForeign c
    → skip_space s ≡ c ∷ t
    → load_loop k fresh [] s ≡ none
unfolding load_loop
load_loop-none zero fresh s c t f e = refl
load_loop-none (suc k) fresh s c t f e =
    let all : suc k ≡ suc k + 0 = omega arith in
    ap (λ n. load_loop n fresh [] s) all ∙ load_loop-foreign k 0 fresh [] s c t f e

-- Where the text from some position on, white space aside, starts with a character that starts no
-- number, read_process returns a process without a name and leaves the character unread. Each round of
-- the loop of load_processes then adds such a process to the list and stands at the same character
-- again, for any number of rounds, so load_processes does not return within any number of rounds.
pub load_processes-foreign :
    (n k : ℕ) (fresh : ℕ → Process) (s : List ℕ) (c : ℕ) (t : List ℕ)
    → IsForeign c
    → skip_space s ≡ c ∷ t
    → (read_process (fresh 0) s ≡ some (some (new_process (fresh 0) blank_line), c ∷ t))
      × (load_loop (suc n + k) fresh [] s ≡ load_loop k fresh (nameless fresh 0 (suc n)) (c ∷ t))
      × (load_processes k fresh s ≡ none)
unfolding load_processes
load_processes-foreign n k fresh s c t f e = (
  read_process-foreign (fresh 0) s c t f e,
  load_loop-foreign n k fresh [] s c t f e,
  load_loop-none k fresh s c t f e,
)

scan_rest-long :
    (n : ℕ) (w s : List ℕ)
    → IsWord w
    → max_name_len ≤ length w
    → StopsWord s
    → scan_rest n (32 ∷ (w ++ s)) ≡ none
unfolding scan_rest scan_name
scan_rest-long n [] s word long stop = absurd (omega arith)
scan_rest-long n (c ∷ w) s word long stop =
    let over : ltb (length (c ∷ w)) max_name_len ≡ false = ground (arith, long) in
    rw
      (
        skip_space-blank 32 (c ∷ w ++ s) refl,
        skip_space-stop c (w ++ s) word.0,
        read_word-append (c ∷ w) s word stop,
        over,
      )
      refl

-- A name of eight characters or more, on a line that is right otherwise, is written past the end of
-- the array of read_process.
pub read_process-long :
    (p : Process) (l : Line) (rest : List ℕ)
    → l.time_arrived < 2 ^ 32
    → IsWord l.name
    → max_name_len ≤ length l.name
    → read_process p (print_line l rest) ≡ none
unfolding read_process print_line
read_process-long p l rest arrives word long =
    rw
      (
        scan_line-decimal l.time_arrived _ arrives refl,
        scan_rest-long l.time_arrived l.name _ word long refl,
      )
      refl
