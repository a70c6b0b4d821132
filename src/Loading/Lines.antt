-- ===== src/Loading/Lines.antt =====
-- What load_processes of src/process_data.c makes of a file in the format of README.md: a line for
-- each process, with its arrival time, name, service time and memory requirement.
use mathlib.Core.List.{append_assoc, append-nil}
use process_management_syste.Base.{
  ℕ, zero, suc, ◌+◌, ◌<◌, ◌≡◌, refl, ap, sym, ◌∙◌, some, List, [], ◌∷◌, ◌++◌, arith,
}
use process_management_syste.Base.Lists.{length, length-append}
use process_management_syste.Base.Scan.{skip_space}
use process_management_syste.ProcessData.{Process}
use process_management_syste.ReadyQueue.{enqueue}
use process_management_syste.Loading.{Line, read_process, load_loop, load_processes}
use process_management_syste.Loading.Format.{
  print_line, print_lines, AllLines, as_read, loaded, new_process-as_read, scan_line-skip,
  scan_line-print_line, scan_line-end,
}

module _ (fresh : ℕ → Process) where
  -- The loop from a place with nothing but white space before the lines.
  load_loop-lines :
      (k : ℕ) (ls : List Line) (ps : List Process) (s : List ℕ)
      → length ls < k
      → skip_space s ≡ skip_space (print_lines ls)
      → AllLines ls
      → load_loop k fresh ps s ≡ some (ps ++ loaded fresh (length ps) ls)
  unfolding load_loop read_process loaded print_lines AllLines enqueue skip_space
  load_loop-lines zero ls ps s h e v = absurd (omega arith)
  load_loop-lines (suc k) [] ps s h e v = rw (scan_line-end s e) (ap some (sym (append-nil ps)))
  load_loop-lines (suc k) (l ∷ ls) ps s h e v =
      let p = as_read (fresh (length ps)) l in
      let rest = print_lines ls in
      let again = load_loop-lines k ls (ps ++ p ∷ []) (10 ∷ rest) (omega arith) refl v.1 in
      rw
        (
          scan_line-skip s (print_line l rest) e,
          scan_line-print_line l rest v.0,
          new_process-as_read (fresh (length ps)) l v.0.word,
        )
        (again
          ∙ ap (λ n. some (ps ++ p ∷ [] ++ loaded fresh n ls)) (length-append ps (p ∷ []))
          ∙ ap some (append_assoc ps (p ∷ []) (loaded fresh (length ps + 1) ls)))

  -- A file with a line for each process, in the format of the README, is loaded in full, whatever
  -- malloc returns: the loop ends after one more call of read_process than there are lines, without
  -- undefined behaviour, and the list has a process for each line, in their order, with the line's
  -- numbers and name. The numbers fit into their variables; a name is a word of one to seven
  -- characters.
  pub load_processes-print_lines :
      (k : ℕ) (ls : List Line)
      → length ls < k
      → AllLines ls
      → load_processes k fresh (print_lines ls) ≡ some (loaded fresh 0 ls)
  unfolding load_processes
  load_processes-print_lines k ls h v = load_loop-lines k ls [] (print_lines ls) h refl v
