-- ===== src/Program/Tests.antt =====
-- The whole program on the input of cases/task1/simple.txt.
use process_management_syste.Base.{ℕ, ◌≡◌, refl, none, some, List, [], ◌∷◌, if◌then◌else◌}
use process_management_syste.Base.Text.{codes, streq, strcmp}
use process_management_syste.Loading.Format.{print_lines}
use process_management_syste.Loading.Tests.{simple}
use process_management_syste.Program.{Files, num_args, process_args, process_opts}

abbrev file_name : List ℕ
file_name = codes "simple.txt"

-- One file.
files : Files
files name = if streq name file_name then some (print_lines simple) else none

-- A file that cannot be opened, and a call with too few arguments.
no_file : process_args files num_args ((b'f', codes "other.txt") ∷ []) ≡ none
unfolding process_args process_opts files streq strcmp
no_file = refl

few_args : process_args files 7 [] ≡ none
unfolding process_args
few_args = refl
