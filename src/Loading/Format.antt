-- ===== src/Loading/Format.antt =====
-- A line of a file in the format of README.md, and what read_process of src/process_data.c makes of it.
use process_management_syste.Base.{
  ℕ, ◌+◌, ◌^◌, ◌<◌, ◌≡◌, refl, ap, ◌∙◌, true, false, none, some, List, [], ◌∷◌, ◌++◌, arith, ltb,
  ◌==◌,
}
use process_management_syste.Base.Lists.{length}
use process_management_syste.Base.Scan.{
  is_digit, is_space, skip_space, read_digits, IsWord, StopsDigits, StopsWord, decimal,
  decimal-Starts, skip_space-stop, skip_space-blank, read_digits-decimal, read_word-append,
}
use process_management_syste.ProcessData.{Process, State}
use process_management_syste.Loading.{
  Line, max_name_len, scan_number, scan_unsigned, scan_name, scan_last, scan_service, scan_rest,
  scan_at, scan_line, strdup, new_process,
}

-- The line of a process, before the rest of the file.
unfoldable pub print_line : Line → List ℕ → List ℕ
print_line l rest =
    decimal l.time_arrived
    ++ (32
        ∷ (l.name
            ++ (32
                ∷ (decimal l.service_time ++ (32 ∷ (decimal l.mem_requirement ++ (10 ∷ rest)))))))

unfoldable pub print_lines : List Line → List ℕ
print_lines [] = []
print_lines (l ∷ ls) = print_line l (print_lines ls)

-- The numbers fit into their variables, and the name is a word that fits into its array.
pub record IsLine (l : Line) : Type 0 where
  pub arrives : l.time_arrived < 2 ^ 32
  pub serves : l.service_time < 2 ^ 32
  pub needs : l.mem_requirement < 2 ^ 31
  pub word : IsWord l.name
  pub named : 0 < length l.name
  pub short : length l.name < max_name_len

unfoldable pub AllLines : List Line → Type 0
AllLines [] = Unit {0}
AllLines (l ∷ ls) = IsLine l × AllLines ls

-- The process of a line: the fields that the line does not name are those of `p`.
unfoldable pub as_read : Process → Line → Process
as_read p l = record p {
  arrival_time = l.time_arrived;
  service_time = l.service_time;
  service_time_left = l.service_time;
  mem_requirement = l.mem_requirement;
  name = l.name;
  state = State.idle;
  block_node = none;
  pid = 0;
}

-- The processes of the lines, from the `n`th on.
unfoldable pub loaded : (ℕ → Process) → ℕ → List Line → List Process
loaded fresh n [] = []
loaded fresh n (l ∷ ls) = as_read (fresh n) l ∷ loaded fresh (n + 1) ls

strdup-word : (w : List ℕ) → IsWord w → strdup w ≡ w
unfolding strdup
strdup-word [] v = refl
strdup-word (c ∷ w) v =
    let kept : (c == 0) ≡ false = ground (arith, v.1) in rw kept (ap (◌∷◌ c) (strdup-word w v.2))

pub new_process-as_read : (p : Process) (l : Line) → IsWord l.name → new_process p l ≡ as_read p l
unfolding new_process as_read
new_process-as_read p l v =
    ap
      (λ name. record p {
        arrival_time = l.time_arrived;
        service_time = l.service_time;
        service_time_left = l.service_time;
        mem_requirement = l.mem_requirement;
        name = name;
        state = State.idle;
        block_node = none;
        pid = 0;
      })
      (strdup-word l.name v)

digit-not_space : (c : ℕ) → is_digit c ≡ true → is_space c ≡ false
digit-not_space c e = ground (arith, e)

pub skip_space-decimal : (n : ℕ) (s : List ℕ) → skip_space (decimal n ++ s) ≡ decimal n ++ s
skip_space-decimal n s =
    let d = decimal-Starts n in
    rw d.whole (skip_space-stop d.head (d.tail ++ s) (digit-not_space d.head d.digit))

scan_number-digits :
    (limit n c : ℕ) (t rest : List ℕ)
    → is_digit c ≡ true
    → n < limit
    → read_digits 0 (c ∷ t) ≡ (n, rest)
    → scan_number limit (c ∷ t) ≡ some (some n, rest)
unfolding scan_number scan_unsigned
scan_number-digits limit n c t rest d small e =
    let plus : (c == b'+') ≡ false = ground (arith, d) in
    let minus : (c == b'-') ≡ false = ground (arith, d) in
    let fits : ltb n limit ≡ true = ground (arith, small) in rw (plus, minus, d, e, fits) refl

pub scan_number-decimal :
    (limit n : ℕ) (rest : List ℕ)
    → n < limit
    → StopsDigits rest
    → scan_number limit (decimal n ++ rest) ≡ some (some n, rest)
scan_number-decimal limit n rest small stop =
    let d = decimal-Starts n in
    let e = rw d.whole at (read_digits-decimal n rest stop) in
    rw d.whole (scan_number-digits limit n d.head (d.tail ++ rest) rest d.digit small e)

scan_name-word :
    (w rest : List ℕ)
    → IsWord w
    → 0 < length w
    → length w < max_name_len
    → StopsWord rest
    → scan_name (skip_space (w ++ rest)) ≡ some (some w, rest)
unfolding scan_name
scan_name-word [] rest word some_name short stop = absurd (omega arith)
scan_name-word (c ∷ w) rest word some_name short stop =
    let fits : ltb (length (c ∷ w)) max_name_len ≡ true = ground (arith, short) in
    let e = read_word-append (c ∷ w) rest word stop in
    rw (skip_space-stop c (w ++ rest) word.0, e, fits) refl

pub scan_line-skip : (s t : List ℕ) → skip_space s ≡ skip_space t → scan_line s ≡ scan_line t
unfolding scan_line
scan_line-skip s t e = ap scan_at e

scan_last-decimal :
    (t m : ℕ) (name : List ℕ) (service : ℕ) (rest : List ℕ)
    → m < 2 ^ 31
    → scan_last t name service (32 ∷ (decimal m ++ (10 ∷ rest)))
      ≡ some (
        some
            (record { time_arrived = t; name = name; service_time = service; mem_requirement = m }),
        10 ∷ rest,
      )
unfolding scan_last
scan_last-decimal t m name service rest small =
    rw
      (
        skip_space-blank 32 (decimal m ++ (10 ∷ rest)) refl,
        skip_space-decimal m (10 ∷ rest),
        scan_number-decimal (2 ^ 31) m (10 ∷ rest) small refl,
      )
      refl

scan_service-decimal :
    (t n : ℕ) (name s : List ℕ)
    → n < 2 ^ 32
    → StopsDigits s
    → scan_service t name (32 ∷ (decimal n ++ s)) ≡ scan_last t name n s
unfolding scan_service
scan_service-decimal t n name s small stop =
    rw
      (
        skip_space-blank 32 (decimal n ++ s) refl,
        skip_space-decimal n s,
        scan_number-decimal (2 ^ 32) n s small stop,
      )
      refl

scan_rest-word :
    (t : ℕ) (w s : List ℕ)
    → IsWord w
    → 0 < length w
    → length w < max_name_len
    → StopsWord s
    → scan_rest t (32 ∷ (w ++ s)) ≡ scan_service t w s
unfolding scan_rest
scan_rest-word t w s word some_name short stop =
    rw (skip_space-blank 32 (w ++ s) refl, scan_name-word w s word some_name short stop) refl

scan_line-digits :
    (s : List ℕ) (c : ℕ) (t : List ℕ) (n : ℕ) (rest : List ℕ)
    → skip_space s ≡ c ∷ t
    → scan_number (2 ^ 32) (c ∷ t) ≡ some (some n, rest)
    → scan_line s ≡ scan_rest n rest
unfolding scan_line scan_at
scan_line-digits s c t n rest e f = ap scan_at e ∙ rw f refl

pub scan_line-decimal :
    (n : ℕ) (s : List ℕ) → n < 2 ^ 32 → StopsDigits s → scan_line (decimal n ++ s) ≡ scan_rest n s
scan_line-decimal n s small stop =
    let d = decimal-Starts n in
    scan_line-digits (decimal n ++ s) d.head (d.tail ++ s) n s
      (skip_space-decimal n s ∙ ap (λ l. l ++ s) d.whole)
      (rw d.whole at (scan_number-decimal (2 ^ 32) n s small stop))

pub scan_line-print_line :
    (l : Line) (rest : List ℕ) → IsLine l → scan_line (print_line l rest) ≡ some (some l, 10 ∷ rest)
unfolding print_line
scan_line-print_line l rest v =
    let last = 32 ∷ (decimal l.mem_requirement ++ (10 ∷ rest)) in
    let service = 32 ∷ (decimal l.service_time ++ last) in
    scan_line-decimal l.time_arrived (32 ∷ (l.name ++ service)) v.arrives refl
    ∙ scan_rest-word l.time_arrived l.name service v.word v.named v.short refl
    ∙ scan_service-decimal l.time_arrived l.service_time l.name last v.serves refl
    ∙ scan_last-decimal l.time_arrived l.mem_requirement l.name l.service_time rest v.needs

pub scan_line-end : (s : List ℕ) → skip_space s ≡ [] → scan_line s ≡ some (none, [])
unfolding scan_line scan_at
scan_line-end s e = ap scan_at e
