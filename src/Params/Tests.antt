-- ===== src/Params/Tests.antt =====
-- The theorems on parameters and the log, at small inputs.
use zamt.Prelude.{◌≡◌, ◌↔◌, ◌⊎◌, refl, true, List, [], ◌∷◌, ◌++◌, some, arith}
use zamt.Prelude.Int.{pos, negsuc}
use zamt.Params.{
  print_ℕ, CString, has_param, get_param, get_num_param, print_ℤ, atoi, Log, create_log,
  verbose_param, log_number,
}
use zamt.Params.Search.{
  FirstWord, get_param-FirstWord, Occurs, has_param-↔, AllAvoid, create_log_lem,
}
use zamt.Params.Numbers.{atoi-print, get_num_param-print}

-- "zamt"
abbrev program : CString
program = 122 ∷ 97 ∷ 109 ∷ 116 ∷ []

-- "-j"
abbrev threads_param : CString
threads_param = 45 ∷ 106 ∷ []

-- "-vcore", "x-j4"
abbrev arguments : List CString
arguments = (45 ∷ 118 ∷ 99 ∷ 111 ∷ 114 ∷ 101 ∷ []) ∷ (120 ∷ 45 ∷ 106 ∷ 52 ∷ []) ∷ []

get_param-FirstWord_example :
    FirstWord threads_param arguments
      (get_param threads_param (record { argv = program ∷ arguments }))
get_param-FirstWord_example = get_param-FirstWord threads_param program arguments

-- The prefix is found behind the start of the argument, too.
found_inside : get_num_param threads_param (record { argv = program ∷ arguments }) ≡ some (pos 4)
unfolding get_num_param
found_inside = refl

has_param_found :
    (has_param threads_param (record { argv = program ∷ arguments }) ≡ true)
    ↔ Occurs threads_param arguments
has_param_found = has_param-↔ threads_param program arguments

-- "core"
abbrev label : CString
label = 99 ∷ 111 ∷ 114 ∷ 101 ∷ []

verbose_log :
    (log : Log) × (create_log label (record { argv = program ∷ arguments }) ≡ some log)
    × (log.label ≡ label)
    × ((log.verbose ≡ true)
        ↔ (Occurs verbose_param arguments ⊎ ¬ AllAvoid (verbose_param ++ label) arguments))
verbose_log = create_log_lem label program arguments (omega arith)

minus_read : atoi (print_ℤ (negsuc 1204) ++ (32 ∷ [])) ≡ some (negsuc 1204)
minus_read = atoi-print (negsuc 1204) (32 ∷ []) refl refl

get_num_param-print_example :
    get_num_param threads_param
      (record { argv = program ∷ ([] ++ ((threads_param ++ print_ℤ (pos 12)) ∷ arguments)) })
    ≡ some (pos 12)
get_num_param-print_example =
    get_num_param-print threads_param program [] arguments (pos 12) tt refl

-- "[core] 7Hz"
printed :
    log_number (record { label = label; verbose = true }) [] (pos 7) (72 ∷ 122 ∷ [])
    ≡ some (91 ∷ 99 ∷ 111 ∷ 114 ∷ 101 ∷ 93 ∷ 32 ∷ 55 ∷ 72 ∷ 122 ∷ 10 ∷ [])
unfolding log_number print_ℕ
printed = refl
