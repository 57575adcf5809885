-- ===== src/Params.antt =====
-- core/src/CLIParameters.cpp and core/src/Log.cpp: the parameters of the command line, and what the
-- log prints. A C string is the list of its characters' codes, without the final zero.
pub mod Search
pub mod Numbers
pub mod Tests
use zamt.Prelude.{
  ℕ, zero, suc, ◌+◌, ◌-◌, ◌*◌, ◌/◌, ◌%◌, ◌^◌, ◌≡◌, Bool, true, false, List, [], ◌∷◌, ◌++◌, Option,
  none, some, ltb, leb, ◌==◌, if◌then◌else◌, ◌||◌, ◌&&◌, ◌>>=◌, ◌>>◌, assert, length, drop,
}
use zamt.Prelude.Int.{ℤ, pos, negsuc, sub_ℕ}

abbrev pub CString : Type 0
CString = List ℕ

-- `strcmp(a, b) == 0`
unfoldable pub equal : CString → CString → Bool
equal [] [] = true
equal [] (y ∷ b) = false
equal (x ∷ a) [] = false
equal (x ∷ a) (y ∷ b) = if x == y then equal a b else false

-- What follows `prefix` in a string that starts with it.
unfoldable pub strip : CString → CString → Option CString
strip [] s = some s
strip (x ∷ prefix) [] = none
strip (x ∷ prefix) (y ∷ s) = let rest = strip prefix s in if x == y then rest else none

-- `strstr(s, prefix)`: the rest of `s` from the first place on where `prefix` occurs.
unfoldable pub strstr : CString → CString → Option CString
unfolding strip
strstr [] prefix = elim (strip prefix []) [ none ↦ none | some r ↦ some [] ]
strstr (y ∷ s) prefix =
    let later = strstr s prefix in
    elim (strip prefix (y ∷ s)) [ none ↦ later | some r ↦ some (y ∷ s) ]

-- `argv_`; the first string is the program's name.
pub record Cli : Type 0 where
  pub argv : List CString

unfoldable pub any_equal : CString → List CString → Bool
unfolding equal
any_equal param [] = false
any_equal param (arg ∷ args) = if equal arg param then true else any_equal param args

unfoldable pub has_param : CString → Cli → Bool
unfolding any_equal
has_param param cli = any_equal param (drop 1 cli.argv)

unfoldable pub first_rest : CString → List CString → Option CString
unfolding strstr
first_rest prefix [] = none
first_rest prefix (arg ∷ args) =
    let later = first_rest prefix args in
    elim (strstr arg prefix) [ none ↦ later | some found ↦ some (drop (length prefix) found) ]

unfoldable pub get_param : CString → Cli → Option CString
unfolding first_rest
get_param prefix cli = first_rest prefix (drop 1 cli.argv)

-- `isspace` in the C locale.
abbrev pub is_space : ℕ → Bool
is_space c = (c == 32) || (leb 9 c && leb c 13)

abbrev pub is_digit : ℕ → Bool
is_digit c = leb 48 c && leb c 57

-- The digits at the start of a string, behind a number that is read already.
unfoldable pub digits_value : ℕ → CString → ℕ
digits_value n [] = n
digits_value n (c ∷ s) = if is_digit c then digits_value (10 * n + (c - 48)) s else n

unfoldable pub signed_value : CString → ℤ
unfolding digits_value
signed_value [] = pos 0
signed_value (c ∷ s) =
    if c == 45
    then sub_ℕ 0 (digits_value 0 s)
    else if c == 43
    then pos (digits_value 0 s)
    else pos (digits_value 0 (c ∷ s))

abbrev pub in_range : ℤ → Bool
in_range (pos n) = ltb n (2 ^ 31)
in_range (negsuc n) = ltb n (2 ^ 31)

-- `none` is a number out of the range of `int`, where `atoi` is undefined.
unfoldable pub atoi : CString → Option ℤ
unfolding signed_value
atoi [] = some (pos 0)
atoi (c ∷ s) =
    let later = atoi s in
    let here = signed_value (c ∷ s) in
    if is_space c then later else if in_range here then some here else none

-- `kNotFound`
abbrev pub not_found : ℤ
not_found = negsuc 99998

unfoldable pub get_num_param : CString → Cli → Option ℤ
unfolding get_param atoi
get_num_param prefix cli = elim (get_param prefix cli) [ none ↦ some not_found | some s ↦ atoi s ]

-- `kVerboseParamStr`, "-v".
abbrev pub verbose_param : CString
verbose_param = 45 ∷ 118 ∷ []

pub record Log : Type 0 where
  pub label : CString
  pub verbose : Bool

-- `none` is a label too long for the buffer of 32 characters.
unfoldable pub create_log : CString → Cli → Option Log
unfolding has_param get_param
create_log label cli =
    let searched : Bool = elim (get_param (verbose_param ++ label) cli) [
      | none ↦ false
      | some r ↦ true
    ] in
    if has_param verbose_param cli
    then some (record { label = label; verbose = true })
    else do assert (ltb (length label) 29); some (record { label = label; verbose = searched })

-- What `printf` writes for "%d", most significant digit first.
unfoldable pub print_ℕ : ℕ → ℕ → CString
print_ℕ zero n = []
print_ℕ (suc fuel) n =
    let higher = print_ℕ fuel (n / 10) in
    if ltb n 10 then (48 + n) ∷ [] else higher ++ ((48 + n % 10) ∷ [])

abbrev pub print_ℤ : ℤ → CString
print_ℤ (pos n) = print_ℕ (suc n) n
print_ℤ (negsuc n) = 45 ∷ print_ℕ (suc (suc n)) (suc n)

-- The line that LogMessage prints, if it prints one.
unfoldable pub log_message : Log → CString → Option CString
log_message log msg =
    if log.verbose then some (91 ∷ (log.label ++ (93 ∷ 32 ∷ (msg ++ (10 ∷ []))))) else none

unfoldable pub log_number : Log → CString → ℤ → CString → Option CString
log_number log msg num suffix =
    if log.verbose
    then some (91 ∷ (log.label ++ (93 ∷ 32 ∷ (msg ++ (print_ℤ num ++ (suffix ++ (10 ∷ [])))))))
    else none
