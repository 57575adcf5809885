-- ===== src/Params/Numbers.antt =====
-- Numbers in the log and in parameters: `printf` with "%d" and `atoi`.
use zamt.Params.Search.{Avoids, AllAvoid, FoundAt, strstr-FoundAt, strip-append, drop-append}
use zamt.Prelude.{
  ℕ, zero, suc, ◌+◌, ◌*◌, ◌/◌, ◌%◌, ◌^◌, ◌≤◌, ◌<◌, ◌≡◌, refl, sym, ap, ◌∙◌, true, false, List, [],
  ◌∷◌, ◌++◌, Option, none, some, arith, ltb, if_cases,
}
use mathlib.Core.List.{append_assoc, append-nil}
use zamt.Prelude.Int.{ℤ, pos, negsuc}
use zamt.Params.{
  strip, strstr, first_rest, CString, is_digit, digits_value, signed_value, in_range, atoi, print_ℕ,
  print_ℤ, get_num_param,
}

-- A text that no digit starts.
abbrev pub Ends : CString → Type 0
Ends [] = Unit
Ends (c ∷ s) = is_digit c ≡ false

digits_value-Ends : (n : ℕ) (s : CString) → Ends s → digits_value n s ≡ n
unfolding digits_value
digits_value-Ends n [] h = refl
digits_value-Ends n (c ∷ s) h = ground (arith, h)

ltb-false : (a b : ℕ) → ltb a b ≡ false → b ≤ a
ltb-false a b h = ground (arith, h)

-- Digits that are read behind others.
digits_value-digit :
    (n d : ℕ) (s : CString) → d < 10 → digits_value n ((48 + d) ∷ s) ≡ digits_value (10 * n + d) s
unfolding digits_value
digits_value-digit n d s small = ground arith

-- Fuel `suc n` is enough to print `n`.
print_ℕ-digits_value :
    (fuel n : ℕ) (s : CString) → n < fuel → digits_value 0 (print_ℕ fuel n ++ s) ≡ digits_value n s
unfolding print_ℕ
print_ℕ-digits_value zero n s h = absurd (omega arith)
print_ℕ-digits_value (suc fuel) n s h =
    if_cases (λ t. digits_value 0 (t ++ s) ≡ digits_value n s) (ltb n 10) ((48 + n) ∷ [])
      (print_ℕ fuel (n / 10) ++ ((48 + n % 10) ∷ []))
      (λ small. ground (arith, digits_value-digit 0 n s, small))
      (λ large.
        ap (digits_value 0) (append_assoc (print_ℕ fuel (n / 10)) ((48 + n % 10) ∷ []) s)
        ∙ (print_ℕ-digits_value fuel (n / 10) ((48 + n % 10) ∷ s)
              (omega (arith, ltb-false n 10 large))
            ∙ (digits_value-digit (n / 10) (n % 10) s (omega arith)
                ∙ ap (λ k. digits_value k s) (omega arith))))

print_ℕ-digit :
    (fuel n : ℕ) → n < fuel → (d : ℕ) × (t : CString) × (d < 10) × (print_ℕ fuel n ≡ (48 + d) ∷ t)
unfolding print_ℕ
print_ℕ-digit zero n h = absurd (omega arith)
print_ℕ-digit (suc fuel) n h =
    if_cases (λ p. (d : ℕ) × (t : CString) × (d < 10) × (p ≡ (48 + d) ∷ t)) (ltb n 10)
      ((48 + n) ∷ []) (print_ℕ fuel (n / 10) ++ ((48 + n % 10) ∷ []))
      (λ small. (n, [], ground (arith, small), refl))
      (λ large.
        let (d, t, digit, e) = print_ℕ-digit fuel (n / 10) (omega (arith, ltb-false n 10 large)) in
        (d, t ++ ((48 + n % 10) ∷ []), digit, ap (λ p. p ++ ((48 + n % 10) ∷ [])) e))

atoi-digit :
    (d n : ℕ) (t : CString)
    → d < 10
    → digits_value 0 ((48 + d) ∷ t) ≡ n
    → n < 2 ^ 31
    → atoi ((48 + d) ∷ t) ≡ some (pos n)
unfolding atoi signed_value
atoi-digit d n t digit value range = ground (arith, digit, value, range)

atoi-minus :
    (n : ℕ) (t : CString) → digits_value 0 t ≡ suc n → n < 2 ^ 31 → atoi (45 ∷ t) ≡ some (negsuc n)
unfolding atoi signed_value
atoi-minus n t value range = ground (arith, value, range)

print_ℕ-value : (n : ℕ) (s : CString) → Ends s → digits_value 0 (print_ℕ (suc n) n ++ s) ≡ n
print_ℕ-value n s ends = print_ℕ-digits_value (suc n) n s (omega arith) ∙ digits_value-Ends n s ends

-- A number that the log prints with "%d" is read back by `atoi`, whatever stands behind it, as long
-- as that does not start with a digit.
pub atoi-print : (z : ℤ) (s : CString) → in_range z ≡ true → Ends s → atoi (print_ℤ z ++ s) ≡ some z
atoi-print (pos n) s range ends =
    let (d, t, digit, e) = print_ℕ-digit (suc n) n (omega arith) in
    ap (λ p. atoi (p ++ s)) e
    ∙ atoi-digit d n (t ++ s) digit
        (sym (ap (λ p. digits_value 0 (p ++ s)) e) ∙ print_ℕ-value n s ends) (ground (arith, range))
atoi-print (negsuc n) s range ends =
    atoi-minus n (print_ℕ (suc (suc n)) (suc n) ++ s) (print_ℕ-value (suc n) s ends)
      (ground (arith, range))

strstr-strip : (s prefix r : CString) → strip prefix s ≡ some r → strstr s prefix ≡ some s
unfolding strstr
strstr-strip [] prefix r h = ground (arith, h)
strstr-strip (y ∷ s) prefix r h = ground (arith, h)

FoundAt-Avoids :
    (s prefix : CString) (o : Option CString) → Avoids prefix s → FoundAt s prefix o → o ≡ none
FoundAt-Avoids s prefix none avoids h = refl
FoundAt-Avoids s prefix (some found) avoids h = absurd (avoids h.0 h.1 h.2)

strstr-Avoids : (s prefix : CString) → Avoids prefix s → strstr s prefix ≡ none
strstr-Avoids s prefix avoids =
    FoundAt-Avoids s prefix (strstr s prefix) avoids (strstr-FoundAt s prefix)

first_rest-skipped :
    (prefix rest : CString) (skipped later : List CString)
    → AllAvoid prefix skipped
    → first_rest prefix (skipped ++ ((prefix ++ rest) ∷ later)) ≡ some rest
unfolding first_rest
first_rest-skipped prefix rest [] later h = ground (
  arith,
  strstr-strip (prefix ++ rest) prefix rest (strip-append prefix rest),
  drop-append prefix rest,
)
first_rest-skipped prefix rest (s ∷ skipped) later h =
    ground (arith, strstr-Avoids s prefix h.0, first_rest-skipped prefix rest skipped later h.1)

-- A number given as the rest of a parameter is read back, if no argument before it contains the
-- prefix and it fits in an `int`.
pub get_num_param-print :
    (prefix program : CString) (skipped later : List CString) (z : ℤ)
    → AllAvoid prefix skipped
    → in_range z ≡ true
    → get_num_param prefix
        (record { argv = program ∷ (skipped ++ ((prefix ++ print_ℤ z) ∷ later)) })
      ≡ some z
unfolding get_num_param
get_num_param-print prefix program skipped later z avoid range = ground (
  arith,
  first_rest-skipped prefix (print_ℤ z) skipped later avoid,
  atoi-print z [] range tt,
  append-nil (print_ℤ z),
)
