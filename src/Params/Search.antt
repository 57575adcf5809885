-- ===== src/Params/Search.antt =====
-- CLIParameters::HasParam and GetParam against the words of the command line.
use zamt.Prelude.{
  Bool-cases, ◌↔◌, ◌⊎◌, inl, inr, ◌<◌, subst, ℕ, suc, ◌≤◌, ◌≡◌, ◌≢◌, refl, sym, ap, ◌∙◌, true,
  false, List, [], ◌∷◌, ◌++◌, Option, none, some, arith, length, drop,
}
use zamt.Params.{
  CString, equal, strip, strstr, Cli, any_equal, has_param, first_rest, get_param, Log, create_log,
  verbose_param,
}

-- A string in which `prefix` does not occur.
abbrev pub Avoids : CString → CString → Type 0
Avoids prefix s = (before rest : CString) → s ≢ before ++ (prefix ++ rest)

abbrev pub AllAvoid : CString → List CString → Type 0
AllAvoid prefix [] = Unit
AllAvoid prefix (s ∷ ss) = Avoids prefix s × AllAvoid prefix ss

tail_eq : {x y : ℕ} {s t : CString} → x ∷ s ≡ y ∷ t → s ≡ t
tail_eq e = ap (drop 1) e

none≢some : {s : CString} → none ≢ some s
none≢some e = cc

true≢false : true ≢ false
true≢false e = cc

strip-found : (prefix s r : CString) → strip prefix s ≡ some r → s ≡ prefix ++ r
unfolding strip
strip-found [] s r h = cc
strip-found (x ∷ prefix) [] r h = cc
strip-found (x ∷ prefix) (y ∷ s) r h = ground (arith, strip-found prefix s r)

pub strip-append : (prefix rest : CString) → strip prefix (prefix ++ rest) ≡ some rest
unfolding strip
strip-append [] rest = refl
strip-append (x ∷ prefix) rest = ground (arith, strip-append prefix rest)

-- The place that `strstr` finds is the first one.
abbrev pub FoundAt : CString → CString → Option CString → Type 0
FoundAt s prefix none = Avoids prefix s
FoundAt s prefix (some found) =
    (before rest : CString) × (s ≡ before ++ (prefix ++ rest))
    × (found ≡ prefix ++ rest)
    × ((b r : CString) → s ≡ b ++ (prefix ++ r) → length before ≤ length b)

pub drop-append : (xs ys : CString) → drop (length xs) (xs ++ ys) ≡ ys
drop-append [] ys = refl
drop-append (x ∷ xs) ys = drop-append xs ys

-- A match at the start is the first one.
FoundAt-start : (prefix s r : CString) → strip prefix s ≡ some r → FoundAt s prefix (some s)
FoundAt-start prefix s r h =
    ([], r, strip-found prefix s r h, strip-found prefix s r h, λ b r' e. omega arith)

not_here : (prefix s rest : CString) → strip prefix s ≡ none → s ≢ prefix ++ rest
not_here prefix s rest h e = none≢some (sym h ∙ (ap (strip prefix) e ∙ strip-append prefix rest))

first_later :
    (prefix : CString) (y : ℕ) (s : CString)
    → strip prefix (y ∷ s) ≡ none
    → (n : ℕ) → ((b r : CString) → s ≡ b ++ (prefix ++ r) → n ≤ length b)
    → (b r : CString) → y ∷ s ≡ b ++ (prefix ++ r)
    → suc n ≤ length b
first_later prefix y s h n first [] r e = absurd (not_here prefix _ r h e)
first_later prefix y s h n first (x ∷ b) r e = omega (arith, first b r (tail_eq e))

Avoids-[] : (prefix : CString) → strip prefix [] ≡ none → Avoids prefix []
Avoids-[] prefix h [] rest e = not_here prefix _ rest h e
Avoids-[] prefix h (x ∷ before) rest e = cc

Avoids-∷ :
    (prefix : CString) (y : ℕ) (s : CString)
    → strip prefix (y ∷ s) ≡ none
    → Avoids prefix s
    → Avoids prefix (y ∷ s)
Avoids-∷ prefix y s h later [] rest e = not_here prefix _ rest h e
Avoids-∷ prefix y s h later (x ∷ before) rest e = later before rest (tail_eq e)

FoundAt-[] :
    (prefix : CString) (o : Option CString)
    → strip prefix [] ≡ o
    → FoundAt [] prefix (elim o [ none ↦ none | some r ↦ some [] ])
FoundAt-[] prefix none h = Avoids-[] prefix h
FoundAt-[] prefix (some r) h = FoundAt-start prefix [] r h

FoundAt-later :
    (prefix : CString) (y : ℕ) (s : CString) (later : Option CString)
    → strip prefix (y ∷ s) ≡ none
    → FoundAt s prefix later
    → FoundAt (y ∷ s) prefix later
FoundAt-later prefix y s none h later = Avoids-∷ prefix y s h later
FoundAt-later prefix y s (some found) h (before, rest, whole, here, first) =
    (y ∷ before, rest, ap (◌∷◌ y) whole, here, first_later prefix y s h (length before) first)

FoundAt-∷ :
    (prefix : CString) (y : ℕ) (s : CString) (later o : Option CString)
    → strip prefix (y ∷ s) ≡ o
    → FoundAt s prefix later
    → FoundAt (y ∷ s) prefix (elim o [ none ↦ later | some r ↦ some (y ∷ s) ])
FoundAt-∷ prefix y s later none h found = FoundAt-later prefix y s later h found
FoundAt-∷ prefix y s later (some r) h found = FoundAt-start prefix (y ∷ s) r h

pub strstr-FoundAt : (s prefix : CString) → FoundAt s prefix (strstr s prefix)
unfolding strstr
strstr-FoundAt [] prefix = FoundAt-[] prefix (strip prefix []) refl
strstr-FoundAt (y ∷ s) prefix =
    FoundAt-∷ prefix y s (strstr s prefix) (strip prefix (y ∷ s)) refl (strstr-FoundAt s prefix)

-- The first word in which `prefix` occurs, and what follows the first place of `prefix` in it.
pub FirstWord : CString → List CString → Option CString → Type 0
FirstWord prefix args none = AllAvoid prefix args
FirstWord prefix args (some rest) =
    (skipped : List CString) × (before : CString) × (later : List CString) × AllAvoid prefix skipped
    × (args ≡ skipped ++ ((before ++ (prefix ++ rest)) ∷ later))
    × ((b r : CString) → before ++ (prefix ++ rest) ≡ b ++ (prefix ++ r) → length before ≤ length b)

first_rest-∷ :
    (prefix arg : CString) (args : List CString) (later o : Option CString)
    → FoundAt arg prefix o
    → FirstWord prefix args later
    → FirstWord prefix
        (arg ∷ args)
        (elim o [ none ↦ later | some found ↦ some (drop (length prefix) found) ])
unfolding FirstWord
first_rest-∷ prefix arg args none none avoids rest = (avoids, rest)
first_rest-∷ prefix arg args (some r) none avoids (skipped, before, later, all, whole, first) =
    (arg ∷ skipped, before, later, (avoids, all), ap (◌∷◌ arg) whole, first)
first_rest-∷ prefix arg args later (some found) (before, rest, whole, here, first) h =
    subst (λ x. FirstWord prefix (arg ∷ args) (some x))
      (sym (ap (drop (length prefix)) here ∙ drop-append prefix rest))
      ([], before, args, tt, ap (λ w. w ∷ args) whole, λ b r e. first b r (whole ∙ e))

first_rest_lem :
    (prefix : CString) (args : List CString) → FirstWord prefix args (first_rest prefix args)
unfolding first_rest FirstWord
first_rest_lem prefix [] = tt
first_rest_lem prefix (arg ∷ args) =
    first_rest-∷ prefix arg args (first_rest prefix args) (strstr arg prefix)
      (strstr-FoundAt arg prefix) (first_rest_lem prefix args)

-- GetParam takes the first argument that contains the prefix anywhere and returns what follows the
-- first place of the prefix in it, and a null pointer if no argument contains it. The program's
-- name is not looked at.
pub get_param-FirstWord :
    (prefix program : CString) (args : List CString)
    → FirstWord prefix args (get_param prefix (record { argv = program ∷ args }))
unfolding get_param
get_param-FirstWord prefix program [] = first_rest_lem prefix []
get_param-FirstWord prefix program (arg ∷ args) = first_rest_lem prefix (arg ∷ args)

equal_sound : (a b : CString) → equal a b ≡ true → a ≡ b
unfolding equal
equal_sound [] [] h = refl
equal_sound [] (y ∷ b) h = cc
equal_sound (x ∷ a) [] h = cc
equal_sound (x ∷ a) (y ∷ b) h = ground (arith, equal_sound a b)

equal_refl : (a : CString) → equal a a ≡ true
unfolding equal
equal_refl [] = refl
equal_refl (x ∷ a) = ground (arith, equal_refl a)

abbrev pub Occurs : CString → List CString → Type 0
Occurs param args =
    (before : List CString) × (later : List CString) × (args ≡ before ++ (param ∷ later))

Occurs-∷ :
    (param arg : CString) (args : List CString) → Occurs param args → Occurs param (arg ∷ args)
Occurs-∷ param arg args (before, later, e) = (arg ∷ before, later, ap (◌∷◌ arg) e)

any_equal-Occurs :
    (param : CString) (args : List CString) → any_equal param args ≡ true → Occurs param args
unfolding any_equal
any_equal-Occurs param [] h = cc
any_equal-Occurs param (arg ∷ args) h = elim (Bool-cases (equal arg param)) [
  | inl same ↦ ([], args, ap (λ a. a ∷ args) (equal_sound arg param same))
  | inr other ↦ Occurs-∷ param arg args (any_equal-Occurs param args (ground (arith, h, other)))
]

Occurs-any_equal :
    (param : CString) (before later : List CString)
    → any_equal param (before ++ (param ∷ later)) ≡ true
unfolding any_equal
Occurs-any_equal param [] later = ground (arith, equal_refl param)
Occurs-any_equal param (arg ∷ before) later = ground (arith, Occurs-any_equal param before later)

-- HasParam is true when one of the arguments is the parameter itself, and only then. The program's
-- name does not count.
pub has_param-↔ :
    (param program : CString) (args : List CString)
    → (has_param param (record { argv = program ∷ args }) ≡ true) ↔ Occurs param args
unfolding has_param
has_param-↔ param program args = (
  any_equal-Occurs param args,
  λ (before, later, e).
      subst (λ a. any_equal param a ≡ true) (sym e) (Occurs-any_equal param before later),
)

AllAvoid-middle :
    (prefix w : CString) (skipped later : List CString)
    → AllAvoid prefix (skipped ++ (w ∷ later))
    → Avoids prefix w
AllAvoid-middle prefix w [] later h = h.0
AllAvoid-middle prefix w (s ∷ skipped) later h = AllAvoid-middle prefix w skipped later h.1

FirstWord-some :
    (prefix : CString) (args : List CString) (rest : CString)
    → FirstWord prefix args (some rest)
    → ¬ AllAvoid prefix args
unfolding FirstWord
FirstWord-some prefix args rest (skipped, before, later, all, whole, first) avoid =
    AllAvoid-middle prefix _ skipped later (subst (AllAvoid prefix) whole avoid) before rest refl

is_found-↔ :
    (prefix : CString) (args : List CString) (o : Option CString)
    → FirstWord prefix args o
    → (elim o [ none ↦ false | some r ↦ true ] ≡ true) ↔ (¬ AllAvoid prefix args)
unfolding FirstWord
is_found-↔ prefix args none w = (λ e. absurd (cc e), λ n. absurd (n w))
is_found-↔ prefix args (some r) w = (λ e. FirstWord-some prefix args r w, λ n. refl)

-- The log is verbose exactly when "-v" is an argument or an argument contains "-v" with the label
-- behind it.
pub create_log_lem :
    (label program : CString) (args : List CString)
    → length label < 29
    → (log : Log) × (create_log label (record { argv = program ∷ args }) ≡ some log)
      × (log.label ≡ label)
      × ((log.verbose ≡ true)
          ↔ (Occurs verbose_param args ⊎ ¬ AllAvoid (verbose_param ++ label) args))
unfolding create_log
create_log_lem label program args short =
    let cli : Cli = record { argv = program ∷ args } in
    let exact = has_param-↔ verbose_param program args in
    let part =
      is_found-↔ (verbose_param ++ label) args _
        (get_param-FirstWord (verbose_param ++ label) program args) in
    elim (Bool-cases (has_param verbose_param cli)) [
      | inl h ↦ (
        record { label = label; verbose = true },
        ground (arith, h),
        refl,
        (λ e. inl (exact.0 h), λ e. refl),
      )
      | inr h ↦ (
        record {
          label = label;
          verbose = elim (get_param (verbose_param ++ label) cli) [ none ↦ false | some r ↦ true ];
        },
        ground (arith, h, short),
        refl,
        (
          λ e. inr (part.0 e),
          elim [ inl o ↦ absurd (true≢false (sym (exact.1 o) ∙ h)) | inr n ↦ part.1 n ],
        ),
      )
    ]
