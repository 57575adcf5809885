-- ===== src/Core/Invariant.antt =====
-- The invariant of Quit and WaitForQuit, and what its parts are made of.
use zamt.Prelude.{
  total, subst, ℕ, zero, suc, ◌+◌, ◌<◌, ◌≡◌, refl, ap, ◌⊎◌, Bool, true, false, List, [], ◌∷◌, ◌++◌,
  some, get_elem?, set,
}
use zamt.Prelude.Int.{ℤ}
use zamt.Core.{
  Waiter, arriving, reading, deciding, asleep, waking, returned, Quitter, entering, calling, locked,
  stored, finished, Core, is_no_code,
}

abbrev pub waiter_holds : Waiter → ℕ
waiter_holds arriving = 0
waiter_holds reading = 1
waiter_holds (deciding code) = 1
waiter_holds asleep = 0
waiter_holds waking = 0
waiter_holds (returned code) = 0

abbrev pub holds : Quitter → ℕ
holds (entering code) = 0
holds (calling code cbs) = 0
holds (locked code) = 1
holds stored = 0
holds finished = 0

abbrev pub notifies : Quitter → ℕ
notifies (entering code) = 0
notifies (calling code cbs) = 0
notifies (locked code) = 0
notifies stored = 1
notifies finished = 0

-- Behind the store.
abbrev pub gone : Quitter → ℕ
gone (entering code) = 0
gone (calling code cbs) = 0
gone (locked code) = 0
gone stored = 1
gone finished = 1

abbrev pub held : Bool → ℕ
held true = 1
held false = 0

abbrev pub Called : ℕ → ℤ → List (ℕ × ℤ) → Type 0
Called cb code calls =
    (later : List (ℕ × ℤ)) × (earlier : List (ℕ × ℤ)) × (calls ≡ later ++ ((cb, code) ∷ earlier))

-- All of the callbacks were called with the exit code.
abbrev pub AllCalled : List ℕ → ℤ → List (ℕ × ℤ) → Type 0
AllCalled [] code calls = Unit
AllCalled (cb ∷ cbs) code calls = Called cb code calls × AllCalled cbs code calls

abbrev pub QuitterOk : List ℕ → List (ℕ × ℤ) → Quitter → Type 0
QuitterOk all calls (entering code) = is_no_code code ≡ false
QuitterOk all calls (calling code cbs) =
    (is_no_code code ≡ false)
    × ((done late : List ℕ) × (all ++ late ≡ done ++ cbs) × AllCalled done code calls)
QuitterOk all calls (locked code) = (is_no_code code ≡ false) × AllCalled all code calls
QuitterOk all calls stored = Unit
QuitterOk all calls finished = Unit

abbrev pub QuittersOk : List ℕ → List (ℕ × ℤ) → List Quitter → Type 0
QuittersOk all calls [] = Unit
QuittersOk all calls (q ∷ qs) = QuitterOk all calls q × QuittersOk all calls qs

-- A code other than the absent one has been told to all callbacks.
abbrev pub Told : List ℕ → List (ℕ × ℤ) → ℤ → Type 0
Told all calls code =
    (is_no_code code ≡ true) ⊎ ((is_no_code code ≡ false) × AllCalled all code calls)

-- What the waiter has read is still so, and if it sleeps, there is no exit code or a notification
-- is to come.
abbrev pub WaiterOk : Core → Waiter → Type 0
WaiterOk s arriving = Unit
WaiterOk s reading = Unit
WaiterOk s (deciding code) = code ≡ s.exit_code
WaiterOk s asleep = (is_no_code s.exit_code ≡ true) ⊎ (0 < total notifies s.quitters)
WaiterOk s waking = Unit
WaiterOk s (returned code) = (is_no_code code ≡ false) × AllCalled s.on_quit_callbacks code s.calls

pub record Inv (s : Core) : Type 0 where
  pub exclusive : waiter_holds s.waiter + total holds s.quitters ≡ held s.mutex
  pub quitters : QuittersOk s.on_quit_callbacks s.calls s.quitters
  pub told : Told s.on_quit_callbacks s.calls s.exit_code
  pub waiter : WaiterOk s s.waiter
  pub ended : (is_no_code s.exit_code ≡ false) ⊎ (total gone s.quitters ≡ 0)

pub QuittersOk-get :
    (all : List ℕ) (calls : List (ℕ × ℤ)) (qs : List Quitter) (i : ℕ) (q : Quitter)
    → QuittersOk all calls qs
    → get_elem? qs i ≡ some q
    → QuitterOk all calls q
QuittersOk-get all calls [] i q h e = cc
QuittersOk-get all calls (x ∷ qs) zero q h e = subst (QuitterOk all calls) (cc e) h.0
QuittersOk-get all calls (x ∷ qs) (suc i) q h e = QuittersOk-get all calls qs i q h.1 e

pub QuittersOk-set :
    (all : List ℕ) (calls : List (ℕ × ℤ)) (qs : List Quitter) (i : ℕ) (q : Quitter)
    → QuittersOk all calls qs
    → QuitterOk all calls q
    → QuittersOk all calls (set qs i q)
QuittersOk-set all calls [] i q h k = tt
QuittersOk-set all calls (x ∷ qs) zero q h k = (k, h.1)
QuittersOk-set all calls (x ∷ qs) (suc i) q h k = (h.0, QuittersOk-set all calls qs i q h.1 k)

-- More calls leave true what was true.
pub AllCalled-∷ :
    (cbs : List ℕ) (code : ℤ) (calls : List (ℕ × ℤ)) (c : ℕ × ℤ)
    → AllCalled cbs code calls
    → AllCalled cbs code (c ∷ calls)
AllCalled-∷ [] code calls c h = tt
AllCalled-∷ (cb ∷ cbs) code calls c ((later, earlier, e), rest) =
    ((c ∷ later, earlier, ap (◌∷◌ c) e), AllCalled-∷ cbs code calls c rest)

QuitterOk-∷ :
    (all : List ℕ) (calls : List (ℕ × ℤ)) (c : ℕ × ℤ) (q : Quitter)
    → QuitterOk all calls q
    → QuitterOk all (c ∷ calls) q
QuitterOk-∷ all calls c (entering code) fair = fair
QuitterOk-∷ all calls c (calling code cbs) (fair, (done, late, e, told)) =
    (fair, (done, late, e, AllCalled-∷ done code calls c told))
QuitterOk-∷ all calls c (locked code) (fair, told) = (fair, AllCalled-∷ all code calls c told)
QuitterOk-∷ all calls c stored h = tt
QuitterOk-∷ all calls c finished h = tt

pub QuittersOk-∷ :
    (all : List ℕ) (calls : List (ℕ × ℤ)) (c : ℕ × ℤ) (qs : List Quitter)
    → QuittersOk all calls qs
    → QuittersOk all (c ∷ calls) qs
QuittersOk-∷ all calls c [] h = tt
QuittersOk-∷ all calls c (q ∷ qs) h =
    (QuitterOk-∷ all calls c q h.0, QuittersOk-∷ all calls c qs h.1)

pub AllCalled-snoc :
    (cbs : List ℕ) (cb : ℕ) (code : ℤ) (calls : List (ℕ × ℤ))
    → AllCalled cbs code calls
    → AllCalled (cbs ++ (cb ∷ [])) code ((cb, code) ∷ calls)
AllCalled-snoc [] cb code calls h = (([], calls, refl), tt)
AllCalled-snoc (x ∷ cbs) cb code calls ((later, earlier, e), rest) =
    (((cb, code) ∷ later, earlier, ap (◌∷◌ (cb, code)) e), AllCalled-snoc cbs cb code calls rest)

pub AllCalled-++ :
    (cbs late : List ℕ) (code : ℤ) (calls : List (ℕ × ℤ))
    → AllCalled (cbs ++ late) code calls
    → AllCalled cbs code calls
AllCalled-++ [] late code calls h = tt
AllCalled-++ (cb ∷ cbs) late code calls (called, rest) =
    (called, AllCalled-++ cbs late code calls rest)
