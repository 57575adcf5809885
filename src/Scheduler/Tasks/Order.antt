-- ===== src/Scheduler/Tasks/Order.antt =====
-- `top` and `pop` of a task queue.
use zamt.Prelude.{
  ℕ, zero, suc, ◌≤◌, ◌≡◌, refl, Bool, true, false, List, [], ◌∷◌, Option, none, some, arith, ◌==◌,
  if◌then◌else◌, if_cases,
}
use zamt.Scheduler.Tasks.{Task, tally, greatest, put_back, or_take, extract, pop_top}

abbrev pub AllFrom : ℕ → List Task → Type 0
AllFrom time [] = Unit {0}
AllFrom time (t ∷ ts) = (time ≤ t.timestamp) × AllFrom time ts

AllFrom-weaken : (a b : ℕ) (ts : List Task) → a ≤ b → AllFrom b ts → AllFrom a ts
AllFrom-weaken a b [] h k = tt
AllFrom-weaken a b (t ∷ ts) h k = (omega arith, AllFrom-weaken a b ts h k.1)

greatest-AllFrom :
    (t : Task) (ts : List Task)
    → ((greatest t ts).timestamp ≤ t.timestamp) × AllFrom (greatest t ts).timestamp ts
unfolding greatest
greatest-AllFrom t [] = (omega arith, tt)
greatest-AllFrom t (u ∷ ts) = ground (arith, greatest-AllFrom t ts, greatest-AllFrom u ts)

-- Whether a queue holds a task of that time.
abbrev has_time : ℕ → List Task → Bool
has_time time [] = false
has_time time (t ∷ ts) = if t.timestamp == time then true else has_time time ts

greatest-has_time : (t : Task) (ts : List Task) → has_time (greatest t ts).timestamp (t ∷ ts) ≡ true
unfolding greatest
greatest-has_time t [] = ground arith
greatest-has_time t (u ∷ ts) = ground (arith, greatest-has_time t ts, greatest-has_time u ts)

-- A task of that time is out, and the others are there as often as before.
abbrev pub Extracts : ℕ → List Task → Option (Task × List Task) → Type 0
Extracts time ts none = has_time time ts ≡ false
Extracts time ts (some (t, rest)) =
    (t.timestamp ≡ time) × ((q : Task → Bool) → tally q ts ≡ tally q (t ∷ rest))

put_back-Extracts :
    (time : ℕ) (t : Task) (ts : List Task) (o : Option (Task × List Task))
    → (t.timestamp == time) ≡ false
    → Extracts time ts o
    → Extracts time (t ∷ ts) (put_back t o)
unfolding put_back
put_back-Extracts time t ts none ne h = ground arith
put_back-Extracts time t ts (some (u, us)) ne h = (h.0, λ q. ground (arith, h.1 q))

or_take-Extracts :
    (time : ℕ) (t : Task) (ts : List Task) (o : Option (Task × List Task))
    → (t.timestamp == time) ≡ true
    → Extracts time ts o
    → Extracts time (t ∷ ts) (or_take t ts o)
unfolding or_take
or_take-Extracts time t ts none eq h = (ground arith, λ q. refl)
or_take-Extracts time t ts (some (u, us)) eq h = (h.0, λ q. ground (arith, h.1 q))

extract-Extracts : (time tie : ℕ) (ts : List Task) → Extracts time ts (extract time tie ts)
unfolding extract
extract-Extracts time tie [] = refl
extract-Extracts time zero (t ∷ ts) =
    if_cases (Extracts time (t ∷ ts)) (t.timestamp == time) _ _ (λ e. (ground arith, λ q. refl))
      (λ e. put_back-Extracts time t ts _ e (extract-Extracts time zero ts))
extract-Extracts time (suc k) (t ∷ ts) =
    if_cases (Extracts time (t ∷ ts)) (t.timestamp == time) _ _
      (λ e. or_take-Extracts time t ts _ e (extract-Extracts time k ts))
      (λ e. put_back-Extracts time t ts _ e (extract-Extracts time (suc k) ts))

-- What `top` and `pop` yield.
abbrev pub Pops : List Task → Option (Task × List Task) → Type 0
Pops ts none = ts ≡ []
Pops ts (some (t, rest)) =
    AllFrom t.timestamp ts × ((q : Task → Bool) → tally q ts ≡ tally q (t ∷ rest))

Pops-of_Extracts :
    (time : ℕ) (u : Task) (us : List Task) (o : Option (Task × List Task))
    → has_time time (u ∷ us) ≡ true
    → AllFrom time (u ∷ us)
    → Extracts time (u ∷ us) o
    → Pops (u ∷ us) o
Pops-of_Extracts time u us none h all e = cc
Pops-of_Extracts time u us (some (t, rest)) h all e =
    (AllFrom-weaken t.timestamp time (u ∷ us) (omega arith) all, e.1)

-- However ties are broken: only an empty queue yields nothing, and otherwise the task that leaves
-- is no later than any in the queue, and the others stay as they are.
pub pop_top-Pops : (tie : ℕ) (ts : List Task) → Pops ts (pop_top tie ts)
unfolding pop_top
pop_top-Pops tie [] = refl
pop_top-Pops tie (t ∷ ts) =
    Pops-of_Extracts _ t ts _ (greatest-has_time t ts) (greatest-AllFrom t ts)
      (extract-Extracts (greatest t ts).timestamp tie (t ∷ ts))
