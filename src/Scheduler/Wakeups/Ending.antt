-- ===== src/Scheduler/Wakeups/Ending.antt =====
-- The destructor of the scheduler joins its workers: after a shutdown they all leave their loops.
use zamt.Prelude.{ℕ, zero, suc, ◌+◌, ◌*◌, ◌≤◌, ◌<◌, ◌≡◌, ◌⊎◌, inl, inr, refl, true, arith}
use zamt.Scheduler.Wakeups.{
  Workers, Step, submit, notify_one, notify_nobody, wake_up, take, wait, leave, shutdown,
  notify_all, Steps, stay, ◌▸◌, launched, joins,
}
use zamt.Scheduler.Wakeups.Rest.{Inv, Steps-Inv, launched-Inv}

-- What the workers have left to do until all have ended, as a number.
abbrev pub left : Workers → ℕ
left s = 2 * s.asleep + s.awake + s.notifications + s.notifications_of_all

-- The steps that are no new call from outside.
abbrev pub IsOwn : {s t : Workers} → Step s t → Type 0
IsOwn (submit _ k) = ⊥
IsOwn (notify_one _ n a e z) = Unit {0}
IsOwn (notify_nobody _ n e z) = Unit {0}
IsOwn (wake_up _ a z) = Unit {0}
IsOwn (take _ a k e z up) = Unit {0}
IsOwn (wait _ a e z up) = Unit {0}
IsOwn (leave _ a e down) = Unit {0}
IsOwn (shutdown _) = ⊥
IsOwn (notify_all _ n e) = Unit {0}

ℕ-cases : (n : ℕ) → (n ≡ 0) ⊎ ((m : ℕ) × (n ≡ suc m))
ℕ-cases zero = inl refl
ℕ-cases (suc m) = inr (m, refl)

own-left :
    (s t : Workers) (step : Step s t)
    → IsOwn step
    → s.shutdown_initiated ≡ true
    → (left t < left s) × (t.shutdown_initiated ≡ true)
own-left s t (submit _ k) own down = absurd own
own-left s t (notify_one _ n a e z) own down = (omega (arith, e, z), down)
own-left s t (notify_nobody _ n e z) own down = (omega (arith, e), down)
own-left s t (wake_up _ a z) own down = (omega (arith, z), down)
own-left s t (take _ a k e z up) own down = cc (up, down)
own-left s t (wait _ a e z up) own down = cc (up, down)
own-left s t (leave _ a e down') own down = (omega (arith, e), down)
own-left s t (shutdown _) own down = absurd own
own-left s t (notify_all _ n e) own down = (omega (arith, e), down)

-- Sequences of such steps, with their number.
infixr 5 ◌▹◌
pub data OwnSteps : ℕ → Workers → Workers → Type 0 where
  none_left : {s : Workers} → OwnSteps 0 s s
  ◌▹◌ :
      {n : ℕ} {s t u : Workers}
      → (step : Step s t) × IsOwn step
      → OwnSteps n t u
      → OwnSteps (suc n) s u

own_steps-bound :
    {n : ℕ} {s t : Workers}
    → OwnSteps n s t
    → s.shutdown_initiated ≡ true
    → (n + left t ≤ left s) × (t.shutdown_initiated ≡ true) × Steps s t
own_steps-bound none_left down = (omega arith, down, stay)
own_steps-bound ((step, own) ▹ steps) down =
    let (less, still) = own-left _ _ step own down in
    let (bound, goes, run) = own_steps-bound steps still in
    (omega (arith, less, bound), goes, step ▸ run)

-- Where not all workers have left, somebody can go on.
goes_on :
    (workers : ℕ) (s : Workers)
    → Inv workers s
    → s.shutdown_initiated ≡ true
    → (joins workers s ≡ true) ⊎ ((t : Workers) × OwnSteps 1 s t)
goes_on workers s h down = elim (ℕ-cases s.notifications_of_all) [
  | inr (n, e) ↦ inr (_, (notify_all s n e, tt) ▹ none_left)
  | inl told ↦ elim (ℕ-cases s.awake) [
    | inr (a, e) ↦ inr (_, (leave s a e down, tt) ▹ none_left)
    | inl still ↦ inl (ground (arith, h.all, h.sleepers, told, still, down))
  ]
]

append-steps : {s t u : Workers} → Steps s t → Steps t u → Steps s u
append-steps stay run = run
append-steps (step ▸ steps) run = step ▸ append-steps steps run

-- After a shutdown the joins of the destructor return, whatever the order in which the threads
-- run, as long as sinks return and nobody submits or calls Shutdown again: from a state that can
-- be reached, no sequence of steps of the workers and of those who notify is longer than `left`
-- says, and a sequence that cannot go on has come to a state in which every worker has left its
-- loop.
pub shutdown-joins :
    (workers : ℕ) (s : Workers)
    → Steps (launched workers) s
    → s.shutdown_initiated ≡ true
    → (n : ℕ) (t : Workers) → OwnSteps n s t
    → (n ≤ left s) × ((joins workers t ≡ true) ⊎ ((u : Workers) × OwnSteps 1 t u))
shutdown-joins workers s run down n t steps =
    let (bound, still, more) = own_steps-bound steps down in
    (
      omega (arith, bound),
      goes_on workers t (Steps-Inv (append-steps run more) (launched-Inv workers)) still,
    )
