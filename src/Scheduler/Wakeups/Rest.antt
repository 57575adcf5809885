-- ===== src/Scheduler/Wakeups/Rest.antt =====
-- The states in which the workers rest.
use zamt.Prelude.{ℕ, ◌+◌, ◌≤◌, ◌<◌, ◌≡◌, ◌⊎◌, inl, inr, refl, true, false, arith}
use zamt.Scheduler.Wakeups.{
  Workers, Step, submit, notify_one, notify_nobody, wake_up, take, wait, leave, shutdown,
  notify_all, Steps, stay, ◌▸◌, launched,
}

-- While somebody sleeps: before a shutdown, every task has an awake worker or a notification that
-- is to come; after it, all are about to be notified.
abbrev pub SleepersOk : Workers → Type 0
SleepersOk s =
    (s.asleep ≡ 0)
    ⊎ ((s.shutdown_initiated ≡ false) × (s.tasks ≤ s.awake + s.notifications))
    ⊎ (0 < s.notifications_of_all)

pub record Inv (workers : ℕ) (s : Workers) : Type 0 where
  pub all : s.awake + s.asleep + s.done ≡ workers
  pub sleepers : SleepersOk s
  pub stays : (s.shutdown_initiated ≡ true) ⊎ (s.done ≡ 0)

Step-Inv : (workers : ℕ) (s t : Workers) → Step s t → Inv workers s → Inv workers t
Step-Inv workers s t (submit _ k) h = ground arith
Step-Inv workers s t (notify_one _ n a e z) h = ground arith
Step-Inv workers s t (notify_nobody _ n e z) h = ground arith
Step-Inv workers s t (wake_up _ a z) h = ground arith
Step-Inv workers s t (take _ a k e z up) h = ground arith
Step-Inv workers s t (wait _ a e z up) h = ground arith
Step-Inv workers s t (leave _ a e down) h = ground arith
Step-Inv workers s t (shutdown _) h = ground arith
Step-Inv workers s t (notify_all _ n e) h = ground arith

pub Steps-Inv : {workers : ℕ} {s t : Workers} → Steps s t → Inv workers s → Inv workers t
Steps-Inv stay h = h
Steps-Inv (step ▸ steps) h = Steps-Inv steps (Step-Inv _ _ _ step h)

pub launched-Inv : (workers : ℕ) → Inv workers (launched workers)
launched-Inv workers = record { all = omega arith; sleepers = inl refl; stays = inr refl }

-- The workers come to rest only when they may. In a state that can be reached, with no worker awake
-- and no notification to come: before a shutdown, no task is queued, so none was forgotten while
-- workers slept; after a shutdown, every worker has left its loop, so the destructor can join them.
pub launched-rests :
    (workers : ℕ) (s : Workers)
    → 0 < workers
    → Steps (launched workers) s
    → s.awake ≡ 0
    → s.notifications ≡ 0
    → s.notifications_of_all ≡ 0
    → (s.shutdown_initiated ≡ false → s.tasks ≡ 0)
      × (s.shutdown_initiated ≡ true → s.done ≡ workers)
launched-rests workers s some_workers run still told told_all =
    rests (Steps-Inv run (launched-Inv workers))
  where
    rests :
        Inv workers s
        → (s.shutdown_initiated ≡ false → s.tasks ≡ 0)
          × (s.shutdown_initiated ≡ true → s.done ≡ workers)
    rests h = (λ up. ground (arith, h, up), λ down. ground (arith, h, down))
