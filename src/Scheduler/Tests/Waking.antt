-- ===== src/Scheduler/Tests/Waking.antt =====
-- A run of the workers.
use zamt.Prelude.{◌≤◌, ◌≡◌, ◌⊎◌, refl, true, false, arith}
use zamt.Scheduler.Wakeups.{
  Workers, joins, Steps, stay, ◌▸◌, submit, notify_one, take, wait, leave, shutdown, notify_all,
  launched,
}
use zamt.Scheduler.Wakeups.Rest.{launched-rests}
use zamt.Scheduler.Wakeups.Ending.{OwnSteps, none_left, ◌▹◌, left, shutdown-joins}

-- Two workers sleep, one is woken for a task and sleeps again.
abbrev resting : Workers
resting = record {
  tasks = 0;
  awake = 0;
  asleep = 2;
  done = 0;
  notifications = 0;
  notifications_of_all = 0;
  shutdown_initiated = false;
}

rest : Steps (launched 2) resting
rest =
    wait _ 1 refl refl refl
    ▸ wait _ 0 refl refl refl
    ▸ submit _ 1
    ▸ notify_one _ 0 1 refl refl
    ▸ take _ 0 0 refl refl refl
    ▸ wait _ 0 refl refl refl
    ▸ stay

launched-rests_example :
    (resting.shutdown_initiated ≡ false → resting.tasks ≡ 0)
    × (resting.shutdown_initiated ≡ true → resting.done ≡ 2)
launched-rests_example = launched-rests 2 resting (omega arith) rest refl refl refl

-- The workers leave after a shutdown.
gone : Steps resting (record resting { asleep = 0; done = 2; shutdown_initiated = true })
gone = shutdown _ ▸ notify_all _ 0 refl ▸ leave _ 1 refl refl ▸ leave _ 0 refl refl ▸ stay

-- Shutdown has set its flag and is about to notify all.
abbrev stopping : Workers
stopping = record resting { shutdown_initiated = true; notifications_of_all = 1 }

stop : Steps (launched 2) stopping
stop = wait _ 1 refl refl refl ▸ wait _ 0 refl refl refl ▸ shutdown _ ▸ stay

abbrev one_left : Workers
one_left = record stopping { notifications_of_all = 0; asleep = 0; awake = 1; done = 1 }

own_steps : OwnSteps 2 stopping one_left
own_steps = (notify_all _ 0 refl, tt) ▹ (leave _ 1 refl refl, tt) ▹ none_left

shutdown-joins_example :
    (2 ≤ left stopping) × ((joins 2 one_left ≡ true) ⊎ ((u : Workers) × OwnSteps 1 one_left u))
shutdown-joins_example = shutdown-joins 2 stopping stop refl 2 one_left own_steps
