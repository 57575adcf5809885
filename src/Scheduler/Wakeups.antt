-- ===== src/Scheduler/Wakeups.antt =====
-- The workers in DispatchTasks, and who wakes them: how many wait on `worker_queue_cv_`, how many
-- do not, and what SubmitPacket and Shutdown have still to notify. A step is a critical section
-- under `worker_queue_mtx_` or a notification, in any interleaving.
pub mod Rest
pub mod Ending
use zamt.Prelude.{ℕ, suc, ◌+◌, ◌≡◌, Bool, true, false, ◌==◌}

-- `awake` workers look for a task or run one; `done` ones have left the loop.
pub record Workers : Type 0 where
  pub tasks : ℕ
  pub awake : ℕ
  pub asleep : ℕ
  pub done : ℕ
  pub notifications : ℕ
  pub notifications_of_all : ℕ
  pub shutdown_initiated : Bool

pub data Step : Workers → Workers → Type 0 where
  -- SubmitPacket queues a task for each subscription, with one call of `notify_one` to come for
  -- each.
  submit :
      (s : Workers) (normal_subscribers : ℕ)
      → Step s (record s {
        tasks = s.tasks + normal_subscribers;
        notifications = s.notifications + normal_subscribers;
      })
  notify_one :
      (s : Workers) (n a : ℕ)
      → s.notifications ≡ suc n
      → s.asleep ≡ suc a
      → Step s (record s { notifications = n; asleep = a; awake = suc s.awake })
  notify_nobody :
      (s : Workers) (n : ℕ)
      → s.notifications ≡ suc n
      → s.asleep ≡ 0
      → Step s (record s { notifications = n })
  -- A sleeper may wake up without a notification.
  wake_up :
      (s : Workers) (a : ℕ)
      → s.asleep ≡ suc a
      → Step s (record s { asleep = a; awake = suc s.awake })
  take :
      (s : Workers) (a t : ℕ)
      → s.awake ≡ suc a
      → s.tasks ≡ suc t
      → s.shutdown_initiated ≡ false
      → Step s (record s { tasks = t })
  wait :
      (s : Workers) (a : ℕ)
      → s.awake ≡ suc a
      → s.tasks ≡ 0
      → s.shutdown_initiated ≡ false
      → Step s (record s { awake = a; asleep = suc s.asleep })
  leave :
      (s : Workers) (a : ℕ)
      → s.awake ≡ suc a
      → s.shutdown_initiated ≡ true
      → Step s (record s { awake = a; done = suc s.done })
  -- Shutdown sets the flag under the lock, with a call of `notify_all` to come.
  shutdown :
      (s : Workers)
      → Step s (record s {
        shutdown_initiated = true;
        notifications_of_all = suc s.notifications_of_all;
      })
  notify_all :
      (s : Workers) (n : ℕ)
      → s.notifications_of_all ≡ suc n
      → Step s (record s { notifications_of_all = n; asleep = 0; awake = s.awake + s.asleep })

infixr 5 ◌▸◌
pub data Steps : Workers → Workers → Type 0 where
  stay : {s : Workers} → Steps s s
  ◌▸◌ : {s t u : Workers} → Step s t → Steps t u → Steps s u

-- The constructor starts the workers.
abbrev pub launched : ℕ → Workers
launched workers = record {
  tasks = 0;
  awake = workers;
  asleep = 0;
  done = 0;
  notifications = 0;
  notifications_of_all = 0;
  shutdown_initiated = false;
}

-- The destructor joins its workers: that returns when all of them have left their loops.
abbrev pub joins : ℕ → Workers → Bool
joins workers s = s.done == workers
