-- ===== src/Scheduler/Handover.antt =====
-- The life of one packet between threads: SubmitPacket by its source, DispatchTasks by the threads
-- that take its tasks, and ReleasePacket by their sinks, with the spin lock of the source as
-- LockSource and UnlockSource take and give it. Threads run in any interleaving of the steps; a
-- thread that spins or yields in LockSource makes no step. Others that lock the source, for other
-- packets, are left out.
pub mod Counting
pub mod Safety
pub mod Finish
use zamt.Prelude.{
  ℕ, zero, suc, ◌+◌, ◌-◌, ◌≡◌, Bool, true, false, List, [], ◌∷◌, some, ◌==◌, if◌then◌else◌,
  get_elem?, set,
}

-- The source in SubmitPacket: before the lock; with the lock; behind the loop for the UI; behind
-- the loop for the workers; and behind the unlock.
pub data Submitter : Type 0 where
  loading locked ui_added workers_added submitted : Submitter

-- A thread whose sink was called: before ReleasePacket; behind its asserts, which read without the
-- lock; with the lock; and behind the unlock.
pub data Sink : Type 0 where
  holding checked inside done : Sink

-- `ui` and `workers` are the numbers of subscriptions on each side, `ui_tasks` and `worker_tasks`
-- the tasks that are queued for the packet, and `freed` is how often it was put on the free list.
pub record Handover : Type 0 where
  pub ui : ℕ
  pub workers : ℕ
  pub source_mtx : Bool
  pub packet_usage : Bool
  pub packet_refcount : ℕ
  pub freed : ℕ
  pub ui_tasks : ℕ
  pub worker_tasks : ℕ
  pub shutdown_initiated : Bool
  pub submitter : Submitter
  pub sinks : List Sink

-- The `test_and_set` in LockSource that finds the flag clear and so ends its loop, and the `clear`
-- in UnlockSource.
abbrev pub lock_source : Handover → Handover
lock_source s = record s { source_mtx = true }

abbrev pub unlock_source : Handover → Handover
unlock_source s = record s { source_mtx = false }

abbrev pub with_sink : ℕ → Sink → Handover → Handover
with_sink i k s = record s { sinks = set s.sinks i k }

-- `if (refcount == 0) { free_packets.push_back(n); packet_usages[n] = false; }` and the unlock.
abbrev pub settle_and_unlock : Handover → Handover
settle_and_unlock s = record (unlock_source s) {
  packet_usage = if s.packet_refcount == 0 then false else s.packet_usage;
  freed = if s.packet_refcount == 0 then suc s.freed else s.freed;
}

pub data Step : Handover → Handover → Type 0 where
  -- SubmitPacket. The tasks of one side come under the lock of its queue, so no thread takes one
  -- before the references of that side are counted.
  lock_to_submit :
      (s : Handover)
      → s.submitter ≡ loading
      → s.source_mtx ≡ false
      → Step s (record (lock_source s) { submitter = locked; packet_refcount = 0 })
  add_ui_tasks :
      (s : Handover)
      → s.submitter ≡ locked
      → Step s (record s {
        submitter = ui_added;
        ui_tasks = s.ui_tasks + s.ui;
        packet_refcount = s.packet_refcount + s.ui;
      })
  add_worker_tasks :
      (s : Handover)
      → s.submitter ≡ ui_added
      → Step s (record s {
        submitter = workers_added;
        worker_tasks = s.worker_tasks + s.workers;
        packet_refcount = s.packet_refcount + s.workers;
      })
  end_submit :
      (s : Handover)
      → s.submitter ≡ workers_added
      → Step s (record (settle_and_unlock s) { submitter = submitted })
  -- DispatchTasks, which takes a task only before a shutdown.
  take_ui_task :
      (s : Handover) (n : ℕ)
      → s.shutdown_initiated ≡ false
      → s.ui_tasks ≡ suc n
      → Step s (record s { ui_tasks = n; sinks = holding ∷ s.sinks })
  take_worker_task :
      (s : Handover) (n : ℕ)
      → s.shutdown_initiated ≡ false
      → s.worker_tasks ≡ suc n
      → Step s (record s { worker_tasks = n; sinks = holding ∷ s.sinks })
  -- Shutdown, by any thread.
  shutdown :
      (s : Handover)
      → s.shutdown_initiated ≡ false
      → Step s (record s { shutdown_initiated = true })
  -- ReleasePacket.
  check :
      (s : Handover) (i : ℕ) → get_elem? s.sinks i ≡ some holding → Step s (with_sink i checked s)
  lock_to_release :
      (s : Handover) (i : ℕ)
      → get_elem? s.sinks i ≡ some checked
      → s.source_mtx ≡ false
      → Step s (lock_source (with_sink i inside s))
  end_release :
      (s : Handover) (i : ℕ)
      → get_elem? s.sinks i ≡ some inside
      → Step s (
          settle_and_unlock
            (record (with_sink i done s) { packet_refcount = s.packet_refcount - 1 }))

infixr 5 ◌▸◌
pub data Steps : Handover → Handover → Type 0 where
  stay : {s : Handover} → Steps s s
  ◌▸◌ : {s t u : Handover} → Step s t → Steps t u → Steps s u

-- A packet that its source loads, as GetPacketForSubmission has left it.
abbrev pub loaded : ℕ → ℕ → Handover
loaded ui workers = record {
  ui = ui;
  workers = workers;
  source_mtx = false;
  packet_usage = true;
  packet_refcount = 0;
  freed = 0;
  ui_tasks = 0;
  worker_tasks = 0;
  shutdown_initiated = false;
  submitter = loading;
  sinks = [];
}
