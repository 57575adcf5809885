-- ===== src/Scheduler/Tests/Threads.antt =====
-- Runs of the threads of the scheduler: the lock of the registry, and the workers.
use zamt.Prelude.{total, ◌+◌, ◌≤◌, ◌<◌, ◌≡◌, refl, [], ◌∷◌}
use zamt.Scheduler.Locks.{
  Steps, stay, ◌▸◌, write_lock, write_unlock, load, read_lock, Locks, idle, reading, unlocked,
}
use zamt.Scheduler.Locks.Exclusion.{reads, writes, unlocked-excludes}

-- Two readers are in, behind a writer that has left.
abbrev two_readers : Locks
two_readers = record {
  all_readers = 3;
  sources_semaphore = 1;
  clients = idle ∷ reading ∷ reading ∷ [];
}

two_enter : Steps (unlocked 2 3) two_readers
two_enter =
    write_lock _ 0 refl refl
    ▸ write_unlock _ 0 refl
    ▸ load _ 1 refl
    ▸ read_lock _ 1 2 refl refl
    ▸ load _ 2 refl
    ▸ read_lock _ 2 1 refl refl
    ▸ stay

unlocked-excludes_example :
    (total writes two_readers.clients ≤ 1)
    × (0 < total writes two_readers.clients → total reads two_readers.clients ≡ 0)
    × (total reads two_readers.clients ≤ 3)
    × (total writes two_readers.clients ≡ 0 → total reads two_readers.clients + 1 ≡ 3)
unlocked-excludes_example = unlocked-excludes 2 3 two_readers two_enter
