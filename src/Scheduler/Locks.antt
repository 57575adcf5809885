-- ===== src/Scheduler/Locks.antt =====
-- The lock of the registry: `sources_semaphore_` counts the readers that may still enter, and a
-- writer takes all of them. Threads run in any interleaving of the steps.
pub mod Exclusion
use zamt.Prelude.{ℕ, zero, suc, ◌+◌, ◌≡◌, List, [], ◌∷◌, some, get_elem?, set, replicate}

-- A thread outside; in the loop of ReadLockSources, with the number that it loaded; behind
-- ReadLockSources; and behind WriteLockSources.
pub data Client : Type 0 where
  idle : Client
  loaded : (current_readers : ℕ) → Client
  reading : Client
  writing : Client

-- `all_readers` is the number of workers and one.
pub record Locks : Type 0 where
  pub all_readers : ℕ
  pub sources_semaphore : ℕ
  pub clients : List Client

abbrev pub with_client : ℕ → Client → Locks → Locks
with_client i c s = record s { clients = set s.clients i c }

pub data Step : Locks → Locks → Type 0 where
  -- The exchange of `all_readers` for 0; it may also fail, and is tried again.
  write_lock :
      (s : Locks) (i : ℕ)
      → get_elem? s.clients i ≡ some idle
      → s.sources_semaphore ≡ s.all_readers
      → Step s (record (with_client i writing s) { sources_semaphore = 0 })
  write_unlock :
      (s : Locks) (i : ℕ)
      → get_elem? s.clients i ≡ some writing
      → Step s (record (with_client i idle s) { sources_semaphore = s.all_readers })
  load :
      (s : Locks) (i : ℕ)
      → get_elem? s.clients i ≡ some idle
      → Step s (with_client i (loaded s.sources_semaphore) s)
  -- The number is 0, or the exchange fails.
  retry :
      (s : Locks) (i n : ℕ)
      → get_elem? s.clients i ≡ some (loaded n)
      → Step s (with_client i idle s)
  read_lock :
      (s : Locks) (i n : ℕ)
      → get_elem? s.clients i ≡ some (loaded (suc n))
      → s.sources_semaphore ≡ suc n
      → Step s (record (with_client i reading s) { sources_semaphore = n })
  read_unlock :
      (s : Locks) (i : ℕ)
      → get_elem? s.clients i ≡ some reading
      → Step s (record (with_client i idle s) { sources_semaphore = suc s.sources_semaphore })

infixr 5 ◌▸◌
pub data Steps : Locks → Locks → Type 0 where
  stay : {s : Locks} → Steps s s
  ◌▸◌ : {s t u : Locks} → Step s t → Steps t u → Steps s u

-- As the constructor leaves the semaphore, with threads that have not begun.
abbrev pub unlocked : ℕ → ℕ → Locks
unlocked workers threads = record {
  all_readers = suc workers;
  sources_semaphore = suc workers;
  clients = replicate threads idle;
}
