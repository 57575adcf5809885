-- ===== src/Scheduler/Locks/Exclusion.antt =====
-- The readers and the writers of the registry.
use zamt.Prelude.{
  total, total-set, ℕ, zero, suc, ◌+◌, ◌≤◌, ◌<◌, ◌≡◌, refl, some, get_elem?, set, replicate, arith,
}
use zamt.Scheduler.Locks.{
  Client, idle, loaded, reading, writing, Locks, Step, write_lock, write_unlock, load, retry,
  read_lock, read_unlock, Steps, stay, ◌▸◌, unlocked,
}

abbrev pub reads : Client → ℕ
reads idle = 0
reads (loaded n) = 0
reads reading = 1
reads writing = 0

abbrev pub writes : Client → ℕ
writes idle = 0
writes (loaded n) = 0
writes reading = 0
writes writing = 1

-- Without a writer the semaphore and the readers add up to all readers; a writer is alone, and
-- leaves no reader in.
pub data Balance (all_readers semaphore readers writers : ℕ) : Type 0 where
  shared :
      writers ≡ 0
      → readers + semaphore ≡ all_readers
      → Balance all_readers semaphore readers writers
  exclusive :
      writers ≡ 1 → readers ≡ 0 → semaphore ≡ 0 → Balance all_readers semaphore readers writers

abbrev pub IsBalanced : Locks → Type 0
IsBalanced s =
    (0 < s.all_readers)
    × Balance s.all_readers s.sources_semaphore (total reads s.clients) (total writes s.clients)

module _ (s : Locks) (i : ℕ) (c d : Client) (here : get_elem? s.clients i ≡ some c) where
  moved_reads : total reads (set s.clients i d) + reads c ≡ total reads s.clients + reads d
  moved_reads = total-set reads s.clients i c d here

  moved_writes : total writes (set s.clients i d) + writes c ≡ total writes s.clients + writes d
  moved_writes = total-set writes s.clients i c d here

Step-IsBalanced : (s t : Locks) → Step s t → IsBalanced s → IsBalanced t
Step-IsBalanced s t (write_lock _ i here all) (some_readers, shared w b) = (
  some_readers,
  exclusive (omega (arith, w, moved_writes s i idle writing here))
      (omega (arith, b, all, moved_reads s i idle writing here)) refl,
)
Step-IsBalanced s t (write_lock _ i here all) (some_readers, exclusive w r z) =
    absurd (omega (arith, some_readers, all, z))
Step-IsBalanced s t (write_unlock _ i here) (some_readers, shared w b) =
    absurd (omega (arith, w, moved_writes s i writing idle here))
Step-IsBalanced s t (write_unlock _ i here) (some_readers, exclusive w r z) = (
  some_readers,
  shared (omega (arith, w, moved_writes s i writing idle here))
      (omega (arith, r, moved_reads s i writing idle here)),
)
Step-IsBalanced s t (load _ i here) (some_readers, shared w b) = (
  some_readers,
  shared (omega (arith, w, moved_writes s i idle (loaded s.sources_semaphore) here))
      (omega (arith, b, moved_reads s i idle (loaded s.sources_semaphore) here)),
)
Step-IsBalanced s t (load _ i here) (some_readers, exclusive w r z) = (
  some_readers,
  exclusive (omega (arith, w, moved_writes s i idle (loaded s.sources_semaphore) here))
      (omega (arith, r, moved_reads s i idle (loaded s.sources_semaphore) here)) z,
)
Step-IsBalanced s t (retry _ i n here) (some_readers, shared w b) = (
  some_readers,
  shared (omega (arith, w, moved_writes s i (loaded n) idle here))
      (omega (arith, b, moved_reads s i (loaded n) idle here)),
)
Step-IsBalanced s t (retry _ i n here) (some_readers, exclusive w r z) = (
  some_readers,
  exclusive (omega (arith, w, moved_writes s i (loaded n) idle here))
      (omega (arith, r, moved_reads s i (loaded n) idle here)) z,
)
Step-IsBalanced s t (read_lock _ i n here same) (some_readers, shared w b) = (
  some_readers,
  shared (omega (arith, w, moved_writes s i (loaded (suc n)) reading here))
      (omega (arith, b, same, moved_reads s i (loaded (suc n)) reading here)),
)
Step-IsBalanced s t (read_lock _ i n here same) (some_readers, exclusive w r z) =
    absurd (omega (arith, same, z))
Step-IsBalanced s t (read_unlock _ i here) (some_readers, shared w b) = (
  some_readers,
  shared (omega (arith, w, moved_writes s i reading idle here))
      (omega (arith, b, moved_reads s i reading idle here)),
)
Step-IsBalanced s t (read_unlock _ i here) (some_readers, exclusive w r z) =
    absurd (omega (arith, r, moved_reads s i reading idle here))

Steps-IsBalanced : {s t : Locks} → Steps s t → IsBalanced s → IsBalanced t
Steps-IsBalanced stay b = b
Steps-IsBalanced (step ▸ steps) b = Steps-IsBalanced steps (Step-IsBalanced _ _ step b)

total-replicate : (f : Client → ℕ) (n : ℕ) → f idle ≡ 0 → total f (replicate n idle) ≡ 0
total-replicate f zero h = refl
total-replicate f (suc n) h = omega (arith, h, total-replicate f n h)

unlocked-IsBalanced : (workers threads : ℕ) → IsBalanced (unlocked workers threads)
unlocked-IsBalanced workers threads = (
  omega arith,
  shared (total-replicate writes threads refl) (omega (arith, total-replicate reads threads refl)),
)

-- In every state that threads can reach by locking and unlocking the registry: at most one of them
-- writes, none reads while one writes, and at most as many read as there are workers and one. When
-- none writes, the semaphore is exactly the number of readers that may still enter, so the assert
-- in ReadUnlockSources holds.
pub unlocked-excludes :
    (workers threads : ℕ) (s : Locks)
    → Steps (unlocked workers threads) s
    → (total writes s.clients ≤ 1)
      × (0 < total writes s.clients → total reads s.clients ≡ 0)
      × (total reads s.clients ≤ s.all_readers)
      × (total writes s.clients ≡ 0 → total reads s.clients + s.sources_semaphore ≡ s.all_readers)
unlocked-excludes workers threads s run =
    facts (Steps-IsBalanced run (unlocked-IsBalanced workers threads))
  where
    facts :
        IsBalanced s
        → (total writes s.clients ≤ 1)
          × (0 < total writes s.clients → total reads s.clients ≡ 0)
          × (total reads s.clients ≤ s.all_readers)
          × (total writes s.clients ≡ 0
              → total reads s.clients + s.sources_semaphore ≡ s.all_readers)
    facts (some_readers, shared w b) =
        (omega (arith, w), λ p. absurd (omega (arith, w, p)), omega (arith, b), λ z. b)
    facts (some_readers, exclusive w r z) = (
      omega (arith, w),
      λ p. r,
      omega (arith, r),
      λ none_writes. absurd (omega (arith, w, none_writes)),
    )
