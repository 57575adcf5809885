-- ===== src/Scheduler/Handover/Finish.antt =====
-- The end of a packet's life: every run comes to it, and what it is.
use zamt.Prelude.{
  ℕ, zero, suc, ◌+◌, ◌*◌, ◌<◌, ◌≡◌, refl, Bool, true, false, some, arith, get_elem?, total,
  total-set, total-find, length, ◌⊎◌, inl, inr, Bool-cases, if◌then◌else◌,
}
use zamt.Scheduler.Handover.{
  Submitter, loading, locked, ui_added, workers_added, submitted, Sink, holding, checked, inside,
  done, Handover, Step, lock_to_submit, add_ui_tasks, add_worker_tasks, end_submit, take_ui_task,
  take_worker_task, shutdown, check, lock_to_release, end_release, Steps, stay, ◌▸◌, loaded,
}
use zamt.Scheduler.Handover.Counting.{active, locks, held, Inv, locks-le-active, active-le-length}
use zamt.Scheduler.Handover.Safety.{Steps-Inv, loaded-Inv}

abbrev sink_steps : Sink → ℕ
sink_steps holding = 3
sink_steps checked = 2
sink_steps inside = 1
sink_steps done = 0

-- The steps of the source, and four for each task that it has yet to queue.
abbrev submitter_steps : Submitter → ℕ → ℕ → ℕ
submitter_steps loading ui workers = 4 + 4 * (ui + workers)
submitter_steps locked ui workers = 3 + 4 * (ui + workers)
submitter_steps ui_added ui workers = 2 + 4 * workers
submitter_steps workers_added ui workers = 1
submitter_steps submitted ui workers = 0

abbrev pub steps_left : Handover → ℕ
steps_left s =
    (if s.shutdown_initiated then 0 else 1)
    + submitter_steps s.submitter s.ui s.workers
    + 4 * (s.ui_tasks + s.worker_tasks)
    + total sink_steps s.sinks

abbrev pub count_steps : {s t : Handover} → Steps s t → ℕ
count_steps stay = 0
count_steps (step ▸ steps) = suc (count_steps steps)

Step-steps_left : (s t : Handover) → Step s t → suc (steps_left t) ≡ steps_left s
Step-steps_left s t (lock_to_submit _ at free) = ground (arith, at)
Step-steps_left s t (add_ui_tasks _ at) = ground (arith, at)
Step-steps_left s t (add_worker_tasks _ at) = ground (arith, at)
Step-steps_left s t (end_submit _ at) = ground (arith, at)
Step-steps_left s t (take_ui_task _ n up some_task) = omega (arith, some_task)
Step-steps_left s t (take_worker_task _ n up some_task) = omega (arith, some_task)
Step-steps_left s t (shutdown _ up) = ground (arith, up)
Step-steps_left s t (check _ i here) =
    omega (arith, total-set sink_steps s.sinks i holding checked here)
Step-steps_left s t (lock_to_release _ i here free) =
    omega (arith, total-set sink_steps s.sinks i checked inside here)
Step-steps_left s t (end_release _ i here) =
    omega (arith, total-set sink_steps s.sinks i inside done here)

Steps-steps_left :
    {s t : Handover} (run : Steps s t) → count_steps run + steps_left t ≡ steps_left s
Steps-steps_left stay = omega arith
Steps-steps_left (step ▸ steps) = omega (arith, Steps-steps_left steps, Step-steps_left _ _ step)

-- However the threads run, all steps of a packet together are four, four for each subscription, and
-- that of a shutdown.
pub steps_bound :
    {ui workers : ℕ} {s : Handover} (run : Steps (loaded ui workers) s)
    → count_steps run + steps_left s ≡ 5 + 4 * (ui + workers)
steps_bound run = omega (arith, Steps-steps_left run)

-- The source is through, every subscription's sink was called once and has released the packet, the
-- lock is free and the packet is back on the free list, once.
pub record IsSettled (ui workers : ℕ) (s : Handover) : Type 0 where
  pub through : s.submitter ≡ submitted
  pub called : length s.sinks ≡ ui + workers
  pub released : total active s.sinks ≡ 0
  pub unlocked : s.source_mtx ≡ false
  pub usage : s.packet_usage ≡ false
  pub freed : s.freed ≡ 1

-- A shutdown has come before all tasks of the packet were taken: they stay queued. Every sink
-- that was called has released the packet, which is not on the free list.
pub record IsAbandoned (ui workers : ℕ) (s : Handover) : Type 0 where
  pub down : s.shutdown_initiated ≡ true
  pub through : s.submitter ≡ submitted
  pub queued : 0 < s.ui_tasks + s.worker_tasks
  pub all : s.ui_tasks + s.worker_tasks + length s.sinks ≡ ui + workers
  pub released : total active s.sinks ≡ 0
  pub unlocked : s.source_mtx ≡ false
  pub usage : s.packet_usage ≡ true
  pub freed : s.freed ≡ 0

-- A step other than that of a shutdown.
abbrev pub Moves : Handover → Type 0
Moves s = (t : Handover) × Step s t × (t.shutdown_initiated ≡ s.shutdown_initiated)

unlocked_of_held : (b : Bool) → held b ≡ 0 → b ≡ false
unlocked_of_held true e = absurd (omega (arith, e))
unlocked_of_held false e = refl

abbrev Goes : Handover → ℕ → ℕ → Type 0
Goes s ui workers = Moves s ⊎ IsSettled ui workers s ⊎ IsAbandoned ui workers s

module _ {ui workers : ℕ} (s : Handover) (v : Inv ui workers s) where
  sink_goes :
      (i : ℕ) (k : Sink)
      → get_elem? s.sinks i ≡ some k
      → 0 < active k
      → s.source_mtx ≡ false
      → Moves s
  sink_goes i holding here busy free = (_, check s i here, refl)
  sink_goes i checked here busy free = (_, lock_to_release s i here free, refl)
  sink_goes i inside here busy free = (_, end_release s i here, refl)
  sink_goes i done here busy free = absurd (omega arith)

  inside_goes : (i : ℕ) (k : Sink) → get_elem? s.sinks i ≡ some k → 0 < locks k → Moves s
  inside_goes i holding here busy = absurd (omega arith)
  inside_goes i checked here busy = absurd (omega arith)
  inside_goes i inside here busy = (_, end_release s i here, refl)
  inside_goes i done here busy = absurd (omega arith)

  -- Where no thread takes a task: a sink goes on, or all have released.
  sinks_go :
      (waiting locking : ℕ)
      → total active s.sinks ≡ waiting
      → total locks s.sinks ≡ locking
      → s.submitter ≡ submitted
      → Moves s ⊎ ((total active s.sinks ≡ 0) × (s.source_mtx ≡ false))
  sinks_go waiting (suc n) a l at =
      let (i, k, here, busy) = total-find locks s.sinks (omega (arith, l)) in
      inl (inside_goes i k here busy)
  sinks_go (suc n) zero a l at =
      let (i, k, here, busy) = total-find active s.sinks (omega (arith, a)) in
      inl (
        sink_goes i k here busy
          (unlocked_of_held s.source_mtx (ground (arith, v.exclusive, at, l))))
  sinks_go zero zero a l at =
      inr (a, unlocked_of_held s.source_mtx (ground (arith, v.exclusive, at, l)))

  settled-Goes : s.submitter ≡ submitted → s.ui_tasks ≡ 0 → s.worker_tasks ≡ 0 → Goes s ui workers
  settled-Goes at no_ui no_worker = elim (sinks_go _ _ refl refl at) [
    | inl moves ↦ inl moves
    | inr (a, free) ↦ inr (
        inl (record {
          through = at;
          called = ground (arith, v.tasks, v.counts, at, no_ui, no_worker);
          released = a;
          unlocked = free;
          usage = ground (arith, v.usage, v.free, at, v.refs, no_ui, no_worker, a);
          freed = ground (arith, v.free, at, v.refs, no_ui, no_worker, a);
        }))
  ]

  abandoned-Goes :
      s.submitter ≡ submitted
      → 0 < s.ui_tasks + s.worker_tasks
      → s.shutdown_initiated ≡ true
      → Goes s ui workers
  abandoned-Goes at some_task down = elim (sinks_go _ _ refl refl at) [
    | inl moves ↦ inl moves
    | inr (a, free) ↦ inr (
        inr (record {
          down = down;
          through = at;
          queued = some_task;
          all = ground (arith, v.tasks, v.counts, at);
          released = a;
          unlocked = free;
          usage = ground (arith, v.usage, v.free, at, v.refs, some_task);
          freed = ground (arith, v.free, at, v.refs, some_task);
        }))
  ]

  tasks-Goes :
      (n m : ℕ) → s.ui_tasks ≡ n → s.worker_tasks ≡ m → s.submitter ≡ submitted → Goes s ui workers
  tasks-Goes (suc n) m e f at = elim (Bool-cases s.shutdown_initiated) [
    | inl down ↦ abandoned-Goes at (omega (arith, e)) down
    | inr up ↦ inl (_, take_ui_task s n up e, refl)
  ]
  tasks-Goes zero (suc m) e f at = elim (Bool-cases s.shutdown_initiated) [
    | inl down ↦ abandoned-Goes at (omega (arith, f)) down
    | inr up ↦ inl (_, take_worker_task s m up f, refl)
  ]
  tasks-Goes zero zero e f at = settled-Goes at e f

  submitter-Goes : (m : Submitter) → s.submitter ≡ m → Goes s ui workers
  submitter-Goes loading at = inl (
    _,
    lock_to_submit s at (
        unlocked_of_held s.source_mtx (
          ground
            (arith, v.exclusive, v.tasks, at, locks-le-active s.sinks, active-le-length s.sinks))),
    refl,
  )
  submitter-Goes locked at = inl (_, add_ui_tasks s at, refl)
  submitter-Goes ui_added at = inl (_, add_worker_tasks s at, refl)
  submitter-Goes workers_added at = inl (_, end_submit s at, refl)
  submitter-Goes submitted at = tasks-Goes _ _ refl refl at

-- From every state that the threads can reach, a thread can go on with the packet, or its life is
-- over: there is no deadlock. A run that can go no further, but for a shutdown, has called the
-- sink of every subscription once and put the packet back on the free list once; or a shutdown
-- came before all tasks of the packet were taken. Then these stay queued, the sinks that were
-- called have released the packet, and it is not put back.
pub goes_on :
    {ui workers : ℕ} {s : Handover}
    → Steps (loaded ui workers) s
    → ((t : Handover) × Step s t × (t.shutdown_initiated ≡ s.shutdown_initiated))
      ⊎ IsSettled ui workers s
      ⊎ IsAbandoned ui workers s
goes_on {ui} {workers} {s} run =
    submitter-Goes s (Steps-Inv run (loaded-Inv ui workers)) s.submitter refl
