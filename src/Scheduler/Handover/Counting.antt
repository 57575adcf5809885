-- ===== src/Scheduler/Handover/Counting.antt =====
-- The references of a packet, and who may hold the lock of its source.
use zamt.Prelude.{
  ℕ, ◌+◌, ◌≤◌, ◌≡◌, refl, ap, Bool, true, false, List, [], ◌∷◌, some, arith, ◌==◌, if◌then◌else◌,
  get_elem?, set, total, total-set, total-pos, length, length-set,
}
use zamt.Scheduler.Handover.{
  Submitter, loading, locked, ui_added, workers_added, submitted, Sink, holding, checked, inside,
  done, Handover, Step, lock_to_submit, add_ui_tasks, add_worker_tasks, end_submit, take_ui_task,
  take_worker_task, shutdown, check, lock_to_release, end_release,
}

-- A sink that has not released the packet.
abbrev pub active : Sink → ℕ
active holding = 1
active checked = 1
active inside = 1
active done = 0

abbrev pub locks : Sink → ℕ
locks holding = 0
locks checked = 0
locks inside = 1
locks done = 0

abbrev pub submitter_locks : Submitter → ℕ
submitter_locks loading = 0
submitter_locks locked = 1
submitter_locks ui_added = 1
submitter_locks workers_added = 1
submitter_locks submitted = 0

-- How many tasks the source has queued so far.
abbrev pub queued_by : Submitter → ℕ → ℕ → ℕ
queued_by loading ui workers = 0
queued_by locked ui workers = 0
queued_by ui_added ui workers = ui
queued_by workers_added ui workers = ui + workers
queued_by submitted ui workers = ui + workers

-- Whether the packet is on the free list.
abbrev pub freed_by : Submitter → ℕ → ℕ
freed_by loading refs = 0
freed_by locked refs = 0
freed_by ui_added refs = 0
freed_by workers_added refs = 0
freed_by submitted refs = if refs == 0 then 1 else 0

abbrev pub held : Bool → ℕ
held true = 1
held false = 0

-- The number of subscriptions stays what it was.
pub record Inv (ui workers : ℕ) (s : Handover) : Type 0 where
  pub counts : (s.ui ≡ ui) × (s.workers ≡ workers)
  pub exclusive : submitter_locks s.submitter + total locks s.sinks ≡ held s.source_mtx
  pub refs : s.packet_refcount ≡ s.ui_tasks + s.worker_tasks + total active s.sinks
  pub tasks : s.ui_tasks + s.worker_tasks + length s.sinks ≡ queued_by s.submitter s.ui s.workers
  pub free : s.freed ≡ freed_by s.submitter s.packet_refcount
  pub usage : s.packet_usage ≡ (if s.freed == 0 then true else false)

-- A sink with the lock is one that has not released.
pub locks-le-active : (ks : List Sink) → total locks ks ≤ total active ks
locks-le-active [] = omega arith
locks-le-active (holding ∷ ks) = omega (arith, locks-le-active ks)
locks-le-active (checked ∷ ks) = omega (arith, locks-le-active ks)
locks-le-active (inside ∷ ks) = omega (arith, locks-le-active ks)
locks-le-active (done ∷ ks) = omega (arith, locks-le-active ks)

pub active-le-length : (ks : List Sink) → total active ks ≤ length ks
active-le-length [] = omega arith
active-le-length (holding ∷ ks) = omega (arith, active-le-length ks)
active-le-length (checked ∷ ks) = omega (arith, active-le-length ks)
active-le-length (inside ∷ ks) = omega (arith, active-le-length ks)
active-le-length (done ∷ ks) = omega (arith, active-le-length ks)

pub held-le-one : (b : Bool) → held b ≤ 1
held-le-one true = omega arith
held-le-one false = omega arith

-- While a sink has the lock, the source has given it back for good.
submitted_of_inside :
    {ui workers : ℕ} (s : Handover) (i : ℕ)
    → Inv ui workers s
    → get_elem? s.sinks i ≡ some inside
    → s.submitter ≡ submitted
submitted_of_inside s i v here = pick s.submitter refl
  where
    locking : 1 ≤ total locks s.sinks
    locking = total-pos locks s.sinks i inside here

    no_other : submitter_locks s.submitter ≡ 0
    no_other = omega (arith, v.exclusive, held-le-one s.source_mtx, locking)

    some_sink : 1 ≤ length s.sinks
    some_sink = omega (arith, total-pos active s.sinks i inside here, active-le-length s.sinks)

    pick : (m : Submitter) → s.submitter ≡ m → m ≡ submitted
    pick loading at = absurd (ground (arith, v.tasks, some_sink, at))
    pick locked at = absurd (ground (arith, no_other, at))
    pick ui_added at = absurd (ground (arith, no_other, at))
    pick workers_added at = absurd (ground (arith, no_other, at))
    pick submitted at = refl

-- A sink that moves on, but for the end of its release.
module _ (s : Handover) (i : ℕ) (k k' : Sink) (here : get_elem? s.sinks i ≡ some k) where
  moved : (f : Sink → ℕ) → total f (set s.sinks i k') + f k ≡ total f s.sinks + f k'
  moved f = total-set f s.sinks i k k' here

pub Step-Inv : {ui workers : ℕ} (s t : Handover) → Step s t → Inv ui workers s → Inv ui workers t
Step-Inv s t (lock_to_submit _ at free) v = record {
  counts = v.counts;
  exclusive = ground (arith, v.exclusive, at, free);
  refs = ground (arith, v.tasks, at, active-le-length s.sinks);
  tasks = ground (arith, v.tasks, at);
  free = ground (arith, v.free, at);
  usage = v.usage;
}
Step-Inv s t (add_ui_tasks _ at) v = record {
  counts = v.counts;
  exclusive = ground (arith, v.exclusive, at);
  refs = omega (arith, v.refs);
  tasks = ground (arith, v.tasks, at);
  free = ground (arith, v.free, at);
  usage = v.usage;
}
Step-Inv s t (add_worker_tasks _ at) v = record {
  counts = v.counts;
  exclusive = ground (arith, v.exclusive, at);
  refs = omega (arith, v.refs);
  tasks = ground (arith, v.tasks, at);
  free = ground (arith, v.free, at);
  usage = v.usage;
}
Step-Inv s t (end_submit _ at) v = record {
  counts = v.counts;
  exclusive = ground (arith, v.exclusive, at, held-le-one s.source_mtx);
  refs = v.refs;
  tasks = ground (arith, v.tasks, at);
  free = ground (arith, v.free, at);
  usage = ground (arith, v.free, v.usage, at);
}
Step-Inv s t (take_ui_task _ n up some_task) v = record {
  counts = v.counts;
  exclusive = omega (arith, v.exclusive);
  refs = omega (arith, v.refs, some_task);
  tasks = omega (arith, v.tasks, some_task);
  free = v.free;
  usage = v.usage;
}
Step-Inv s t (take_worker_task _ n up some_task) v = record {
  counts = v.counts;
  exclusive = omega (arith, v.exclusive);
  refs = omega (arith, v.refs, some_task);
  tasks = omega (arith, v.tasks, some_task);
  free = v.free;
  usage = v.usage;
}
Step-Inv s t (shutdown _ up) v = record {
  counts = v.counts;
  exclusive = v.exclusive;
  refs = v.refs;
  tasks = v.tasks;
  free = v.free;
  usage = v.usage;
}
Step-Inv s t (check _ i here) v = record {
  counts = v.counts;
  exclusive = omega (arith, v.exclusive, moved s i holding checked here locks);
  refs = omega (arith, v.refs, moved s i holding checked here active);
  tasks = rw (length-set s.sinks i checked) v.tasks;
  free = v.free;
  usage = v.usage;
}
Step-Inv s t (lock_to_release _ i here free) v = record {
  counts = v.counts;
  exclusive = omega (arith, v.exclusive, ap held free, moved s i checked inside here locks);
  refs = omega (arith, v.refs, moved s i checked inside here active);
  tasks = rw (length-set s.sinks i inside) v.tasks;
  free = v.free;
  usage = v.usage;
}
Step-Inv s t (end_release _ i here) v =
    let at = submitted_of_inside s i v here in
    record {
      counts = v.counts;
      exclusive = omega (
        arith,
        v.exclusive,
        held-le-one s.source_mtx,
        moved s i inside done here locks,
        ap submitter_locks at,
      );
      refs = omega (arith, v.refs, moved s i inside done here active);
      tasks = rw (length-set s.sinks i done) v.tasks;
      free = ground (arith, v.free, at, v.refs, total-pos active s.sinks i inside here);
      usage = ground (arith, v.free, v.usage, at, v.refs, total-pos active s.sinks i inside here);
    }
