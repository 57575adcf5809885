-- ===== src/Scheduler/Handover/Safety.antt =====
-- What holds of a packet in every state that the threads can reach.
use zamt.Prelude.{ℕ, ◌+◌, ◌≤◌, ◌<◌, ◌≡◌, refl, true, some, arith, get_elem?, total, total-pos}
use zamt.Scheduler.Handover.{
  Submitter, loading, locked, ui_added, workers_added, submitted, Sink, Handover, Steps, stay, ◌▸◌,
  loaded,
}
use zamt.Scheduler.Handover.Counting.{
  active, locks, submitter_locks, freed_by, Inv, Step-Inv, held-le-one,
}

pub Steps-Inv : {ui workers : ℕ} {s t : Handover} → Steps s t → Inv ui workers s → Inv ui workers t
Steps-Inv stay v = v
Steps-Inv (step ▸ steps) v = Steps-Inv steps (Step-Inv _ _ step v)

pub loaded-Inv : (ui workers : ℕ) → Inv ui workers (loaded ui workers)
loaded-Inv ui workers = record {
  counts = (refl, refl);
  exclusive = refl;
  refs = refl;
  tasks = refl;
  free = refl;
  usage = refl;
}

-- The asserts of ReleasePacket, and that the packet is not handed out again.
abbrev pub InUse : Handover → Type 0
InUse s = (s.packet_usage ≡ true) × (0 < s.packet_refcount) × (s.freed ≡ 0)

freed_by-pos : (m : Submitter) {refs : ℕ} → 0 < refs → freed_by m refs ≡ 0
freed_by-pos loading h = refl
freed_by-pos locked h = refl
freed_by-pos ui_added h = refl
freed_by-pos workers_added h = refl
freed_by-pos submitted h = ground arith

module _ {ui workers : ℕ} {s : Handover} (run : Steps (loaded ui workers) s) where
  v : Inv ui workers s
  v = Steps-Inv run (loaded-Inv ui workers)

  in_use : 0 < s.packet_refcount → InUse s
  in_use some_refs =
      let none_freed : s.freed ≡ 0 = omega (arith, v.free, freed_by-pos s.submitter some_refs) in
      (ground (arith, v.usage, none_freed), some_refs, none_freed)

  -- As long as a sink has not given its packet back, the asserts of ReleasePacket hold for it,
  -- although they read without the lock, and the packet is not on the free list; so no source can
  -- get it while a sink reads it, in any interleaving of SubmitPacket, DispatchTasks and
  -- ReleasePacket.
  pub sink-InUse : (i : ℕ) (k : Sink) → get_elem? s.sinks i ≡ some k → active k ≡ 1 → InUse s
  sink-InUse i k here busy = in_use (omega (arith, v.refs, busy, total-pos active s.sinks i k here))

  -- At most one thread has the lock of the source, and the packet is put on the free list at most
  -- once.
  pub one_at_a_time : (submitter_locks s.submitter + total locks s.sinks ≤ 1) × (s.freed ≤ 1)
  one_at_a_time =
      (omega (arith, v.exclusive, held-le-one s.source_mtx), at_most_one s.submitter v.free)
    where
      at_most_one : (m : Submitter) → s.freed ≡ freed_by m s.packet_refcount → s.freed ≤ 1
      at_most_one loading e = omega (arith, e)
      at_most_one locked e = omega (arith, e)
      at_most_one ui_added e = omega (arith, e)
      at_most_one workers_added e = omega (arith, e)
      at_most_one submitted e = ground (arith, e)
