-- ===== src/Scheduler/Source/Traffic.antt =====
-- SubmitPacket and ReleasePacket of a packet, in its life.
use zamt.Prelude.{
  ℕ, suc, ◌+◌, ◌-◌, ◌*◌, ◌<◌, ◌≡◌, refl, ◌∙◌, Bool, true, false, List, some, arith, ◌==◌,
  if◌then◌else◌, length, get_or, set, length-set, get_or-set, min,
}
use zamt.Scheduler.Tasks.{Task, tally}
use zamt.Scheduler.Source.{
  Source, Subscription, subscribers, add_side, free_if_unused, Submitted, submit, release,
}
use zamt.Scheduler.Source.Valid.{IsValid, get_or-default, below_of_used, packet_number-mul}
use zamt.Scheduler.Source.Counts.{delivered, length-add_side, get_or-add_side, tally-add_side}
use zamt.Scheduler.Source.Lifecycle.{
  state_of, loading, queued, settle, Moves, packet_fits, check_in_use-passes, refs_of_loading,
  refs_of_queued, settle_packet,
}

-- ReleasePacket of a packet with `k + 1` references: no assert fails, one reference goes, and with
-- the last one the packet is unused again. No other packet changes.
pub release-queued :
    {src : Source} (n k : ℕ)
    → IsValid src
    → state_of src n ≡ queued (suc k)
    → (dst : Source) × (release (n * src.packet_size) src ≡ some dst)
      × IsValid dst
      × Moves src n (settle k) dst
unfolding release
release-queued {src} n k v q =
    let below = below_of_used src.packet_usages n in_use in
    let step =
      settle_packet n (set refs n (get_or refs n 0 - 1)) k v in_use
        (length-set refs n (get_or refs n 0 - 1))
        (λ j.
          ground (arith, get_or-set refs n j (get_or refs n 0 - 1) 0 (rw v.sized below), counts)) in
    (
      free_if_unused n (record src { packet_refcounts = set refs n (get_or refs n 0 - 1) }),
      ground (
        arith,
        packet_number-mul src.packet_size n v.positive (packet_fits n v below),
        check_in_use-passes n v in_use,
        counts,
      ),
      step.0,
      step.1,
    )
  where
    refs : List ℕ
    refs = src.packet_refcounts

    in_use : get_or src.packet_usages n false ≡ true
    in_use = ground (arith, q)

    counts : get_or src.packet_refcounts n 0 ≡ suc k
    counts = (refs_of_queued src n (suc k) q).0

-- All that SubmitPacket does with a packet that is being loaded.
pub record Submits (source_id packet time n : ℕ) (src : Source) (ui workers : List Task)
    (s : Submitted) : Type 0 where
  pub valid : IsValid s.source
  pub moves :
      Moves src n
        (settle (subscribers true src.subscriptions + subscribers false src.subscriptions))
        s.source
  pub ui_tasks :
      (q : Task → Bool)
      → tally q s.tasks_for_ui
        ≡ tally q ui + delivered q true source_id packet time src.subscriptions
  pub worker_tasks :
      (q : Task → Bool)
      → tally q s.tasks_for_workers
        ≡ tally q workers + delivered q false source_id packet time src.subscriptions
  pub ui_woken : s.ui_notified ≡ min 1 (subscribers true src.subscriptions)
  pub workers_woken : s.workers_notified ≡ subscribers false src.subscriptions

-- SubmitPacket of a packet that is being loaded: no assert fails, each subscription gets a task on
-- its side, the packet has as many references as there are subscriptions, and with none it is
-- unused at once.
pub submit-loading :
    {src : Source} (source_id time n : ℕ) (ui workers : List Task)
    → IsValid src
    → state_of src n ≡ loading
    → (s : Submitted) × (submit source_id (n * src.packet_size) time src ui workers ≡ some s)
      × Submits source_id (n * src.packet_size) time n src ui workers s
unfolding submit
submit-loading {src} source_id time n ui workers v q = (
  s,
  ground (
    arith,
    packet_number-mul src.packet_size n v.positive (packet_fits n v below),
    check_in_use-passes n v in_use,
    get_or-default src.packet_refcounts n 1 0 (rw v.sized below),
    bare,
  ),
  record {
    valid = step.0;
    moves = step.1;
    ui_tasks = tally-add_side true source_id packet time n subs out;
    worker_tasks = tally-add_side false source_id packet time n subs (workers, first.1);
    ui_woken = ground arith;
    workers_woken = refl;
  },
)
  where
    packet : ℕ
    packet = n * src.packet_size

    subs : List Subscription
    subs = src.subscriptions

    out : List Task × List ℕ
    out = (ui, set src.packet_refcounts n 0)

    first : List Task × List ℕ
    first = add_side true source_id packet time n subs out

    second : List Task × List ℕ
    second = add_side false source_id packet time n subs (workers, first.1)

    in_use : get_or src.packet_usages n false ≡ true
    in_use = ground (arith, q)

    bare : get_or src.packet_refcounts n 0 ≡ 0
    bare = refs_of_loading src n q

    below : n < length src.packet_usages
    below = below_of_used src.packet_usages n in_use

    below_refs : n < length src.packet_refcounts
    below_refs = rw v.sized below

    length_first : length first.1 ≡ length src.packet_refcounts
    length_first =
        length-add_side true source_id packet time n subs out ∙ length-set src.packet_refcounts n 0

    counts :
        (j : ℕ)
        → get_or second.1 j 0 ≡ (
            if n == j
            then subscribers true subs + subscribers false subs
            else get_or src.packet_refcounts j 0)
    counts j = ground (
      arith,
      get_or-add_side false source_id packet time n subs (workers, first.1) j
          (rw length_first below_refs),
      get_or-add_side true source_id packet time n subs out j
          (rw (length-set src.packet_refcounts n 0) below_refs),
      get_or-add_side true source_id packet time n subs out n
          (rw (length-set src.packet_refcounts n 0) below_refs),
      get_or-set src.packet_refcounts n j 0 0 below_refs,
      get_or-set src.packet_refcounts n n 0 0 below_refs,
    )

    s : Submitted
    s = record {
      source = free_if_unused n (record src { packet_refcounts = second.1 });
      tasks_for_ui = first.0;
      tasks_for_workers = second.0;
      ui_notified = if subscribers true subs == 0 then 0 else 1;
      workers_notified = subscribers false subs;
    }

    step :
        IsValid s.source
        × Moves src n (settle (subscribers true subs + subscribers false subs)) s.source
    step =
        settle_packet n second.1 _ v in_use
          (length-add_side false source_id packet time n subs (workers, first.1) ∙ length_first)
          counts
