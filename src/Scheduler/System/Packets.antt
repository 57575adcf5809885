-- ===== src/Scheduler/System/Packets.antt =====
-- GetPacketForSubmission, SubmitPacket and ReleasePacket against the invariant.
use zamt.Prelude.{
  ℕ, zero, suc, ◌+◌, ◌*◌, ◌/◌, ◌<◌, ◌≡◌, refl, sym, ◌∙◌, ap, subst, true, false, List, [], ◌∷◌,
  Option, none, some, arith,
}
use zamt.Scheduler.Tasks.{tally}
use zamt.Scheduler.Source.{Source, Submitted, submit, subscribers}
use zamt.Scheduler.Source.Lifecycle.{
  PacketState, unused, loading, queued, state_of, settle, get_packet-nil, get_packet-cons,
}
use zamt.Scheduler.Source.Traffic.{release-queued, submit-loading, Submits}
use zamt.Scheduler.Registry.{find_source, set_source}
use zamt.Scheduler.Api.{get_packet_for_submission, submit_packet, release_packet}
use zamt.Scheduler.System.{
  System, is_of, loans, end_loan, end_task, perform, gets, submits, releases,
}
use zamt.Scheduler.System.Expected.{
  refs_of, loads_of, expected, expected_at, pointer_of_divides, delivered-is_of, delivered-set,
}
use zamt.Scheduler.System.Invariant.{Inv, unset, references, tally-end_task, loans-end_loan}
use zamt.Scheduler.System.Rules.{Keeps, same_pool-Inv, Moves-Inv}

module _ (y : System) (id : ℕ) {src : Source} (v : Inv y)
    (found : find_source id y.scheduler.sources ≡ some src) where
  pub refs_at : (n : ℕ) → references id (n * src.packet_size) y ≡ refs_of (state_of src n)
  refs_at n =
      v.refs id _
      ∙ ap (λ o. expected refs_of o (n * src.packet_size)) found
      ∙ expected_at refs_of src n (v.valid id src found).positive

  pub loads_at : (n : ℕ) → loans id (n * src.packet_size) y.loading ≡ loads_of (state_of src n)
  loads_at n =
      v.loads id _
      ∙ ap (λ o. expected loads_of o (n * src.packet_size)) found
      ∙ expected_at loads_of src n (v.valid id src found).positive

  got : (free : List ℕ) → src.free_packets ≡ free → Keeps (gets id) y
  unfolding perform get_packet_for_submission
  got [] none_left = (
    record y { scheduler = record y.scheduler { sources = set_source id src y.scheduler.sources } },
    rw found (rw (get_packet-nil {src = src} none_left) refl),
    same_pool-Inv y id v found (v.valid id src found) (λ w p. refl),
  )
  got (n ∷ rest) some_left =
      let (dst, runs, valid, _, was, moved) =
        get_packet-cons n rest (v.valid id src found) some_left in
      (
        record {
          scheduler = record y.scheduler { sources = set_source id dst y.scheduler.sources };
          loading = record { source_id = id; packet = n * src.packet_size } ∷ y.loading;
          held = y.held;
        },
        rw found (rw runs refl),
        Moves-Inv y id v found valid n loading y.scheduler.tasks_for_ui
            y.scheduler.tasks_for_workers y.held _ moved (λ j p. ground (arith, refs_at n, was))
            (λ j p. ground (arith, loads_at n, was)) v.ui_set v.workers_set,
      )

pub gets-Keeps :
    (y : System) (id : ℕ) {src : Source}
    → Inv y
    → find_source id y.scheduler.sources ≡ some src
    → Keeps (gets id) y
gets-Keeps y id {src} v found = got y id v found src.free_packets refl

-- Where a weight of a pointer is expected, the pointer is that of a packet of a known source.
packet_of_expected :
    (w : PacketState → ℕ) (o : Option Source) (p : ℕ)
    → 0 < expected w o p
    → (src : Source) × (n : ℕ) × (o ≡ some src)
      × (n * src.packet_size ≡ p)
      × (0 < w (state_of src n))
packet_of_expected w none p h = absurd (omega arith)
packet_of_expected w (some src) p h = (
  src,
  p / src.packet_size,
  refl,
  pointer_of_divides src.packet_size (p / src.packet_size) p (ground arith) refl,
  ground arith,
)

pub loan_packet :
    (y : System) (id p : ℕ)
    → Inv y
    → 0 < loans id p y.loading
    → (src : Source) × (n : ℕ) × (find_source id y.scheduler.sources ≡ some src)
      × (n * src.packet_size ≡ p)
      × (state_of src n ≡ loading)
loan_packet y id p v h =
    let (src, n, found, at, weighs) =
      packet_of_expected loads_of (find_source id y.scheduler.sources) p (rw (← v.loads id p) h) in
    (src, n, found, at, is_loading (state_of src n) weighs)
  where
    is_loading : (s : PacketState) → 0 < loads_of s → s ≡ loading
    is_loading unused h = absurd (omega arith)
    is_loading loading h = refl
    is_loading (queued k) h = absurd (omega arith)

pub referenced_packet :
    (y : System) (id p : ℕ)
    → Inv y
    → 0 < references id p y
    → (src : Source) × (n k : ℕ) × (find_source id y.scheduler.sources ≡ some src)
      × (n * src.packet_size ≡ p)
      × (state_of src n ≡ queued (suc k))
referenced_packet y id p v h =
    let (src, n, found, at, weighs) =
      packet_of_expected refs_of (find_source id y.scheduler.sources) p (rw (← v.refs id p) h) in
    let (k, is) = is_queued (state_of src n) weighs in (src, n, k, found, at, is)
  where
    is_queued : (s : PacketState) → 0 < refs_of s → (k : ℕ) × (s ≡ queued (suc k))
    is_queued unused h = absurd (omega arith)
    is_queued loading h = absurd (omega arith)
    is_queued (queued zero) h = absurd (omega arith)
    is_queued (queued (suc k)) h = (k, refl)

module _ (y : System) (id time n : ℕ) {src : Source} (v : Inv y)
    (found : find_source id y.scheduler.sources ≡ some src) where
  submitted :
      0 < loans id (n * src.packet_size) y.loading
      → state_of src n ≡ loading
      → Keeps (submits id (n * src.packet_size) time) y
  unfolding perform submit_packet
  submitted lent was = (
    record {
      scheduler = record y.scheduler {
        sources = set_source id s.source y.scheduler.sources;
        tasks_for_ui = s.tasks_for_ui;
        tasks_for_workers = s.tasks_for_workers;
      };
      loading = end_loan id packet y.loading;
      held = y.held;
    },
    rw found (rw (run.1) refl),
    Moves-Inv y id v found (run.2).valid n (settle (ui + workers)) s.tasks_for_ui
        s.tasks_for_workers y.held _ (run.2).moves
        (λ j p. ground (
          arith,
          (run.2).ui_tasks (is_of j p),
          (run.2).worker_tasks (is_of j p),
          delivered-is_of true id packet time j p src.subscriptions,
          delivered-is_of false id packet time j p src.subscriptions,
          refs_at y id v found n,
          was,
        ))
        (λ j p.
          ground (arith, loans-end_loan id packet j p y.loading lent, loads_at y id v found n, was))
        (omega (
          arith,
          (run.2).ui_tasks unset,
          delivered-set true id packet time src.subscriptions,
          v.ui_set,
        ))
        (omega (
          arith,
          (run.2).worker_tasks unset,
          delivered-set false id packet time src.subscriptions,
          v.workers_set,
        )),
  )
    where
      packet : ℕ
      packet = n * src.packet_size

      ui : ℕ
      ui = subscribers true src.subscriptions

      workers : ℕ
      workers = subscribers false src.subscriptions

      run :
          (s : Submitted) × (submit id packet time src y.scheduler.tasks_for_ui
              y.scheduler.tasks_for_workers
            ≡ some s)
          × Submits id packet time n src y.scheduler.tasks_for_ui y.scheduler.tasks_for_workers s
      run =
          submit-loading id time n y.scheduler.tasks_for_ui y.scheduler.tasks_for_workers
            (v.valid id src found) was

      s : Submitted
      s = run.0

  released :
      (k : ℕ)
      → 0 < tally (is_of id (n * src.packet_size)) y.held
      → state_of src n ≡ queued (suc k)
      → Keeps (releases id (n * src.packet_size)) y
  unfolding perform release_packet
  released k held was =
      let (dst, runs, valid, moved) = release-queued n k (v.valid id src found) was in
      (
        record {
          scheduler = record y.scheduler { sources = set_source id dst y.scheduler.sources };
          loading = y.loading;
          held = end_task id (n * src.packet_size) y.held;
        },
        rw found (rw runs refl),
        Moves-Inv y id v found valid n (settle k) y.scheduler.tasks_for_ui
            y.scheduler.tasks_for_workers _ y.loading moved
            (λ j p. ground (
              arith,
              tally-end_task id (n * src.packet_size) j p y.held held,
              refs_at y id v found n,
              was,
            ))
            (λ j p. ground (arith, loads_at y id v found n, was)) v.ui_set v.workers_set,
      )

pub submits-Keeps :
    (y : System) (id packet time : ℕ)
    → Inv y
    → 0 < loans id packet y.loading
    → Keeps (submits id packet time) y
submits-Keeps y id packet time v lent =
    let (src, n, found, at, was) = loan_packet y id packet v lent in
    subst (λ p. Keeps (submits id p time) y) at
      (submitted y id time n v found (subst (λ p. 0 < loans id p y.loading) (sym at) lent) was)

pub releases-Keeps :
    (y : System) (id packet : ℕ)
    → Inv y
    → 0 < tally (is_of id packet) y.held
    → Keeps (releases id packet) y
releases-Keeps y id packet v held =
    let (src, n, k, found, at, was) = referenced_packet y id packet v (omega arith) in
    subst (λ p. Keeps (releases id p) y) at
      (released y id 0 n v found k (subst (λ p. 0 < tally (is_of id p) y.held) (sym at) held) was)
