-- ===== src/Scheduler/System/Exchange.antt =====
-- What GetPacketForSubmission and SubmitPacket of one packet leave behind, together.
use zamt.Prelude.{
  ℕ, ◌+◌, ◌*◌, ◌<◌, ◌≤◌, ◌≡◌, ◌≢◌, refl, ◌∙◌, ap, subst, true, false, ◌&&◌, List, [], ◌∷◌, none,
  some, arith, ◌==◌, if◌then◌else◌, length,
}
use zamt.Scheduler.Source.{Source, Subscription, subscribers}
use zamt.Scheduler.Source.Lifecycle.{loading, state_of, get_packet-cons, get_packet-nil}
use zamt.Scheduler.Source.Traffic.{submit-loading}
use zamt.Scheduler.Registry.{find_source, set_source}
use zamt.Scheduler.Registry.Lookup.{find_source-set_source}
use zamt.Scheduler.Api.{Scheduler, get_packet_for_submission, submit_packet}
use zamt.Scheduler.System.{System, is_of, loans, lend, end_loan, perform, submits}
use zamt.Scheduler.System.Expected.{delivered-is_of}
use zamt.Scheduler.System.Invariant.{Inv, references}
use zamt.Scheduler.System.Rules.{Moves-Inv, same_pool-Inv}
use zamt.Scheduler.System.Packets.{refs_at, loads_at, submits-Keeps}

-- How many sinks want the packets of a source.
abbrev pub audience : List Subscription → ℕ
audience subs = subscribers true subs + subscribers false subs

-- `z` is `y` with a packet of `src` delivered.
pub record Delivered (id packet : ℕ) (src : Source) (y z : System) : Type 0 where
  pub inv : Inv z
  pub source : Source
  pub found : find_source id z.scheduler.sources ≡ some source
  pub buffer : source.packet_buffer ≡ src.packet_buffer
  pub size : source.packet_size ≡ src.packet_size
  pub subscriptions : source.subscriptions ≡ src.subscriptions
  pub others :
      (j : ℕ) → j ≢ id → find_source j z.scheduler.sources ≡ find_source j y.scheduler.sources
  pub refs :
      (j p : ℕ)
      → references j p z
        ≡ references j p y + (if id == j && packet == p then audience src.subscriptions else 0)
  pub held : z.held ≡ y.held

module _ (y : System) (id time n : ℕ) {src : Source} (v : Inv y)
    (found : find_source id y.scheduler.sources ≡ some src)
    (lent : 0 < loans id (n * src.packet_size) y.loading) (was : state_of src n ≡ loading) where
  submit-Delivered :
      (z : System) × (perform (submits id (n * src.packet_size) time) y ≡ some z)
      × (z.loading ≡ end_loan id (n * src.packet_size) y.loading)
      × Delivered id (n * src.packet_size) src y z
  unfolding perform submit_packet
  submit-Delivered =
      let (s, runs, sub) =
        submit-loading id time n y.scheduler.tasks_for_ui y.scheduler.tasks_for_workers
          (v.valid id src found) was in
      let z : System = record {
        scheduler = record y.scheduler {
          sources = set_source id s.source y.scheduler.sources;
          tasks_for_ui = s.tasks_for_ui;
          tasks_for_workers = s.tasks_for_workers;
        };
        loading = end_loan id (n * src.packet_size) y.loading;
        held = y.held;
      } in
      let performs : perform (submits id (n * src.packet_size) time) y ≡ some z =
        rw found (rw runs refl) in
      let (z', performs', inv) = submits-Keeps y id (n * src.packet_size) time v lent in
      let same : z' ≡ z = cc in
      (
        z,
        performs,
        refl,
        record {
          inv = subst Inv same inv;
          source = s.source;
          found =
              ground (
                arith,
                find_source-set_source id id s.source src y.scheduler.sources v.sorted found,
              );
          buffer = sub.moves.buffer;
          size = sub.moves.size;
          subscriptions = sub.moves.subscriptions;
          others = λ j other. ground (
            arith,
            other,
            find_source-set_source j id s.source src y.scheduler.sources v.sorted found,
          );
          refs = λ j p. ground (
            arith,
            sub.ui_tasks (is_of j p),
            sub.worker_tasks (is_of j p),
            delivered-is_of true id (n * src.packet_size) time j p src.subscriptions,
            delivered-is_of false id (n * src.packet_size) time j p src.subscriptions,
          );
          held = refl;
        },
      )

module _ (y : System) (id time n : ℕ) (rest : List ℕ) {src : Source} (v : Inv y)
    (found : find_source id y.scheduler.sources ≡ some src)
    (free : src.free_packets ≡ n ∷ rest) where
  -- The source hands out a packet inside its buffer, and submitting it fails no assert.
  pub get-submit :
      (s : Scheduler) × (get_packet_for_submission id y.scheduler
        ≡ some (some (n * src.packet_size), s))
      × (n * src.packet_size + src.packet_size ≤ length src.packet_buffer)
      × ((z : System) × (perform
              (submits id (n * src.packet_size) time)
              (record y { scheduler = s; loading = lend id (some (n * src.packet_size)) y.loading })
            ≡ some z)
          × (z.loading ≡ y.loading)
          × Delivered id (n * src.packet_size) src y z)
  unfolding get_packet_for_submission end_loan
  get-submit =
      let (dst, runs, valid, below, was, moved) =
        get_packet-cons n rest (v.valid id src found) free in
      let p : ℕ = n * src.packet_size in
      let y1 : System = record {
        scheduler = record y.scheduler { sources = set_source id dst y.scheduler.sources };
        loading = lend id (some p) y.loading;
        held = y.held;
      } in
      let inv : Inv y1 =
        Moves-Inv y id v found valid n loading y.scheduler.tasks_for_ui
          y.scheduler.tasks_for_workers y.held _ moved
          (λ j p. ground (arith, refs_at y id v found n, was))
          (λ j p. ground (arith, loads_at y id v found n, was)) v.ui_set v.workers_set in
      let found1 : find_source id y1.scheduler.sources ≡ some dst =
        ground (arith, find_source-set_source id id dst src y.scheduler.sources v.sorted found) in
      let at : n * dst.packet_size ≡ p = ap (λ k. n * k) moved.size in
      let lent : 0 < loans id (n * dst.packet_size) y1.loading = ground (arith, at) in
      let now : state_of dst n ≡ loading = ground (arith, moved.states n) in
      let (z, performs, kept, d) = submit-Delivered y1 id time n inv found1 lent now in
      (
        y1.scheduler,
        rw found (rw runs refl),
        grind (arith, below, (v.valid id src found).buffer),
        (
          z,
          subst (λ q. perform (submits id q time) y1 ≡ some z) at performs,
          ground (arith, kept, at),
          record {
            inv = d.inv;
            source = d.source;
            found = d.found;
            buffer = d.buffer ∙ moved.buffer;
            size = d.size ∙ moved.size;
            subscriptions = d.subscriptions ∙ moved.subscriptions;
            others = λ j other. ground (
              arith,
              other,
              d.others j other,
              find_source-set_source j id dst src y.scheduler.sources v.sorted found,
            );
            refs = λ j q. ground (arith, d.refs j q, at, ap audience moved.subscriptions);
            held = d.held;
          },
        ),
      )

module _ (y : System) (id : ℕ) {src : Source} (v : Inv y)
    (found : find_source id y.scheduler.sources ≡ some src) (free : src.free_packets ≡ []) where
  -- A source with no free packet gets a null pointer, and nothing changes but for that.
  pub get-null :
      (s : Scheduler) × (get_packet_for_submission id y.scheduler ≡ some (none, s))
      × Inv (record y { scheduler = s })
      × (find_source id s.sources ≡ some src)
  unfolding get_packet_for_submission
  get-null = (
    record y.scheduler { sources = set_source id src y.scheduler.sources },
    rw found (rw (get_packet-nil {src = src} free) refl),
    same_pool-Inv y id v found (v.valid id src found) (λ w p. refl),
    ground (arith, find_source-set_source id id src src y.scheduler.sources v.sorted found),
  )
