-- ===== src/Scheduler/System/Safety.antt =====
-- Runs of the scheduler with its clients.
use zamt.Prelude.{
  ℕ, count, min, ◌+◌, ◌*◌, ◌<◌, ◌≤◌, ◌≡◌, refl, sym, ◌∙◌, ap, subst, true, false, List, [], ◌∷◌,
  Option, none, some, arith, length,
}
use zamt.Scheduler.Source.{Source}
use zamt.Scheduler.Source.Valid.{get_or-default}
use zamt.Scheduler.Source.Lifecycle.{get_packet-nil, get_packet-cons}
use zamt.Scheduler.Registry.{find_source}
use zamt.Scheduler.Api.{Scheduler, create, get_packet_for_submission, shutdown}
use zamt.Scheduler.System.{
  System, Action, loans, perform, Legal, registers, subscribes, perform_all, unsubscribes, gets,
  submits, dispatches, releases, shuts_down,
}
use zamt.Scheduler.System.Expected.{refs_of, loads_of}
use zamt.Scheduler.System.Invariant.{Inv, references}
use zamt.Scheduler.System.Rules.{Keeps}
use zamt.Scheduler.System.Setup.{registers-Keeps, subscribes-Keeps, unsubscribes-Keeps}
use zamt.Scheduler.System.Packets.{gets-Keeps, submits-Keeps, releases-Keeps, refs_at, loads_at}
use zamt.Scheduler.System.Dispatch.{dispatches-Keeps}

shuts_down-Keeps : (y : System) → Inv y → Keeps shuts_down y
unfolding perform shutdown
shuts_down-Keeps y v = (
  record y { scheduler = record y.scheduler { shutdown_initiated = true } },
  refl,
  record {
    sorted = v.sorted;
    valid = v.valid;
    refs = v.refs;
    loads = v.loads;
    ui_set = v.ui_set;
    workers_set = v.workers_set;
  },
)

-- A legal operation in a state with the invariant runs with no failed assert and keeps it: the
-- reference count of every packet of every source equals the number of tasks for it that are
-- queued or whose sink has not released it.
pub perform-Inv : (a : Action) (y : System) → Inv y → Legal a y → Keeps a y
perform-Inv (registers id size queue) y v (new, pos, room, small) =
    registers-Keeps y id size queue v new pos room small
perform-Inv (subscribes id f on_ui) y v (src, found) = subscribes-Keeps y id f on_ui v found
perform-Inv (unsubscribes id subscription) y v (src, found, below) =
    unsubscribes-Keeps y id subscription v found below
perform-Inv (gets id) y v (src, found) = gets-Keeps y id v found
perform-Inv (submits id packet time) y v lent = submits-Keeps y id packet time v lent
perform-Inv (dispatches ui tie) y v l = dispatches-Keeps y ui tie v
perform-Inv (releases id packet) y v held = releases-Keeps y id packet v held
perform-Inv shuts_down y v l = shuts_down-Keeps y v

-- Each operation of a sequence is legal where it comes.
abbrev pub LegalRun : List Action → System → Type 0
LegalRun [] y = Unit {0}
LegalRun (a ∷ rest) y =
    Legal a y × elim (perform a y) [ none ↦ Unit {0} | some z ↦ LegalRun rest z ]

pub perform_all-Inv :
    (run : List Action) (y : System)
    → Inv y
    → LegalRun run y
    → (z : System) × (perform_all run y ≡ some z) × Inv z
unfolding perform_all
perform_all-Inv [] y v l = (y, refl, v)
perform_all-Inv (a ∷ rest) y v l =
    let (z, runs, w) = perform-Inv a y v l.0 in
    let legal : LegalRun rest z =
      subst (λ o. elim o [ none ↦ Unit {0} | some z ↦ LegalRun rest z ]) runs l.1 in
    let (end, runs_on, w') = perform_all-Inv rest z w legal in (end, rw runs runs_on, w')

-- A scheduler just made, with nobody keeping a packet.
abbrev pub started : ℕ → ℕ → System
started worker_threads processors = record {
  scheduler = create worker_threads processors;
  loading = [];
  held = [];
}

pub started-Inv : (worker_threads processors : ℕ) → Inv (started worker_threads processors)
unfolding create find_source
started-Inv worker_threads processors = record {
  sorted = tt;
  valid = λ id src e. cc;
  refs = λ id p. refl;
  loads = λ id p. refl;
  ui_set = refl;
  workers_set = refl;
}

-- From the constructor on, no sequence of legal operations, in any interleaving, fails an assert,
-- and at its end the reference count of every packet is exact.
pub perform_all-started-Inv :
    (worker_threads processors : ℕ) (run : List Action)
    → LegalRun run (started worker_threads processors)
    → (z : System) × (perform_all run (started worker_threads processors) ≡ some z) × Inv z
perform_all-started-Inv w h run = perform_all-Inv run (started w h) (started-Inv w h)

-- Of a registered source each packet is in exactly one place: on the free list once, or loaded by
-- the source, or referred to by tasks that are queued or held.
pub packet_in_one_place :
    (y : System) (id n : ℕ) {src : Source}
    → Inv y
    → find_source id y.scheduler.sources ≡ some src
    → n < length src.packet_usages
    → count n src.free_packets
        + loans id (n * src.packet_size) y.loading
        + min 1 (references id (n * src.packet_size) y)
      ≡ 1
packet_in_one_place y id n {src} v found below = ground (
  arith,
  refs_at y id v found n,
  loads_at y id v found n,
  (v.valid id src found).free n,
  get_or-default src.packet_usages n true false below,
)

-- GetPacketForSubmission never hands out a packet that its source still loads, or that a queued
-- task or a sink refers to; the packet lies inside the source's buffer.
pub get_packet_for_submission-fresh :
    (y : System) (id p : ℕ) {s : Scheduler}
    → Inv y
    → get_packet_for_submission id y.scheduler ≡ some (some p, s)
    → (references id p y ≡ 0)
      × (loans id p y.loading ≡ 0)
      × ((src : Source) × (find_source id y.scheduler.sources ≡ some src)
          × (p + src.packet_size ≤ length src.packet_buffer))
unfolding get_packet_for_submission
get_packet_for_submission-fresh y id p {s} v e = by_source (find_source id y.scheduler.sources) refl
  where
    Result : Type 0
    Result =
        (references id p y ≡ 0)
        × (loans id p y.loading ≡ 0)
        × ((src : Source) × (find_source id y.scheduler.sources ≡ some src)
            × (p + src.packet_size ≤ length src.packet_buffer))

    by_list :
        (src : Source) (free : List ℕ)
        → find_source id y.scheduler.sources ≡ some src
        → src.free_packets ≡ free
        → Result
    by_list src [] found none_left =
        absurd (ground (arith, e, found, get_packet-nil {src = src} none_left))
    by_list src (n ∷ rest) found some_left =
        let valid = v.valid id src found in
        let (dst, runs, _, below, was, _) = get_packet-cons n rest valid some_left in
        let at : n * src.packet_size ≡ p = ground (arith, e, found, runs) in
        (
          ap (λ q. references id q y) (sym at) ∙ refs_at y id v found n ∙ ap refs_of was,
          ap (λ q. loans id q y.loading) (sym at) ∙ loads_at y id v found n ∙ ap loads_of was,
          (src, found, grind (arith, valid.buffer, at, below)),
        )

    by_source : (o : Option Source) → find_source id y.scheduler.sources ≡ o → Result
    by_source none found = absurd (ground (arith, e, found))
    by_source (some src) found = by_list src src.free_packets found refl
