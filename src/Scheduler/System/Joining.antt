-- ===== src/Scheduler/System/Joining.antt =====
-- What RegisterSource and Subscribe of one source leave as it was.
use zamt.Prelude.{ℕ, ◌<◌, ◌≡◌, Bool, none, some, arith, ◌==◌, if◌then◌else◌}
use zamt.Scheduler.Tasks.{SinkCallback}
use zamt.Scheduler.Source.{Source, fresh, subscribe}
use zamt.Scheduler.Registry.{find_source}
use zamt.Scheduler.Registry.Lookup.{register_lem, find_source-set_source}
use zamt.Scheduler.Api.{register_source, subscribe_to}
use zamt.Scheduler.System.{System, perform, registers, subscribes}
use zamt.Scheduler.System.Invariant.{Inv, references}

-- `z` is `y` but for its sources.
pub record SameTasks (y z : System) : Type 0 where
  pub held : z.held ≡ y.held
  pub loading : z.loading ≡ y.loading
  pub refs : (j p : ℕ) → references j p z ≡ references j p y

pub registers-found :
    (y z : System) (id size queue : ℕ)
    → Inv y
    → find_source id y.scheduler.sources ≡ none
    → 0 < queue
    → perform (registers id size queue) y ≡ some z
    → SameTasks y z
      × ((j : ℕ)
          → find_source j z.scheduler.sources
            ≡ (if id == j then some (fresh size queue) else find_source j y.scheduler.sources))
unfolding perform register_source
registers-found y z id size queue v new pos e =
    let (out, runs, _, at) = register_lem id size queue y.scheduler.sources v.sorted new pos in
    (
      record {
        held = ground (arith, e, runs);
        loading = ground (arith, e, runs);
        refs = λ j p. ground (arith, e, runs);
      },
      λ j. ground (arith, e, runs, at j),
    )

pub subscribes-found :
    (y z : System) (id : ℕ) (f : SinkCallback) (on_ui : Bool) {src : Source}
    → Inv y
    → find_source id y.scheduler.sources ≡ some src
    → perform (subscribes id f on_ui) y ≡ some z
    → SameTasks y z
      × ((j : ℕ)
          → find_source j z.scheduler.sources ≡ (
              if id == j
              then some (subscribe f on_ui src).0
              else find_source j y.scheduler.sources))
unfolding perform subscribe_to
subscribes-found y z id f on_ui {src} v found e = (
  record {
    held = ground (arith, e, found);
    loading = ground (arith, e, found);
    refs = λ j p. ground (arith, e, found);
  },
  λ j. ground (
    arith,
    e,
    found,
    find_source-set_source j id (subscribe f on_ui src).0 src y.scheduler.sources v.sorted found,
  ),
)
