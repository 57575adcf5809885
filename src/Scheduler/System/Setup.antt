-- ===== src/Scheduler/System/Setup.antt =====
-- RegisterSource, Subscribe and Unsubscribe against the invariant.
use zamt.Prelude.{
  ℕ, ◌*◌, ◌/◌, ◌<◌, ◌≤◌, ◌≡◌, ◌^◌, refl, sym, ◌∙◌, ap, subst, Bool, true, false, List, none, some,
  arith, ◌==◌, if◌then◌else◌, length,
}
use zamt.Scheduler.Tasks.{SinkCallback}
use zamt.Scheduler.Source.{Source, fresh, subscribe}
use zamt.Scheduler.Source.Valid.{IsValid, fresh-IsValid}
use zamt.Scheduler.Source.Lifecycle.{PacketState, unused}
use zamt.Scheduler.Source.Subscriptions.{set_subscriptions-IsValid, unsubscribe_lem}
use zamt.Scheduler.Registry.{SourceRef, find_source, register, set_source}
use zamt.Scheduler.Registry.Lookup.{IsSorted, register_lem}
use zamt.Scheduler.Api.{register_source, subscribe_to, unsubscribe_from}
use zamt.Scheduler.System.{System, perform, registers, subscribes, unsubscribes}
use zamt.Scheduler.System.Expected.{refs_of, loads_of, expected}
use zamt.Scheduler.System.Invariant.{Inv, state_of-fresh}
use zamt.Scheduler.System.Rules.{Keeps, same_pool-Inv}

expected-fresh :
    (w : PacketState → ℕ) (size queue p : ℕ)
    → w unused ≡ 0
    → expected w (some (fresh size queue)) p ≡ 0
expected-fresh w size queue p e =
    ground (arith, ap w (state_of-fresh size queue (p / (fresh size queue).packet_size)))

pub registers-Keeps :
    (y : System) (id size queue : ℕ)
    → Inv y
    → find_source id y.scheduler.sources ≡ none
    → 0 < size
    → 0 < queue
    → queue * size ≤ 2 ^ 31
    → Keeps (registers id size queue) y
unfolding perform register_source
registers-Keeps y id size queue v new pos some_packets small = (
  record y { scheduler = record y.scheduler { sources = reg.0 } },
  rw (reg.1) refl,
  record {
    sorted = reg.2;
    valid = λ j s e. valid j s (id == j) (sym (reg.3 j) ∙ e);
    refs = λ j p. ground (
      arith,
      v.refs j p,
      reg.3 j,
      expected-fresh refs_of size queue p refl,
      ap (λ o. expected refs_of o p) new,
    );
    loads = λ j p. ground (
      arith,
      v.loads j p,
      reg.3 j,
      expected-fresh loads_of size queue p refl,
      ap (λ o. expected loads_of o p) new,
    );
    ui_set = v.ui_set;
    workers_set = v.workers_set;
  },
)
  where
    reg :
        (out : List SourceRef) × (register id size queue y.scheduler.sources ≡ some out)
        × IsSorted out
        × ((j : ℕ)
            → find_source j out
              ≡ (if id == j then some (fresh size queue) else find_source j y.scheduler.sources))
    reg = register_lem id size queue y.scheduler.sources v.sorted new some_packets

    valid :
        (j : ℕ) (s : Source) (b : Bool)
        → (if b then some (fresh size queue) else find_source j y.scheduler.sources) ≡ some s
        → IsValid s
    valid j s true e =
        let same : fresh size queue ≡ s = cc in
        subst IsValid same (fresh-IsValid size queue pos small)
    valid j s false e = v.valid j s e

pub subscribes-Keeps :
    (y : System) (id : ℕ) (f : SinkCallback) (on_ui : Bool) {src : Source}
    → Inv y
    → find_source id y.scheduler.sources ≡ some src
    → Keeps (subscribes id f on_ui) y
unfolding perform subscribe_to subscribe
subscribes-Keeps y id f on_ui {src} v found = (
  record y {
    scheduler = record y.scheduler {
      sources = set_source id (subscribe f on_ui src).0 y.scheduler.sources;
    };
  },
  rw found refl,
  same_pool-Inv y id v found (set_subscriptions-IsValid _ (v.valid id src found)) (λ w p. refl),
)

pub unsubscribes-Keeps :
    (y : System) (id subscription : ℕ) {src : Source}
    → Inv y
    → find_source id y.scheduler.sources ≡ some src
    → subscription < length src.subscriptions
    → Keeps (unsubscribes id subscription) y
unfolding perform unsubscribe_from
unsubscribes-Keeps y id subscription {src} v found below =
    let (dst, runs, same, _, _) = unsubscribe_lem subscription src below in
    (
      record y {
        scheduler = record y.scheduler { sources = set_source id dst y.scheduler.sources };
      },
      rw found (rw runs refl),
      same_pool-Inv y id v found
          (subst IsValid (sym same)
            (set_subscriptions-IsValid dst.subscriptions (v.valid id src found)))
          (λ w p. ap (λ (d : Source). expected w (some d) p) same),
    )
