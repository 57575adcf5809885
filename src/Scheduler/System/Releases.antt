-- ===== src/Scheduler/System/Releases.antt =====
-- What ReleasePacket of a packet of one source leaves as it was.
use zamt.Prelude.{ℕ, ◌<◌, ◌≡◌, ◌≢◌, some, arith, >>=-eq-some}
use zamt.Scheduler.Tasks.{tally}
use zamt.Scheduler.Source.{release}
use zamt.Scheduler.Registry.{find_source}
use zamt.Scheduler.Registry.Lookup.{find_source-set_source}
use zamt.Scheduler.Api.{release_packet}
use zamt.Scheduler.System.{System, is_of, end_task, perform, releases}
use zamt.Scheduler.System.Invariant.{Inv, references, tally-end_task}

-- `z` is `y` with one task of a source ended.
pub record Released (id packet : ℕ) (y z : System) : Type 0 where
  pub held : z.held ≡ end_task id packet y.held
  pub loading : z.loading ≡ y.loading
  pub others :
      (j : ℕ) → j ≢ id → find_source j z.scheduler.sources ≡ find_source j y.scheduler.sources
  pub refs : (j p : ℕ) → j ≢ id → references j p z ≡ references j p y

pub releases-Released :
    (y z : System) (id packet : ℕ)
    → Inv y
    → 0 < tally (is_of id packet) y.held
    → perform (releases id packet) y ≡ some z
    → Released id packet y z
unfolding perform release_packet
releases-Released y z id packet v held e =
    let (s, runs, is) = >>=-eq-some (release_packet id packet y.scheduler) _ e in
    let (src, found, runs') = >>=-eq-some (find_source id y.scheduler.sources) _ runs in
    let (dst, released, is') = >>=-eq-some (release packet src) _ runs' in
    record {
      held = ground (arith, is);
      loading = ground (arith, is);
      others = λ j other. ground (
        arith,
        other,
        is,
        is',
        find_source-set_source j id dst src y.scheduler.sources v.sorted found,
      );
      refs = λ j p other. ground (arith, other, is, is', tally-end_task id packet j p y.held held);
    }
