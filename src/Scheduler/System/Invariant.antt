-- ===== src/Scheduler/System/Invariant.antt =====
-- The invariant of the scheduler with its clients, and the facts that its steps share.
use zamt.Prelude.{
  ℕ, ◌+◌, ◌<◌, ◌≡◌, sym, ◌∙◌, subst, Bool, true, false, not, ◌&&◌, List, [], ◌∷◌, some, arith, ◌==◌,
  if◌then◌else◌, get_or-replicate,
}
use zamt.Scheduler.Tasks.{Task, tally}
use zamt.Scheduler.Source.{Source, is_set, fresh}
use zamt.Scheduler.Source.Valid.{IsValid}
use zamt.Scheduler.Source.Lifecycle.{unused, state_of}
use zamt.Scheduler.Registry.{SourceRef, find_source, set_source}
use zamt.Scheduler.Registry.Lookup.{IsSorted, find_source-set_source}
use zamt.Scheduler.System.{System, Loan, is_of, loans, end_loan, end_task}
use zamt.Scheduler.System.Expected.{refs_of, loads_of, expected}

abbrev pub unset : Task → Bool
unset t = not (is_set t.sink_callback)

-- The tasks that refer to a packet: queued on either side, or held by a sink.
abbrev pub references : ℕ → ℕ → System → ℕ
references id p y =
    tally (is_of id p) y.scheduler.tasks_for_ui
    + tally (is_of id p) y.scheduler.tasks_for_workers
    + tally (is_of id p) y.held

-- Reference counts are exact, and so is the bookkeeping of who loads a packet.
pub record Inv (y : System) : Type 0 where
  pub sorted : IsSorted y.scheduler.sources
  pub valid : (id : ℕ) (src : Source) → find_source id y.scheduler.sources ≡ some src → IsValid src
  pub refs :
      (id p : ℕ) → references id p y ≡ expected refs_of (find_source id y.scheduler.sources) p
  pub loads :
      (id p : ℕ) → loans id p y.loading ≡ expected loads_of (find_source id y.scheduler.sources) p
  pub ui_set : tally unset y.scheduler.tasks_for_ui ≡ 0
  pub workers_set : tally unset y.scheduler.tasks_for_workers ≡ 0

-- An update by a valid source leaves all sources valid.
pub IsValid-set_source :
    (id : ℕ) {src dst : Source} (rs : List SourceRef)
    → IsSorted rs
    → find_source id rs ≡ some src
    → IsValid dst
    → ((j : ℕ) (s : Source) → find_source j rs ≡ some s → IsValid s)
    → (j : ℕ) (s : Source) → find_source j (set_source id dst rs) ≡ some s
    → IsValid s
IsValid-set_source id {src} {dst} rs sorted found v all j s e =
    pick (id == j) (sym (find_source-set_source j id dst src rs sorted found) ∙ e)
  where
    pick : (b : Bool) → (if b then some dst else find_source j rs) ≡ some s → IsValid s
    pick true h = let same : dst ≡ s = cc in subst IsValid same v
    pick false h = all j s h

-- A packet of a fresh source is unused.
pub state_of-fresh : (size queue n : ℕ) → state_of (fresh size queue) n ≡ unused
unfolding fresh
state_of-fresh size queue n = ground (arith, get_or-replicate queue n false false)

pub tally-end_task :
    (id packet j p : ℕ) (ts : List Task)
    → 0 < tally (is_of id packet) ts
    → tally (is_of j p) (end_task id packet ts) + (if id == j && packet == p then 1 else 0)
      ≡ tally (is_of j p) ts
unfolding end_task
tally-end_task id packet j p [] h = absurd (omega arith)
tally-end_task id packet j p (t ∷ ts) h = ground (arith, tally-end_task id packet j p ts)

pub loans-end_loan :
    (id packet j p : ℕ) (ls : List Loan)
    → 0 < loans id packet ls
    → loans j p (end_loan id packet ls) + (if id == j && packet == p then 1 else 0) ≡ loans j p ls
unfolding end_loan
loans-end_loan id packet j p [] h = absurd (omega arith)
loans-end_loan id packet j p (l ∷ ls) h = ground (arith, loans-end_loan id packet j p ls)
