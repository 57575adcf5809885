-- ===== src/Scheduler/System/Rules.antt =====
-- One operation against the invariant: an update of one source.
use zamt.Prelude.{ℕ, ◌+◌, ◌*◌, ◌≡◌, sym, ◌∙◌, ◌&&◌, List, some, arith, ◌==◌, if◌then◌else◌}
use zamt.Scheduler.Tasks.{Task, tally}
use zamt.Scheduler.Source.{Source}
use zamt.Scheduler.Source.Valid.{IsValid}
use zamt.Scheduler.Source.Lifecycle.{PacketState, Moves}
use zamt.Scheduler.Registry.{find_source, set_source}
use zamt.Scheduler.Registry.Lookup.{find_source-set_source, set_source-IsSorted}
use zamt.Scheduler.System.{System, Action, Loan, is_of, loans, perform}
use zamt.Scheduler.System.Expected.{refs_of, loads_of, expected, expected-set_source}
use zamt.Scheduler.System.Invariant.{Inv, unset, references, IsValid-set_source}

-- An action runs, and keeps the invariant.
abbrev pub Keeps : Action → System → Type 0
Keeps a y = (z : System) × (perform a y ≡ some z) × Inv z

module _ (y : System) (id : ℕ) {src dst : Source} (v : Inv y)
    (found : find_source id y.scheduler.sources ≡ some src) (w : IsValid dst) where
  -- An update that leaves the pool of a source alone keeps the invariant.
  pub same_pool-Inv :
      ((w : PacketState → ℕ) (p : ℕ) → expected w (some dst) p ≡ expected w (some src) p)
      → Inv (record y {
        scheduler = record y.scheduler { sources = set_source id dst y.scheduler.sources };
      })
  same_pool-Inv same = record {
    sorted = set_source-IsSorted id dst y.scheduler.sources v.sorted;
    valid = IsValid-set_source id y.scheduler.sources v.sorted found w v.valid;
    refs = λ j p. v.refs j p ∙ sym (unchanged refs_of j p);
    loads = λ j p. v.loads j p ∙ sym (unchanged loads_of j p);
    ui_set = v.ui_set;
    workers_set = v.workers_set;
  }
    where
      unchanged :
          (w : PacketState → ℕ) (j p : ℕ)
          → expected w (find_source j (set_source id dst y.scheduler.sources)) p
            ≡ expected w (find_source j y.scheduler.sources) p
      unchanged w j p = ground (
        arith,
        find_source-set_source j id dst src y.scheduler.sources v.sorted found,
        found,
        same w p,
      )

  -- An operation on packet `n` keeps the invariant if it changes the references and the loan of
  -- that packet, and of no other, as the packet's state says.
  pub Moves-Inv :
      (n : ℕ) (s : PacketState) (ui workers held : List Task) (loans_left : List Loan)
      → Moves src n s dst
      → ((j p : ℕ)
          → tally (is_of j p) ui + tally (is_of j p) workers + tally (is_of j p) held
            ≡ (if id == j && n * src.packet_size == p then refs_of s else references j p y))
      → ((j p : ℕ)
          → loans j p loans_left
            ≡ (if id == j && n * src.packet_size == p then loads_of s else loans j p y.loading))
      → tally unset ui ≡ 0
      → tally unset workers ≡ 0
      → Inv (record {
        scheduler = record y.scheduler {
          sources = set_source id dst y.scheduler.sources;
          tasks_for_ui = ui;
          tasks_for_workers = workers;
        };
        loading = loans_left;
        held = held;
      })
  Moves-Inv n s ui workers held loans_left m refs_eq loads_eq ui_eq workers_eq = record {
    sorted = set_source-IsSorted id dst y.scheduler.sources v.sorted;
    valid = IsValid-set_source id y.scheduler.sources v.sorted found w v.valid;
    refs = λ j p. ground (arith, refs_eq j p, moved refs_of j p, v.refs j p);
    loads = λ j p. ground (arith, loads_eq j p, moved loads_of j p, v.loads j p);
    ui_set = ui_eq;
    workers_set = workers_eq;
  }
    where
      moved :
          (w : PacketState → ℕ) (j p : ℕ)
          → expected w (find_source j (set_source id dst y.scheduler.sources)) p ≡ (
              if id == j && n * src.packet_size == p
              then w s
              else expected w (find_source j y.scheduler.sources) p)
      moved w j p =
          expected-set_source w {src = src} {dst = dst} n s y.scheduler.sources id j p v.sorted
            found (v.valid id src found).positive m
