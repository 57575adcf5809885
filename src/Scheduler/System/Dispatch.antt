-- ===== src/Scheduler/System/Dispatch.antt =====
-- DispatchTasks and the invariant: a task moves from a queue to the sink that it calls.
use zamt.Prelude.{
  ℕ, ◌≡◌, refl, sym, ◌∙◌, Bool, true, false, List, ◌∷◌, Option, none, some, arith, Bool-cases, inl,
  inr,
}
use zamt.Scheduler.Tasks.{Task, tally, pop_top}
use zamt.Scheduler.Tasks.Order.{pop_top-Pops, Pops}
use zamt.Scheduler.Source.{is_set}
use zamt.Scheduler.Api.{dispatch}
use zamt.Scheduler.System.{System, is_of, perform, dispatches}
use zamt.Scheduler.System.Invariant.{Inv, unset}
use zamt.Scheduler.System.Rules.{Keeps}

callback_of_unset :
    (t : Task) (rest : List Task) → tally unset (t ∷ rest) ≡ 0 → is_set t.sink_callback ≡ true
callback_of_unset t rest h = ground (arith, h)

module _ (y : System) (tie : ℕ) (v : Inv y) (running : y.scheduler.shutdown_initiated ≡ false) where
  ui_turn :
      (o : Option (Task × List Task))
      → pop_top tie y.scheduler.tasks_for_ui ≡ o
      → Pops y.scheduler.tasks_for_ui o
      → Keeps (dispatches true tie) y
  unfolding perform dispatch
  ui_turn none e h = (y, rw (running, e, dispatch) refl, v)
  ui_turn (some (t, rest)) e h = (
    record y { scheduler = record y.scheduler { tasks_for_ui = rest }; held = t ∷ y.held },
    ground (arith, running, e, callback_of_unset t rest (sym (h.1 unset) ∙ v.ui_set)),
    record {
      sorted = v.sorted;
      valid = v.valid;
      refs = λ j p. ground (arith, v.refs j p, h.1 (is_of j p));
      loads = v.loads;
      ui_set = ground (arith, h.1 unset, v.ui_set);
      workers_set = v.workers_set;
    },
  )

  worker_turn :
      (o : Option (Task × List Task))
      → pop_top tie y.scheduler.tasks_for_workers ≡ o
      → Pops y.scheduler.tasks_for_workers o
      → Keeps (dispatches false tie) y
  unfolding perform dispatch
  worker_turn none e h = (y, rw (running, e, dispatch) refl, v)
  worker_turn (some (t, rest)) e h = (
    record y { scheduler = record y.scheduler { tasks_for_workers = rest }; held = t ∷ y.held },
    ground (arith, running, e, callback_of_unset t rest (sym (h.1 unset) ∙ v.workers_set)),
    record {
      sorted = v.sorted;
      valid = v.valid;
      refs = λ j p. ground (arith, v.refs j p, h.1 (is_of j p));
      loads = v.loads;
      ui_set = v.ui_set;
      workers_set = ground (arith, h.1 unset, v.workers_set);
    },
  )

stopped :
    (y : System) (ui : Bool) (tie : ℕ)
    → Inv y
    → y.scheduler.shutdown_initiated ≡ true
    → Keeps (dispatches ui tie) y
unfolding perform dispatch
stopped y ui tie v e = (y, rw (e, dispatch) refl, v)

pub dispatches-Keeps : (y : System) (ui : Bool) (tie : ℕ) → Inv y → Keeps (dispatches ui tie) y
dispatches-Keeps y ui tie v = elim (Bool-cases y.scheduler.shutdown_initiated) [
  | inl e ↦ stopped y ui tie v e
  | inr e ↦ turn ui e
]
  where
    turn : (ui : Bool) → y.scheduler.shutdown_initiated ≡ false → Keeps (dispatches ui tie) y
    turn true e = ui_turn y tie v e _ refl (pop_top-Pops tie y.scheduler.tasks_for_ui)
    turn false e = worker_turn y tie v e _ refl (pop_top-Pops tie y.scheduler.tasks_for_workers)
