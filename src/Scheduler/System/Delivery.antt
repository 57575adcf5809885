-- ===== src/Scheduler/System/Delivery.antt =====
-- What one turn of DispatchTasks does, in either mode.
use zamt.Prelude.{
  ℕ, ◌≡◌, refl, Bool, true, false, List, [], ◌∷◌, Option, none, some, arith, Bool-cases, inl, inr,
}
use zamt.Scheduler.Tasks.{Task, tally, pop_top}
use zamt.Scheduler.Tasks.Order.{AllFrom, Pops, pop_top-Pops}
use zamt.Scheduler.Source.{is_set}
use zamt.Scheduler.Api.{Scheduler, Turn, called, nothing, finished, dispatch, queue_of, with_queue}
use zamt.Scheduler.System.Invariant.{unset}

-- How a turn ends, and what it leaves behind.
abbrev pub Outcome : Bool → Scheduler → Turn → Scheduler → Type 0
Outcome ui s finished s' = (s.shutdown_initiated ≡ true) × (s' ≡ s)
Outcome ui s nothing s' = (s.shutdown_initiated ≡ false) × (queue_of ui s ≡ []) × (s' ≡ s)
Outcome ui s (called t) s' =
    (s.shutdown_initiated ≡ false)
    × (is_set t.sink_callback ≡ true)
    × AllFrom t.timestamp (queue_of ui s)
    × ((rest : List Task) × (s' ≡ with_queue ui rest s)
        × ((q : Task → Bool) → tally q (queue_of ui s) ≡ tally q (t ∷ rest)))

turn-Outcome :
    (ui : Bool) (tie : ℕ) (s : Scheduler) (o : Option (Task × List Task))
    → tally unset (queue_of ui s) ≡ 0
    → s.shutdown_initiated ≡ false
    → pop_top tie (queue_of ui s) ≡ o
    → Pops (queue_of ui s) o
    → (t : Turn) × (s' : Scheduler) × (dispatch ui tie s ≡ some (t, s')) × Outcome ui s t s'
unfolding dispatch
turn-Outcome ui tie s none all running e h =
    (nothing, s, ground (arith, running, e), (running, h, refl))
turn-Outcome ui tie s (some (t, rest)) all running e h = (
  called t,
  with_queue ui rest s,
  ground (arith, running, e, set),
  (running, set, h.0, (rest, refl, h.1)),
)
  where
    set : is_set t.sink_callback ≡ true
    set = ground (arith, h.1 unset, all)

-- A turn never fails an assert while no queued callback is empty. It ends the loop just if a
-- shutdown was initiated; else it calls the sink of an earliest task of its own queue and takes
-- that task alone out, or it does nothing as its queue is empty. The other queue and all else
-- stay as they are.
pub dispatch-Outcome :
    (ui : Bool) (tie : ℕ) (s : Scheduler)
    → tally unset (queue_of ui s) ≡ 0
    → (t : Turn) × (s' : Scheduler) × (dispatch ui tie s ≡ some (t, s')) × Outcome ui s t s'
unfolding dispatch
dispatch-Outcome ui tie s all = elim (Bool-cases s.shutdown_initiated) [
  | inl e ↦ (finished, s, ground (arith, e), (e, refl))
  | inr e ↦ turn-Outcome ui tie s _ all e refl (pop_top-Pops tie (queue_of ui s))
]
