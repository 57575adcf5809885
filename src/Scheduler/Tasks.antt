-- ===== src/Scheduler/Tasks.antt =====
-- The two task queues of the scheduler: `Task`, `TaskRef` and `std::priority_queue<TaskRef>`.
pub mod Order
use zamt.Prelude.{ℕ, zero, suc, Bool, List, [], ◌∷◌, Option, none, some, ltb, ◌==◌, if◌then◌else◌}

-- A `std::function`, by the name of the function that it holds; `none` is an empty one.
abbrev pub SinkCallback : Type 0
SinkCallback = Option ℕ

-- A `TaskRef` with the `Task` that it owns. A packet is its offset in the source's buffer.
pub record Task : Type 0 where
  pub timestamp : ℕ
  pub source_id : ℕ
  pub sink_callback : SinkCallback
  pub packet : ℕ

-- `operator<` of `TaskRef`: the earliest task is the greatest.
abbrev pub task_lt : Task → Task → Bool
task_lt a b = ltb b.timestamp a.timestamp

-- A queue is a list in any order. `emplace` adds to it.
abbrev pub emplace : Task → List Task → List Task
emplace t ts = t ∷ ts

-- A greatest task by `task_lt`.
unfoldable pub greatest : Task → List Task → Task
greatest t [] = t
greatest t (u ∷ ts) = greatest (if task_lt t u then u else t) ts

put_back : Task → Option (Task × List Task) → Option (Task × List Task)
put_back t none = none
put_back t (some (u, us)) = some (u, t ∷ us)

or_take : Task → List Task → Option (Task × List Task) → Option (Task × List Task)
or_take t ts none = some (t, ts)
or_take t ts (some (u, us)) = some (u, t ∷ us)

-- Among tasks of one timestamp `top` may be any: `tie` says which, and `extract` takes it out.
unfoldable pub extract : ℕ → ℕ → List Task → Option (Task × List Task)
unfolding put_back or_take
extract time tie [] = none
extract time zero (t ∷ ts) =
    let later = put_back t (extract time zero ts) in
    if t.timestamp == time then some (t, ts) else later
extract time (suc k) (t ∷ ts) =
    let skipped = or_take t ts (extract time k ts) in
    let later = put_back t (extract time (suc k) ts) in
    if t.timestamp == time then skipped else later

-- `top` followed by `pop`; `none` on an empty queue.
unfoldable pub pop_top : ℕ → List Task → Option (Task × List Task)
unfolding greatest extract
pop_top tie [] = none
pop_top tie (t ∷ ts) = extract (greatest t ts).timestamp tie (t ∷ ts)

-- How many tasks pass a test.
abbrev pub tally : (Task → Bool) → List Task → ℕ
tally q [] = 0
tally q (t ∷ ts) = if q t then suc (tally q ts) else tally q ts
