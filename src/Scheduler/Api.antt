-- ===== src/Scheduler/Api.antt =====
-- The class `Scheduler` and its public operations, each between its lock and its unlock.
-- A result `none` is a failed assert.
use zamt.Prelude.{
  ℕ, suc, Bool, true, false, List, [], Option, none, some, ◌==◌, if◌then◌else◌, ◌>>=◌, ◌>>◌, assert,
}
use zamt.Scheduler.Tasks.{SinkCallback, Task, pop_top}
use zamt.Scheduler.Source.{is_set, get_packet, submit, release, subscribe, unsubscribe}
use zamt.Scheduler.Registry.{SourceRef, find_source, register, set_source}

pub record Scheduler : Type 0 where
  pub sources : List SourceRef
  pub tasks_for_workers : List Task
  pub tasks_for_ui : List Task
  pub workers : ℕ
  pub sources_semaphore : ℕ
  pub shutdown_initiated : Bool

-- The number of workers: that asked for, or that of the processors, or one.
unfoldable pub worker_count : ℕ → ℕ → ℕ
worker_count worker_threads hardware_concurrency =
    if worker_threads == 0
    then if hardware_concurrency == 0 then 1 else hardware_concurrency
    else worker_threads

-- The constructor, with what `std::thread::hardware_concurrency` returns.
unfoldable pub create : ℕ → ℕ → Scheduler
unfolding worker_count
create worker_threads hardware_concurrency =
    let workers = worker_count worker_threads hardware_concurrency in
    record {
      sources = [];
      tasks_for_workers = [];
      tasks_for_ui = [];
      workers = workers;
      sources_semaphore = suc workers;
      shutdown_initiated = false;
    }

unfoldable pub register_source : ℕ → ℕ → ℕ → Scheduler → Option Scheduler
register_source id packet_size packets_in_queue s = do
  sources ← register id packet_size packets_in_queue s.sources
  some (record s { sources = sources })

unfoldable pub get_packet_size : ℕ → Scheduler → Option ℕ
get_packet_size id s = do src ← find_source id s.sources; some src.packet_size

-- The result is the subscription's id.
unfoldable pub subscribe_to : ℕ → SinkCallback → Bool → Scheduler → Option (ℕ × Scheduler)
subscribe_to id f on_ui s = do
  src ← find_source id s.sources
  let out = subscribe f on_ui src
  some (out.1, record s { sources = set_source id out.0 s.sources })

unfoldable pub unsubscribe_from : ℕ → ℕ → Scheduler → Option Scheduler
unsubscribe_from id subscription s = do
  src ← find_source id s.sources
  src' ← unsubscribe subscription src
  some (record s { sources = set_source id src' s.sources })

-- The result is the packet, or `none` for a null pointer.
unfoldable pub get_packet_for_submission : ℕ → Scheduler → Option (Option ℕ × Scheduler)
get_packet_for_submission id s = do
  src ← find_source id s.sources
  out ← get_packet src
  some (out.0, record s { sources = set_source id out.1 s.sources })

unfoldable pub submit_packet : ℕ → ℕ → ℕ → Scheduler → Option Scheduler
submit_packet id packet time s = do
  src ← find_source id s.sources
  out ← submit id packet time src s.tasks_for_ui s.tasks_for_workers
  some (record s {
    sources = set_source id out.source s.sources;
    tasks_for_ui = out.tasks_for_ui;
    tasks_for_workers = out.tasks_for_workers;
  })

unfoldable pub release_packet : ℕ → ℕ → Scheduler → Option Scheduler
release_packet id packet s = do
  src ← find_source id s.sources
  src' ← release packet src
  some (record s { sources = set_source id src' s.sources })

unfoldable pub shutdown : Scheduler → Scheduler
shutdown s = record s { shutdown_initiated = true }

-- One turn of the loop in DispatchTasks: it ends the loop, finds nothing to do (the UI thread then
-- returns and a worker sleeps), or takes a task and calls its sink.
pub data Turn : Type 0 where
  finished nothing : Turn
  called : Task → Turn

abbrev pub queue_of : Bool → Scheduler → List Task
queue_of true s = s.tasks_for_ui
queue_of false s = s.tasks_for_workers

abbrev pub with_queue : Bool → List Task → Scheduler → Scheduler
with_queue true ts s = record s { tasks_for_ui = ts }
with_queue false ts s = record s { tasks_for_workers = ts }

take_turn : Bool → Scheduler → Option (Task × List Task) → Option (Turn × Scheduler)
take_turn ui s none = some (nothing, s)
take_turn ui s (some (task, rest)) = do
  assert (is_set task.sink_callback)
  some (called task, with_queue ui rest s)

unfoldable pub dispatch : Bool → ℕ → Scheduler → Option (Turn × Scheduler)
unfolding take_turn
dispatch ui tie s =
    if s.shutdown_initiated
    then some (finished, s)
    else take_turn ui s (pop_top tie (queue_of ui s))
