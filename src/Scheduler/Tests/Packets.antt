-- ===== src/Scheduler/Tests/Packets.antt =====
-- A run of the threads that hand over one packet.
use zamt.Prelude.{◌+◌, ◌*◌, ◌<◌, ◌≡◌, ◌⊎◌, refl, true, false, [], ◌∷◌}
use zamt.Scheduler.Handover.{
  Handover, Step, Steps, stay, ◌▸◌, lock_to_submit, add_ui_tasks, take_ui_task, check,
  add_worker_tasks, loaded, workers_added, checked,
}
use zamt.Scheduler.Handover.Safety.{sink-InUse}
use zamt.Scheduler.Handover.Finish.{
  IsSettled, IsAbandoned, count_steps, steps_left, steps_bound, goes_on,
}

-- A sink on either side: the UI thread takes its task while the source still has its lock, and
-- waits for it in ReleasePacket.
abbrev waiting_sink : Handover
waiting_sink = record {
  ui = 1;
  workers = 1;
  source_mtx = true;
  packet_usage = true;
  packet_refcount = 2;
  freed = 0;
  ui_tasks = 0;
  worker_tasks = 1;
  shutdown_initiated = false;
  submitter = workers_added;
  sinks = checked ∷ [];
}

one_waits : Steps (loaded 1 1) waiting_sink
one_waits =
    lock_to_submit _ refl refl
    ▸ add_ui_tasks _ refl
    ▸ take_ui_task _ 0 refl refl
    ▸ check _ 0 refl
    ▸ add_worker_tasks _ refl
    ▸ stay

sink-InUse_example :
    (waiting_sink.packet_usage ≡ true)
    × (0 < waiting_sink.packet_refcount)
    × (waiting_sink.freed ≡ 0)
sink-InUse_example = sink-InUse one_waits 0 checked refl refl

steps_counted : count_steps one_waits + steps_left waiting_sink ≡ 5 + 4 * (1 + 1)
steps_counted = steps_bound one_waits

goes_on_example :
    ((t : Handover) × Step waiting_sink t
      × (t.shutdown_initiated ≡ waiting_sink.shutdown_initiated))
    ⊎ IsSettled 1 1 waiting_sink
    ⊎ IsAbandoned 1 1 waiting_sink
goes_on_example = goes_on one_waits
