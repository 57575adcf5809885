-- ===== src/Scheduler/Tests.antt =====
-- Runs of the scheduler on small inputs.
mod Parts
mod Threads
mod Packets
mod Waking
use zamt.Prelude.{
  ℕ, suc, ◌+◌, ◌*◌, ◌≤◌, ◌<◌, ◌^◌, ◌≡◌, refl, subst, Bool, true, false, List, [], ◌∷◌, Option, none,
  some, arith, ◌==◌, if◌then◌else◌, length, count, min,
}
use zamt.Scheduler.Tasks.{Task, pop_top, tally}
use zamt.Scheduler.Tasks.Order.{Pops, pop_top-Pops}
use zamt.Scheduler.Source.{
  Source, Submitted, fresh, new_source, get_packet, submit, release, subscribe, unsubscribe,
  packet_number, push_packets, add_tasks,
}
use zamt.Scheduler.Source.Valid.{IsValid, fresh-IsValid}
use zamt.Scheduler.Registry.{SourceRef, find_source, register, set_source}
use zamt.Scheduler.Registry.Lookup.{IsSorted, register_lem}
use zamt.Scheduler.Api.{
  Scheduler, create, register_source, subscribe_to, unsubscribe_from, get_packet_for_submission,
  submit_packet, release_packet, dispatch,
}
use zamt.Scheduler.System.{
  System, Action, registers, subscribes, gets, submits, dispatches, releases, unsubscribes,
  shuts_down, perform, perform_all, Legal, loans,
}
use zamt.Scheduler.System.Invariant.{Inv, references}
use zamt.Scheduler.System.Rules.{Keeps}
use zamt.Scheduler.System.Reached.{or_started, Inv-or_started}
use zamt.Scheduler.System.Safety.{
  perform-Inv, perform_all-started-Inv, LegalRun, started, packet_in_one_place,
  get_packet_for_submission-fresh,
}

-- A source of two packets of four bytes with a sink on either side; one packet is submitted, and
-- the worker's sink releases it.
abbrev script : List Action
script =
    registers 7 4 2
    ∷ subscribes 7 (some 1) false
    ∷ subscribes 7 (some 2) true
    ∷ gets 7
    ∷ submits 7 0 100
    ∷ dispatches false 0
    ∷ releases 7 0
    ∷ []

run_script : Option System
unfolding perform_all perform create register_source register new_source fresh find_source
    subscribe_to subscribe set_source get_packet_for_submission get_packet submit_packet submit
    packet_number dispatch pop_top release_packet release push_packets add_tasks
run_script = perform_all script (started 2 4)

after_script : Option (List ℕ)
unfolding run_script
after_script = elim run_script [
  | none ↦ none
  | some y ↦ elim (find_source 7 y.scheduler.sources) [
    | none ↦ none
    | some src ↦ some src.packet_refcounts
  ]
]

script_refcounts : after_script ≡ some (1 ∷ 0 ∷ [])
unfolding after_script
script_refcounts = refl

script_legal : LegalRun script (started 2 4)
unfolding run_script
script_legal = (
  (refl, omega arith, omega arith, omega arith),
  ((_, refl), ((_, refl), ((_, refl), (omega arith, (tt, (omega arith, tt)))))),
)

perform_all-started-Inv_example : (z : System) × (perform_all script (started 2 4) ≡ some z) × Inv z
perform_all-started-Inv_example = perform_all-started-Inv 2 4 script script_legal

-- One task for packet 0 waits for the UI thread and one is with its sink; packet 1 is loaded.
abbrev busy_script : List Action
busy_script =
    registers 7 4 2
    ∷ subscribes 7 (some 1) false
    ∷ subscribes 7 (some 2) true
    ∷ gets 7
    ∷ submits 7 0 100
    ∷ dispatches false 0
    ∷ gets 7
    ∷ []

busy : System
unfolding run_script or_started
busy = or_started (perform_all busy_script (started 2 4))

busy-Inv : Inv busy
unfolding busy
busy-Inv =
    Inv-or_started busy_script busy
      (
        (refl, omega arith, omega arith, omega arith),
        ((_, refl), ((_, refl), ((_, refl), (omega arith, (tt, ((_, refl), tt)))))),
      )
      refl

perform-Inv_example : Keeps (releases 7 0) busy
unfolding busy
perform-Inv_example = perform-Inv (releases 7 0) busy busy-Inv (omega arith)

abbrev busy_source : Source
busy_source = record {
  packet_size = 4;
  free_packets = [];
  packet_usages = true ∷ true ∷ [];
  packet_refcounts = 2 ∷ 0 ∷ [];
  packet_buffer = 0 ∷ 0 ∷ 0 ∷ 0 ∷ 0 ∷ 0 ∷ 0 ∷ 0 ∷ [];
  subscriptions =
      record { sink_callback = some 1; on_ui = false }
      ∷ record { sink_callback = some 2; on_ui = true }
      ∷ [];
}

packet_in_one_place_example : count 0 [] + loans 7 0 busy.loading + min 1 (references 7 0 busy) ≡ 1
unfolding busy
packet_in_one_place_example =
    packet_in_one_place busy 7 0 {src = busy_source} busy-Inv refl (omega arith)

abbrev quiet_script : List Action
quiet_script = registers 7 4 2 ∷ []

quiet : System
unfolding run_script or_started
quiet = or_started (perform_all quiet_script (started 2 4))

quiet-Inv : Inv quiet
unfolding quiet
quiet-Inv =
    Inv-or_started quiet_script quiet ((refl, omega arith, omega arith, omega arith), tt) refl

after_get : Scheduler
unfolding run_script or_started
after_get = (or_started (perform (gets 7) quiet)).scheduler

get_packet_for_submission-fresh_example :
    (references 7 0 quiet ≡ 0)
    × (loans 7 0 quiet.loading ≡ 0)
    × ((src : Source) × (find_source 7 quiet.scheduler.sources ≡ some src)
        × (0 + src.packet_size ≤ length src.packet_buffer))
unfolding quiet after_get
get_packet_for_submission-fresh_example =
    get_packet_for_submission-fresh quiet 7 0 {s = after_get} quiet-Inv refl

busy_source-IsValid : IsValid busy_source
unfolding busy
busy_source-IsValid = busy-Inv.valid 7 busy_source refl
