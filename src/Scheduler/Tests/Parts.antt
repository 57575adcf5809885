-- ===== src/Scheduler/Tests/Parts.antt =====
-- The theorems on the parts of the scheduler, at small inputs.
use zamt.Prelude.{
  ℕ, ◌*◌, ◌<◌, ◌≡◌, refl, true, List, [], ◌∷◌, none, some, arith, ◌==◌, if◌then◌else◌, length,
}
use zamt.Scheduler.Tasks.{Task, pop_top}
use zamt.Scheduler.Tasks.Order.{Pops, pop_top-Pops}
use zamt.Scheduler.Source.{
  Source, Submitted, fresh, push_packets, get_packet, submit, release, subscribe, unsubscribe,
}
use zamt.Scheduler.Source.Valid.{IsValid, fresh-IsValid}
use zamt.Scheduler.Source.Lifecycle.{state_of, unused, loading, settle, Moves, get_packet-cons}
use zamt.Scheduler.Source.Traffic.{Submits, release-queued, submit-loading}
use zamt.Scheduler.Source.Subscriptions.{Places, subscribe-Places, unsubscribe_lem, callback_at}
use zamt.Scheduler.Registry.{SourceRef, find_source, register}
use zamt.Scheduler.Registry.Lookup.{IsSorted, register_lem}
use zamt.Scheduler.Api.{Scheduler, Turn, dispatch}
use zamt.Scheduler.System.Delivery.{Outcome, dispatch-Outcome}
use zamt.Scheduler.Tests.{busy, busy_source, busy_source-IsValid}

fresh-IsValid_example : IsValid (fresh 4 2)
fresh-IsValid_example = fresh-IsValid 4 2 (omega arith) (omega arith)

get_packet_of_two :
    (dst : Source) × (get_packet (fresh 4 2) ≡ some (some (0 * 4), dst))
    × IsValid dst
    × (0 < 2)
    × (state_of (fresh 4 2) 0 ≡ unused)
    × Moves (fresh 4 2) 0 loading dst
unfolding fresh push_packets
get_packet_of_two = get_packet-cons 0 (1 ∷ []) fresh-IsValid_example refl

released_here :
    (dst : Source) × (release (0 * 4) busy_source ≡ some dst)
    × IsValid dst
    × Moves busy_source 0 (settle 1) dst
released_here = release-queued 0 1 busy_source-IsValid refl

submit-loading_example :
    (s : Submitted) × (submit 7 (1 * 4) 200 busy_source [] [] ≡ some s)
    × Submits 7 (1 * 4) 200 1 busy_source [] [] s
submit-loading_example = submit-loading 7 200 1 [] [] busy_source-IsValid refl

abbrev late : Task
late = record { timestamp = 9; source_id = 7; sink_callback = some 1; packet = 0 }

abbrev early : Task
early = record { timestamp = 3; source_id = 7; sink_callback = some 2; packet = 4 }

pop_of_three : Pops (late ∷ early ∷ []) (pop_top 0 (late ∷ early ∷ []))
pop_of_three = pop_top-Pops 0 (late ∷ early ∷ [])

subscribe_third :
    let (dst, id) = subscribe (some 5) true busy_source in
    Places
      (record { sink_callback = some 5; on_ui = true })
      busy_source.subscriptions
      dst.subscriptions
      id
    × (dst ≡ record busy_source { subscriptions = dst.subscriptions })
subscribe_third = subscribe-Places (some 5) true busy_source

unsubscribe_second :
    (dst : Source) × (unsubscribe 1 busy_source ≡ some dst)
    × (dst ≡ record busy_source { subscriptions = dst.subscriptions })
    × (length dst.subscriptions ≡ 2)
    × ((i : ℕ)
        → callback_at dst.subscriptions i
          ≡ (if i == 1 then none else callback_at busy_source.subscriptions i))
unsubscribe_second = unsubscribe_lem 1 busy_source (omega arith)

abbrev one_source : List SourceRef
one_source = record { source_id = 7; source = busy_source } ∷ []

register_lem_example :
    (out : List SourceRef) × (register 3 8 4 one_source ≡ some out)
    × IsSorted out
    × ((j : ℕ)
        → find_source j out ≡ (if 3 == j then some (fresh 8 4) else find_source j one_source))
unfolding find_source
register_lem_example = register_lem 3 8 4 one_source (tt, tt) refl (omega arith)

dispatch-Outcome_example :
    (t : Turn) × (s' : Scheduler) × (dispatch true 0 busy.scheduler ≡ some (t, s'))
    × Outcome true busy.scheduler t s'
unfolding busy
dispatch-Outcome_example = dispatch-Outcome true 0 busy.scheduler refl
