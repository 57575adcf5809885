-- ===== src/Scheduler/System.antt =====
-- The scheduler together with its sources and sinks, as far as they keep its packets: a source
-- keeps a packet from GetPacketForSubmission to SubmitPacket, and a sink from its call to
-- ReleasePacket. Each operation is one step, since it runs under its locks.
pub mod Expected
pub mod Invariant
pub mod Rules
pub mod Setup
pub mod Packets
pub mod Exchange
pub mod Joining
pub mod Releases
pub mod Dispatch
pub mod Safety
pub mod Reached
pub mod Delivery
use zamt.Prelude.{
  ℕ, suc, ◌+◌, ◌*◌, ◌^◌, ◌≤◌, ◌<◌, ◌≡◌, Bool, true, false, ◌&&◌, List, [], ◌∷◌, Option, none, some,
  ◌==◌, if◌then◌else◌, length, ◌>>=◌, ◌>>◌,
}
use zamt.Scheduler.Tasks.{SinkCallback, Task, tally}
use zamt.Scheduler.Source.{Source}
use zamt.Scheduler.Registry.{find_source}
use zamt.Scheduler.Api.{
  Scheduler, register_source, subscribe_to, unsubscribe_from, get_packet_for_submission,
  submit_packet, release_packet, shutdown, Turn, finished, nothing, called, dispatch,
}

-- A packet of a source.
pub record Loan : Type 0 where
  pub source_id : ℕ
  pub packet : ℕ

-- `loading`: packets that sources load; `held`: tasks whose sinks have not released their packet.
pub record System : Type 0 where
  pub scheduler : Scheduler
  pub loading : List Loan
  pub held : List Task

pub data Action : Type 0 where
  registers : (id size queue : ℕ) → Action
  subscribes : (id : ℕ) (f : SinkCallback) (on_ui : Bool) → Action
  unsubscribes : (id subscription : ℕ) → Action
  gets : (id : ℕ) → Action
  submits : (id packet time : ℕ) → Action
  dispatches : (ui : Bool) (tie : ℕ) → Action
  releases : (id packet : ℕ) → Action
  shuts_down : Action

abbrev pub is_of : ℕ → ℕ → Task → Bool
is_of id packet t = t.source_id == id && t.packet == packet

abbrev pub is_loan : ℕ → ℕ → Loan → Bool
is_loan id packet l = l.source_id == id && l.packet == packet

abbrev pub loans : ℕ → ℕ → List Loan → ℕ
loans id packet [] = 0
loans id packet (l ∷ ls) =
    if is_loan id packet l then suc (loans id packet ls) else loans id packet ls

unfoldable pub end_loan : ℕ → ℕ → List Loan → List Loan
end_loan id packet [] = []
end_loan id packet (l ∷ ls) = if is_loan id packet l then ls else l ∷ end_loan id packet ls

unfoldable pub end_task : ℕ → ℕ → List Task → List Task
end_task id packet [] = []
end_task id packet (t ∷ ts) = if is_of id packet t then ts else t ∷ end_task id packet ts

abbrev pub lend : ℕ → Option ℕ → List Loan → List Loan
lend id none ls = ls
lend id (some packet) ls = record { source_id = id; packet = packet } ∷ ls

abbrev pub hold : Turn → List Task → List Task
hold (called t) ts = t ∷ ts
hold finished ts = ts
hold nothing ts = ts

unfoldable pub perform : Action → System → Option System
unfolding end_loan end_task
perform (registers id size queue) y = do
  s ← register_source id size queue y.scheduler
  some (record y { scheduler = s })
perform (subscribes id f on_ui) y = do
  out ← subscribe_to id f on_ui y.scheduler
  some (record y { scheduler = out.1 })
perform (unsubscribes id subscription) y = do
  s ← unsubscribe_from id subscription y.scheduler
  some (record y { scheduler = s })
perform (gets id) y = do
  out ← get_packet_for_submission id y.scheduler
  some (record y { scheduler = out.1; loading = lend id out.0 y.loading })
perform (submits id packet time) y = do
  s ← submit_packet id packet time y.scheduler
  some (record y { scheduler = s; loading = end_loan id packet y.loading })
perform (dispatches ui tie) y = do
  out ← dispatch ui tie y.scheduler
  some (record y { scheduler = out.1; held = hold out.0 y.held })
perform (releases id packet) y = do
  s ← release_packet id packet y.scheduler
  some (record y { scheduler = s; held = end_task id packet y.held })
perform shuts_down y = some (record y { scheduler = shutdown y.scheduler })

unfoldable pub perform_all : List Action → System → Option System
perform_all [] y = some y
perform_all (a ∷ rest) y = do y' ← perform a y; perform_all rest y'

-- What the scheduler expects of its clients.
abbrev pub Legal : Action → System → Type 0
Legal (registers id size queue) y =
    (find_source id y.scheduler.sources ≡ none) × (0 < size) × (0 < queue) × (queue * size ≤ 2 ^ 31)
Legal (subscribes id f on_ui) y = (src : Source) × (find_source id y.scheduler.sources ≡ some src)
Legal (unsubscribes id subscription) y =
    (src : Source) × (find_source id y.scheduler.sources ≡ some src)
    × (subscription < length src.subscriptions)
Legal (gets id) y = (src : Source) × (find_source id y.scheduler.sources ≡ some src)
Legal (submits id packet time) y = 0 < loans id packet y.loading
Legal (dispatches ui tie) y = Unit {0}
Legal (releases id packet) y = 0 < tally (is_of id packet) y.held
Legal shuts_down y = Unit {0}
