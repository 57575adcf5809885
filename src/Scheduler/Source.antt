-- ===== src/Scheduler/Source.antt =====
-- One source: its packet pool and its subscriptions, the parts of RegisterSource, Subscribe,
-- Unsubscribe, GetPacketForSubmission, SubmitPacket and ReleasePacket that run under its lock.
-- The heads of lists that stand for stacks are their backs.
pub mod Valid
pub mod Counts
pub mod Lifecycle
pub mod Traffic
pub mod Subscriptions
use zamt.Prelude.{
  ℕ, zero, suc, ◌+◌, ◌-◌, ◌*◌, ◌/◌, ◌%◌, ◌^◌, Bool, true, false, not, ◌&&◌, List, [], ◌∷◌, ◌++◌,
  Option, none, some, ltb, leb, ◌==◌, if◌then◌else◌, length, get_elem?, get_or, set, replicate,
  ◌>>=◌, ◌>>◌, assert,
}
use zamt.Scheduler.Tasks.{SinkCallback, Task, emplace}

pub record Subscription : Type 0 where
  pub sink_callback : SinkCallback
  pub on_ui : Bool

pub record Source : Type 0 where
  pub packet_size : ℕ
  pub free_packets : List ℕ
  pub packet_usages : List Bool
  pub packet_refcounts : List ℕ
  pub packet_buffer : List ℕ
  pub subscriptions : List Subscription

-- `operator bool` of a `std::function`.
abbrev pub is_set : SinkCallback → Bool
is_set none = false
is_set (some f) = true

-- `for (int i = n - 1; i >= 0; --i) free_packets.push_back(i)`, with `k` the next number pushed.
unfoldable pub push_packets : ℕ → ℕ → List ℕ → List ℕ
push_packets zero k free = free
push_packets (suc m) k free = push_packets m (k - 1) (k ∷ free)

-- The constructor of `SourceRef` with a packet size: both are `int`, here at least 0.
unfoldable pub fresh : ℕ → ℕ → Source
fresh packet_size packets_in_queue = record {
  packet_size = packet_size;
  free_packets = push_packets packets_in_queue (packets_in_queue - 1) [];
  packet_usages = replicate packets_in_queue false;
  packet_refcounts = replicate packets_in_queue 0;
  packet_buffer = replicate (packets_in_queue * packet_size) 0;
  subscriptions = [];
}

unfoldable pub new_source : ℕ → ℕ → Option Source
new_source packet_size packets_in_queue = do
  assert (ltb 0 packets_in_queue)
  some (fresh packet_size packets_in_queue)

-- `static_cast<int>(packet - &packet_buffer[0]) / packet_size`, and the assert that it is not
-- negative: the cast keeps 32 bits, and the division rounds towards 0.
unfoldable pub packet_number : ℕ → ℕ → Option ℕ
packet_number size packet =
    let low = packet % 2 ^ 32 in
    if size == 0
    then none
    else if ltb low (2 ^ 31)
    then some (low / size)
    else if ltb (2 ^ 32 - low) size
    then some 0
    else none

-- `free_packets.push_back(n)` and `packet_usages[n] = false`.
unfoldable pub recycle : ℕ → Source → Source
recycle n src = record src {
  free_packets = n ∷ src.free_packets;
  packet_usages = set src.packet_usages n false;
}

take_back : Source → List ℕ → Option (Option ℕ × Source)
take_back src [] = some (none, src)
take_back src (n ∷ rest) = do
  assert (length src.packet_refcounts == length src.packet_usages)
  assert (leb (length src.free_packets) (length src.packet_refcounts))
  assert (ltb n (length src.packet_refcounts))
  assert (not (get_or src.packet_usages n true))
  assert (get_or src.packet_refcounts n 1 == 0)
  some (
    some (n * src.packet_size),
    record src { free_packets = rest; packet_usages = set src.packet_usages n true },
  )

-- GetPacketForSubmission: a null pointer when no packet is free.
unfoldable pub get_packet : Source → Option (Option ℕ × Source)
unfolding take_back
get_packet src = take_back src src.free_packets

-- The asserts that SubmitPacket and ReleasePacket share.
unfoldable pub check_in_use : Source → ℕ → Option (Unit {0})
check_in_use src n = do
  assert (length src.packet_refcounts == length src.packet_usages)
  assert (ltb (length src.free_packets) (length src.packet_refcounts))
  assert (ltb n (length src.packet_refcounts))
  assert (get_or src.packet_usages n false)

-- Whether a subscription is live and on the side `ui`.
abbrev pub wants : Bool → Subscription → Bool
wants ui s = is_set s.sink_callback && (if ui then s.on_ui else not s.on_ui)

-- The counting loop of SubmitPacket, for one side.
unfoldable pub subscribers : Bool → List Subscription → ℕ
subscribers ui [] = 0
subscribers ui (s ∷ ss) = if wants ui s then suc (subscribers ui ss) else subscribers ui ss

-- The body of the loops that queue tasks: a task, and a reference to the packet.
unfoldable pub queue_task :
    Bool → ℕ → ℕ → ℕ → ℕ → SinkCallback → List Task × List ℕ → List Task × List ℕ
queue_task false source_id packet time n f out = out
queue_task true source_id packet time n f out = (
  emplace (record { timestamp = time; source_id = source_id; sink_callback = f; packet = packet })
      out.0,
  set out.1 n (get_or out.1 n 0 + 1),
)

-- One of the two loops, which takes the subscriptions on its side.
unfoldable pub add_tasks :
    Bool → ℕ → ℕ → ℕ → ℕ → List Subscription → List Task × List ℕ → List Task × List ℕ
unfolding queue_task
add_tasks ui source_id packet time n [] out = out
add_tasks ui source_id packet time n (s ∷ ss) out =
    add_tasks ui source_id packet time n ss
      (queue_task (wants ui s) source_id packet time n s.sink_callback out)

-- A loop runs only if its side has subscribers.
unfoldable pub add_side :
    Bool → ℕ → ℕ → ℕ → ℕ → List Subscription → List Task × List ℕ → List Task × List ℕ
add_side ui source_id packet time n ss out =
    if subscribers ui ss == 0 then out else add_tasks ui source_id packet time n ss out

-- What SubmitPacket leaves behind: the source, the two queues, and how often it calls
-- `notify_one` on each condition variable.
pub record Submitted : Type 0 where
  pub source : Source
  pub tasks_for_ui : List Task
  pub tasks_for_workers : List Task
  pub ui_notified : ℕ
  pub workers_notified : ℕ

-- The last step of SubmitPacket and of ReleasePacket: a packet with no reference is free.
unfoldable pub free_if_unused : ℕ → Source → Source
unfolding recycle
free_if_unused n src = if get_or src.packet_refcounts n 0 == 0 then recycle n src else src

-- SubmitPacket.
unfoldable pub submit : ℕ → ℕ → ℕ → Source → List Task → List Task → Option Submitted
unfolding check_in_use add_side free_if_unused subscribers
submit source_id packet time src tasks_for_ui tasks_for_workers = do
  n ← packet_number src.packet_size packet
  check_in_use src n
  assert (get_or src.packet_refcounts n 1 == 0)
  let subs = src.subscriptions
  let first =
      add_side true source_id packet time n subs (tasks_for_ui, set src.packet_refcounts n 0)
  let second = add_side false source_id packet time n subs (tasks_for_workers, first.1)
  some (record {
    source = free_if_unused n (record src { packet_refcounts = second.1 });
    tasks_for_ui = first.0;
    tasks_for_workers = second.0;
    ui_notified = if subscribers true subs == 0 then 0 else 1;
    workers_notified = subscribers false subs;
  })

-- ReleasePacket.
unfoldable pub release : ℕ → Source → Option Source
unfolding check_in_use free_if_unused
release packet src = do
  n ← packet_number src.packet_size packet
  check_in_use src n
  assert (ltb 0 (get_or src.packet_refcounts n 0))
  some (
      free_if_unused n (record src {
        packet_refcounts = set src.packet_refcounts n (get_or src.packet_refcounts n 0 - 1);
      }))

-- The loop of Subscribe over the slots from `id` on: the first empty one is taken, and a new one
-- is added behind the last if there is none. The number is that of the slot.
unfoldable pub place : Subscription → ℕ → List Subscription → List Subscription × ℕ
place new id [] = (new ∷ [], id)
place new id (s ∷ ss) =
    let rest = place new (id + 1) ss in
    if is_set s.sink_callback then (s ∷ rest.0, rest.1) else (new ∷ ss, id)

-- Subscribe.
unfoldable pub subscribe : SinkCallback → Bool → Source → Source × ℕ
unfolding place
subscribe sink_callback on_ui src =
    let out = place (record { sink_callback = sink_callback; on_ui = on_ui }) 0 src.subscriptions in
    (record src { subscriptions = out.0 }, out.1)

-- `subs[id].sink_callback = nullptr`
unfoldable pub clear : ℕ → List Subscription → List Subscription
clear id [] = []
clear zero (s ∷ ss) = record s { sink_callback = none } ∷ ss
clear (suc id) (s ∷ ss) = s ∷ clear id ss

-- Unsubscribe.
unfoldable pub unsubscribe : ℕ → Source → Option Source
unfolding clear
unsubscribe id src = do
  assert (ltb id (length src.subscriptions))
  some (record src { subscriptions = clear id src.subscriptions })
