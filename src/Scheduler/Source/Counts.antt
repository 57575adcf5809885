-- ===== src/Scheduler/Source/Counts.antt =====
-- What the two loops of SubmitPacket queue and count, whatever is observed of a task.
use zamt.Prelude.{
  ℕ, suc, ◌+◌, ◌<◌, ◌≡◌, refl, ◌∙◌, Bool, true, false, ◌&&◌, List, [], ◌∷◌, arith, ◌==◌,
  if◌then◌else◌, length, get_or, length-set, get_or-set,
}
use zamt.Scheduler.Tasks.{Task, SinkCallback, tally}
use zamt.Scheduler.Source.{Subscription, wants, subscribers, queue_task, add_tasks, add_side}

-- How many subscriptions pass a test.
abbrev pub matching : (Subscription → Bool) → List Subscription → ℕ
matching q [] = 0
matching q (s ∷ ss) = if q s then suc (matching q ss) else matching q ss

abbrev pub task_for : ℕ → ℕ → ℕ → SinkCallback → Task
task_for source_id packet time f = record {
  timestamp = time;
  source_id = source_id;
  sink_callback = f;
  packet = packet;
}

-- The subscriptions of a side whose task passes a test.
abbrev pub delivered : (Task → Bool) → Bool → ℕ → ℕ → ℕ → List Subscription → ℕ
delivered q ui source_id packet time =
    matching λ s. wants ui s && q (task_for source_id packet time s.sink_callback)

module _ (source_id packet time n : ℕ) where
  length-queue_task :
      (b : Bool) (f : SinkCallback) (out : List Task × List ℕ)
      → length (queue_task b source_id packet time n f out).1 ≡ length out.1
  unfolding queue_task
  length-queue_task true f out = length-set out.1 n (get_or out.1 n 0 + 1)
  length-queue_task false f out = refl

  get_or-queue_task :
      (b : Bool) (f : SinkCallback) (out : List Task × List ℕ) (j : ℕ)
      → n < length out.1
      → get_or (queue_task b source_id packet time n f out).1 j 0
        ≡ (if n == j then get_or out.1 n 0 + (if b then 1 else 0) else get_or out.1 j 0)
  unfolding queue_task
  get_or-queue_task true f out j below = get_or-set out.1 n j (get_or out.1 n 0 + 1) 0 below
  get_or-queue_task false f out j below = ground arith

  tally-queue_task :
      (q : Task → Bool) (b : Bool) (f : SinkCallback) (out : List Task × List ℕ)
      → tally q (queue_task b source_id packet time n f out).0
        ≡ tally q out.0 + (if b && q (task_for source_id packet time f) then 1 else 0)
  unfolding queue_task
  tally-queue_task q true f out = ground arith
  tally-queue_task q false f out = omega arith

module _ (ui : Bool) (source_id packet time n : ℕ) where
  length-add_tasks :
      (ss : List Subscription) (out : List Task × List ℕ)
      → length (add_tasks ui source_id packet time n ss out).1 ≡ length out.1
  unfolding add_tasks
  length-add_tasks [] out = refl
  length-add_tasks (s ∷ ss) out =
      length-add_tasks ss _ ∙ length-queue_task source_id packet time n (wants ui s) _ out

  get_or-add_tasks :
      (ss : List Subscription) (out : List Task × List ℕ) (j : ℕ)
      → n < length out.1
      → get_or (add_tasks ui source_id packet time n ss out).1 j 0
        ≡ (if n == j then get_or out.1 n 0 + subscribers ui ss else get_or out.1 j 0)
  unfolding add_tasks subscribers
  get_or-add_tasks [] out j below = ground arith
  get_or-add_tasks (s ∷ ss) out j below =
      get_or-add_tasks_step (wants ui s) s.sink_callback out j (subscribers ui ss) below _ (
        get_or-add_tasks ss _ j
          (rw (length-queue_task source_id packet time n (wants ui s) s.sink_callback out) below))
    where
      get_or-add_tasks_step :
          (b : Bool) (f : SinkCallback) (o : List Task × List ℕ) (j k : ℕ)
          → n < length o.1
          → (x : ℕ)
          → x ≡ (
              if n == j
              then get_or (queue_task b source_id packet time n f o).1 n 0 + k
              else get_or (queue_task b source_id packet time n f o).1 j 0)
          → x ≡ (if n == j then get_or o.1 n 0 + (if b then suc k else k) else get_or o.1 j 0)
      get_or-add_tasks_step b f o j k lt x e = ground (
        arith,
        get_or-queue_task source_id packet time n b f o j lt,
        get_or-queue_task source_id packet time n b f o n lt,
      )

  tally-add_tasks :
      (q : Task → Bool) (ss : List Subscription) (out : List Task × List ℕ)
      → tally q (add_tasks ui source_id packet time n ss out).0
        ≡ tally q out.0 + delivered q ui source_id packet time ss
  unfolding add_tasks
  tally-add_tasks q [] out = omega arith
  tally-add_tasks q (s ∷ ss) out = ground (
    arith,
    tally-add_tasks q ss (queue_task (wants ui s) source_id packet time n s.sink_callback out),
    tally-queue_task source_id packet time n q (wants ui s) s.sink_callback out,
  )

  delivered_none :
      (q : Task → Bool) (ss : List Subscription)
      → subscribers ui ss ≡ 0
      → delivered q ui source_id packet time ss ≡ 0
  unfolding subscribers
  delivered_none q [] h = refl
  delivered_none q (s ∷ ss) h = ground (arith, delivered_none q ss)

  module _ (ss : List Subscription) (out : List Task × List ℕ) where
    pub length-add_side : length (add_side ui source_id packet time n ss out).1 ≡ length out.1
    unfolding add_side
    length-add_side = ground (arith, length-add_tasks ss out)

    -- The reference count of the packet rises by the number of subscribers of the side.
    pub get_or-add_side :
        (j : ℕ)
        → n < length out.1
        → get_or (add_side ui source_id packet time n ss out).1 j 0
          ≡ (if n == j then get_or out.1 n 0 + subscribers ui ss else get_or out.1 j 0)
    unfolding add_side
    get_or-add_side j below = ground (arith, get_or-add_tasks ss out j below)

    -- The queue gains a task for each subscription of the side.
    pub tally-add_side :
        (q : Task → Bool)
        → tally q (add_side ui source_id packet time n ss out).0
          ≡ tally q out.0 + delivered q ui source_id packet time ss
    unfolding add_side
    tally-add_side q = ground (arith, tally-add_tasks q ss out, delivered_none q ss)
