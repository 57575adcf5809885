-- ===== src/Scheduler/Source/Subscriptions.antt =====
-- Subscribe and Unsubscribe on the slots of one source.
use zamt.Prelude.{
  ℕ, zero, suc, ◌+◌, ◌≤◌, ◌<◌, ◌≡◌, refl, ap, Bool, true, false, List, [], ◌∷◌, none, some, arith,
  ◌==◌, if◌then◌else◌, length, get_elem?,
}
use zamt.Scheduler.Tasks.{SinkCallback}
use zamt.Scheduler.Source.{Source, Subscription, is_set, place, subscribe, clear, unsubscribe}
use zamt.Scheduler.Source.Valid.{IsValid}

-- What is in a slot: an empty slot is one past the end or with an empty function.
abbrev pub callback_at : List Subscription → ℕ → SinkCallback
callback_at [] i = none
callback_at (s ∷ ss) zero = s.sink_callback
callback_at (s ∷ ss) (suc i) = callback_at ss i

-- What Subscribe does to the slots: `id` is the first that is empty.
pub record Places (new : Subscription) (ss : List Subscription) (out : List Subscription) (id : ℕ)
    : Type 0 where
  pub first : (i : ℕ) → i < id → is_set (callback_at ss i) ≡ true
  pub empty : is_set (callback_at ss id) ≡ false
  pub slots : (i : ℕ) → get_elem? out i ≡ (if i == id then some new else get_elem? ss i)
  pub grows : length out ≡ (if length ss == id then suc (length ss) else length ss)
  pub within : id ≤ length ss

-- The number of filled slots before the first empty one.
first_empty : List Subscription → ℕ
first_empty [] = 0
first_empty (s ∷ ss) = if is_set s.sink_callback then suc (first_empty ss) else 0

put_at : Subscription → List Subscription → ℕ → List Subscription
put_at new [] k = new ∷ []
put_at new (s ∷ ss) zero = new ∷ ss
put_at new (s ∷ ss) (suc k) = s ∷ put_at new ss k

place-put_at :
    (new : Subscription) (id : ℕ) (ss : List Subscription)
    → place new id ss ≡ (put_at new ss (first_empty ss), first_empty ss + id)
unfolding place first_empty put_at
place-put_at new id [] = ground arith
place-put_at new id (s ∷ ss) = ground (arith, place-put_at new (id + 1) ss)

filled_before :
    (ss : List Subscription) (i : ℕ) → i < first_empty ss → is_set (callback_at ss i) ≡ true
unfolding first_empty
filled_before [] i h = absurd (omega arith)
filled_before (s ∷ ss) zero h = ground arith
filled_before (s ∷ ss) (suc i) h = ground (arith, filled_before ss i)

empty_at : (ss : List Subscription) → is_set (callback_at ss (first_empty ss)) ≡ false
unfolding first_empty
empty_at [] = refl
empty_at (s ∷ ss) = ground (arith, empty_at ss)

first_empty-le : (ss : List Subscription) → first_empty ss ≤ length ss
unfolding first_empty
first_empty-le [] = omega arith
first_empty-le (s ∷ ss) = ground (arith, first_empty-le ss)

get_elem?-put_at :
    (new : Subscription) (ss : List Subscription) (k i : ℕ)
    → k ≤ length ss
    → get_elem? (put_at new ss k) i ≡ (if i == k then some new else get_elem? ss i)
unfolding put_at
get_elem?-put_at new [] zero zero h = refl
get_elem?-put_at new [] zero (suc i) h = ground arith
get_elem?-put_at new [] (suc k) i h = absurd (omega arith)
get_elem?-put_at new (s ∷ ss) zero zero h = refl
get_elem?-put_at new (s ∷ ss) zero (suc i) h = ground arith
get_elem?-put_at new (s ∷ ss) (suc k) zero h = ground arith
get_elem?-put_at new (s ∷ ss) (suc k) (suc i) h = ground (arith, get_elem?-put_at new ss k i)

length-put_at :
    (new : Subscription) (ss : List Subscription) (k : ℕ)
    → k ≤ length ss
    → length (put_at new ss k) ≡ (if length ss == k then suc (length ss) else length ss)
unfolding put_at
length-put_at new [] zero h = refl
length-put_at new [] (suc k) h = absurd (omega arith)
length-put_at new (s ∷ ss) zero h = ground arith
length-put_at new (s ∷ ss) (suc k) h = ground (arith, length-put_at new ss k)

place-Places :
    (new : Subscription) (ss : List Subscription)
    → Places new ss (place new 0 ss).0 (place new 0 ss).1
place-Places new ss =
    rw (place-put_at new 0 ss, slot)
      record {
        first = filled_before ss;
        empty = empty_at ss;
        slots = λ i. get_elem?-put_at new ss (first_empty ss) i (first_empty-le ss);
        grows = length-put_at new ss (first_empty ss) (first_empty-le ss);
        within = first_empty-le ss;
      }
  where
    slot : first_empty ss + 0 ≡ first_empty ss
    slot = omega arith

-- Subscribe fills the first empty slot, or a new one if all are filled, and returns its number.
-- The other slots and the packet pool stay as they are.
pub subscribe-Places :
    (f : SinkCallback) (on_ui : Bool) (src : Source)
    → let (dst, id) = subscribe f on_ui src in
      Places (record { sink_callback = f; on_ui = on_ui }) src.subscriptions dst.subscriptions id
      × (dst ≡ record src { subscriptions = dst.subscriptions })
unfolding subscribe
subscribe-Places f on_ui src = (place-Places _ src.subscriptions, refl)

pub set_subscriptions-IsValid :
    (ss : List Subscription) {src : Source}
    → IsValid src
    → IsValid (record src { subscriptions = ss })
set_subscriptions-IsValid ss v = record {
  positive = v.positive;
  fits = v.fits;
  buffer = v.buffer;
  sized = v.sized;
  counted = v.counted;
  free = v.free;
  idle = v.idle;
}

callback_at-clear :
    (id : ℕ) (ss : List Subscription) (i : ℕ)
    → callback_at (clear id ss) i ≡ (if i == id then none else callback_at ss i)
unfolding clear
callback_at-clear id [] i = ground arith
callback_at-clear zero (s ∷ ss) zero = refl
callback_at-clear zero (s ∷ ss) (suc i) = ground arith
callback_at-clear (suc id) (s ∷ ss) zero = ground arith
callback_at-clear (suc id) (s ∷ ss) (suc i) = ground (arith, callback_at-clear id ss i)

length-clear : (id : ℕ) (ss : List Subscription) → length (clear id ss) ≡ length ss
unfolding clear
length-clear id [] = refl
length-clear zero (s ∷ ss) = refl
length-clear (suc id) (s ∷ ss) = ap suc (length-clear id ss)

-- Unsubscribe of a number that Subscribe can have returned empties that slot alone. The others
-- keep their numbers, and the packet pool stays as it is.
pub unsubscribe_lem :
    (id : ℕ) (src : Source)
    → id < length src.subscriptions
    → (dst : Source) × (unsubscribe id src ≡ some dst)
      × (dst ≡ record src { subscriptions = dst.subscriptions })
      × (length dst.subscriptions ≡ length src.subscriptions)
      × ((i : ℕ)
          → callback_at dst.subscriptions i
            ≡ (if i == id then none else callback_at src.subscriptions i))
unfolding unsubscribe
unsubscribe_lem id src h = (
  record src { subscriptions = clear id src.subscriptions },
  ground arith,
  refl,
  length-clear id src.subscriptions,
  callback_at-clear id src.subscriptions,
)
