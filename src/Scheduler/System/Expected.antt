-- ===== src/Scheduler/System/Expected.antt =====
-- How many references a packet has, and whether its source is loading it, read off `sources_`.
use native.Mathlib.Nat.{mul-div_cancel, mul-mod_left, div-add-mod'}
use zamt.Prelude.{
  ℕ, ◌*◌, ◌/◌, ◌%◌, ◌<◌, ◌≡◌, refl, subst, Bool, not, ◌&&◌, List, [], ◌∷◌, Option, none, some,
  arith, ◌==◌, if◌then◌else◌,
}
use zamt.Scheduler.Source.{Source, Subscription, is_set, subscribers}
use zamt.Scheduler.Source.Counts.{delivered}
use zamt.Scheduler.Source.Lifecycle.{PacketState, unused, loading, queued, state_of, Moves}
use zamt.Scheduler.Registry.{SourceRef, find_source, set_source}
use zamt.Scheduler.Registry.Lookup.{IsSorted, find_source-set_source}
use zamt.Scheduler.System.{is_of}

abbrev pub refs_of : PacketState → ℕ
refs_of unused = 0
refs_of loading = 0
refs_of (queued k) = k

abbrev pub loads_of : PacketState → ℕ
loads_of unused = 0
loads_of loading = 1
loads_of (queued k) = 0

-- A weight of a packet's state, by its pointer; other pointers and unknown sources weigh nothing.
abbrev pub expected : (PacketState → ℕ) → Option Source → ℕ → ℕ
expected w none p = 0
expected w (some src) p =
    if p % src.packet_size == 0 then w (state_of src (p / src.packet_size)) else 0

-- A pointer to packet `n` divides as such, and no other pointer does.
pub pointer_divides : (size n p : ℕ) → 0 < size → n * size ≡ p → (p % size ≡ 0) × (p / size ≡ n)
pointer_divides size n p pos e =
    subst (λ k. (k % size ≡ 0) × (k / size ≡ n)) e (mul-mod_left n size, mul-div_cancel n pos)

pub pointer_of_divides : (size n p : ℕ) → p % size ≡ 0 → p / size ≡ n → n * size ≡ p
pointer_of_divides size n p e h = subst (λ k. k * size ≡ p) h (omega (arith, div-add-mod' p size))

pub expected-Moves :
    (w : PacketState → ℕ) {src dst : Source} (n : ℕ) (s : PacketState) (p : ℕ)
    → 0 < src.packet_size
    → Moves src n s dst
    → expected w (some dst) p ≡ (if n * src.packet_size == p then w s else expected w (some src) p)
expected-Moves w {src} {dst} n s p pos m = rw m.size (
    ground (
      arith,
      m.states (p / src.packet_size),
      pointer_divides src.packet_size n p pos,
      pointer_of_divides src.packet_size n p,
    ))

-- The state of a packet is what is expected at its own pointer.
pub expected_at :
    (w : PacketState → ℕ) (src : Source) (n : ℕ)
    → 0 < src.packet_size
    → expected w (some src) (n * src.packet_size) ≡ w (state_of src n)
expected_at w src n pos =
    let d = pointer_divides src.packet_size n (n * src.packet_size) pos refl in rw (d.0, d.1) refl

-- A source that moves one packet changes what is expected at the pointer of that packet alone.
pub expected-set_source :
    (w : PacketState → ℕ) {src dst : Source} (n : ℕ) (s : PacketState) (rs : List SourceRef)
    → (id j p : ℕ) → IsSorted rs
    → find_source id rs ≡ some src
    → 0 < src.packet_size
    → Moves src n s dst
    → expected w (find_source j (set_source id dst rs)) p
      ≡ (if id == j && n * src.packet_size == p then w s else expected w (find_source j rs) p)
expected-set_source w {src} {dst} n s rs id j p sorted found pos m =
    rw (find_source-set_source j id dst src rs sorted found)
      (ground (arith, expected-Moves w {src = src} {dst = dst} n s p pos m, found))

-- The tasks that SubmitPacket queues are those of its packet.
pub delivered-is_of :
    (ui : Bool) (id packet time j p : ℕ) (ss : List Subscription)
    → delivered (is_of j p) ui id packet time ss
      ≡ (if id == j && packet == p then subscribers ui ss else 0)
unfolding subscribers
delivered-is_of ui id packet time j p [] = ground arith
delivered-is_of ui id packet time j p (s ∷ ss) =
    ground (arith, delivered-is_of ui id packet time j p ss)

-- None of them has an empty callback.
pub delivered-set :
    (ui : Bool) (id packet time : ℕ) (ss : List Subscription)
    → delivered (λ t. not (is_set t.sink_callback)) ui id packet time ss ≡ 0
delivered-set ui id packet time [] = refl
delivered-set ui id packet time (s ∷ ss) = ground (arith, delivered-set ui id packet time ss)
