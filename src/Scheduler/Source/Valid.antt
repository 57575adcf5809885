-- ===== src/Scheduler/Source/Valid.antt =====
-- The invariant of a source's packet pool, and what its elementary updates do to it.
use zamt.Prelude.{
  ℕ, zero, suc, ◌+◌, ◌-◌, ◌*◌, ◌^◌, ◌≤◌, ◌<◌, ◌≡◌, ◌≢◌, refl, ◌∙◌, ap, Bool, true, false, List, [],
  ◌∷◌, some, arith, ltb, if◌then◌else◌, length, get_or, set, replicate, count, length-set,
  length-replicate, get_or-set, get_or-replicate,
}
use native.Mathlib.Nat.{mul-div_cancel}
use zamt.Scheduler.Source.{Source, push_packets, fresh, packet_number, recycle, free_if_unused}

-- How many packets are in use.
abbrev pub used : List Bool → ℕ
used [] = 0
used (true ∷ us) = suc (used us)
used (false ∷ us) = used us

-- `free`: a packet number is on the free list once if it is not in use, and else not at all, also
-- out of range. `idle`: a packet that is not in use has no reference.
pub record IsValid (src : Source) : Type 0 where
  pub positive : 0 < src.packet_size
  pub fits : length src.packet_usages * src.packet_size ≤ 2 ^ 31
  pub buffer : length src.packet_buffer ≡ length src.packet_usages * src.packet_size
  pub sized : length src.packet_refcounts ≡ length src.packet_usages
  pub counted : length src.free_packets + used src.packet_usages ≡ length src.packet_usages
  pub free : (i : ℕ) → count i src.free_packets ≡ (if get_or src.packet_usages i true then 0 else 1)
  pub idle : (i : ℕ) → get_or src.packet_usages i true ≡ false → get_or src.packet_refcounts i 0 ≡ 0

pub get_or-default {ℓ} :
    {A : Type ℓ} (xs : List A) (i : ℕ) (d e : A) → i < length xs → get_or xs i d ≡ get_or xs i e
get_or-default [] i d e h = absurd (omega arith)
get_or-default (x ∷ xs) zero d e h = refl
get_or-default (x ∷ xs) (suc i) d e h = get_or-default xs i d e (omega arith)

pub used-set :
    (us : List Bool) (i : ℕ) (v : Bool)
    → i < length us
    → used (set us i v) + (if get_or us i false then 1 else 0) ≡ used us + (if v then 1 else 0)
used-set [] i v h = absurd (omega arith)
used-set (true ∷ us) zero true h = omega arith
used-set (true ∷ us) zero false h = omega arith
used-set (false ∷ us) zero true h = omega arith
used-set (false ∷ us) zero false h = omega arith
used-set (true ∷ us) (suc i) v h = omega (arith, used-set us i v (omega arith))
used-set (false ∷ us) (suc i) v h = omega (arith, used-set us i v (omega arith))

used-replicate : (n : ℕ) → used (replicate n false) ≡ 0
used-replicate zero = refl
used-replicate (suc n) = used-replicate n

length-push_packets : (n k : ℕ) (free : List ℕ) → length (push_packets n k free) ≡ n + length free
unfolding push_packets
length-push_packets zero k free = omega arith
length-push_packets (suc n) k free = omega (arith, length-push_packets n (k - 1) (k ∷ free))

-- From the last number on down each is pushed once.
count-push_packets :
    (n : ℕ) (free : List ℕ) (i : ℕ)
    → count i (push_packets n (n - 1) free) ≡ (if ltb i n then 1 else 0) + count i free
unfolding push_packets
count-push_packets zero free i = ground arith
count-push_packets (suc n) free i =
    let e : suc n - 1 ≡ n = omega arith in rw e (ground (arith, count-push_packets n (n ∷ free) i))

-- A source that has just been registered is valid, if its buffer fits in 2^31 bytes.
pub fresh-IsValid : (size n : ℕ) → 0 < size → n * size ≤ 2 ^ 31 → IsValid (fresh size n)
unfolding fresh
fresh-IsValid size n pos small = record {
  positive = pos;
  fits = omega (arith, ap (λ (t : ℕ). t * size) (length-replicate n false));
  buffer = omega (
    arith,
    length-replicate {A = ℕ} (n * size) 0,
    ap (λ (t : ℕ). t * size) (length-replicate n false),
  );
  sized = omega (arith, length-replicate {A = ℕ} n 0, length-replicate n false);
  counted =
      omega (arith, length-push_packets n (n - 1) [], used-replicate n, length-replicate n false);
  free = λ i. ground (arith, count-push_packets n [] i, get_or-replicate n i false true);
  idle = λ i e. ground (arith, get_or-replicate {A = ℕ} n i 0 0);
}

-- A pointer to the start of packet `n` has the number `n`.
pub packet_number-mul :
    (size n : ℕ) → 0 < size → n * size < 2 ^ 31 → packet_number size (n * size) ≡ some n
unfolding packet_number
packet_number-mul size n pos small = ground (arith, mul-div_cancel n pos)

pub below_of_used : (us : List Bool) (n : ℕ) → get_or us n false ≡ true → n < length us
below_of_used [] n e = cc
below_of_used (u ∷ us) zero e = omega arith
below_of_used (u ∷ us) (suc n) e = omega (arith, below_of_used us n e)

pub used-pos : (us : List Bool) (n : ℕ) → get_or us n false ≡ true → 0 < used us
used-pos us n e = ground (arith, below_of_used us n e, used-set us n false)

-- A packet is marked as used and leaves the free list.
pub acquire-IsValid :
    {src : Source} (n : ℕ) (rest : List ℕ)
    → IsValid src
    → src.free_packets ≡ n ∷ rest
    → n < length src.packet_usages
    → IsValid (record src { free_packets = rest; packet_usages = set src.packet_usages n true })
acquire-IsValid {src} n rest v e below = record {
  positive = v.positive;
  fits = rw (length-set src.packet_usages n true) v.fits;
  buffer = rw (length-set src.packet_usages n true) v.buffer;
  sized = rw (length-set src.packet_usages n true) v.sized;
  counted = ground (
    arith,
    ap length e,
    v.counted,
    used-set src.packet_usages n true below,
    length-set src.packet_usages n true,
    unused,
  );
  free = λ i.
      ground (arith, ap (count i) e, v.free i, get_or-set src.packet_usages n i true true below);
  idle = λ i h. ground (arith, v.idle i, get_or-set src.packet_usages n i true true below);
}
  where
    unused : get_or src.packet_usages n false ≡ false
    unused =
        ground
          (arith, ap (count n) e, v.free n, get_or-default src.packet_usages n true false below)

differ : {a b : Bool} → a ≡ b → a ≡ false → b ≡ true → ⊥
differ e h k = cc

-- The references of a packet in use may change.
pub set_refs-IsValid :
    {src : Source} (n : ℕ) (refs : List ℕ)
    → IsValid src
    → get_or src.packet_usages n true ≡ true
    → length refs ≡ length src.packet_refcounts
    → ((i : ℕ) → i ≢ n → get_or refs i 0 ≡ get_or src.packet_refcounts i 0)
    → IsValid (record src { packet_refcounts = refs })
set_refs-IsValid {src} n refs v in_use same others = record {
  positive = v.positive;
  fits = v.fits;
  buffer = v.buffer;
  sized = same ∙ v.sized;
  counted = v.counted;
  free = v.free;
  idle = λ i h.
      others i (λ (e : i ≡ n). differ (ap (λ k. get_or src.packet_usages k true) e) h in_use)
      ∙ v.idle i h;
}

-- A packet with no reference goes back to the free list.
pub recycle-IsValid :
    {src : Source} (n : ℕ)
    → IsValid src
    → get_or src.packet_usages n false ≡ true
    → get_or src.packet_refcounts n 0 ≡ 0
    → IsValid (recycle n src)
unfolding recycle
recycle-IsValid {src} n v in_use bare = record {
  positive = v.positive;
  fits = rw (length-set src.packet_usages n false) v.fits;
  buffer = rw (length-set src.packet_usages n false) v.buffer;
  sized = rw (length-set src.packet_usages n false) v.sized;
  counted = ground (
    arith,
    v.counted,
    used-set src.packet_usages n false below,
    length-set src.packet_usages n false,
  );
  free = λ i. ground (
    arith,
    v.free i,
    get_or-set src.packet_usages n i false true below,
    get_or-default src.packet_usages n true false below,
    in_use,
  );
  idle = λ i h. ground (arith, v.idle i, get_or-set src.packet_usages n i false true below);
}
  where
    below : n < length src.packet_usages
    below = below_of_used src.packet_usages n in_use

pub free_if_unused-IsValid :
    {src : Source} (n : ℕ)
    → IsValid src
    → get_or src.packet_usages n false ≡ true
    → IsValid (free_if_unused n src)
unfolding free_if_unused
free_if_unused-IsValid {src} n v in_use = ground (arith, recycle-IsValid n v in_use)
