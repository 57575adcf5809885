-- ===== src/LiveAudio/Sizes/Choice.antt =====
-- Which sizes are chosen, and for which latencies none can be.
use zamt.Prelude.{
  ℕ, zero, suc, ◌+◌, ◌-◌, ◌*◌, ◌/◌, ◌^◌, ◌≤◌, ◌<◌, ◌≡◌, ◌⊎◌, inl, inr, refl, true, none, some,
  arith, ltb, Bool-cases,
}
use native.Mathlib.Nat.{pow-suc, lt-div-mul-add, div-mul-le_self}
use zamt.Prelude.Int.{ℤ, pos, negsuc, shift_right}
use zamt.LiveAudio.Sizes.{halve, rounds, max_submit_buffer_size, Sizes, choose_sizes}

-- A power of two of at most 2^16.
pub record IsHalved (size limit : ℕ) : Type 0 where
  pub exponent : ℕ
  pub at : size ≡ 2 ^ exponent
  pub positive : 0 < size
  pub at_most : size ≤ limit
  pub small : size ≤ max_submit_buffer_size
  pub largest : (size ≡ max_submit_buffer_size) ⊎ (limit < size + size)

ltb→lt : (a b : ℕ) → ltb a b ≡ true → a < b
ltb→lt a b h = ground arith

halve-pow :
    (f k limit : ℕ)
    → k ≤ f
    → 2 ^ k ≤ max_submit_buffer_size
    → 0 < limit
    → (2 ^ k ≡ max_submit_buffer_size) ⊎ (limit < 2 ^ k + 2 ^ k)
    → (size : ℕ) × (halve (suc f) (2 ^ k) (pos limit) ≡ some size) × IsHalved size limit
unfolding halve
halve-pow f zero limit le top h big = (
  1,
  ground arith,
  record {
    exponent = 0;
    at = refl;
    positive = omega arith;
    at_most = h;
    small = top;
    largest = big;
  },
)
halve-pow zero (suc k) limit le top h big = absurd (omega arith)
halve-pow (suc f) (suc k) limit le top h big = elim (Bool-cases (ltb limit (2 ^ suc k))) [
  | inl e ↦
      let (size, runs, chosen) =
        halve-pow f k limit (omega arith) (omega (arith, pow-suc 2 k)) h
          (inr (omega (arith, pow-suc 2 k, ltb→lt limit (2 ^ suc k) e))) in
      (size, rw (e, half) runs, chosen)
  | inr e ↦ (
    2 ^ suc k,
    rw e refl,
    record {
      exponent = suc k;
      at = refl;
      positive = omega arith;
      at_most = ground (arith, e);
      small = top;
      largest = big;
    },
  )
]
  where
    half : 2 ^ suc k / 2 ≡ 2 ^ k
    half = omega (arith, pow-suc 2 k)

-- With a latency of at least 2 samples and a sample rate that is not negative and for which `rate
-- * 200` fits in an `int`, nothing overflows and no assert fails: the loop ends, and the sizes
-- are right: the submit buffer is a power of two of at most half the latency, the largest one up
-- to 65536, the rest of the latency is left to the hardware and is no smaller, and the queue
-- holds 200 ms of samples and at most one packet more.
pub choose_sizes_lem :
    (latency rate : ℕ)
    → 2 ≤ latency
    → rate * 200 < 2 ^ 31
    → (s : Sizes) × (choose_sizes (pos latency) (pos rate) ≡ some s)
      × IsHalved s.submit_buffer_size (latency / 2)
      × (s.submit_buffer_size + s.hw_fragment_size ≡ latency)
      × (s.submit_buffer_size ≤ s.hw_fragment_size)
      × (rate * 200 / 1000 < s.queue_capacity * s.submit_buffer_size)
      × (s.queue_capacity * s.submit_buffer_size ≤ rate * 200 / 1000 + s.submit_buffer_size)
unfolding choose_sizes
choose_sizes_lem latency rate enough small =
    let (submit, runs, chosen) =
      halve-pow 17 16 (latency / 2) (omega arith) (omega arith) (omega arith) (inl refl) in
    (
      record {
        submit_buffer_size = submit;
        hw_fragment_size = latency - submit;
        queue_capacity = rate * 200 / 1000 / submit + 1;
      },
      ground (arith, runs, chosen.at_most, chosen.positive, small),
      chosen,
      omega (arith, chosen.at_most),
      omega (arith, chosen.at_most),
      omega (
        arith,
        chosen.positive,
        lt-div-mul-add {a = rate * 200 / 1000} {b = submit} chosen.positive,
      ),
      omega (arith, div-mul-le_self (rate * 200 / 1000) submit),
    )

-- With a negative latency the loop never ends: no number of rounds is enough.
pub halve-negative : (fuel size n : ℕ) → halve fuel size (shift_right (negsuc n)) ≡ none
unfolding halve
halve-negative zero size n = refl
halve-negative (suc fuel) size n = halve-negative fuel (size / 2) n

-- With a latency of 0 or 1 sample the submit buffer gets the size 0, by which the queue capacity is
-- then divided; so there are no sizes.
pub choose_sizes-small :
    (latency : ℕ) (rate : ℤ)
    → latency < 2
    → (halve rounds max_submit_buffer_size (shift_right (pos latency)) ≡ some 0)
      × (choose_sizes (pos latency) rate ≡ none)
unfolding choose_sizes halve
choose_sizes-small zero (pos rate) h = (refl, ground arith)
choose_sizes-small zero (negsuc n) h = (refl, ground arith)
choose_sizes-small (suc zero) (pos rate) h = (refl, ground arith)
choose_sizes-small (suc zero) (negsuc n) h = (refl, ground arith)
choose_sizes-small (suc (suc n)) rate h = absurd (omega arith)
