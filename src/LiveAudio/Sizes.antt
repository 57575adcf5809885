-- ===== src/LiveAudio/Sizes.antt =====
-- The buffer sizes that `LiveAudio::Initialize` chooses. A result `none` is a loop that does not
-- end, a failed assert, a division by zero or an overflow of `int`.
pub mod Choice
use zamt.Prelude.{
  ℕ, zero, suc, ◌+◌, ◌-◌, ◌*◌, ◌/◌, ◌^◌, Bool, true, Option, none, some, ltb, leb, ◌==◌, not,
  if◌then◌else◌, ◌>>=◌, ◌>>◌, assert,
}
use zamt.Prelude.Int.{ℤ, pos, negsuc, shift_right}

abbrev pub max_latency_for_hardware_buffer_in_ms : ℕ
max_latency_for_hardware_buffer_in_ms = 200

abbrev pub max_submit_buffer_size : ℕ
max_submit_buffer_size = 65536

-- `submit_buffer_size_ > limit`
abbrev pub exceeds : ℕ → ℤ → Bool
exceeds size (pos limit) = ltb limit size
exceeds size (negsuc n) = true

-- `while (submit_buffer_size_ > limit) submit_buffer_size_ >>= 1;` in at most `fuel` rounds.
unfoldable pub halve : ℕ → ℕ → ℤ → Option ℕ
halve zero size limit = none
halve (suc fuel) size limit =
    let rest = halve fuel (size / 2) limit in if exceeds size limit then rest else some size

-- Halving the largest size 17 times gives 0, so the loop ends in 18 tests or not at all.
abbrev pub rounds : ℕ
rounds = 18

-- `requested_overall_latency_ - submit_buffer_size_` and the assert on it.
abbrev pub hardware_part : ℤ → ℕ → Option ℕ
hardware_part (pos latency) submit =
    if leb (submit + submit) latency then some (latency - submit) else none
hardware_part (negsuc n) submit = none

pub record Sizes : Type 0 where
  pub submit_buffer_size : ℕ
  pub hw_fragment_size : ℕ
  pub queue_capacity : ℕ

-- A capacity that is computed as an `int` and that RegisterSource then accepts, which wants it
-- positive; the divisions round towards 0.
unfoldable pub queue_capacity_for : ℤ → ℕ → Option ℕ
queue_capacity_for (pos rate) submit = do
  assert (ltb (rate * max_latency_for_hardware_buffer_in_ms) (2 ^ 31))
  assert (not (submit == 0))
  some (rate * max_latency_for_hardware_buffer_in_ms / 1000 / submit + 1)
queue_capacity_for (negsuc n) submit = do
  assert (leb ((n + 1) * max_latency_for_hardware_buffer_in_ms) (2 ^ 31))
  assert (not (submit == 0))
  assert ((n + 1) * max_latency_for_hardware_buffer_in_ms / 1000 / submit == 0)
  some 1

-- The latency, in samples, and the sample rate may be any numbers that the command line gives.
unfoldable pub choose_sizes : ℤ → ℤ → Option Sizes
unfolding queue_capacity_for
choose_sizes requested_overall_latency requested_sample_rate = do
  submit ← halve rounds max_submit_buffer_size (shift_right requested_overall_latency)
  hw ← hardware_part requested_overall_latency submit
  capacity ← queue_capacity_for requested_sample_rate submit
  some (record { submit_buffer_size = submit; hw_fragment_size = hw; queue_capacity = capacity })
