-- ===== src/Visualizer/Statistics.antt =====
-- The statistics of the packets shown: UpdateStatistics and ClearStatistics. The sum of squares is
-- a `double` in the code, exact below 2^53; the level in decibels is left out. A counter or a sum
-- that leaves its type's range, which C++ leaves undefined, is taken to wrap around.
use zamt.Prelude.{ℕ, suc, ◌+◌, ◌*◌, ◌/◌, ◌^◌, List, [], ◌∷◌, ◌==◌, if◌then◌else◌, length}
use zamt.Prelude.Int.{ℤ, pos, negsuc, ◌+ℤ◌, sub_ℕ, shift_right, ltb_ℤ, to_signed}
use zamt.LiveAudio.Fragment.{StereoSample}

pub record Statistics : Type 0 where
  pub max_latency_us : ℤ
  pub min_latency_us : ℤ
  pub buffers_in_stat : ℤ
  pub samples_in_stat : ℤ
  pub sum_latency_us : ℤ
  pub sample_square_sum : ℕ

abbrev pub no_statistics : Statistics
no_statistics = record {
  max_latency_us = negsuc 99999998;
  min_latency_us = pos 99999999;
  buffers_in_stat = pos 0;
  samples_in_stat = pos 0;
  sum_latency_us = pos 0;
  sample_square_sum = 0;
}

abbrev pub square : ℤ → ℕ
square (pos n) = n * n
square (negsuc n) = suc n * suc n

-- `mono_sample * mono_sample` of every sample.
unfoldable pub squares : List StereoSample → ℕ
squares [] = 0
squares (s ∷ packet) = square (shift_right (s.left +ℤ s.right)) + squares packet

-- The casts to `int` and `int64_t`.
abbrev pub to_int : ℤ → ℤ
to_int z = to_signed (2 ^ 31) z

abbrev pub to_int64 : ℤ → ℤ
to_int64 z = to_signed (2 ^ 63) z

-- `latency` is the `int64_t` of the time now less the timestamp.
unfoldable pub update_statistics : List StereoSample → ℤ → Statistics → Statistics
unfolding squares
update_statistics packet latency st = record {
  max_latency_us = if ltb_ℤ st.max_latency_us latency then to_int latency else st.max_latency_us;
  min_latency_us = if ltb_ℤ latency st.min_latency_us then to_int latency else st.min_latency_us;
  buffers_in_stat = to_int (st.buffers_in_stat +ℤ pos 1);
  samples_in_stat = to_int (st.samples_in_stat +ℤ pos (length packet));
  sum_latency_us = to_int64 (st.sum_latency_us +ℤ latency);
  sample_square_sum = st.sample_square_sum + squares packet;
}

-- Division rounds towards zero.
abbrev pub quotient : ℤ → ℤ → ℤ
quotient (pos n) (pos d) = pos (n / d)
quotient (pos n) (negsuc d) = sub_ℕ 0 (n / suc d)
quotient (negsuc n) (pos d) = sub_ℕ 0 (suc n / d)
quotient (negsuc n) (negsuc d) = pos (suc n / suc d)

-- `buffers ? buffers : 1`
abbrev pub or_one : ℤ → ℤ
or_one (pos n) = if n == 0 then pos 1 else pos n
or_one (negsuc n) = negsuc n

pub record Figures : Type 0 where
  pub max_latency : ℤ
  pub min_latency : ℤ
  pub avg_latency : ℤ
  pub buffers : ℤ
  pub samples : ℤ

unfoldable pub clear_statistics : Statistics → Figures × Statistics
clear_statistics st = (
  record {
    max_latency = st.max_latency_us;
    min_latency = st.min_latency_us;
    avg_latency = to_int (quotient st.sum_latency_us (or_one st.buffers_in_stat));
    buffers = st.buffers_in_stat;
    samples = st.samples_in_stat;
  },
  no_statistics,
)

-- The packets that are shown between two frames, each with its latency.
unfoldable pub update_all : List (List StereoSample × ℤ) → Statistics → Statistics
unfolding update_statistics
update_all [] st = st
update_all (u ∷ us) st = update_all us (update_statistics u.0 u.1 st)
