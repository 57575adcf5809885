-- ===== src/Visualizer.antt =====
-- liveaudio_pulse/src/RawAudioVisualizer.cpp: the ring buffers of the samples to draw.
pub mod Window
pub mod Drawing
pub mod Mixing
pub mod Statistics
pub mod Life
pub mod Tests
use zamt.Prelude.{
  ℕ, zero, suc, ◌+◌, ◌-◌, ◌%◌, Bool, true, false, List, [], ◌∷◌, ltb, leb, if◌then◌else◌, length,
  get_or, set, replicate,
}
use zamt.Prelude.Int.{ℤ, pos, negsuc, ◌+ℤ◌, ◌-ℤ◌, shift_right}
use zamt.LiveAudio.Fragment.{StereoSample}

abbrev pub k_visualization_buffer_size : ℕ
k_visualization_buffer_size = 512

pub record Visualizer : Type 0 where
  pub buffer_position : ℕ
  pub center_buffer : List ℤ
  pub side_buffer : List ℤ

abbrev pub fresh : Visualizer
fresh = record {
  buffer_position = 0;
  center_buffer = replicate k_visualization_buffer_size (pos 0);
  side_buffer = replicate k_visualization_buffer_size (pos 0);
}

-- The cast of an `int` to `int16_t`, which keeps the last 16 bits.
unfoldable pub to_sample : ℤ → ℤ
to_sample (pos n) = if ltb (n % 65536) 32768 then pos (n % 65536) else negsuc (65535 - n % 65536)
to_sample (negsuc n) = if ltb (n % 65536) 32768 then negsuc (n % 65536) else pos (65535 - n % 65536)

unfoldable pub center_of : StereoSample → ℤ
unfolding to_sample ◌+ℤ◌
center_of s = to_sample (shift_right (s.left +ℤ s.right))

unfoldable pub side_of : StereoSample → ℤ
unfolding to_sample ◌-ℤ◌
side_of s = to_sample (shift_right (s.left -ℤ s.right))

-- `if (++position >= kVisualizationBufferSize) position = 0;`
unfoldable pub next_position : ℕ → ℕ
next_position p = if leb k_visualization_buffer_size (suc p) then 0 else suc p

unfoldable pub update_buffer : List StereoSample → Visualizer → Visualizer
unfolding next_position center_of side_of
update_buffer [] v = v
update_buffer (s ∷ packet) v = update_buffer packet (record {
  buffer_position = next_position v.buffer_position;
  center_buffer = set v.center_buffer v.buffer_position (center_of s);
  side_buffer = set v.side_buffer v.buffer_position (side_of s);
})

-- The loop of Draw that reads a buffer, from `position` on, without the scaling to the window.
unfoldable pub read_ring : ℕ → ℕ → List ℤ → List ℤ
unfolding next_position
read_ring zero position buffer = []
read_ring (suc n) position buffer =
    get_or buffer position (pos 0) ∷ read_ring n (next_position position) buffer

unfoldable pub drawn_center : Visualizer → List ℤ
drawn_center v = read_ring k_visualization_buffer_size v.buffer_position v.center_buffer

unfoldable pub drawn_side : Visualizer → List ℤ
drawn_side v = read_ring k_visualization_buffer_size v.buffer_position v.side_buffer
