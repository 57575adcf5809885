-- ===== src/Visualizer/Life.antt =====
-- The class RawAudioVisualizer with the window that it owns: its constructor and destructor, Show,
-- and Draw as the window's OnDraw calls it. A result `none` is a failed assert.
pub mod Showing
mod Tests
use zamt.Prelude.{ℕ, Bool, List, [], ◌∷◌, Option, none, some, ◌>>=◌}
use zamt.Prelude.Int.{ℤ}
use zamt.LiveAudio.Fragment.{StereoSample}
use zamt.Windows.{Visualization, open_window, close_window, query_render, on_draw}
use zamt.Visualizer.{Visualizer, fresh, update_buffer, drawn_center, drawn_side}
use zamt.Visualizer.Statistics.{
  Statistics, Figures, no_statistics, update_statistics, clear_statistics,
}

-- The title "Audio In" and the bound function `Draw` are known by numbers.
abbrev pub k_visualization_title : Option ℕ
k_visualization_title = some 1

abbrev pub k_visualization_width : ℕ
k_visualization_width = 640

abbrev pub k_visualization_height : ℕ
k_visualization_height = 480

abbrev pub draw_callback : ℕ
draw_callback = 1

pub record RawAudioVisualizer : Type 0 where
  pub window_id : ℕ
  pub buffers : Visualizer
  pub statistics : Statistics

pub record Shown : Type 0 where
  pub visualizer : RawAudioVisualizer
  pub windows : Visualization

unfoldable pub construct : Visualization → Option Shown
construct v = do
  (id, v') ← open_window k_visualization_title k_visualization_width k_visualization_height v
  some (record {
    visualizer = record { window_id = id; buffers = fresh; statistics = no_statistics };
    windows = v';
  })

unfoldable pub destroy : Shown → Option Visualization
destroy s = close_window s.visualizer.window_id s.windows

-- Show, with the latency that UpdateStatistics computes from the timestamp.
unfoldable pub show_packet : List StereoSample → ℤ → Shown → Option Shown
show_packet packet latency s = do
  v' ← query_render s.visualizer.window_id (some draw_callback) s.windows
  some (record {
    visualizer = record s.visualizer {
      buffers = update_buffer packet s.visualizer.buffers;
      statistics = update_statistics packet latency s.visualizer.statistics;
    };
    windows = v';
  })

-- What Draw puts on the canvas: two curves, without their scaling to the window, and the figures.
pub record Picture : Type 0 where
  pub center : List ℤ
  pub side : List ℤ
  pub figures : Figures

unfoldable pub draw : RawAudioVisualizer → Picture × RawAudioVisualizer
draw r =
    let cleared = clear_statistics r.statistics in
    (
      record { center = drawn_center r.buffers; side = drawn_side r.buffers; figures = cleared.0 },
      record r { statistics = cleared.1 },
    )

-- OnDraw of the window: the callback that was queried is called, if there is one.
unfoldable pub draw_window : Shown → Option (Option Picture × Shown)
unfolding draw
draw_window s = do
  (called, v') ← on_draw s.visualizer.window_id s.windows
  some (elim called [
    | none ↦ (none, record s { windows = v' })
    | some callback ↦
        (some (draw s.visualizer).0, record { visualizer = (draw s.visualizer).1; windows = v' })
  ])

-- Packets that are shown one after the other, each with its latency.
unfoldable pub show_all : List (List StereoSample × ℤ) → Shown → Option Shown
unfolding show_packet
show_all [] s = some s
show_all (u ∷ us) s = do s' ← show_packet u.0 u.1 s; show_all us s'
