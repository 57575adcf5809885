-- ===== src/Visualizer/Life/Showing.antt =====
-- Packets that are shown between two frames, and the next frame.
use zamt.Prelude.{◌≡◌, refl, false, List, [], ◌∷◌, ◌++◌, none, some, arith, get_elem?}
use zamt.Prelude.Int.{ℤ}
use zamt.LiveAudio.Fragment.{StereoSample}
use zamt.Windows.{Window, Visualization, close_window}
use zamt.Windows.States.{opened, state_of}
use zamt.Windows.Frames.{AllSound, states}
use zamt.Windows.Opening.{open_window-Takes}
use zamt.Visualizer.{Visualizer, fresh}
use zamt.Visualizer.Window.{IsRing}
use zamt.Visualizer.Statistics.{no_statistics}
use zamt.Visualizer.Life.{Shown, construct, destroy, draw_callback}

-- The samples of the packets, one after the other.
abbrev pub all_samples : List (List StereoSample × ℤ) → List StereoSample
all_samples [] = []
all_samples (u ∷ us) = u.0 ++ all_samples us

-- The window is on the screen, and the ring buffers are whole.
pub record IsShown (s : Shown) : Type 0 where
  pub sound : AllSound s.windows.windows
  pub running : s.windows.shutdown_initiated ≡ false
  pub on_screen : get_elem? (states s.windows.windows) s.visualizer.window_id ≡ some opened
  pub ring : IsRing s.visualizer.buffers

-- A callback waits in the window.
abbrev pub IsQueried : Shown → Type 0
IsQueried s =
    (w : Window) × (get_elem? s.windows.windows s.visualizer.window_id ≡ some w)
    × (state_of w ≡ opened)
    × (w.queried_callback ≡ some draw_callback)

-- A visualizer that is destroyed before a frame has shown its window fails the assert of
-- CloseWindow that the window is on the screen.
pub construct-destroy :
    (v : Visualization)
    → AllSound v.windows
    → (s : Shown) × (construct v ≡ some s) × (destroy s ≡ none)
unfolding construct destroy close_window
construct-destroy v h =
    let (id, v', runs, _, _, (w, here, waits, _), _) =
      open_window-Takes 1 640 480 v h (omega arith) (omega arith) in
    (
      record {
        visualizer = record { window_id = id; buffers = fresh; statistics = no_statistics };
        windows = v';
      },
      rw runs refl,
      rw here (ground (arith, waits)),
    )
