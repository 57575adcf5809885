-- ===== src/Visualizer/Life/Tests.antt =====
-- A visualizer whose window is on the screen.
use zamt.Prelude.{◌≡◌, true, false, List, [], ◌∷◌, none, some}
use zamt.Prelude.Int.{ℤ, pos, negsuc}
use zamt.LiveAudio.Fragment.{StereoSample}
use zamt.Windows.{Visualization}
use zamt.Visualizer.{fresh}
use zamt.Visualizer.Statistics.{no_statistics}
use zamt.Visualizer.Life.{Shown, construct, destroy}
use zamt.Visualizer.Life.Showing.{construct-destroy}

abbrev on_screen : Shown
on_screen = record {
  visualizer = record { window_id = 0; buffers = fresh; statistics = no_statistics };
  windows = record {
    windows =
        record {
          window_title = some 1;
          width = 640;
          height = 480;
          window = true;
          canvas = true;
          queried_callback = none;
        }
        ∷ [];
    shutdown_initiated = false;
    quits = 0;
  };
}

abbrev two_packets : List (List StereoSample × ℤ)
two_packets =
    (record { left = pos 3; right = pos 6 } ∷ [], pos 7000)
    ∷ (record { left = negsuc 9; right = pos 1 } ∷ [], negsuc 499)
    ∷ []

abbrev no_windows : Visualization
no_windows = record { windows = []; shutdown_initiated = false; quits = 0 }

construct-destroy_example : (s : Shown) × (construct no_windows ≡ some s) × (destroy s ≡ none)
construct-destroy_example = construct-destroy no_windows tt
