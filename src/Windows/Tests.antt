-- ===== src/Windows/Tests.antt =====
-- The theorems on windows, at small inputs.
use zamt.Prelude.{ℕ, ◌≡◌, refl, true, false, List, [], ◌∷◌, none, some, inl, arith, get_elem?}
use zamt.Windows.{
  Window, Visualization, Frame, open_window, close_window, query_render, on_timeout, on_draw,
}
use zamt.Windows.States.{free, pending, opened, closing, state_of, window_of}
use zamt.Windows.Frames.{
  AllSound, states, frame_states, wanting, on_timeout-states, close_window-too_late,
}
use zamt.Windows.Opening.{Takes, Same, open_window-Takes}
use zamt.Windows.Runs.{querying, perform, perform-AllSound, on_draw-once}

-- A window that is shown and wants to draw, one that is to be hidden, and one that is to be shown.
abbrev three_windows : List Window
three_windows =
    window_of (some 1) 640 480 true true (some 7)
    ∷ window_of none 640 480 true true (some 8)
    ∷ window_of (some 2) 320 200 false false none
    ∷ []

abbrev running : Visualization
running = record { windows = three_windows; shutdown_initiated = false; quits = 0 }

abbrev stopping : Visualization
stopping = record running { shutdown_initiated = true }

three_windows-AllSound : AllSound three_windows
three_windows-AllSound = (
  record { paired = refl; quiet = λ e. cc; sized = λ e. (omega arith, omega arith) },
  (
    record { paired = refl; quiet = λ e. cc; sized = λ e. cc },
    (record { paired = refl; quiet = λ e. cc; sized = λ e. (omega arith, omega arith) }, tt),
  ),
)

three_states : states three_windows ≡ opened ∷ closing ∷ pending ∷ []
three_states = refl

frame_after : frame_states true (states three_windows) ≡ free ∷ free ∷ opened ∷ []
frame_after = refl

on_timeout-states_example :
    (f : Frame) × (on_timeout stopping ≡ some f)
    × AllSound f.visualization.windows
    × (states f.visualization.windows ≡ frame_states true (states three_windows))
    × (f.draws ≡ wanting 0 f.visualization.windows)
    × (f.goes_on ≡ false)
on_timeout-states_example = on_timeout-states stopping three_windows-AllSound

close_window-too_late_example :
    (f : Frame) × (on_timeout stopping ≡ some f) × (close_window 0 f.visualization ≡ none)
close_window-too_late_example = close_window-too_late stopping 0 three_windows-AllSound refl refl

window_taken :
    (id : ℕ) × (v' : Visualization) × (open_window (some 5) 640 480 running ≡ some (id, v'))
    × Takes three_windows id
    × AllSound v'.windows
    × ((w : Window) × (get_elem? v'.windows id ≡ some w)
        × (state_of w ≡ pending)
        × (w.window_title ≡ some 5))
    × Same id three_windows v'.windows
window_taken =
    open_window-Takes 5 640 480 running three_windows-AllSound (omega arith) (omega arith)

perform-AllSound_example :
    (v' : Visualization) × (perform (querying 2 9) running ≡ some v') × AllSound v'.windows
perform-AllSound_example = perform-AllSound (querying 2 9) running three_windows-AllSound (inl refl)

queried_twice :
    (v₁ : Visualization) × (v₂ : Visualization) × (query_render 0 (some 9) running ≡ some v₁)
    × (on_draw 0 v₁ ≡ some (some 9, v₂))
    × (on_draw 0 v₂ ≡ some (none, v₂))
queried_twice = on_draw-once 0 9 running three_windows-AllSound refl refl
