-- ===== src/Visualizer/Tests.antt =====
-- The theorems on the visualizer, at small inputs.
use zamt.Prelude.{List, ◌≡◌, refl, [], ◌∷◌, ◌++◌, drop, map, arith, length-replicate}
use zamt.Prelude.Int.{ℤ, pos, negsuc, ◌+ℤ◌, ◌-ℤ◌, shift_right}
use zamt.LiveAudio.Fragment.{StereoSample}
use zamt.Visualizer.{fresh, center_of, side_of, update_buffer, drawn_center, drawn_side}
use zamt.Visualizer.Window.{IsRing}
use zamt.Visualizer.Drawing.{update_buffer-drawn}
use zamt.Visualizer.Statistics.{no_statistics, clear_statistics, update_all}
use zamt.Visualizer.Mixing.{IsSample, mixed-exact}

abbrev loud : StereoSample
loud = record { left = negsuc 32767; right = pos 32767 }

abbrev quiet : StereoSample
quiet = record { left = pos 3; right = pos 6 }

mixed_loud :
    (center_of loud ≡ shift_right (loud.left +ℤ loud.right))
    × IsSample (center_of loud)
    × (side_of loud ≡ shift_right (loud.left -ℤ loud.right))
    × IsSample (side_of loud)
mixed_loud = mixed-exact loud (omega arith) (omega arith)

quiet_mixed : (center_of quiet ≡ pos 4) × (side_of quiet ≡ negsuc 1)
unfolding center_of side_of
quiet_mixed = (refl, refl)

fresh-IsRing : IsRing fresh
fresh-IsRing = record {
  position = omega arith;
  centers = length-replicate 512 (pos 0);
  sides = length-replicate 512 (pos 0);
}

update_buffer-drawn_example :
    IsRing (update_buffer (loud ∷ quiet ∷ []) fresh)
    × (drawn_center (update_buffer (loud ∷ quiet ∷ []) fresh)
        ≡ drop 2 (drawn_center fresh ++ map center_of (loud ∷ quiet ∷ [])))
    × (drawn_side (update_buffer (loud ∷ quiet ∷ []) fresh)
        ≡ drop 2 (drawn_side fresh ++ map side_of (loud ∷ quiet ∷ [])))
update_buffer-drawn_example = update_buffer-drawn (loud ∷ quiet ∷ []) fresh fresh-IsRing

abbrev shown : List (List StereoSample × ℤ)
shown = (loud ∷ quiet ∷ [], pos 7000) ∷ (quiet ∷ [], negsuc 499) ∷ []

-- Two packets with three samples; the average is that of 7000 and -500.
figures_shown :
    let figures = (clear_statistics (update_all shown no_statistics)).0 in
    (figures.buffers ≡ pos 2)
    × (figures.samples ≡ pos 3)
    × (figures.min_latency ≡ negsuc 499)
    × (figures.max_latency ≡ pos 7000)
    × (figures.avg_latency ≡ pos 3250)
unfolding clear_statistics update_all ◌+ℤ◌
figures_shown = (refl, refl, refl, refl, refl)

-- A latency that does not fit in an `int` is cut when it is the greatest.
latency_cut :
    (clear_statistics (update_all (([], pos 4294967301) ∷ []) no_statistics)).0.max_latency ≡ pos 5
unfolding clear_statistics update_all
latency_cut = refl
