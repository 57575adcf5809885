-- ===== src/Visualizer/Mixing.antt =====
-- The center and the side of a stereo sample.
use zamt.Prelude.{subst, sym, ◌<◌, ◌≡◌, arith}
use zamt.Prelude.Int.{ℤ, pos, negsuc, ◌+ℤ◌, ◌-ℤ◌, shift_right}
use zamt.LiveAudio.Fragment.{StereoSample}
use zamt.Visualizer.{to_sample, center_of, side_of}

-- The range of `int16_t`.
abbrev pub IsSample : ℤ → Type 0
IsSample (pos n) = n < 32768
IsSample (negsuc n) = n < 32768

to_sample-IsSample : (z : ℤ) → IsSample z → to_sample z ≡ z
unfolding to_sample
to_sample-IsSample (pos n) h = ground (arith, h)
to_sample-IsSample (negsuc n) h = ground (arith, h)

center-IsSample : (a b : ℤ) → IsSample a → IsSample b → IsSample (shift_right (a +ℤ b))
unfolding ◌+ℤ◌
center-IsSample (pos a) (pos b) h k = ground (arith, h, k)
center-IsSample (pos a) (negsuc b) h k = ground (arith, h, k)
center-IsSample (negsuc a) (pos b) h k = ground (arith, h, k)
center-IsSample (negsuc a) (negsuc b) h k = ground (arith, h, k)

side-IsSample : (a b : ℤ) → IsSample a → IsSample b → IsSample (shift_right (a -ℤ b))
unfolding ◌-ℤ◌
side-IsSample (pos a) (pos b) h k = ground (arith, h, k)
side-IsSample (pos a) (negsuc b) h k = ground (arith, h, k)
side-IsSample (negsuc a) (pos b) h k = ground (arith, h, k)
side-IsSample (negsuc a) (negsuc b) h k = ground (arith, h, k)

-- The casts to 16 bits lose nothing: half the sum and half the difference of two 16-bit samples,
-- rounded down, are 16-bit samples again.
pub mixed-exact :
    (s : StereoSample)
    → IsSample s.left
    → IsSample s.right
    → (center_of s ≡ shift_right (s.left +ℤ s.right))
      × IsSample (center_of s)
      × (side_of s ≡ shift_right (s.left -ℤ s.right))
      × IsSample (side_of s)
unfolding center_of side_of
mixed-exact s h k =
    let c = center-IsSample s.left s.right h k in
    let d = side-IsSample s.left s.right h k in
    (
      to_sample-IsSample _ c,
      subst IsSample (sym (to_sample-IsSample _ c)) c,
      to_sample-IsSample _ d,
      subst IsSample (sym (to_sample-IsSample _ d)) d,
    )
