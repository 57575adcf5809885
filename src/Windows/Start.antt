-- ===== src/Windows/Start.antt =====
-- The constructor of Visualization, the timer of RunMainLoop, and the loop of frames that it runs.
-- A result `none` is a division by zero or a failed assert.
use zamt.Prelude.{
  ℕ, zero, suc, ◌+◌, ◌-◌, ◌*◌, ◌/◌, ◌^◌, ◌≤◌, ◌<◌, ◌≡◌, refl, ap, ◌∙◌, true, false, not, [], ◌∷◌,
  Option, none, some, arith, ◌==◌, if◌then◌else◌, ◌>>=◌, ◌>>◌, assert,
}
use native.Mathlib.Nat.{div-mul-le_self, lt-div-mul-add}
use zamt.Prelude.Int.{ℤ, pos, negsuc}
use zamt.Params.{CString, Cli, has_param, get_num_param}
use zamt.Core.Start.{is_not_found, help_param}
use zamt.Windows.{Visualization, on_timeout}
use zamt.Windows.Frames.{AllSound, states, frame_states, on_timeout-states}

-- "-fps"
abbrev pub activations_per_second_param : CString
activations_per_second_param = 45 ∷ 102 ∷ 112 ∷ 115 ∷ []

abbrev pub k_activations_per_second : ℤ
k_activations_per_second = pos 25

-- The constructor, with the number of frames per second; the inner `none` is a module that has
-- printed its help and runs no thread.
unfoldable pub construct : Cli → Option (Option ℤ)
construct cli =
    let configured = (do
      fps ← get_num_param activations_per_second_param cli
      some (some (if is_not_found fps then k_activations_per_second else fps))) in
    if has_param help_param cli then some none else configured

-- The cast of an `int` to `unsigned`.
abbrev pub to_unsigned : ℤ → ℕ
to_unsigned (pos n) = n
to_unsigned (negsuc n) = 2 ^ 32 - suc n

-- `1000 / (unsigned)activations_per_second_`, in milliseconds.
unfoldable pub timer_interval : ℤ → Option ℕ
timer_interval activations_per_second = do
  assert (not (to_unsigned activations_per_second == 0))
  some (1000 / to_unsigned activations_per_second)

-- The timer calls OnTimeout until it returns false, at most `fuel` times.
unfoldable pub frames : ℕ → Visualization → Option Visualization
frames zero v = some v
frames (suc fuel) v = do
  f ← on_timeout v
  let rest = frames fuel f.visualization
  (if f.goes_on then rest else some f.visualization)

-- For 1 to 1000 frames per second the interval is the largest number of milliseconds in which that
-- many frames fit into a second.
pub timer_interval-fits :
    (fps : ℕ)
    → 0 < fps
    → fps ≤ 1000
    → (ms : ℕ) × (timer_interval (pos fps) ≡ some ms)
      × (0 < ms)
      × (ms * fps ≤ 1000)
      × (1000 < ms * fps + fps)
unfolding timer_interval
timer_interval-fits fps positive most = (
  1000 / fps,
  ground arith,
  some_time (1000 / fps) (lt-div-mul-add positive),
  div-mul-le_self 1000 fps,
  lt-div-mul-add positive,
)
  where
    some_time : (q : ℕ) → 1000 < q * fps + fps → 0 < q
    some_time zero h = absurd (omega (arith, h))
    some_time (suc q) h = omega arith

-- Once the shutdown is there, the timer runs one more frame and no other: it fails no assert, and
-- every window that was on the screen is hidden.
pub frames-shutdown :
    (fuel : ℕ) (v : Visualization)
    → AllSound v.windows
    → v.shutdown_initiated ≡ true
    → (w : Visualization) × (frames (suc fuel) v ≡ some w)
      × AllSound w.windows
      × (states w.windows ≡ frame_states true (states v.windows))
unfolding frames
frames-shutdown fuel v h down =
    let (f, runs, sound, same, draws, on) = on_timeout-states v h in
    let stops : f.goes_on ≡ false = on ∙ ap not down in
    (
      f.visualization,
      rw runs (rw stops refl),
      sound,
      same ∙ ap (λ d. frame_states d (states v.windows)) down,
    )

-- With "-fps0" the timer divides by zero.
pub timer_interval-zero : timer_interval (pos 0) ≡ none
unfolding timer_interval
timer_interval-zero = refl
