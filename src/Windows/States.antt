-- ===== src/Windows/States.antt =====
-- The states of a window, and its changes on a frame.
use zamt.Prelude.{
  ℕ, ◌<◌, ◌≡◌, refl, Bool, true, false, ◌&&◌, Option, none, some, arith, if◌then◌else◌, inl, inr,
  ◌⊎◌,
}
use zamt.Windows.{Window, is_some, is_empty, is_initialized, refresh}

-- `free` windows can be used again, `pending` ones are shown and `closing` ones are hidden on the
-- next frame.
pub data State : Type 0 where
  free pending opened closing : State

abbrev pub state_of : Window → State
state_of w =
    if is_empty w
    then (if is_initialized w then closing else free)
    else (if is_initialized w then opened else pending)

-- The two pointers are set together, a free window has no callback, and the size of a window that
-- has a title is not 0.
pub record IsSound (w : Window) : Type 0 where
  pub paired : w.window ≡ w.canvas
  pub quiet : state_of w ≡ free → w.queried_callback ≡ none
  pub sized : is_empty w ≡ false → (0 < w.width) × (0 < w.height)

-- The state after a frame.
abbrev pub next_state : State → State
next_state free = free
next_state pending = opened
next_state opened = opened
next_state closing = free

-- A frame settles a window, and asks for a draw if the window is open and has a callback.
abbrev pub Refreshed : Window → Window × Bool → Type 0
Refreshed w (w', draw) =
    IsSound w'
    × (state_of w' ≡ next_state (state_of w))
    × (w'.window_title ≡ w.window_title)
    × (draw ≡ (is_initialized w' && is_some w'.queried_callback))
    × (state_of w ≡ closing ⊎ (w'.queried_callback ≡ w.queried_callback))

abbrev pub window_of : Option ℕ → ℕ → ℕ → Bool → Bool → Option ℕ → Window
window_of title x y shown drawn cb = record {
  window_title = title;
  width = x;
  height = y;
  window = shown;
  canvas = drawn;
  queried_callback = cb;
}

-- To prove a property of a sound window, prove it in its four states.
pub by_state {ℓ} :
    (P : Window → Type ℓ)
    → ((x y : ℕ)
        → IsSound (window_of none x y false false none)
        → P (window_of none x y false false none))
    → ((t x y : ℕ) (cb : Option ℕ)
        → IsSound (window_of (some t) x y false false cb)
        → P (window_of (some t) x y false false cb))
    → ((t x y : ℕ) (cb : Option ℕ)
        → IsSound (window_of (some t) x y true true cb)
        → P (window_of (some t) x y true true cb))
    → ((x y : ℕ) (cb : Option ℕ)
        → IsSound (window_of none x y true true cb)
        → P (window_of none x y true true cb))
    → (w : Window) → IsSound w
    → P w
by_state P f p o c w sound = split w.window_title w.window w.canvas w.queried_callback sound
  where
    split :
        (title : Option ℕ) (shown drawn : Bool) (cb : Option ℕ)
        → IsSound (window_of title w.width w.height shown drawn cb)
        → P (window_of title w.width w.height shown drawn cb)
    split none true true cb s = c w.width w.height cb s
    split none false false none s = f w.width w.height s
    split none false false (some a) s = absurd (cc (s.quiet refl))
    split (some t) true true cb s = o t w.width w.height cb s
    split (some t) false false cb s = p t w.width w.height cb s
    split title true false cb s = absurd (cc s.paired)
    split title false true cb s = absurd (cc s.paired)

pub refresh-Refreshed :
    (w : Window) → IsSound w → (r : Window × Bool) × (refresh w ≡ some r) × Refreshed w r
unfolding refresh
refresh-Refreshed =
    by_state (λ w. (r : Window × Bool) × (refresh w ≡ some r) × Refreshed w r)
      (λ x y s. ((_, false), refl, (s, refl, refl, refl, inr refl)))
      (λ t x y cb s. (
        (window_of (some t) x y true true cb, is_some cb),
        ground (arith, s.sized refl),
        (
          record { paired = refl; quiet = λ e. cc; sized = λ e. s.sized refl },
          refl,
          refl,
          refl,
          inr refl,
        ),
      ))
      (λ t x y cb s. ((_, is_some cb), refl, (s, refl, refl, refl, inr refl)))
      (λ x y cb s. (
        (window_of none x y false false none, false),
        refl,
        (record { paired = refl; quiet = λ e. refl; sized = λ e. cc }, refl, refl, refl, inl refl),
      ))
