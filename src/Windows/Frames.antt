-- ===== src/Windows/Frames.antt =====
-- OnTimeout on all windows.
use zamt.Prelude.{
  Bool-cases, ℕ, zero, suc, ◌≡◌, refl, ap, ◌∙◌, Bool, true, false, not, ◌&&◌, List, [], ◌∷◌, none,
  some, arith, if◌then◌else◌, get_elem?, inl, inr,
}
use zamt.Windows.{
  Window, is_some, is_empty, is_initialized, Visualization, refresh_all, close_open, close_all,
  Frame, on_timeout, close_window,
}
use zamt.Windows.States.{
  State, free, pending, opened, closing, state_of, IsSound, next_state, Refreshed,
  refresh-Refreshed, by_state,
}

abbrev pub AllSound : List Window → Type 0
AllSound [] = Unit
AllSound (w ∷ ws) = IsSound w × AllSound ws

-- Every window is refreshed, and a draw is asked for exactly for those that want it, in order.
pub AllRefreshed : ℕ → List Window → List Window × List ℕ → Type 0
AllRefreshed id [] r = r ≡ ([], [])
AllRefreshed id (w ∷ ws) r =
    (one : Window × Bool) × (rest : List Window × List ℕ) × Refreshed w one
    × AllRefreshed (suc id) ws rest
    × (r ≡ (one.0 ∷ rest.0, if one.1 then id ∷ rest.1 else rest.1))

refresh_all-AllRefreshed :
    (id : ℕ) (ws : List Window)
    → AllSound ws
    → (r : List Window × List ℕ) × (refresh_all id ws ≡ some r) × AllRefreshed id ws r
unfolding refresh_all AllRefreshed
refresh_all-AllRefreshed id [] h = (([], []), refl, refl)
refresh_all-AllRefreshed id (w ∷ ws) h =
    let (one, runs, step) = refresh-Refreshed w h.0 in
    let (rest, runs', steps) = refresh_all-AllRefreshed (suc id) ws h.1 in
    (_, rw runs (rw runs' refl), (one, rest, step, steps, refl))

abbrev pub closed_state : State → State
closed_state free = free
closed_state pending = pending
closed_state opened = closing
closed_state closing = closing

close_open-IsSound :
    (w : Window)
    → IsSound w
    → IsSound (close_open w) × (state_of (close_open w) ≡ closed_state (state_of w))
close_open-IsSound =
    by_state (λ w. IsSound (close_open w) × (state_of (close_open w) ≡ closed_state (state_of w)))
      (λ x y s. (s, refl)) (λ t x y cb s. (s, refl))
      (λ t x y cb s. (record { paired = refl; quiet = λ e. cc; sized = λ e. cc }, refl))
      (λ x y cb s. (s, refl))

abbrev pub states : List Window → List State
states [] = []
states (w ∷ ws) = state_of w ∷ states ws

-- The state after a frame, with or without a shutdown.
abbrev pub frame_state : Bool → State → State
frame_state true s = next_state (closed_state s)
frame_state false s = next_state s

abbrev pub frame_states : Bool → List State → List State
frame_states down [] = []
frame_states down (s ∷ ss) = frame_state down s ∷ frame_states down ss

close_all-AllSound : (ws : List Window) → AllSound ws → AllSound (close_all ws)
close_all-AllSound [] h = tt
close_all-AllSound (w ∷ ws) h = ((close_open-IsSound w h.0).0, close_all-AllSound ws h.1)

close_all-states :
    (ws : List Window)
    → AllSound ws
    → frame_states false (states (close_all ws)) ≡ frame_states true (states ws)
close_all-states [] h = refl
close_all-states (w ∷ ws) h = rw (close_open-IsSound w h.0).1 (rw (close_all-states ws h.1) refl)

-- The windows that are shown and have a callback.
abbrev pub wanting : ℕ → List Window → List ℕ
wanting id [] = []
wanting id (w ∷ ws) =
    if is_initialized w && is_some w.queried_callback
    then id ∷ wanting (suc id) ws
    else wanting (suc id) ws

AllRefreshed-states :
    (id : ℕ) (ws : List Window) (r : List Window × List ℕ)
    → AllRefreshed id ws r
    → AllSound r.0 × (states r.0 ≡ frame_states false (states ws)) × (r.1 ≡ wanting id r.0)
unfolding AllRefreshed
AllRefreshed-states id [] r e = rw e (tt, refl, refl)
AllRefreshed-states id (w ∷ ws) r (one, rest, step, steps, e) =
    let (sound, same, draws) = AllRefreshed-states (suc id) ws rest steps in
    rw e ((step.0, sound), cc, rw step.3 (rw draws refl))

timeout-runs :
    (down : Bool) (quits : ℕ) (ws : List Window)
    → AllSound ws
    → (r : List Window × List ℕ) × (refresh_all 0 (if down then close_all ws else ws) ≡ some r)
      × AllSound r.0
      × (states r.0 ≡ frame_states down (states ws))
      × (r.1 ≡ wanting 0 r.0)
timeout-runs true quits ws h =
    let (r, runs, all) = refresh_all-AllRefreshed 0 (close_all ws) (close_all-AllSound ws h) in
    let (sound, same, draws) = AllRefreshed-states 0 (close_all ws) r all in
    (r, runs, sound, same ∙ close_all-states ws h, draws)
timeout-runs false quits ws h =
    let (r, runs, all) = refresh_all-AllRefreshed 0 ws h in
    let (sound, same, draws) = AllRefreshed-states 0 ws r all in (r, runs, sound, same, draws)

-- OnTimeout with sound windows fails no assert. It shows the pending windows and hides the closing
-- ones; after a shutdown it closes the open windows first, so those are hidden too, but pending
-- windows are still shown. It asks for a draw of exactly those windows that are shown and have a
-- callback, and it asks for another timeout as long as there was no shutdown.
pub on_timeout-states :
    (v : Visualization)
    → AllSound v.windows
    → (f : Frame) × (on_timeout v ≡ some f)
      × AllSound f.visualization.windows
      × (states f.visualization.windows ≡ frame_states v.shutdown_initiated (states v.windows))
      × (f.draws ≡ wanting 0 f.visualization.windows)
      × (f.goes_on ≡ not v.shutdown_initiated)
unfolding on_timeout
on_timeout-states v h =
    let (r, runs, sound, same, draws) = timeout-runs v.shutdown_initiated v.quits v.windows h in
    (
      record {
        visualization = record v {
          windows = r.0;
          quits = if v.shutdown_initiated then suc v.quits else v.quits;
        };
        draws = r.1;
        goes_on = not v.shutdown_initiated;
      },
      rw runs refl,
      sound,
      same,
      draws,
      refl,
    )

-- A window in a list of windows, by its state.
pub state-window :
    (ws : List Window) (id : ℕ) (s : State)
    → get_elem? (states ws) id ≡ some s
    → (w : Window) × (get_elem? ws id ≡ some w) × (state_of w ≡ s)
state-window [] id s h = cc
state-window (w ∷ ws) zero s h = (w, refl, cc)
state-window (w ∷ ws) (suc id) s h = state-window ws id s h

get_elem?-frame_states :
    (down : Bool) (ss : List State) (id : ℕ) (s : State)
    → get_elem? ss id ≡ some s
    → get_elem? (frame_states down ss) id ≡ some (frame_state down s)
get_elem?-frame_states down [] id s h = cc
get_elem?-frame_states down (x ∷ ss) zero s h = cc
get_elem?-frame_states down (x ∷ ss) (suc id) s h = get_elem?-frame_states down ss id s h

free-is_empty : (w : Window) → state_of w ≡ free → is_empty w ≡ true
free-is_empty w h = elim (Bool-cases (is_empty w)) [ inl e ↦ e | inr n ↦ ground (arith, h, n) ]

-- Once OnTimeout has seen the shutdown, the assert in CloseWindow fails for every window that was
-- open, so an owner that closes its window after the shutdown is too late.
pub close_window-too_late :
    (v : Visualization) (id : ℕ)
    → AllSound v.windows
    → v.shutdown_initiated ≡ true
    → get_elem? (states v.windows) id ≡ some opened
    → (f : Frame) × (on_timeout v ≡ some f) × (close_window id f.visualization ≡ none)
unfolding close_window
close_window-too_late v id h down is_open =
    let (f, runs, sound, same, draws, on) = on_timeout-states v h in
    let (w, here, gone) = state-window f.visualization.windows id free (
      ap (λ ss. get_elem? ss id) same
      ∙ (ap (λ d. get_elem? (frame_states d (states v.windows)) id) down
          ∙ get_elem?-frame_states true (states v.windows) id opened is_open)) in
    (f, runs, rw here (rw (free-is_empty w gone) refl))
