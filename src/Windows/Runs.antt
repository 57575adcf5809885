-- ===== src/Windows/Runs.antt =====
-- Runs of the operations on windows.
use zamt.Prelude.{
  if_cases, ℕ, ◌<◌, ◌≡◌, refl, true, false, not, ◌||◌, Option, none, some, ◌>>=◌, get_elem?, set,
  inl, inr, ◌⊎◌,
}
use zamt.Windows.{
  Window, is_some, is_empty, is_initialized, Visualization, shutdown, open_window, close_window,
  query_render, on_timeout, on_draw,
}
use zamt.Windows.States.{pending, opened, state_of, IsSound, by_state}
use zamt.Windows.Frames.{state-window, AllSound, states, on_timeout-states}
use zamt.Windows.Opening.{AllSound-set, AllSound-get, get_elem?-set, open_window-Takes}

close-IsSound :
    (w : Window) → IsSound w → is_initialized w ≡ true → IsSound (record w { window_title = none })
close-IsSound =
    by_state (λ w. is_initialized w ≡ true → IsSound (record w { window_title = none }))
      (λ x y s e. cc) (λ t x y cb s e. cc)
      (λ t x y cb s e. record { paired = refl; quiet = λ e. cc; sized = λ e. cc }) (λ x y cb s e. s)

query-IsSound :
    (cb : Option ℕ) (w : Window)
    → IsSound w
    → is_empty w ≡ false
    → IsSound (record w { queried_callback = cb })
query-IsSound cb =
    by_state (λ w. is_empty w ≡ false → IsSound (record w { queried_callback = cb }))
      (λ x y s e. cc) (λ t x y c s e. record { paired = refl; quiet = λ e. cc; sized = s.sized })
      (λ t x y c s e. record { paired = refl; quiet = λ e. cc; sized = s.sized }) (λ x y c s e. cc)

pub draw-IsSound : (w : Window) → IsSound w → IsSound (record w { queried_callback = none })
draw-IsSound w s = record { paired = s.paired; quiet = λ e. refl; sized = s.sized }

-- The operations, with what a client passes.
pub data Action : Type 0 where
  opening : (title width height : ℕ) → Action
  closing_of : ℕ → Action
  querying : (id render_callback : ℕ) → Action
  timeout : Action
  drawing : ℕ → Action
  quitting : Action

pub perform : Action → Visualization → Option Visualization
perform (opening title width height) v = do
  (id, v') ← open_window (some title) width height v
  some v'
perform (closing_of id) v = close_window id v
perform (querying id render_callback) v = query_render id (some render_callback) v
perform timeout v = do f ← on_timeout v; some f.visualization
perform (drawing id) v = do (called, v') ← on_draw id v; some v'
perform quitting v = some (shutdown v)

-- What the client must see to: a window has a size, it is closed when it is shown and not yet
-- closed, and callbacks are queried for windows that have been opened and not closed. A draw is for
-- a window that exists.
abbrev pub IsAllowed : Action → Visualization → Type 0
IsAllowed (opening title width height) v = (0 < width) × (0 < height)
IsAllowed (closing_of id) v = get_elem? (states v.windows) id ≡ some opened
IsAllowed (querying id render_callback) v =
    get_elem? (states v.windows) id ≡ some pending ⊎ get_elem? (states v.windows) id ≡ some opened
IsAllowed timeout v = Unit
IsAllowed (drawing id) v = (w : Window) × (get_elem? v.windows id ≡ some w)
IsAllowed quitting v = Unit

pub opened-parts :
    (w : Window)
    → IsSound w
    → state_of w ≡ opened
    → (is_empty w ≡ false) × (w.canvas ≡ true) × (w.window ≡ true)
opened-parts =
    by_state
      (λ w. state_of w ≡ opened → (is_empty w ≡ false) × (w.canvas ≡ true) × (w.window ≡ true))
      (λ x y s e. cc) (λ t x y cb s e. cc) (λ t x y cb s e. (refl, refl, refl)) (λ x y cb s e. cc)

pending-parts : (w : Window) → IsSound w → state_of w ≡ pending → is_empty w ≡ false
pending-parts =
    by_state (λ w. state_of w ≡ pending → is_empty w ≡ false) (λ x y s e. cc) (λ t x y cb s e. refl)
      (λ t x y cb s e. refl) (λ x y cb s e. cc)

close_window-runs :
    (id : ℕ) (v : Visualization)
    → AllSound v.windows
    → get_elem? (states v.windows) id ≡ some opened
    → (v' : Visualization) × (close_window id v ≡ some v') × AllSound v'.windows
unfolding close_window
close_window-runs id v h is_open =
    let (w, here, shown) = state-window v.windows id opened is_open in
    let sound = AllSound-get v.windows id w h here in
    let (titled, drawn, framed) = opened-parts w sound shown in
    (
      record v { windows = set v.windows id (record w { window_title = none }) },
      rw here (rw titled (rw drawn refl)),
      AllSound-set v.windows id _ h (close-IsSound w sound drawn),
    )

pub query_window-runs :
    (id cb : ℕ) (v : Visualization) (w : Window)
    → AllSound v.windows
    → get_elem? v.windows id ≡ some w
    → is_empty w ≡ false
    → (v' : Visualization) × (query_render id (some cb) v ≡ some v')
      × (v' ≡ record v { windows = set v.windows id (record w { queried_callback = some cb }) })
      × AllSound v'.windows
unfolding query_render
query_window-runs id cb v w h here titled = (
  record v { windows = set v.windows id (record w { queried_callback = some cb }) },
  rw here (rw titled refl),
  refl,
  AllSound-set v.windows id _ h
      (query-IsSound (some cb) w (AllSound-get v.windows id w h here) titled),
)

query_render-runs :
    (id cb : ℕ) (v : Visualization)
    → AllSound v.windows
    → IsAllowed (querying id cb) v
    → (v' : Visualization) × (query_render id (some cb) v ≡ some v') × AllSound v'.windows
query_render-runs id cb v h (inl waits) =
    let (w, here, state) = state-window v.windows id pending waits in
    let (v', runs, same, sound) =
      query_window-runs id cb v w h here
        (pending-parts w (AllSound-get v.windows id w h here) state) in
    (v', runs, sound)
query_render-runs id cb v h (inr shown) =
    let (w, here, state) = state-window v.windows id opened shown in
    let (v', runs, same, sound) =
      query_window-runs id cb v w h here
        (opened-parts w (AllSound-get v.windows id w h here) state).0 in
    (v', runs, sound)

on_draw-runs :
    (id : ℕ) (v : Visualization) (w : Window)
    → AllSound v.windows
    → get_elem? v.windows id ≡ some w
    → (r : Option ℕ × Visualization) × (on_draw id v ≡ some r) × AllSound r.1.windows
unfolding on_draw
on_draw-runs id v w h here = rw here (
  _,
  refl,
  if_cases (λ (r : Option ℕ × Visualization). AllSound r.1.windows)
      (v.shutdown_initiated || not w.window || not w.canvas || not (is_some w.queried_callback))
      (none, v)
      (
        w.queried_callback,
        record v { windows = set v.windows id (record w { queried_callback = none }) },
      )
      (λ skip. h)
      (λ draw. AllSound-set v.windows id _ h (draw-IsSound w (AllSound-get v.windows id w h here))),
)

-- Operations that the client may call fail no assert, and leave sound windows sound.
pub perform-AllSound :
    (a : Action) (v : Visualization)
    → AllSound v.windows
    → IsAllowed a v
    → (v' : Visualization) × (perform a v ≡ some v') × AllSound v'.windows
unfolding perform
perform-AllSound (opening title width height) v h ok =
    let (id, v', runs, takes, sound, waits, rest) =
      open_window-Takes title width height v h ok.0 ok.1 in
    (v', rw runs refl, sound)
perform-AllSound (closing_of id) v h ok = close_window-runs id v h ok
perform-AllSound (querying id cb) v h ok = query_render-runs id cb v h ok
perform-AllSound timeout v h ok =
    let (f, runs, sound, same, draws, on) = on_timeout-states v h in
    (f.visualization, rw runs refl, sound)
perform-AllSound (drawing id) v h ok =
    let (r, runs, sound) = on_draw-runs id v ok.0 h ok.1 in (r.1, rw runs refl, sound)
perform-AllSound quitting v h ok = (shutdown v, refl, h)

-- A callback queried for a window that is shown is the one that the next draw calls, whatever was
-- queried before, and only that draw calls it.
pub on_draw-once :
    (id cb : ℕ) (v : Visualization)
    → AllSound v.windows
    → v.shutdown_initiated ≡ false
    → get_elem? (states v.windows) id ≡ some opened
    → (v₁ : Visualization) × (v₂ : Visualization) × (query_render id (some cb) v ≡ some v₁)
      × (on_draw id v₁ ≡ some (some cb, v₂))
      × (on_draw id v₂ ≡ some (none, v₂))
unfolding query_render on_draw
on_draw-once id cb v h up is_open =
    let (w, here, shown) = state-window v.windows id opened is_open in
    let (titled, drawn, framed) = opened-parts w (AllSound-get v.windows id w h here) shown in
    let w₁ = record w { queried_callback = some cb } in
    let w₂ = record w { queried_callback = none } in
    let ws₁ = set v.windows id w₁ in
    let here₁ = get_elem?-set v.windows id w₁ w here in
    let here₂ = get_elem?-set ws₁ id w₂ w₁ here₁ in
    (
      record v { windows = ws₁ },
      record v { windows = set ws₁ id w₂ },
      rw here (rw titled refl),
      rw here₁ (rw up (rw framed (rw drawn refl))),
      rw here₂ (rw up (rw framed (rw drawn refl))),
    )
