-- ===== src/Windows.antt =====
-- vis_gtk/src/Visualization.cpp: the windows, and the callbacks that draw them. Each function is
-- one operation under `windows_mutex_` or under a window's `callback_mutex_`. A result `none` is a
-- failed assert or an index out of range.
pub mod States
pub mod Opening
pub mod Frames
pub mod Runs
pub mod Start
pub mod Tests
use zamt.Prelude.{
  ℕ, zero, suc, ◌+◌, Bool, true, false, not, ◌&&◌, ◌||◌, List, [], ◌∷◌, ◌++◌, Option, none, some,
  ltb, ◌==◌, if◌then◌else◌, ◌>>=◌, ◌>>◌, assert, length, get_elem?, set,
}

-- A title and a callback are known by a number; `window` and `canvas` say which pointers are set.
pub record Window : Type 0 where
  pub window_title : Option ℕ
  pub width : ℕ
  pub height : ℕ
  pub window : Bool
  pub canvas : Bool
  pub queried_callback : Option ℕ

abbrev pub is_some : Option ℕ → Bool
is_some none = false
is_some (some a) = true

abbrev pub is_empty : Window → Bool
is_empty w = not (is_some w.window_title)

abbrev pub is_initialized : Window → Bool
is_initialized w = w.canvas

-- `windows_.emplace_back()`; the width and the height are left undefined there.
abbrev pub no_window : Window
no_window = record {
  window_title = none;
  width = 0;
  height = 0;
  window = false;
  canvas = false;
  queried_callback = none;
}

-- `quits` counts the calls of `application_->quit`.
pub record Visualization : Type 0 where
  pub windows : List Window
  pub shutdown_initiated : Bool
  pub quits : ℕ

abbrev pub shutdown : Visualization → Visualization
shutdown v = record v { shutdown_initiated = true }

-- The index of the first window that is free, or the number of windows.
unfoldable pub find_free : List Window → ℕ
find_free [] = 0
find_free (w ∷ ws) =
    let later = suc (find_free ws) in if is_empty w && not (is_initialized w) then 0 else later

abbrev pub titled : Option ℕ → ℕ → ℕ → Window → Window
titled title width height w = record w { window_title = title; width = width; height = height }

unfoldable pub open_window : Option ℕ → ℕ → ℕ → Visualization → Option (ℕ × Visualization)
unfolding find_free
open_window title width height v = do
  let id = find_free v.windows
  let windows = if ltb id (length v.windows) then v.windows else v.windows ++ (no_window ∷ [])
  w ← get_elem? windows id
  let w' = titled title width height w
  assert (not (is_empty w') && not (is_initialized w'))
  some (id, record v { windows = set windows id w' })

unfoldable pub close_window : ℕ → Visualization → Option Visualization
close_window id v = do
  w ← get_elem? v.windows id
  assert (not (is_empty w) && is_initialized w)
  some (record v { windows = set v.windows id (record w { window_title = none }) })

unfoldable pub query_render : ℕ → Option ℕ → Visualization → Option Visualization
query_render id render_callback v = do
  assert (is_some render_callback)
  w ← get_elem? v.windows id
  assert (not (is_empty w))
  some (record v { windows = set v.windows id (record w { queried_callback = render_callback }) })

-- `Window::OpenWindow`
unfoldable pub show : Window → Option Window
show w = do
  assert (is_some w.window_title && not (w.width == 0) && not (w.height == 0))
  assert (not w.window && not w.canvas)
  some (record w { window = true; canvas = true })

-- `Window::CloseWindow`
unfoldable pub hide : Window → Option Window
hide w = do
  assert (w.window && w.canvas)
  some (record w { window = false; canvas = false; queried_callback = none })

unfoldable pub hide_closed : Window → Option Window
unfolding hide
hide_closed w = if is_empty w && is_initialized w then hide w else some w

unfoldable pub show_opened : Window → Option Window
unfolding show
show_opened w = if not (is_empty w) && not (is_initialized w) then show w else some w

-- The body of the second loop of OnTimeout, and whether it asks for a draw.
unfoldable pub refresh : Window → Option (Window × Bool)
unfolding hide_closed show_opened
refresh w = do
  w₁ ← hide_closed w
  w₂ ← show_opened w₁
  some (w₂, is_initialized w₂ && is_some w₂.queried_callback)

-- The second loop; `draws` are the windows that `queue_draw` was called for.
unfoldable pub refresh_all : ℕ → List Window → Option (List Window × List ℕ)
unfolding refresh
refresh_all id [] = some ([], [])
refresh_all id (w ∷ ws) = do
  (w', draw) ← refresh w
  (ws', draws) ← refresh_all (suc id) ws
  some (w' ∷ ws', if draw then id ∷ draws else draws)

-- The first loop, with `CloseWindow` of every window that is open.
abbrev pub close_open : Window → Window
close_open w = if not (is_empty w) && is_initialized w then record w { window_title = none } else w

abbrev pub close_all : List Window → List Window
close_all [] = []
close_all (w ∷ ws) = close_open w ∷ close_all ws

pub record Frame : Type 0 where
  pub visualization : Visualization
  pub draws : List ℕ
  pub goes_on : Bool

unfoldable pub on_timeout : Visualization → Option Frame
unfolding refresh_all
on_timeout v = do
  let windows = if v.shutdown_initiated then close_all v.windows else v.windows
  let quits = if v.shutdown_initiated then suc v.quits else v.quits
  (windows', draws) ← refresh_all 0 windows
  some (record {
    visualization = record v { windows = windows'; quits = quits };
    draws = draws;
    goes_on = not v.shutdown_initiated;
  })

-- The callback that `OnDraw` of a window calls, if it calls one.
unfoldable pub on_draw : ℕ → Visualization → Option (Option ℕ × Visualization)
on_draw id v = do
  w ← get_elem? v.windows id
  let drawn : Option ℕ × Visualization = (
    w.queried_callback,
    record v { windows = set v.windows id (record w { queried_callback = none }) },
  )
  some (
      if v.shutdown_initiated || not w.window || not w.canvas || not (is_some w.queried_callback)
      then (none, v)
      else drawn)
