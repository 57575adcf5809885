-- ===== src/Windows/Opening.antt =====
-- Visualization::OpenWindow: which window it takes.
use zamt.Prelude.{
  if_cases, ℕ, zero, suc, ◌<◌, ◌≡◌, ◌≢◌, refl, sym, ap, ◌∙◌, true, false, not, ◌&&◌, List, [], ◌∷◌,
  ◌++◌, some, arith, ltb, if◌then◌else◌, length, get_elem?, set, inl, inr, Bool-cases, subst,
}
use zamt.Windows.{
  Window, is_empty, is_initialized, no_window, Visualization, titled, find_free, open_window,
}
use zamt.Windows.States.{free, pending, state_of, IsSound, by_state}
use zamt.Windows.Frames.{AllSound}

pub AllSound-set :
    (ws : List Window) (id : ℕ) (w : Window) → AllSound ws → IsSound w → AllSound (set ws id w)
AllSound-set [] id w h s = tt
AllSound-set (x ∷ ws) zero w h s = (s, h.1)
AllSound-set (x ∷ ws) (suc id) w h s = (h.0, AllSound-set ws id w h.1 s)

pub AllSound-get :
    (ws : List Window) (id : ℕ) (w : Window) → AllSound ws → get_elem? ws id ≡ some w → IsSound w
AllSound-get [] id w h e = cc
AllSound-get (x ∷ ws) zero w h e = subst IsSound (cc e) h.0
AllSound-get (x ∷ ws) (suc id) w h e = AllSound-get ws id w h.1 e

-- The first free window of a list, or a new one behind the list.
abbrev pub Takes : List Window → ℕ → Type 0
Takes [] id = id ≡ 0
Takes (w ∷ ws) zero = state_of w ≡ free
Takes (w ∷ ws) (suc id) = (state_of w ≢ free) × Takes ws id

is_free : (w : Window) → (is_empty w && not (is_initialized w)) ≡ true → state_of w ≡ free
is_free w h = elim (Bool-cases (is_empty w)) [
  | inl e ↦ elim (Bool-cases (is_initialized w)) [
    | inl i ↦ ground (arith, h, e, i)
    | inr n ↦ ground (arith, e, n)
  ]
  | inr n ↦ ground (arith, h, n)
]

not_free : (w : Window) → (is_empty w && not (is_initialized w)) ≡ false → state_of w ≢ free
not_free w h f = elim (Bool-cases (is_empty w)) [
  | inl e ↦ elim (Bool-cases (is_initialized w)) [
    | inl i ↦ ground (arith, f, e, i)
    | inr n ↦ ground (arith, h, e, n)
  ]
  | inr n ↦ elim (Bool-cases (is_initialized w)) [
    | inl i ↦ ground (arith, f, n, i)
    | inr m ↦ ground (arith, f, n, m)
  ]
]

find_free-Takes : (ws : List Window) → Takes ws (find_free ws)
unfolding find_free
find_free-Takes [] = refl
find_free-Takes (w ∷ ws) =
    if_cases (Takes (w ∷ ws)) (is_empty w && not (is_initialized w)) 0 (suc (find_free ws))
      (is_free w) (λ n. (not_free w n, find_free-Takes ws))

-- The list with one window more, if there is no free one.
abbrev extended : ℕ → List Window → List Window
extended id ws = if ltb id (length ws) then ws else ws ++ (no_window ∷ [])

extended-∷ :
    (id : ℕ) (w : Window) (ws : List Window) → extended (suc id) (w ∷ ws) ≡ w ∷ extended id ws
extended-∷ id w ws = ground arith

extended-zero : (w : Window) (ws : List Window) → extended 0 (w ∷ ws) ≡ w ∷ ws
extended-zero w ws = ground arith

free_canvas : (w : Window) → state_of w ≡ free → w.canvas ≡ false
free_canvas w h = elim (Bool-cases w.canvas) [
  | inr n ↦ n
  | inl i ↦ elim (Bool-cases (is_empty w)) [
    | inl e ↦ ground (arith, h, e, i)
    | inr n ↦ ground (arith, h, n, i)
  ]
]

no_window-IsSound : IsSound no_window
no_window-IsSound = record { paired = refl; quiet = λ e. refl; sized = λ e. cc }

-- Windows outside `id` are the same.
abbrev pub Same : ℕ → List Window → List Window → Type 0
Same id ws es = (j : ℕ) → j ≢ id → get_elem? es j ≡ get_elem? ws j

-- What the window to take and the list are like.
Room : ℕ → List Window → List Window → Type 0
Room id ws es =
    (w : Window) × (get_elem? es id ≡ some w) × (state_of w ≡ free) × AllSound es × Same id ws es

only : Same 0 [] (no_window ∷ [])
only zero n = absurd (n refl)
only (suc j) n = refl

others-∷ :
    (w : Window) (id : ℕ) (es ws : List Window) → Same id ws es → Same (suc id) (w ∷ ws) (w ∷ es)
others-∷ w id es ws same zero n = refl
others-∷ w id es ws same (suc j) n = same j (λ e. n (ap suc e))

extended-Room :
    (id : ℕ) (ws : List Window) → AllSound ws → Takes ws id → Room id ws (extended id ws)
unfolding Room
extended-Room id [] h takes =
    subst (λ i. Room i [] (extended i [])) (sym takes)
      (no_window, refl, refl, (no_window-IsSound, tt), only)
extended-Room zero (w ∷ ws) h takes =
    subst (Room zero (w ∷ ws)) (sym (extended-zero w ws)) (w, refl, takes, h, λ j n. refl)
extended-Room (suc id) (w ∷ ws) h takes =
    let (x, here, is_free, sound, same) = extended-Room id ws h.1 takes.1 in
    subst (Room (suc id) (w ∷ ws)) (sym (extended-∷ id w ws))
      (x, here, is_free, (h.0, sound), others-∷ w id (extended id ws) ws same)

pub get_elem?-set :
    (ws : List Window) (id : ℕ) (w x : Window)
    → get_elem? ws id ≡ some x
    → get_elem? (set ws id w) id ≡ some w
get_elem?-set [] id w x h = cc
get_elem?-set (y ∷ ws) zero w x h = refl
get_elem?-set (y ∷ ws) (suc id) w x h = get_elem?-set ws id w x h

set-Same : (ws : List Window) (id : ℕ) (w : Window) → Same id ws (set ws id w)
set-Same [] id w j n = refl
set-Same (y ∷ ws) zero w zero n = absurd (n refl)
set-Same (y ∷ ws) zero w (suc j) n = refl
set-Same (y ∷ ws) (suc id) w zero n = refl
set-Same (y ∷ ws) (suc id) w (suc j) n = set-Same ws id w j (λ e. n (ap suc e))

titled-pending :
    (t x y : ℕ) (w : Window)
    → 0 < x
    → 0 < y
    → IsSound w
    → state_of w ≡ free
    → IsSound (titled (some t) x y w) × (state_of (titled (some t) x y w) ≡ pending)
titled-pending t x y w wide high =
    by_state
      (λ w.
        state_of w ≡ free
        → IsSound (titled (some t) x y w) × (state_of (titled (some t) x y w) ≡ pending))
      (λ a b s e. (record { paired = refl; quiet = λ e. cc; sized = λ e. (wide, high) }, refl))
      (λ t a b cb s e. cc) (λ t a b cb s e. cc) (λ a b cb s e. cc) w

-- OpenWindow with a title and a size fails no assert. It takes the first free window, or a new one
-- behind the others if none is free, which then waits to be shown, and changes no other window.
pub open_window-Takes :
    (title width height : ℕ) (v : Visualization)
    → AllSound v.windows
    → 0 < width
    → 0 < height
    → (id : ℕ) × (v' : Visualization) × (open_window (some title) width height v ≡ some (id, v'))
      × Takes v.windows id
      × AllSound v'.windows
      × ((w : Window) × (get_elem? v'.windows id ≡ some w)
          × (state_of w ≡ pending)
          × (w.window_title ≡ some title))
      × Same id v.windows v'.windows
unfolding open_window Room
open_window-Takes title width height v h wide high =
    let id = find_free v.windows in
    let takes = find_free-Takes v.windows in
    let (w, here, is_free, sound, same) = extended-Room id v.windows h takes in
    let w' = titled (some title) width height w in
    let (good, waits) =
      titled-pending title width height w wide high (AllSound-get _ id w sound here) is_free in
    (
      id,
      record v { windows = set (extended id v.windows) id w' },
      rw here (rw (free_canvas w is_free) refl),
      takes,
      AllSound-set _ id w' sound good,
      (w', get_elem?-set _ id w' w here, waits, refl),
      λ j n. set-Same _ id w' j n ∙ same j n,
    )
