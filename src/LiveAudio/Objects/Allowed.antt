-- ===== src/LiveAudio/Objects/Allowed.antt =====
-- In which order PulseAudio's objects may be used and released, and how the audio thread starts and
-- ends.
use zamt.Prelude.{
  ℕ, ◌≡◌, refl, Bool, true, false, not, ◌&&◌, List, [], ◌∷◌, ◌++◌, Option, none, some, inl, inr,
  arith, Bool-cases, Option-cases, ◌>>=◌, ◌>>◌, assert,
}
use zamt.LiveAudio.Session.{is_zero, Session}
use zamt.Windows.{Visualization, close_window}
use zamt.Visualizer.Life.{Shown, construct}
use zamt.LiveAudio.Objects.{
  proplist, mainloop, context, stream, visualizer, Call, sets, prepare, poll, dispatch, make,
  release, disconnect, connect, connect_record, Answers, is_fine, if_set, Objects, open_context,
  release_all, Display, is_shown, make_visualizer, delete_visualizer,
}

-- The objects that exist.
pub record Alive : Type 0 where
  pub has_proplist : Bool
  pub has_mainloop : Bool
  pub has_context : Bool
  pub has_stream : Bool
  pub has_visualizer : Bool

-- A call is allowed if the objects that it uses exist. An object is made where none of its kind is
-- there, and released when no object that was made from it is left.
abbrev pub allowed : Call → Alive → Option Alive
allowed sets a = assert a.has_proplist >> some a
allowed prepare a = assert a.has_mainloop >> some a
allowed poll a = assert a.has_mainloop >> some a
allowed dispatch a = assert a.has_mainloop >> some a
allowed (make proplist) a = assert (not a.has_proplist) >> some (record a { has_proplist = true })
allowed (make mainloop) a = assert (not a.has_mainloop) >> some (record a { has_mainloop = true })
allowed (make context) a =
    assert (a.has_proplist && (a.has_mainloop && not a.has_context))
    >> some (record a { has_context = true })
allowed (make stream) a =
    assert (a.has_proplist && (a.has_context && not a.has_stream))
    >> some (record a { has_stream = true })
allowed (make visualizer) a =
    assert (not a.has_visualizer) >> some (record a { has_visualizer = true })
allowed (release proplist) a = assert a.has_proplist >> some (record a { has_proplist = false })
allowed (release mainloop) a =
    assert (a.has_mainloop && not a.has_context) >> some (record a { has_mainloop = false })
allowed (release context) a =
    assert (a.has_context && not a.has_stream) >> some (record a { has_context = false })
allowed (release stream) a = assert a.has_stream >> some (record a { has_stream = false })
allowed (release visualizer) a =
    assert a.has_visualizer >> some (record a { has_visualizer = false })
allowed (disconnect proplist) a = none
allowed (disconnect mainloop) a = none
allowed (disconnect context) a = assert a.has_context >> some a
allowed (disconnect stream) a = assert (a.has_stream && a.has_context) >> some a
allowed (disconnect visualizer) a = none
allowed connect a = assert (a.has_context && a.has_mainloop) >> some a
allowed (connect_record attr) a = assert (a.has_stream && a.has_context) >> some a

abbrev pub all_allowed : List Call → Alive → Option Alive
all_allowed [] a = some a
all_allowed (c ∷ cs) a = allowed c a >>= λ b. all_allowed cs b

pub all_allowed-append :
    (cs ds : List Call) (a b : Alive)
    → all_allowed cs a ≡ some b
    → all_allowed (cs ++ ds) a ≡ all_allowed ds b
all_allowed-append [] ds a b h = ground arith
all_allowed-append (c ∷ cs) ds a b h = elim (Option-cases (allowed c a)) [
  | inl fails ↦ absurd (ground (arith, fails, h))
  | inr (m, first) ↦ rw first (all_allowed-append cs ds m b (ground (arith, first, h)))
]

pub nothing : Alive
nothing = record {
  has_proplist = false;
  has_mainloop = false;
  has_context = false;
  has_stream = false;
  has_visualizer = false;
}

-- What exists while the loop runs.
abbrev pub running : Bool → Bool → Alive
running visualize is_open = record {
  has_proplist = true;
  has_mainloop = true;
  has_context = true;
  has_stream = is_open;
  has_visualizer = visualize;
}

pub record IsFine (a : Answers) : Type 0 where
  pub sets_id : is_zero a.sets_id ≡ true
  pub sets_name : is_zero a.sets_name ≡ true
  pub sets_role : is_zero a.sets_role ≡ true
  pub has_mainloop : a.has_mainloop ≡ true
  pub has_context : a.has_context ≡ true
  pub connect_err : is_fine a.connect_err ≡ true

abbrev pub all_set : Option ℕ → Objects
all_set window = record {
  proplist_set = true;
  mainloop_set = true;
  context_set = true;
  visualizer_set = window;
}

-- A visualizer can open its window, and its window can be closed at the end.
abbrev pub CanShow : Option Display → Type 0
CanShow none = Unit {0}
CanShow (some display) =
    (shown : Shown) × (closed : Visualization) × (construct display.at_start ≡ some shown)
    × (close_window shown.visualizer.window_id display.at_end ≡ some closed)

visualizer-made :
    (display : Option Display)
    → CanShow display
    → (window : Option ℕ) × (make_visualizer display ≡ some window)
      × (delete_visualizer window display ≡ some tt)
unfolding make_visualizer delete_visualizer
visualizer-made none h = (none, refl, refl)
visualizer-made (some display) (shown, closed, opens, closes) =
    (some shown.visualizer.window_id, rw opens refl, rw closes refl)

begins : Option ℕ → List Call
begins window =
    make proplist
    ∷ sets
    ∷ sets
    ∷ sets
    ∷ make mainloop
    ∷ make context
    ∷ connect
    ∷ if_set (is_shown window) (make visualizer ∷ [])

begins-allowed :
    (window : Option ℕ)
    → all_allowed (begins window) nothing ≡ some (running (is_shown window) false)
unfolding begins nothing
begins-allowed none = refl
begins-allowed (some window_id) = refl

pub open_context-allowed :
    (display : Option Display) (a : Answers)
    → IsFine a
    → CanShow display
    → (window : Option ℕ) × (calls : List Call) × (open_context display a
        ≡ some (all_set window, calls))
      × (delete_visualizer window display ≡ some tt)
      × (all_allowed calls nothing ≡ some (running (is_shown window) false))
unfolding open_context begins
open_context-allowed display a h shows =
    let (window, makes, deletes) = visualizer-made display shows in
    (
      window,
      begins window,
      rw h.sets_id (
          rw h.sets_name (
            rw h.sets_role
              (rw h.has_mainloop (rw h.has_context (rw h.connect_err (rw makes refl)))))),
      deletes,
      begins-allowed window,
    )

pub release_all-allowed :
    (window : Option ℕ) (s : Session)
    → all_allowed (release_all (all_set window) s) (running (is_shown window) s.stream)
      ≡ some nothing
unfolding release_all nothing
release_all-allowed none s = elim (Bool-cases s.stream) [
  | inl on ↦ rw on refl
  | inr shut ↦ rw shut refl
]
release_all-allowed (some window_id) s = elim (Bool-cases s.stream) [
  | inl on ↦ rw on refl
  | inr shut ↦ rw shut refl
]
