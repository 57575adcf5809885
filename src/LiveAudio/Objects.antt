-- ===== src/LiveAudio/Objects.antt =====
-- RunMainLoop of liveaudio_pulse/src/LiveAudio.cpp with the objects of PulseAudio that the audio
-- thread makes and releases, as the calls that it makes. What PulseAudio returns is an argument. A
-- result `none` is a failed assert or an overflow of `int`.
pub mod Allowed
pub mod Discipline
mod Tests
use zamt.Prelude.{
  ℕ, ◌+◌, ◌*◌, ◌/◌, ◌%◌, ◌^◌, Bool, true, false, List, [], ◌∷◌, ◌++◌, Option, none, some, ltb, ◌==◌,
  if◌then◌else◌, ◌>>=◌, ◌>>◌, assert, length,
}
use zamt.Prelude.Int.{ℤ, pos, negsuc}
use zamt.Windows.{Visualization, close_window}
use zamt.Visualizer.Life.{construct}
use zamt.LiveAudio.Sizes.{max_latency_for_hardware_buffer_in_ms}
use zamt.LiveAudio.Session.{
  Session, Event, context_notify, context_terminated, handle, is_zero, k_channels,
}

-- The members of `pa_buffer_attr` that OpenStream computes; the others are -1.
pub record BufferAttr : Type 0 where
  pub maxlength : ℕ
  pub fragsize : ℕ

-- `uint32_t` products wrap around.
unfoldable pub buffer_attr : ℕ → ℕ → Option BufferAttr
buffer_attr requested_sample_rate hw_fragment_size = do
  assert (ltb (requested_sample_rate * max_latency_for_hardware_buffer_in_ms) (2 ^ 31))
  let hw_buffer_size = requested_sample_rate * max_latency_for_hardware_buffer_in_ms / 1000
  some (record {
    maxlength = hw_buffer_size * k_channels % 2 ^ 32;
    fragsize = hw_fragment_size * k_channels % 2 ^ 32;
  })

pub data Object : Type 0 where
  proplist mainloop context stream visualizer : Object

-- The calls of RunMainLoop and OpenStream: three of `pa_proplist_sets`; making and releasing an
-- object; connecting the context or a stream; and the three functions of each round.
pub data Call : Type 0 where
  sets prepare poll dispatch : Call
  make release disconnect : Object → Call
  connect : Call
  connect_record : BufferAttr → Call

-- What PulseAudio returns while the thread starts.
pub record Answers : Type 0 where
  pub sets_id : ℤ
  pub sets_name : ℤ
  pub sets_role : ℤ
  pub has_mainloop : Bool
  pub has_context : Bool
  pub connect_err : ℤ

-- `err >= 0`
abbrev pub is_fine : ℤ → Bool
is_fine (pos n) = true
is_fine (negsuc n) = false

abbrev pub if_set : Bool → List Call → List Call
if_set is_set calls = if is_set then calls else []

-- The members of LiveAudio that RunMainLoop sets.
pub record Objects : Type 0 where
  pub proplist_set : Bool
  pub mainloop_set : Bool
  pub context_set : Bool
  pub visualizer_set : Option ℕ

-- The windows where the visualizer is made and where it is deleted; other threads change them in
-- between.
pub record Display : Type 0 where
  pub at_start : Visualization
  pub at_end : Visualization

abbrev pub is_shown : Option ℕ → Bool
is_shown none = false
is_shown (some window_id) = true

-- `visualizer_.reset(new RawAudioVisualizer(mc_))`, with the parameter -sLiveAudio; the result is
-- the visualizer's window.
unfoldable pub make_visualizer : Option Display → Option (Option ℕ)
make_visualizer none = some none
make_visualizer (some display) = do
  shown ← construct display.at_start
  some (some shown.visualizer.window_id)

-- `visualizer_.reset(nullptr)`, which calls CloseWindow.
unfoldable pub delete_visualizer : Option ℕ → Option Display → Option (Unit {0})
delete_visualizer none display = some tt
delete_visualizer (some window_id) none = some tt
delete_visualizer (some window_id) (some display) = do
  _ ← close_window window_id display.at_end
  some tt

-- RunMainLoop before its loop.
unfoldable pub open_context : Option Display → Answers → Option (Objects × List Call)
unfolding make_visualizer
open_context display a = do
  assert (is_zero a.sets_id)
  assert (is_zero a.sets_name)
  assert (is_zero a.sets_role)
  assert a.has_mainloop
  assert a.has_context
  assert (is_fine a.connect_err)
  window ← make_visualizer display
  some (
    record {
      proplist_set = true;
      mainloop_set = a.has_mainloop;
      context_set = a.has_context;
      visualizer_set = window;
    },
    make proplist
        ∷ sets
        ∷ sets
        ∷ sets
        ∷ make mainloop
        ∷ make context
        ∷ connect
        ∷ if_set (is_shown window) (make visualizer ∷ []),
  )

-- The calls of OpenStream in a callback, which `opened` of the session records; a callback opens at
-- most one stream.
unfoldable pub stream_calls : ℕ → Session → Session → Option (List Call)
unfolding buffer_attr
stream_calls rate before after =
    let opening = (do
      attr ← buffer_attr rate before.hw_fragment_size
      some (make stream ∷ connect_record attr ∷ [])) in
    if length after.opened == length before.opened then some [] else opening

-- `pa_mainloop_dispatch` runs the callbacks of its events.
unfoldable pub dispatch_all : ℕ → List Event → Session → Option (Session × List Call)
dispatch_all rate [] s = some (s, [])
dispatch_all rate (e ∷ es) s = do
  t ← handle e s
  opening ← stream_calls rate s t
  (u, calls) ← dispatch_all rate es t
  some (u, opening ++ calls)

pub record Round : Type 0 where
  pub prepare_err : ℤ
  pub poll_err : ℤ
  pub events : List Event

-- The loop. Behind the rounds listed, another thread has called Shutdown.
unfoldable pub iterate : ℕ → List Round → Session → Option (Session × List Call)
iterate rate [] s = some (record s { audio_loop_should_run = false }, [])
iterate rate (r ∷ rs) s =
    let next = (do
      assert (is_fine r.prepare_err)
      assert (is_fine r.poll_err)
      (t, opening) ← dispatch_all rate r.events s
      (u, calls) ← iterate rate rs t
      some (u, prepare ∷ poll ∷ dispatch ∷ opening ++ calls)) in
    if s.audio_loop_should_run then next else some (s, [])

-- RunMainLoop behind its loop.
unfoldable pub release_all : Objects → Session → List Call
release_all o s =
    if_set (is_shown o.visualizer_set) (release visualizer ∷ [])
    ++ if_set s.stream (disconnect stream ∷ release stream ∷ [])
    ++ if_set o.context_set (disconnect context ∷ release context ∷ [])
    ++ if_set o.mainloop_set (release mainloop ∷ [])
    ++ if_set o.proplist_set (release proplist ∷ [])

-- Disconnecting a context may call its state callback once more.
unfoldable pub leave : Bool → Session → Option Session
leave is_told s = if is_told then handle (context_notify context_terminated) s else some s

-- The whole of RunMainLoop.
unfoldable pub run_main_loop :
    Option Display → ℕ → Answers → List Round → Bool → Session → Option (Session × List Call)
unfolding open_context iterate release_all leave delete_visualizer
run_main_loop display rate a rounds is_told s = do
  (objects, opening) ← open_context display a
  (t, calls) ← iterate rate rounds s
  _ ← delete_visualizer objects.visualizer_set display
  u ← leave is_told t
  some (u, opening ++ calls ++ release_all objects t)
