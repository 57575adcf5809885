-- ===== src/LiveAudio/Session.antt =====
-- The PulseAudio callbacks that open the audio session: `context_notify_callback`,
-- `source_info_callback`, `OpenStream` and `stream_notify_callback`. What the server and the
-- library report comes as events. A callback is called for the context or the stream that it was
-- set for, so the asserts that compare those are left out.
pub mod Opening
use zamt.Prelude.{
  ℕ, zero, suc, ◌+◌, ◌*◌, ◌/◌, ◌^◌, Bool, true, false, not, List, [], ◌∷◌, ◌++◌, Option, none, some,
  ltb, ◌==◌, if◌then◌else◌, ◌>>=◌, ◌>>◌, assert,
}
use zamt.Prelude.Int.{ℤ, pos, negsuc}

abbrev pub k_exit_code_audio_problem : ℕ
k_exit_code_audio_problem = 200

-- `kDefaultDeviceSelected` is -1 and `kDeviceListSelected` is -2.
abbrev pub is_default : ℤ → Bool
is_default (pos n) = false
is_default (negsuc n) = n == 0

abbrev pub is_list : ℤ → Bool
is_list (pos n) = false
is_list (negsuc n) = n == 1

-- `stream` says whether `stream_` is set; `opened`, `asked_for_list`, `asked_by_index` and `quits`
-- record the calls of OpenStream (with the source's name or a null pointer), of the introspection
-- functions and of `Core::Quit`.
pub record Session : Type 0 where
  pub selected_device : ℤ
  pub sample_rate : ℕ
  pub usec_per_sample_shl : ℕ
  pub hw_fragment_size : ℕ
  pub hw_latency_in_us : ℕ
  pub audio_loop_should_run : Bool
  pub stream : Bool
  pub opened : List (Option ℕ)
  pub asked_for_list : ℕ
  pub asked_by_index : ℕ
  pub quits : List ℕ

-- What OpenStream is told, if it is called: whether the channel map is valid and a stream is made,
-- and the result of `pa_stream_connect_record`.
pub record OpenAnswers : Type 0 where
  pub is_map_valid : Bool
  pub has_stream : Bool
  pub connect_err : ℤ

-- `has_op`: whether the introspection function gives an operation, if it is called.
pub data ContextState : Type 0 where
  context_busy context_failed context_terminated : ContextState
  context_ready : (has_op : Bool) → OpenAnswers → ContextState

pub record SampleSpec : Type 0 where
  pub rate : ℕ
  pub channels : ℕ
  pub is_s16le : Bool

-- What `pa_stream_get_sample_spec` gives, and the `fragsize` of what `pa_stream_get_buffer_attr`
-- gives; either may be a null pointer.
pub data StreamState : Type 0 where
  stream_busy stream_failed stream_terminated : StreamState
  stream_ready : (sample_spec : Option SampleSpec) (fragsize : Option ℕ) → StreamState

-- `source_info`: a source by its name, or the end of the list.
pub data Event : Type 0 where
  context_notify : ContextState → Event
  source_info : (name : ℕ) (eol : Bool) → OpenAnswers → Event
  stream_notify : StreamState → Event

abbrev pub had_normal_open : Session → Bool
had_normal_open s = not (s.sample_rate == 0)

-- `audio_loop_should_run_.store(false)` and `Core::Quit`.
abbrev pub give_up : Session → Session
give_up s = record s { audio_loop_should_run = false; quits = k_exit_code_audio_problem ∷ s.quits }

abbrev pub is_zero : ℤ → Bool
is_zero (pos n) = n == 0
is_zero (negsuc n) = false

abbrev pub open_stream : OpenAnswers → Option ℕ → Session → Option Session
open_stream answers name s = do
  assert answers.is_map_valid
  assert answers.has_stream
  assert (is_zero answers.connect_err)
  some (record s { stream = true; opened = name ∷ s.opened })

-- `srci` is null in the call by `context_notify_callback`, where the default device is selected.
unfoldable pub on_source_info : Option ℕ → Bool → OpenAnswers → Session → Option Session
on_source_info srci eol answers s =
    let name =
      (if is_default s.selected_device
        then some none
        else if eol
        then some none
        else elim srci [ none ↦ none | some n ↦ some (some n) ]) in
    if is_list s.selected_device
    then if eol then some (give_up s) else elim srci [ none ↦ none | some n ↦ some s ]
    else if s.stream
    then some s
    else elim name [ none ↦ none | some n ↦ open_stream answers n s ]

unfoldable pub on_context_ready : Bool → OpenAnswers → Session → Option Session
unfolding on_source_info
on_context_ready has_op answers s =
    let listing = (do
      assert has_op
      some (record s { asked_for_list = suc s.asked_for_list; sample_rate = 1 })) in
    let asking = (do assert has_op; some (record s { asked_by_index = suc s.asked_by_index })) in
    if is_list s.selected_device
    then listing
    else if is_default s.selected_device
    then on_source_info none false answers s
    else asking

unfoldable pub on_context_notify : ContextState → Session → Option Session
unfolding on_context_ready
on_context_notify context_busy s = some s
on_context_notify (context_ready has_op answers) s =
    if had_normal_open s then some s else on_context_ready has_op answers s
on_context_notify context_failed s = if had_normal_open s then some s else some (give_up s)
on_context_notify context_terminated s = if had_normal_open s then some s else some (give_up s)

abbrev pub k_channels : ℕ
k_channels = 2

-- The numbers that a stream that is ready gives; `rate` and `fragsize` are below 2^31 here. `none`
-- is a failed assert, a division by zero or an overflow of `int` in `1000000 * hw_fragment_size_`.
unfoldable pub take_over : Option SampleSpec → Option ℕ → Session → Option Session
take_over sample_spec buffer_attr s = do
  spec ← sample_spec
  assert (spec.channels == k_channels)
  assert spec.is_s16le
  let rate = spec.rate
  assert (not (rate == 0))
  fragsize ← buffer_attr
  let fragment = fragsize / k_channels
  assert (ltb (1000000 * fragment) (2 ^ 31))
  some (record s {
    sample_rate = rate;
    usec_per_sample_shl = 1000000 * 2 ^ 8 / rate;
    hw_fragment_size = fragment;
    hw_latency_in_us = 1000000 * fragment / rate;
  })

unfoldable pub on_stream_notify : StreamState → Session → Option Session
unfolding take_over
on_stream_notify stream_busy s = some s
on_stream_notify (stream_ready sample_spec fragsize) s =
    if had_normal_open s then some s else take_over sample_spec fragsize s
on_stream_notify stream_failed s = if had_normal_open s then some s else some (give_up s)
on_stream_notify stream_terminated s = if had_normal_open s then some s else some (give_up s)

unfoldable pub handle : Event → Session → Option Session
unfolding on_context_notify on_source_info on_stream_notify
handle (context_notify c) s = on_context_notify c s
handle (source_info name eol answers) s = on_source_info (some name) eol answers s
handle (stream_notify t) s = on_stream_notify t s

unfoldable pub handle_all : List Event → Session → Option Session
handle_all [] s = some s
handle_all (e ∷ es) s = do s' ← handle e s; handle_all es s'

-- The members as the constructor and Initialize leave them.
abbrev pub initial : ℤ → ℕ → Session
initial device fragment = record {
  selected_device = device;
  sample_rate = 0;
  usec_per_sample_shl = 0;
  hw_fragment_size = fragment;
  hw_latency_in_us = 0;
  audio_loop_should_run = true;
  stream = false;
  opened = [];
  asked_for_list = 0;
  asked_by_index = 0;
  quits = [];
}
