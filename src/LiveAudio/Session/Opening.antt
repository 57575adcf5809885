-- ===== src/LiveAudio/Session/Opening.antt =====
-- How a session opens, gives up, or lists the devices, over any sequence of events.
use zamt.Prelude.{
  ℕ, ◌+◌, ◌*◌, ◌/◌, ◌≤◌, ◌<◌, ◌≡◌, ◌⊎◌, inl, refl, ◌≢◌, inr, Option-cases, true, false, List, [],
  ◌∷◌, none, some, arith, if◌then◌else◌, length,
}
use native.Mathlib.Nat.{div-mul-le_self, lt-div-mul-add}
use zamt.Prelude.Int.{ℤ}
use zamt.LiveAudio.Session.{
  Session, OpenAnswers, is_zero, StreamState, Event, context_notify, source_info, stream_notify,
  context_busy, context_ready, context_failed, context_terminated, stream_busy, stream_ready,
  stream_failed, stream_terminated, is_list, had_normal_open, handle, handle_all, initial,
  k_exit_code_audio_problem,
}

abbrev pub AllAudioProblems : List ℕ → Type 0
AllAudioProblems [] = Unit {0}
AllAudioProblems (q ∷ qs) = (q ≡ k_exit_code_audio_problem) × AllAudioProblems qs

-- At most one stream is opened, and none where the devices are listed; the list is asked for at
-- most once; who asks the core to quit has stopped the audio loop, and gives its own exit code.
pub record IsSound (s : Session) : Type 0 where
  pub opens : length s.opened ≡ (if s.stream then 1 else 0)
  pub lists : is_list s.selected_device ≡ true → s.stream ≡ false
  pub asks : s.asked_for_list ≤ (if had_normal_open s then 1 else 0)
  pub codes : AllAudioProblems s.quits
  pub stops : (s.quits ≡ []) ⊎ (s.audio_loop_should_run ≡ false)

-- Every event keeps that.
pub handle-IsSound : (e : Event) (s t : Session) → IsSound s → handle e s ≡ some t → IsSound t
unfolding handle
handle-IsSound (context_notify context_busy) s t v h = ground arith
handle-IsSound (context_notify (context_ready has_op answers)) s t v h = ground arith
handle-IsSound (context_notify context_failed) s t v h = ground arith
handle-IsSound (context_notify context_terminated) s t v h = ground arith
handle-IsSound (source_info name eol answers) s t v h = ground arith
handle-IsSound (stream_notify stream_busy) s t v h = ground arith
handle-IsSound (stream_notify (stream_ready sample_spec fragsize)) s t v h = ground arith
handle-IsSound (stream_notify stream_failed) s t v h = ground arith
handle-IsSound (stream_notify stream_terminated) s t v h = ground arith

-- OpenStream is told of no error.
pub record AreFine (answers : OpenAnswers) : Type 0 where
  pub map_valid : answers.is_map_valid ≡ true
  pub made : answers.has_stream ≡ true
  pub connects : is_zero answers.connect_err ≡ true

-- No function of PulseAudio gives an error or a null pointer, and a stream that is ready has two
-- channels of 16 bits, a sample rate, and a fragment whose latency can be computed.
abbrev pub IsPlausible : Event → Type 0
IsPlausible (context_notify context_busy) = Unit {0}
IsPlausible (context_notify (context_ready has_op answers)) = (has_op ≡ true) × AreFine answers
IsPlausible (context_notify context_failed) = Unit {0}
IsPlausible (context_notify context_terminated) = Unit {0}
IsPlausible (source_info name eol answers) = AreFine answers
IsPlausible (stream_notify stream_busy) = Unit {0}
IsPlausible (stream_notify (stream_ready none fragsize)) = ⊥
IsPlausible (stream_notify (stream_ready (some spec) none)) = ⊥
IsPlausible (stream_notify (stream_ready (some spec) (some fragsize))) =
    (spec.channels ≡ 2) × (spec.is_s16le ≡ true) × (0 < spec.rate) × (fragsize / 2 ≤ 2147)
IsPlausible (stream_notify stream_failed) = Unit {0}
IsPlausible (stream_notify stream_terminated) = Unit {0}

abbrev pub AllPlausible : List Event → Type 0
AllPlausible [] = Unit {0}
AllPlausible (e ∷ es) = IsPlausible e × AllPlausible es

pub handle-runs : (e : Event) (s : Session) → IsPlausible e → handle e s ≢ none
unfolding handle
handle-runs (context_notify context_busy) s h e = ground (arith, e)
handle-runs (context_notify (context_ready has_op answers)) s h e =
    ground (arith, h.0, h.1.map_valid, h.1.made, h.1.connects, e)
handle-runs (context_notify context_failed) s h e = ground (arith, e)
handle-runs (context_notify context_terminated) s h e = ground (arith, e)
handle-runs (source_info name eol answers) s h e =
    ground (arith, h.map_valid, h.made, h.connects, e)
handle-runs (stream_notify stream_busy) s h e = ground (arith, e)
handle-runs (stream_notify (stream_ready none fragsize)) s h e = absurd h
handle-runs (stream_notify (stream_ready (some spec) none)) s h e = absurd h
handle-runs (stream_notify (stream_ready (some spec) (some fragsize))) s h e = ground (arith, h, e)
handle-runs (stream_notify stream_failed) s h e = ground (arith, e)
handle-runs (stream_notify stream_terminated) s h e = ground (arith, e)

-- A run of plausible events fails nowhere, and keeps that.
pub run-IsSound :
    (es : List Event) (s : Session)
    → AllPlausible es
    → IsSound s
    → (t : Session) × (handle_all es s ≡ some t) × IsSound t
unfolding handle_all
run-IsSound [] s h v = (s, refl, v)
run-IsSound (e ∷ es) s h v = elim (Option-cases (handle e s)) [
  | inl fails ↦ absurd (handle-runs e s h.0 fails)
  | inr (u, first) ↦
      let (t, rest, sound) = run-IsSound es u h.1 (handle-IsSound e s u v first) in
      (t, rw first rest, sound)
]

pub initial-IsSound : (device : ℤ) (fragment : ℕ) → IsSound (initial device fragment)
initial-IsSound device fragment = record {
  opens = refl;
  lists = λ e. refl;
  asks = omega arith;
  codes = tt;
  stops = inl refl;
}

-- After any sequence of events from the start, as long as PulseAudio reports no error where the
-- code asserts that there is none, and a stream that is ready has two channels of 16 bits, a rate
-- and a fragment of up to 2147 samples: no callback has failed an assert; at most one stream is
-- open, and none where devices are listed; the list is asked for at most once; and whoever asked
-- the core to quit did so with the exit code of an audio problem and stopped the audio loop.
pub handle_all-IsSound :
    (device : ℤ) (fragment : ℕ) (es : List Event)
    → AllPlausible es
    → (t : Session) × (handle_all es (initial device fragment) ≡ some t) × IsSound t
handle_all-IsSound device fragment es h =
    run-IsSound es (initial device fragment) h (initial-IsSound device fragment)

-- A stream that is ready, as the code expects it.
abbrev pub ready_at : ℕ → ℕ → StreamState
ready_at rate fragsize =
    stream_ready (some (record { rate = rate; channels = 2; is_s16le = true })) (some fragsize)

-- A stream that is ready opens the session, if no stream or list did before: the rate is taken
-- over, the duration of a sample in 1/256 microseconds is rounded down, and so is the latency of
-- the hardware, for a fragment of up to 2147 samples.
pub stream_notify-ready :
    (rate fragsize : ℕ) (s : Session)
    → had_normal_open s ≡ false
    → 0 < rate
    → fragsize / 2 ≤ 2147
    → (t : Session) × (handle (stream_notify (ready_at rate fragsize)) s ≡ some t)
      × (had_normal_open t ≡ true)
      × (t.sample_rate ≡ rate)
      × (t.usec_per_sample_shl * rate ≤ 256000000)
      × (256000000 < t.usec_per_sample_shl * rate + rate)
      × (t.hw_latency_in_us * rate ≤ 1000000 * t.hw_fragment_size)
      × (1000000 * t.hw_fragment_size < t.hw_latency_in_us * rate + rate)
unfolding handle
stream_notify-ready rate fragsize s closed positive small = (
  record s {
    sample_rate = rate;
    usec_per_sample_shl = 256000000 / rate;
    hw_fragment_size = fragsize / 2;
    hw_latency_in_us = 1000000 * (fragsize / 2) / rate;
  },
  ground arith,
  ground arith,
  refl,
  div-mul-le_self 256000000 rate,
  lt-div-mul-add positive,
  div-mul-le_self (1000000 * (fragsize / 2)) rate,
  lt-div-mul-add positive,
)

-- A longer hardware fragment overflows the `int` in which its latency is computed.
pub stream_notify-overflow :
    (rate fragsize : ℕ) (s : Session)
    → had_normal_open s ≡ false
    → 2147 < fragsize / 2
    → handle (stream_notify (ready_at rate fragsize)) s ≡ none
unfolding handle
stream_notify-overflow rate fragsize s closed long = ground arith
