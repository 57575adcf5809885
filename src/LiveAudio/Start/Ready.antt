-- ===== src/LiveAudio/Start/Ready.antt =====
-- What the constructor and Initialize of LiveAudio leave behind.
use zamt.Prelude.{
  ℕ, zero, suc, ◌+◌, ◌*◌, ◌/◌, ◌^◌, ◌≤◌, ◌<◌, ◌≡◌, ◌≢◌, refl, true, false, List, none, some, arith,
  length, ◌>>=◌,
}
use zamt.Prelude.Int.{ℤ, pos}
use zamt.Params.{Cli, not_found, has_param, get_num_param}
use zamt.Core.Start.{help_param}
use zamt.Scheduler.Source.{fresh}
use zamt.Scheduler.Registry.{find_source}
use zamt.Scheduler.System.{System}
use zamt.Scheduler.System.Invariant.{Inv}
use zamt.Scheduler.System.Setup.{registers-Keeps}
use zamt.Scheduler.System.Joining.{registers-found}
use zamt.LiveAudio.Sizes.Choice.{choose_sizes_lem}
use zamt.LiveAudio.Fragment.{StereoSample}
use zamt.LiveAudio.Fragment.Samples.{IsReady}
use zamt.LiveAudio.Session.{initial}
use zamt.LiveAudio.Start.{
  Live, initialize, stereo_sample_bytes, construct, select_device, sample_rate_param, latency_param,
  if_found, k_default_sample_rate,
}

-- The module is ready to cut fragments into packets, and its source is there with packets of just
-- the size of its buffer, of which 200 ms of samples fit into the queue; the other
-- sources are the same as in `y`.
pub record IsLive (scheduler_id rate latency : ℕ) (y : System) (live : Live) (z : System)
    : Type 0 where
  pub inv : Inv z
  pub ready : IsReady live.audio
  pub runs : live.audio.audio_loop_should_run ≡ true
  pub capacity : ℕ
  pub found :
      find_source scheduler_id z.scheduler.sources
      ≡ some (fresh (live.audio.submit_buffer_size * stereo_sample_bytes) capacity)
  pub others :
      (id : ℕ)
      → id ≢ scheduler_id
      → find_source id z.scheduler.sources ≡ find_source id y.scheduler.sources
  pub enough : rate * 200 / 1000 < capacity * live.audio.submit_buffer_size
  pub in_time : live.audio.submit_buffer_size + live.session.hw_fragment_size ≡ latency

pos_of_mul : (a b : ℕ) → 0 < a * b → 0 < a
pos_of_mul zero b h = absurd (omega arith)
pos_of_mul (suc a) b h = omega arith

module _ (memory : ℕ → List StereoSample) (allocates : (n : ℕ) → length (memory n) ≡ n)
    (scheduler_id : ℕ) (y : System) (v : Inv y)
    (new : find_source scheduler_id y.scheduler.sources ≡ none) where
  -- For a latency of at least 2 samples and a sample rate that 200 ms of samples can be computed
  -- for, Initialize fails no assert.
  initialize_lem :
      (device : ℤ) (rate latency : ℕ)
      → 2 ≤ latency
      → rate * 200 < 2 ^ 31
      → (live : Live) × (z : System) × (initialize memory scheduler_id
            (some (record {
              selected_device = device;
              requested_sample_rate = pos rate;
              requested_overall_latency = pos latency;
            }))
            y
          ≡ some (some live, z))
        × IsLive scheduler_id rate latency y live z
  unfolding initialize
  initialize_lem device rate latency enough small =
      let (s, chooses, half, sum, _, holds, no_more) = choose_sizes_lem latency rate enough small in
      let size : ℕ = s.submit_buffer_size * stereo_sample_bytes in
      let some_packets : 0 < s.queue_capacity =
        pos_of_mul s.queue_capacity s.submit_buffer_size (omega (arith, holds)) in
      let fits : s.queue_capacity * size ≤ 2 ^ 31 = grind (arith, no_more, half.small) in
      let (z, performs, w) =
        registers-Keeps y scheduler_id size s.queue_capacity v new (omega (arith, half.positive))
          some_packets fits in
      let (_, at) =
        registers-found y z scheduler_id size s.queue_capacity v new some_packets performs in
      (
        record {
          scheduler_id = scheduler_id;
          requested_sample_rate = pos rate;
          audio = record {
            submit_buffer_size = s.submit_buffer_size;
            usec_per_sample_shl = 0;
            hw_latency_in_us = 0;
            audio_loop_should_run = true;
            sample_buffer = memory s.submit_buffer_size;
            sample_buffer_filled = 0;
            last_timestamp = 0;
          };
          session = initial device s.hw_fragment_size;
        },
        z,
        rw (chooses, performs) refl,
        record {
          inv = w;
          ready = record { room = half.positive; sized = allocates s.submit_buffer_size };
          runs = refl;
          capacity = s.queue_capacity;
          found = ground (arith, at scheduler_id);
          others = λ id apart. ground (arith, at id, apart);
          enough = holds;
          in_time = sum;
        },
      )

  -- From a command line without "-h" and "-at", with a sample rate that is given or the default
  -- one, of at least 200 Hz and low enough for 200 ms of samples to be computed in `int`, and
  -- with any device: the constructor and then Initialize run with no failed assert, the latency
  -- is 10 ms, and the source is registered with packets of the size that ProcessFragment submits.
  pub construct-initialize :
      (cli : Cli) (device given : ℤ) (rate : ℕ)
      → has_param help_param cli ≡ false
      → select_device cli ≡ some device
      → get_num_param sample_rate_param cli ≡ some given
      → if_found given k_default_sample_rate ≡ pos rate
      → get_num_param latency_param cli ≡ some not_found
      → 200 ≤ rate
      → rate * 200 < 2 ^ 31
      → (live : Live) × (z : System) × ((construct cli >>= λ c. initialize memory scheduler_id c y)
          ≡ some (some live, z))
        × IsLive scheduler_id rate (rate * 10 / 1000) y live z
  unfolding construct
  construct-initialize cli device given rate no_help selects gives means latency least most =
      let (live, z, starts, is_live) =
        initialize_lem device rate (rate * 10 / 1000) (omega arith) most in
      (live, z, ground (arith, starts, means), is_live)
