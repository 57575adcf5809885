-- ===== src/FourierTransform.antt =====
-- dft_fftw/src/FourierTransform.cpp: a module that turns each packet of audio into a packet of its
-- spectrum, which it offers as a source of its own. A result `none` is a failed assert.

pub mod Calls
pub mod Runs
pub mod Setup
mod Tests
use zamt.Prelude.{
  ℕ, ◌+◌, ◌*◌, ◌/◌, ◌%◌, ◌^◌, ◌≡◌, Bool, true, false, not, List, [], ◌∷◌, Option, none, some, ◌==◌,
  if◌then◌else◌, leb, length, take, map, replicate, ◌>>=◌, ◌>>◌, assert,
}
use zamt.Prelude.Int.{ℤ, pos, ◌+ℤ◌}
use zamt.Params.{CString, Cli, has_param}
use zamt.Scheduler.Source.{Source}
use zamt.Scheduler.Api.{get_packet_size, get_packet_for_submission}
use zamt.Scheduler.System.{System, lend, perform, subscribes, registers, submits, releases}
use zamt.LiveAudio.Fragment.{StereoSample}

-- FFTW and the arithmetic on `float`. `half` divides by 2.0f; `execute` is `fftwf_execute` of a
-- plan that `fftwf_plan_dft_r2c_1d` made: of n real inputs it writes n/2 + 1 complex outputs,
-- each a pair of floats.
pub record Fftw : Type 1 where
  pub Float : Type 0
  pub zero_float : Float
  pub of_int : ℤ → Float
  pub half : Float → Float
  pub execute : List Float → List (Float × Float)
  pub length-execute : (xs : List Float) → length (execute xs) ≡ length xs / 2 + 1

-- `sizeof(LiveAudio::StereoSample)` and `sizeof(std::complex<float>)`.
abbrev pub sample_bytes : ℕ
sample_bytes = 4

abbrev pub complex_bytes : ℕ
complex_bytes = 8

abbrev pub packets_in_queue : ℕ
packets_in_queue = 42

-- "-h"
abbrev pub help_param : CString
help_param = 45 ∷ 104 ∷ []

-- `should_run_dft` as the constructor leaves it.
unfoldable pub should_run_dft : Cli → Bool
should_run_dft cli = not (has_param help_param cli)

module _ (l : Fftw) where
  open l use {Float, zero_float, of_int, half, execute}

  -- `FFTW_Wrapper`: `input = data` keeps the vector's storage, since the sizes are equal, so the
  -- plan stays one for these two vectors.
  pub record Worker : Type 0 where
    pub size : ℕ
    pub input : List Float
    pub output : List (Float × Float)

  unfoldable pub new_worker : ℕ → Worker
  new_worker size = record {
    size = size;
    input = replicate size zero_float;
    output = replicate (size / 2 + 1) (zero_float, zero_float);
  }

  unfoldable pub add_data : List Float → Worker → Option Worker
  add_data input w = do assert (length input == w.size); some (record w { input = input })

  -- The plan is executed and its outputs are copied.
  unfoldable pub transform : Worker → List (Float × Float) × Worker
  transform w =
      let output = execute w.input in
      (map (λ item. (item.0, item.1)) output, record w { output = output })

  -- The mean of the two channels.
  abbrev pub mono : StereoSample → Float
  mono sample = half (of_int (sample.left +ℤ sample.right))

  -- `source_id` and `subscription_id` are those of `subscription`; `timestamp` is the sink's static
  -- variable, and `sample_count`, `result_count` and `self_id` are what the sink captures.
  pub record Transformer : Type 0 where
    pub source_id : ℕ
    pub subscription_id : ℕ
    pub self_id : ℕ
    pub sample_count : ℕ
    pub result_count : ℕ
    pub worker : Worker
    pub timestamp : ℕ

  pub record Initialized : Type 0 where
    pub system : System
    pub transformer : Transformer

  -- `Initialize` with the modules' ids and the name of the sink.
  unfoldable pub initialize : ℕ → ℕ → ℕ → System → Option Initialized
  unfolding new_worker add_data transform
  initialize audio self_id sink_name y = do
    packet_size ← get_packet_size audio y.scheduler
    let sample_count = packet_size / sample_bytes
    worker ← add_data (replicate sample_count zero_float) (new_worker sample_count)
    let test = transform worker
    let result_count = length test.0
    subscribed ← perform (subscribes audio (some sink_name) false) y
    registered ←
        perform (registers self_id (complex_bytes * result_count) packets_in_queue) subscribed
    some (record {
      system = registered;
      transformer = record {
        source_id = audio;
        subscription_id = 0;
        self_id = self_id;
        sample_count = sample_count;
        result_count = result_count;
        worker = test.1;
        timestamp = 0;
      };
    })

  -- `start` is `Initialize` of the module that the constructor made from this command line.
  unfoldable pub start : Cli → ℕ → ℕ → ℕ → System → Option (Option Transformer × System)
  unfolding should_run_dft initialize
  start cli audio self_id sink_name y =
      if should_run_dft cli
      then (do i ← initialize audio self_id sink_name y; some (some i.transformer, i.system))
      else some (none, y)

  -- `written` is what is copied to the start of the packet `result_packet`.
  pub record Call : Type 0 where
    pub system : System
    pub transformer : Transformer
    pub result_packet : ℕ
    pub written : List (Float × Float)

  -- The sink, for a packet of the source `id` whose memory holds these samples; it reads no more
  -- than there are.
  unfoldable pub sink : ℕ → ℕ → List StereoSample → System → Transformer → Option Call
  unfolding add_data transform
  sink id packet samples y f = do
    assert (leb f.sample_count (length samples))
    released ← perform (releases id packet) y
    worker ← add_data (map mono (take f.sample_count samples)) f.worker
    let result = transform worker
    assert (length result.0 == f.result_count)
    got ← get_packet_for_submission f.self_id released.scheduler
    result_packet ← got.0
    submitted ←
        perform (submits f.self_id result_packet f.timestamp)
          (record released { scheduler = got.1; loading = lend f.self_id got.0 released.loading })
    some (record {
      system = submitted;
      transformer = record f { worker = result.1; timestamp = (f.timestamp + 1) % 2 ^ 64 };
      result_packet = result_packet;
      written = result.0;
    })
