-- ===== src/LiveAudio/Start.antt =====
-- The life of the module LiveAudio: its constructor, Initialize and Shutdown. A result `none` is
-- a failed assert, a loop that does not end, or an overflow of `int`.

pub mod Ready
mod Tests
use zamt.Prelude.{
  ℕ, suc, ◌*◌, ◌/◌, ◌^◌, true, false, List, [], ◌∷◌, Option, none, some, ltb, leb, if◌then◌else◌,
  ◌>>=◌, ◌>>◌, assert,
}
use zamt.Prelude.Int.{ℤ, pos, negsuc, sub_ℕ}
use zamt.Params.{CString, Cli, has_param, get_num_param}
use zamt.Core.Start.{is_not_found, help_param}
use zamt.Scheduler.System.{System, perform, registers}
use zamt.LiveAudio.Sizes.{choose_sizes}
use zamt.LiveAudio.Fragment.{StereoSample, Audio}
use zamt.LiveAudio.Session.{Session, initial}

-- "-al", "-ad", "-at" and "-ar"
abbrev pub device_list_param : CString
device_list_param = 45 ∷ 97 ∷ 108 ∷ []

abbrev pub device_select_param : CString
device_select_param = 45 ∷ 97 ∷ 100 ∷ []

abbrev pub latency_param : CString
latency_param = 45 ∷ 97 ∷ 116 ∷ []

abbrev pub sample_rate_param : CString
sample_rate_param = 45 ∷ 97 ∷ 114 ∷ []

abbrev pub k_overall_latency_in_ms : ℕ
k_overall_latency_in_ms = 10

abbrev pub k_default_sample_rate : ℤ
k_default_sample_rate = pos 44100

abbrev pub k_default_device_selected : ℤ
k_default_device_selected = negsuc 0

abbrev pub k_device_list_selected : ℤ
k_device_list_selected = negsuc 1

-- The members that the constructor sets when it does not print the help.
pub record Config : Type 0 where
  pub selected_device : ℤ
  pub requested_sample_rate : ℤ
  pub requested_overall_latency : ℤ

-- `if (value != kNotFound) member = value;`
abbrev pub if_found : ℤ → ℤ → ℤ
if_found value member = if is_not_found value then member else value

-- `rate * kOverallLatencyInMs / 1000`
unfoldable pub exact_latency : ℤ → Option ℤ
exact_latency (pos rate) = do
  assert (ltb (rate * k_overall_latency_in_ms) (2 ^ 31))
  some (pos (rate * k_overall_latency_in_ms / 1000))
exact_latency (negsuc n) = do
  assert (leb (suc n * k_overall_latency_in_ms) (2 ^ 31))
  some (sub_ℕ 0 (suc n * k_overall_latency_in_ms / 1000))

unfoldable pub select_device : Cli → Option ℤ
select_device cli =
    let given = (do
      device ← get_num_param device_select_param cli
      some (if_found device k_default_device_selected)) in
    if has_param device_list_param cli then some k_device_list_selected else given

-- The constructor; the inner `none` is a module that has printed its help and is not to run.
unfoldable pub construct : Cli → Option (Option Config)
unfolding exact_latency select_device
construct cli =
    let configured = (do
      device ← select_device cli
      rate ← get_num_param sample_rate_param cli
      let requested_sample_rate = if_found rate k_default_sample_rate
      latency ← get_num_param latency_param cli
      requested ←
          (if is_not_found latency then exact_latency requested_sample_rate else some latency)
      some (
          some (record {
            selected_device = device;
            requested_sample_rate = requested_sample_rate;
            requested_overall_latency = requested;
          }))) in
    if has_param help_param cli then some none else configured

abbrev pub stereo_sample_bytes : ℕ
stereo_sample_bytes = 4

-- The module with its thread launched: `audio_loop_` is set, and Shutdown is one of the callbacks
-- of Core.
pub record Live : Type 0 where
  pub scheduler_id : ℕ
  pub requested_sample_rate : ℤ
  pub audio : Audio
  pub session : Session

-- `memory n` is what `new StereoSample[n]` gives. The inner `none` is a module that is not to run.
unfoldable pub initialize :
    (ℕ → List StereoSample) → ℕ → Option Config → System → Option (Option Live × System)
initialize memory scheduler_id none y = some (none, y)
initialize memory scheduler_id (some config) y = do
  sizes ← choose_sizes config.requested_overall_latency config.requested_sample_rate
  registered ←
      perform
        (registers scheduler_id (sizes.submit_buffer_size * stereo_sample_bytes)
          sizes.queue_capacity)
        y
  some (
    some (record {
      scheduler_id = scheduler_id;
      requested_sample_rate = config.requested_sample_rate;
      audio = record {
        submit_buffer_size = sizes.submit_buffer_size;
        usec_per_sample_shl = 0;
        hw_latency_in_us = 0;
        audio_loop_should_run = true;
        sample_buffer = memory sizes.submit_buffer_size;
        sample_buffer_filled = 0;
        last_timestamp = 0;
      };
      session = initial config.selected_device sizes.hw_fragment_size;
    }),
    registered,
  )

-- Shutdown does nothing to a module without a thread.
unfoldable pub shutdown : Option Live → Option Live
shutdown none = none
shutdown (some live) = some (record live {
  audio = record live.audio { audio_loop_should_run = false };
  session = record live.session { audio_loop_should_run = false };
})
