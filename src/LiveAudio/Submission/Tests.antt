-- ===== src/LiveAudio/Submission/Tests.antt =====
-- A fragment of four samples on a scheduler, with packets of two samples.
use zamt.Prelude.{ℕ, true, List, [], ◌∷◌, replicate}
use zamt.Prelude.Int.{pos, negsuc}
use zamt.Scheduler.Source.{fresh, new_source, push_packets}
use zamt.Scheduler.Registry.{find_source, register}
use zamt.Scheduler.Api.{create, register_source}
use zamt.Scheduler.System.{System, registers, perform, perform_all}
use zamt.Scheduler.System.Safety.{started}
use zamt.Scheduler.System.Reached.{or_started}
use zamt.LiveAudio.Fragment.{StereoSample, silence, Audio}
use zamt.LiveAudio.Submission.{Submission}

abbrev tone : ℕ → StereoSample
tone n = record { left = pos n; right = negsuc n }

abbrev recording : Audio
recording = record {
  submit_buffer_size = 2;
  usec_per_sample_shl = 5804;
  hw_latency_in_us = 7000;
  audio_loop_should_run = true;
  sample_buffer = tone 9 ∷ silence ∷ [];
  sample_buffer_filled = 1;
  last_timestamp = 500;
}

abbrev heard : List StereoSample
heard = tone 1 ∷ tone 2 ∷ tone 3 ∷ tone 4 ∷ []

abbrev zeros : ℕ → List StereoSample
zeros p = replicate 2 silence

registered : System
unfolding or_started perform_all perform create register_source register new_source fresh
    find_source push_packets
registered = or_started (perform_all (registers 5 8 2 ∷ []) (started 2 4))
