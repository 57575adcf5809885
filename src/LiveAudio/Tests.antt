-- ===== src/LiveAudio/Tests.antt =====
-- The theorems on the live audio module, at small inputs.
use zamt.Prelude.{
  ℕ, ◌+◌, ◌*◌, ◌/◌, ◌≤◌, ◌<◌, ◌≡◌, refl, true, none, List, [], ◌∷◌, ◌++◌, none, some, arith,
  replicate,
}
use zamt.Prelude.Int.{pos, negsuc, shift_right}
use zamt.LiveAudio.Sizes.{Sizes, choose_sizes, halve, rounds, max_submit_buffer_size}
use zamt.LiveAudio.Sizes.Choice.{IsHalved, choose_sizes_lem, halve-negative, choose_sizes-small}
use zamt.LiveAudio.Fragment.{
  StereoSample, silence, null, at, Audio, Processed, process_fragment, fragment_loop, failed,
  measured,
}
use zamt.LiveAudio.Fragment.Samples.{buffered}
use zamt.LiveAudio.Fragment.Chunks.{packet_samples, process_fragment-append}
use zamt.LiveAudio.Fragment.Times.{InOrder, process_fragment-InOrder}
use zamt.LiveAudio.Fragment.Holes.{hole-faults}
use zamt.LiveAudio.Reading.{Peek, read_callback}
use zamt.LiveAudio.Reading.Order.{read_callback-InOrder}
use zamt.LiveAudio.Session.{
  Session, OpenAnswers, context_notify, context_ready, stream_notify, handle, handle_all, initial,
  had_normal_open,
}
use zamt.LiveAudio.Session.Opening.{
  IsSound, handle_all-IsSound, ready_at, stream_notify-ready, stream_notify-overflow,
}

choose_sizes_lem_example :
    (s : Sizes) × (choose_sizes (pos 441) (pos 44100) ≡ some s)
    × IsHalved s.submit_buffer_size 220
    × (s.submit_buffer_size + s.hw_fragment_size ≡ 441)
    × (s.submit_buffer_size ≤ s.hw_fragment_size)
    × (44100 * 200 / 1000 < s.queue_capacity * s.submit_buffer_size)
    × (s.queue_capacity * s.submit_buffer_size ≤ 44100 * 200 / 1000 + s.submit_buffer_size)
choose_sizes_lem_example = choose_sizes_lem 441 44100 (omega arith) (omega arith)

default_sizes :
    choose_sizes (pos 441) (pos 44100)
    ≡ some (record { submit_buffer_size = 128; hw_fragment_size = 313; queue_capacity = 69 })
unfolding choose_sizes halve
default_sizes = refl

halve-negative_example : halve 1000 65536 (shift_right (negsuc 4)) ≡ none
halve-negative_example = halve-negative 1000 65536 4

too_small :
    (halve rounds max_submit_buffer_size (shift_right (pos 1)) ≡ some 0)
    × (choose_sizes (pos 1) (pos 44100) ≡ none)
too_small = choose_sizes-small 1 (pos 44100) (omega arith)

abbrev tone : ℕ → StereoSample
tone n = record { left = pos n; right = negsuc n }

-- Packets of two samples, with one sample buffered.
abbrev recording : Audio
recording = record {
  submit_buffer_size = 2;
  usec_per_sample_shl = 5804;
  hw_latency_in_us = 7000;
  audio_loop_should_run = true;
  sample_buffer = tone 9 ∷ silence ∷ [];
  sample_buffer_filled = 1;
  last_timestamp = 500;
}

abbrev free_packets : List (List StereoSample)
free_packets = replicate 2 (replicate 2 silence)

abbrev heard : List StereoSample
heard = tone 1 ∷ tone 2 ∷ tone 3 ∷ tone 4 ∷ []

process_fragment-InOrder_example :
    InOrder 500
      (process_fragment true recording (at heard) 4 90000 (measured 100 true) free_packets)
process_fragment-InOrder_example =
    process_fragment-InOrder true recording (at heard) 4 90000 (measured 100 true) free_packets
      (omega arith)

process_fragment-append_example :
    (r r1 r2 : Processed) × (process_fragment true recording (at heard) 4 90000 failed free_packets
      ≡ some r)
    × (process_fragment true recording (at (tone 1 ∷ [])) 1 90000 failed free_packets ≡ some r1)
    × (process_fragment true r1.audio
          (at (tone 2 ∷ tone 3 ∷ tone 4 ∷ []))
          3
          90100
          (measured 100 true)
          free_packets
        ≡ some r2)
    × (packet_samples r.submitted ≡ packet_samples (r1.submitted ++ r2.submitted))
    × (buffered r.audio ≡ buffered r2.audio)
process_fragment-append_example =
    process_fragment-append true recording (tone 1 ∷ []) (tone 2 ∷ tone 3 ∷ tone 4 ∷ [])
      free_packets 90000 90000 90100 failed failed (measured 100 true)
      (record { room = omega arith; sized = refl }) refl (omega arith) (omega arith) (omega arith)
      (omega arith) (refl, (refl, tt)) (omega arith)

hole-faults_example : fragment_loop true 2 recording null 3 90000 free_packets ≡ none
hole-faults_example =
    hole-faults true 1 recording 3 90000 (replicate 2 silence) (replicate 2 silence) []
      (record { room = omega arith; sized = refl }) (omega arith)

abbrev peeks : List Peek
peeks =
    record {
      bytes_in_buf = 8;
      buffer = at (tone 1 ∷ tone 2 ∷ []);
      current_time = 90000;
      latency = failed;
    }
    ∷ record { bytes_in_buf = 4; buffer = at (tone 3 ∷ []); current_time = 90050; latency = failed }
    ∷ []

two_peeks_rise : InOrder 500 (read_callback true 12 recording peeks free_packets)
two_peeks_rise = read_callback-InOrder true 12 recording peeks free_packets (omega arith)

abbrev opens : OpenAnswers
opens = record { is_map_valid = true; has_stream = true; connect_err = pos 0 }

abbrev opened_default : Session
opened_default = record (initial (negsuc 0) 313) { stream = true; opened = none ∷ [] }

handle_all-IsSound_example :
    (t : Session) × (handle_all
        (context_notify (context_ready true opens) ∷ stream_notify (ready_at 44100 626) ∷ [])
        (initial (negsuc 0) 313)
      ≡ some t)
    × IsSound t
handle_all-IsSound_example =
    handle_all-IsSound (negsuc 0) 313
      (context_notify (context_ready true opens) ∷ stream_notify (ready_at 44100 626) ∷ [])
      (
        (refl, record { map_valid = refl; made = refl; connects = refl }),
        ((refl, refl, omega arith, omega arith), tt),
      )

stream_opens :
    (t : Session) × (handle (stream_notify (ready_at 44100 626)) opened_default ≡ some t)
    × (had_normal_open t ≡ true)
    × (t.sample_rate ≡ 44100)
    × (t.usec_per_sample_shl * 44100 ≤ 256000000)
    × (256000000 < t.usec_per_sample_shl * 44100 + 44100)
    × (t.hw_latency_in_us * 44100 ≤ 1000000 * t.hw_fragment_size)
    × (1000000 * t.hw_fragment_size < t.hw_latency_in_us * 44100 + 44100)
stream_opens = stream_notify-ready 44100 626 opened_default refl (omega arith) (omega arith)

long_fragment : handle (stream_notify (ready_at 44100 8192)) opened_default ≡ none
long_fragment = stream_notify-overflow 44100 8192 opened_default refl (omega arith)
