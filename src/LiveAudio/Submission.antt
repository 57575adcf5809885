-- ===== src/LiveAudio/Submission.antt =====
-- `LiveAudio::ProcessFragment` with the scheduler that it calls: each packet comes from
-- GetPacketForSubmission and goes to SubmitPacket. A result `none` is a failed assert or a read
-- through a bad pointer, in the scheduler too.
pub mod Refine
pub mod Builds
pub mod Whole
mod Tests
use zamt.Prelude.{
  ℕ, zero, suc, ◌-◌, Bool, true, false, List, [], Option, none, some, ltb, leb, ◌==◌, if◌then◌else◌,
  ◌>>=◌, ◌>>◌, assert,
}
use zamt.Scheduler.Api.{get_packet_for_submission}
use zamt.Scheduler.System.{System, lend, perform, submits}
use zamt.LiveAudio.Fragment.{
  StereoSample, Audio, Buffer, Processed, Latency, piece, advance, next_timestamp, fill_packet,
  keep_rest, submitting, duration, add_time, buffer_time,
}

pub record Submission : Type 0 where
  pub processed : Processed
  pub system : System

-- The loop, in at most `fuel` rounds. `memory` gives what is in the memory of a packet when it is
-- handed out. As in `fragment_loop`, a null pointer fails the assert on the packet, or with
-- `ndebug` drops the rest.
unfoldable pub submission_loop :
    Bool → ℕ → ℕ → (ℕ → List StereoSample) → Audio → Buffer → ℕ → ℕ → System → Option Submission
unfolding piece advance next_timestamp fill_packet keep_rest
submission_loop ndebug zero id memory a buffer samples time y =
    if samples == 0
    then some
        (record { processed = record { audio = a; submitted = []; overrun = false }; system = y })
    else none
submission_loop ndebug (suc fuel) id memory a buffer samples time y =
    let free_left = a.submit_buffer_size - a.sample_buffer_filled in
    let stamp = next_timestamp a time in
    let next = (do
      got ← get_packet_for_submission id y.scheduler
      let given = record y { scheduler = got.1; loading = lend id got.0 y.loading }
      elim got.0 [
        | none ↦
            if ndebug
            then some (record {
              processed = record { audio = a; submitted = []; overrun = true };
              system = given;
            })
            else none
        | some packet ↦ (do
          part ← piece buffer free_left
          submitted ← perform (submits id packet stamp) given
          rest ←
              submission_loop ndebug fuel id memory
                (record a { last_timestamp = stamp; sample_buffer_filled = 0 })
                (advance buffer free_left) (samples - free_left)
                (add_time time (duration a free_left)) submitted
          some (record rest {
            processed =
                submitting
                  (record { samples = fill_packet a (memory packet) part; timestamp = stamp })
                  rest.processed;
          }))
      ]) in
    let kept = (do
      part ← piece buffer samples
      some (record { processed = keep_rest a part; system = y })) in
    if samples == 0
    then some
        (record { processed = record { audio = a; submitted = []; overrun = false }; system = y })
    else if leb free_left samples
    then next
    else kept

unfoldable pub submit_fragment :
    Bool
    → ℕ
    → (ℕ → List StereoSample)
    → Audio
    → Buffer
    → ℕ
    → ℕ
    → Latency
    → System
    → Option Submission
unfolding buffer_time
submit_fragment ndebug id memory a buffer samples current_time latency y = do
  assert (ltb a.sample_buffer_filled a.submit_buffer_size)
  assert (ltb 0 samples)
  let run = (do
    time ← buffer_time a current_time latency
    assert (ltb 0 a.usec_per_sample_shl)
    submission_loop ndebug samples id memory a buffer samples time y)
  (if a.audio_loop_should_run
      then run
      else some (record {
        processed = record { audio = a; submitted = []; overrun = false };
        system = y;
      }))
