-- ===== src/LiveAudio/Submission/Builds.antt =====
-- ProcessFragment with the scheduler in a build with asserts and in one without.
use zamt.Prelude.{
  ℕ, zero, suc, ◌-◌, ◌≡◌, refl, true, false, List, Option, none, some, arith, if◌then◌else◌, ◌>>=◌,
  Bool-cases, Option-cases, inl, inr,
}
use zamt.Scheduler.Api.{get_packet_for_submission}
use zamt.Scheduler.System.{System, lend, perform, submits}
use zamt.LiveAudio.Fragment.{
  StereoSample, Audio, Buffer, Packet, piece, advance, next_timestamp, fill_packet, keep_rest,
  submitting, duration, add_time,
}
use zamt.LiveAudio.Submission.{Submission, submission_loop}

-- The assert on the packet fails where a packet is lacking.
abbrev pub with_assert : Option Submission → Option Submission
with_assert none = none
with_assert (some s) = if s.processed.overrun then none else some s

abbrev pub submitting_first : Packet → Submission → Submission
submitting_first p s = record s { processed = submitting p s.processed }

with_assert-submitting :
    (p : Packet) (o : Option Submission)
    → with_assert (o >>= λ s. some (submitting_first p s))
      ≡ (with_assert o >>= λ s. some (submitting_first p s))
with_assert-submitting p none = refl
with_assert-submitting p (some s) = elim (Bool-cases s.processed.overrun) [
  | inl lacks ↦ rw lacks refl
  | inr enough ↦ rw enough refl
]

pub loop-with_assert :
    (fuel id : ℕ) (memory : ℕ → List StereoSample) (a : Audio) (buffer : Buffer) (samples time : ℕ)
    (y : System)
    → submission_loop false fuel id memory a buffer samples time y
      ≡ with_assert (submission_loop true fuel id memory a buffer samples time y)
unfolding submission_loop keep_rest
loop-with_assert zero id memory a buffer samples time y = ground arith
loop-with_assert (suc fuel) id memory a buffer samples time y =
    elim (Option-cases (get_packet_for_submission id y.scheduler)) [
      | inl fails ↦ elim (Option-cases (piece buffer samples)) [
        | inl f ↦ ground (arith, f, fails)
        | inr (rest, f) ↦ ground (arith, f, fails)
      ]
      | inr ((none, given), gets) ↦ elim (Option-cases (piece buffer samples)) [
        | inl f ↦ ground (arith, f, gets)
        | inr (rest, f) ↦ ground (arith, f, gets)
      ]
      | inr ((some packet, given), gets) ↦
          let free_left : ℕ = a.submit_buffer_size - a.sample_buffer_filled in
          elim (Option-cases (piece buffer free_left)) [
            | inl g ↦ elim (Option-cases (piece buffer samples)) [
              | inl f ↦ ground (arith, f, gets, g)
              | inr (rest, f) ↦ ground (arith, f, gets, g)
            ]
            | inr (part, g) ↦
                elim (Option-cases (
                  perform (submits id packet (next_timestamp a time))
                    (record y { scheduler = given; loading = lend id (some packet) y.loading }))) [
                      | inl k ↦ elim (Option-cases (piece buffer samples)) [
                        | inl f ↦ ground (arith, f, gets, g, k)
                        | inr (rest, f) ↦ ground (arith, f, gets, g, k)
                      ]
                      | inr (z, k) ↦
                          let later =
                            loop-with_assert fuel id memory
                              (record a {
                                last_timestamp = next_timestamp a time;
                                sample_buffer_filled = 0;
                              })
                              (advance buffer free_left) (samples - free_left)
                              (add_time time (duration a free_left)) z in
                          let packs =
                            with_assert-submitting
                              (record {
                                samples = fill_packet a (memory packet) part;
                                timestamp = next_timestamp a time;
                              })
                              (submission_loop true fuel id memory
                                (record a {
                                  last_timestamp = next_timestamp a time;
                                  sample_buffer_filled = 0;
                                })
                                (advance buffer free_left) (samples - free_left)
                                (add_time time (duration a free_left)) z) in
                          elim (Option-cases (piece buffer samples)) [
                            | inl f ↦ ground (arith, f, gets, g, k, later, packs)
                            | inr (rest, f) ↦ ground (arith, f, gets, g, k, later, packs)
                          ]
                    ]
          ]
    ]
