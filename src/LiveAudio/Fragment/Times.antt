-- ===== src/LiveAudio/Fragment/Times.antt =====
-- The timestamps of submitted packets.
use zamt.Prelude.{
  Bool, ℕ, zero, suc, ◌-◌, ◌<◌, ◌≡◌, ◌⊎◌, refl, false, List, [], ◌∷◌, Option, none, some, arith,
  leb, ◌==◌, if_cases, ◌>>=◌, ◌>>◌, assert, ltb, if◌then◌else◌,
}
use zamt.LiveAudio.Fragment.{
  StereoSample, Buffer, piece, advance, Audio, Packet, Processed, fragment_loop, process_fragment,
  buffer_time, next_timestamp, submitting, time_mod, Latency, keep_rest, fill_packet,
}

-- Each timestamp is later than the one before it, except that the greatest value of a `uint64_t` is
-- followed by whatever comes.
abbrev pub Rises : ℕ → List Packet → Type 0
Rises last [] = Unit {0}
Rises last (p ∷ ps) =
    ((last < p.timestamp) ⊎ (last ≡ time_mod - 1)) × (p.timestamp < time_mod) × Rises p.timestamp ps

abbrev pub last_of : ℕ → List Packet → ℕ
last_of last [] = last
last_of last (p ∷ ps) = last_of p.timestamp ps

next_timestamp_rises :
    (a : Audio) (time : ℕ)
    → a.last_timestamp < time_mod
    → ((a.last_timestamp < next_timestamp a time) ⊎ (a.last_timestamp ≡ time_mod - 1))
      × (next_timestamp a time < time_mod)
unfolding next_timestamp
next_timestamp_rises a time h = ground arith

-- What a run has submitted, if it ended.
abbrev pub InOrder : ℕ → Option Processed → Type 0
InOrder last none = Unit {0}
InOrder last (some r) = Rises last r.submitted × (r.audio.last_timestamp ≡ last_of last r.submitted)

kept-InOrder :
    (a : Audio) (o : Option (List StereoSample))
    → InOrder a.last_timestamp (o >>= λ part. some (keep_rest a part))
unfolding keep_rest
kept-InOrder a none = tt
kept-InOrder a (some part) = (tt, refl)

submitted-InOrder :
    (last : ℕ) (p : List StereoSample → Packet) (stamp : ℕ) (o : Option (List StereoSample))
    (rest : Option Processed)
    → ((last < stamp) ⊎ (last ≡ time_mod - 1))
    → stamp < time_mod
    → ((part : List StereoSample) → (p part).timestamp ≡ stamp)
    → InOrder stamp rest
    → InOrder last (o >>= λ part. (rest >>= λ r. some (submitting (p part) r)))
submitted-InOrder last p stamp none rest up small same h = tt
submitted-InOrder last p stamp (some part) none up small same h = tt
submitted-InOrder last p stamp (some part) (some r) up small same h = ground (arith, same part)

loop-InOrder :
    (ndebug : Bool) (fuel : ℕ) (a : Audio) (buffer : Buffer) (samples time : ℕ)
    (pool : List (List StereoSample))
    → a.last_timestamp < time_mod
    → InOrder a.last_timestamp (fragment_loop ndebug fuel a buffer samples time pool)
unfolding fragment_loop
loop-InOrder ndebug zero a buffer samples time pool h =
    if_cases (InOrder a.last_timestamp) (samples == 0) _ _ (λ e. (tt, refl)) (λ e. tt)
loop-InOrder ndebug (suc fuel) a buffer samples time [] h =
    if_cases (InOrder a.last_timestamp) (samples == 0) _ _ (λ e. (tt, refl))
      (λ e.
        if_cases (InOrder a.last_timestamp)
          (leb (a.submit_buffer_size - a.sample_buffer_filled) samples) _ _
          (λ e'. if_cases (InOrder a.last_timestamp) ndebug _ _ (λ e''. (tt, refl)) (λ e''. tt))
          (λ e'. kept-InOrder a (piece buffer samples)))
loop-InOrder ndebug (suc fuel) a buffer samples time (memory ∷ pool) h =
    if_cases (InOrder a.last_timestamp) (samples == 0) _ _ (λ e. (tt, refl))
      (λ e.
        if_cases (InOrder a.last_timestamp)
          (leb (a.submit_buffer_size - a.sample_buffer_filled) samples) _ _
          (λ e'.
            submitted-InOrder a.last_timestamp
              (λ part. record {
                samples = fill_packet a memory part;
                timestamp = next_timestamp a time;
              })
              (next_timestamp a time) (piece buffer _) _ rises.0 rises.1 (λ part. refl)
              (loop-InOrder ndebug fuel _
                (advance buffer (a.submit_buffer_size - a.sample_buffer_filled)) _ _ pool rises.1))
          (λ e'. kept-InOrder a (piece buffer samples)))
  where
    rises :
        ((a.last_timestamp < next_timestamp a time) ⊎ (a.last_timestamp ≡ time_mod - 1))
        × (next_timestamp a time < time_mod)
    rises = next_timestamp_rises a time h

pub bind-InOrder :
    {A : Type 0} (last : ℕ) (o : Option A) (f : A → Option Processed)
    → ((x : A) → InOrder last (f x))
    → InOrder last (o >>= f)
bind-InOrder last none f h = tt
bind-InOrder last (some x) f h = h x

-- Whatever the buffer and the clock say, the packets that ProcessFragment submits have rising
-- timestamps, the first later than that of the last packet before the call, and the last of them is
-- remembered for the next call. Only the timestamp 2^64 - 1 may be followed by an earlier one.
pub process_fragment-InOrder :
    (ndebug : Bool) (a : Audio) (buffer : Buffer) (samples now : ℕ) (latency : Latency)
    (pool : List (List StereoSample))
    → a.last_timestamp < time_mod
    → InOrder a.last_timestamp (process_fragment ndebug a buffer samples now latency pool)
unfolding process_fragment
process_fragment-InOrder ndebug a buffer samples now latency pool h =
    bind-InOrder a.last_timestamp (assert (ltb a.sample_buffer_filled a.submit_buffer_size))
      (λ _. assert (ltb 0 samples) >> checked)
      (λ _.
        bind-InOrder a.last_timestamp (assert (ltb 0 samples)) (λ _. checked)
          (λ _. checked-InOrder))
  where
    timed : ℕ → Option Processed
    timed time =
        assert (ltb 0 a.usec_per_sample_shl)
        >> fragment_loop ndebug samples a buffer samples time pool

    quiet : Option Processed
    quiet = some (record { audio = a; submitted = []; overrun = false })

    checked : Option Processed
    checked = if a.audio_loop_should_run then buffer_time a now latency >>= timed else quiet

    checked-InOrder : InOrder a.last_timestamp checked
    checked-InOrder =
        if_cases (InOrder a.last_timestamp) a.audio_loop_should_run
          (buffer_time a now latency >>= timed) quiet
          (λ _. bind-InOrder a.last_timestamp (buffer_time a now latency) timed λ time.
            bind-InOrder a.last_timestamp (assert (ltb 0 a.usec_per_sample_shl))
              (λ _. fragment_loop ndebug samples a buffer samples time pool)
              (λ _. loop-InOrder ndebug samples a buffer samples time pool h))
          (λ _. (tt, refl))
