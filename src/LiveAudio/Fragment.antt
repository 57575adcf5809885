-- ===== src/LiveAudio/Fragment.antt =====
-- `LiveAudio::ProcessFragment`: recorded samples are cut into packets of one size and submitted
-- with rising timestamps. A result `none` is a failed assert or a read through a bad pointer.
pub mod Samples
pub mod Loop
pub mod Times
pub mod Holes
pub mod Chunks
use zamt.Prelude.{
  ℕ, zero, suc, ◌+◌, ◌-◌, ◌*◌, ◌/◌, ◌%◌, ◌^◌, Bool, true, false, not, List, [], ◌∷◌, ◌++◌, Option,
  none, some, ltb, leb, ◌==◌, if◌then◌else◌, length, take, drop, replicate, write_at, ◌>>=◌, ◌>>◌,
  assert,
}
use zamt.Prelude.Int.{ℤ, pos}

pub record StereoSample : Type 0 where
  pub left : ℤ
  pub right : ℤ

-- All bytes 0, as `memset` writes it.
abbrev pub silence : StereoSample
silence = record { left = pos 0; right = pos 0 }

-- The argument `buffer`: a null pointer (a hole in the stream), a pointer to samples, or what a
-- null pointer has become by `buffer += n`.
pub data Buffer : Type 0 where
  null wild : Buffer
  at : List StereoSample → Buffer

-- `n` samples for a packet: copied, or silence for a null pointer.
unfoldable pub piece : Buffer → ℕ → Option (List StereoSample)
piece null n = some (replicate n silence)
piece wild n = none
piece (at xs) n = if leb n (length xs) then some (take n xs) else none

unfoldable pub advance : Buffer → ℕ → Buffer
advance null n = if n == 0 then null else wild
advance wild n = wild
advance (at xs) n = at (drop n xs)

-- The members of `LiveAudio` that the function uses.
pub record Audio : Type 0 where
  pub submit_buffer_size : ℕ
  pub usec_per_sample_shl : ℕ
  pub hw_latency_in_us : ℕ
  pub audio_loop_should_run : Bool
  pub sample_buffer : List StereoSample
  pub sample_buffer_filled : ℕ
  pub last_timestamp : ℕ

-- A packet as it is submitted.
pub record Packet : Type 0 where
  pub samples : List StereoSample
  pub timestamp : ℕ

-- `overrun`: no packet was free, and without asserts the rest of the fragment is dropped.
pub record Processed : Type 0 where
  pub audio : Audio
  pub submitted : List Packet
  pub overrun : Bool

-- A `Scheduler::Time` is a `uint64_t`; `k_usec_per_sample_shift` is the shift of the fixed point.
abbrev pub time_mod : ℕ
time_mod = 2 ^ 64

abbrev pub k_usec_per_sample_shift : ℕ
k_usec_per_sample_shift = 8

abbrev pub add_time : ℕ → ℕ → ℕ
add_time a b = (a + b) % time_mod

abbrev pub sub_time : ℕ → ℕ → ℕ
sub_time a b = (a + time_mod - b % time_mod) % time_mod

-- `(Scheduler::Time)samples * usec_per_sample_shl_ >> kUSecPerSampleShift`
abbrev pub duration : Audio → ℕ → ℕ
duration a samples = samples * a.usec_per_sample_shl % time_mod / 2 ^ k_usec_per_sample_shift

-- The timestamp of the next packet, later than the last one.
unfoldable pub next_timestamp : Audio → ℕ → ℕ
next_timestamp a buffer_timestamp =
    let timestamp = sub_time buffer_timestamp (duration a a.sample_buffer_filled) in
    if leb timestamp a.last_timestamp then add_time a.last_timestamp 1 else timestamp

-- What is copied into the memory of a packet.
unfoldable pub fill_packet : Audio → List StereoSample → List StereoSample → List StereoSample
fill_packet a memory part =
    let filled = a.sample_buffer_filled in
    let first = if ltb 0 filled then write_at memory 0 (take filled a.sample_buffer) else memory in
    write_at first filled part

abbrev pub submitting : Packet → Processed → Processed
submitting p r = record r { submitted = p ∷ r.submitted }

-- The samples that fill no packet are kept.
unfoldable pub keep_rest : Audio → List StereoSample → Processed
keep_rest a part = record {
  audio = record a {
    sample_buffer = write_at a.sample_buffer a.sample_buffer_filled part;
    sample_buffer_filled = a.sample_buffer_filled + length part;
  };
  submitted = [];
  overrun = false;
}

-- The loop, in at most `fuel` rounds. `pool` holds the memory of the packets that
-- GetPacketForSubmission returns in turn; at its end it returns a null pointer, which fails the
-- assert on the packet, or with `ndebug`, in a build without asserts, drops the rest. A run that
-- would fail another assert is `none` in either build.
unfoldable pub fragment_loop :
    Bool → ℕ → Audio → Buffer → ℕ → ℕ → List (List StereoSample) → Option Processed
unfolding piece advance next_timestamp fill_packet keep_rest
fragment_loop ndebug zero a buffer samples time pool =
    if samples == 0 then some (record { audio = a; submitted = []; overrun = false }) else none
fragment_loop ndebug (suc fuel) a buffer samples time [] =
    let free_left = a.submit_buffer_size - a.sample_buffer_filled in
    let kept = (do part ← piece buffer samples; some (keep_rest a part)) in
    if samples == 0
    then some (record { audio = a; submitted = []; overrun = false })
    else if leb free_left samples
    then (if ndebug then some (record { audio = a; submitted = []; overrun = true }) else none)
    else kept
fragment_loop ndebug (suc fuel) a buffer samples time (memory ∷ pool) =
    let free_left = a.submit_buffer_size - a.sample_buffer_filled in
    let stamp = next_timestamp a time in
    let a' = record a { last_timestamp = stamp; sample_buffer_filled = 0 } in
    let next = (do
      part ← piece buffer free_left
      rest ←
          fragment_loop ndebug fuel a' (advance buffer free_left) (samples - free_left)
            (add_time time (duration a free_left)) pool
      some (submitting (record { samples = fill_packet a memory part; timestamp = stamp }) rest)) in
    let kept = (do part ← piece buffer samples; some (keep_rest a part)) in
    if samples == 0
    then some (record { audio = a; submitted = []; overrun = false })
    else if leb free_left samples
    then next
    else kept

-- What `pa_stream_get_latency` returns: a failure, or a latency and whether it is negative.
pub data Latency : Type 0 where
  failed : Latency
  measured : (latency : ℕ) (is_negative : Bool) → Latency

-- The time of the first sample in the buffer.
unfoldable pub buffer_time : Audio → ℕ → Latency → Option ℕ
buffer_time a current_time failed = do
  assert (ltb 0 a.hw_latency_in_us)
  some (sub_time current_time a.hw_latency_in_us)
buffer_time a current_time (measured latency true) = some (add_time current_time latency)
buffer_time a current_time (measured latency false) = some (sub_time current_time latency)

unfoldable pub process_fragment :
    Bool → Audio → Buffer → ℕ → ℕ → Latency → List (List StereoSample) → Option Processed
unfolding buffer_time
process_fragment ndebug a buffer samples current_time latency pool = do
  assert (ltb a.sample_buffer_filled a.submit_buffer_size)
  assert (ltb 0 samples)
  let run = (do
    time ← buffer_time a current_time latency
    assert (ltb 0 a.usec_per_sample_shl)
    fragment_loop ndebug samples a buffer samples time pool)
  (if a.audio_loop_should_run
      then run
      else some (record { audio = a; submitted = []; overrun = false }))
