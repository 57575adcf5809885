-- ===== src/LiveAudio/Reading.antt =====
-- `stream_read_callback`: the fragments that the stream holds are peeked, processed and dropped.
pub mod Order
use zamt.Prelude.{
  ℕ, zero, suc, ◌+◌, ◌-◌, ◌*◌, ◌/◌, ◌%◌, ◌^◌, Bool, true, false, List, [], ◌∷◌, ◌++◌, Option, none,
  some, ltb, ◌==◌, if◌then◌else◌, length, drop, ◌>>=◌, ◌>>◌, assert,
}
use zamt.LiveAudio.Fragment.{StereoSample, Buffer, Audio, Processed, Latency, process_fragment}

-- What `pa_stream_peek` finds, and the clock and the latency at the call of ProcessFragment for it.
pub record Peek : Type 0 where
  pub bytes_in_buf : ℕ
  pub buffer : Buffer
  pub current_time : ℕ
  pub latency : Latency

abbrev pub size_mod : ℕ
size_mod = 2 ^ 64

abbrev pub bytes_per_sample : ℕ
bytes_per_sample = 4

abbrev pub before : Processed → Processed → Processed
before r rest = record rest {
  submitted = r.submitted ++ rest.submitted;
  overrun = if r.overrun then true else rest.overrun;
}

-- `peeks` are the answers of `pa_stream_peek` in turn; the loop may not need more than there are.
-- A packet that is submitted is not free for the next fragment.
unfoldable pub read_stream :
    Bool → ℕ → Audio → List Peek → List (List StereoSample) → Option Processed
read_stream ndebug nbytes a [] pool =
    if nbytes == 0 then some (record { audio = a; submitted = []; overrun = false }) else none
read_stream ndebug nbytes a (p ∷ peeks) pool =
    let finished = some (record { audio = a; submitted = []; overrun = false }) in
    let processed = (do
      assert (p.bytes_in_buf % bytes_per_sample == 0)
      r ←
          process_fragment ndebug a p.buffer (p.bytes_in_buf / bytes_per_sample) p.current_time
            p.latency pool
      rest ←
          read_stream ndebug ((nbytes + size_mod - p.bytes_in_buf) % size_mod) r.audio peeks
            (drop (length r.submitted) pool)
      some (before r rest)) in
    if nbytes == 0 then finished else if p.bytes_in_buf == 0 then finished else processed

-- The asserts of the callback itself, and its loop.
unfoldable pub read_callback :
    Bool → ℕ → Audio → List Peek → List (List StereoSample) → Option Processed
unfolding read_stream
read_callback ndebug nbytes a peeks pool = do
  assert (ltb 0 nbytes)
  read_stream ndebug nbytes a peeks pool
