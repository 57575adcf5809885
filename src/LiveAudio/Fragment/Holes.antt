-- ===== src/LiveAudio/Fragment/Holes.antt =====
-- Holes in the stream: ProcessFragment is called with a null pointer.
use zamt.Prelude.{
  Bool, ℕ, zero, suc, ◌+◌, ◌-◌, ◌<◌, ◌≡◌, List, [], ◌∷◌, none, some, arith, replicate,
  length-replicate,
}
use zamt.LiveAudio.Fragment.{
  StereoSample, null, wild, silence, Audio, Processed, fragment_loop, keep_rest, next_timestamp,
  add_time, duration,
}
use zamt.LiveAudio.Fragment.Samples.{IsReady, Accounts, keep_rest-Accounts}

-- A hole that does not fill the packet is silence.
pub hole-Accounts :
    (ndebug : Bool) (fuel : ℕ) (a : Audio) (samples time : ℕ) (pool : List (List StereoSample))
    → IsReady a
    → 0 < samples
    → a.sample_buffer_filled + samples < a.submit_buffer_size
    → (r : Processed) × (fragment_loop ndebug (suc fuel) a null samples time pool ≡ some r)
      × Accounts a (replicate samples silence) pool r
unfolding fragment_loop
hole-Accounts ndebug fuel a samples time [] v pos fits = (
  keep_rest a (replicate samples silence),
  ground arith,
  keep_rest-Accounts a (replicate samples silence) [] v
      (omega (arith, fits, length-replicate samples silence)),
)
hole-Accounts ndebug fuel a samples time (memory ∷ pool) v pos fits = (
  keep_rest a (replicate samples silence),
  ground arith,
  keep_rest-Accounts a (replicate samples silence) (memory ∷ pool) v
      (omega (arith, fits, length-replicate samples silence)),
)

-- The pointer that is null no longer is read from, or the call stops for want of a packet.
wild-none :
    (ndebug : Bool) (fuel : ℕ) (a : Audio) (samples time : ℕ) (memory : List StereoSample)
    (pool : List (List StereoSample))
    → 0 < samples
    → fragment_loop ndebug fuel a wild samples time (memory ∷ pool) ≡ none
unfolding fragment_loop
wild-none ndebug zero a samples time memory pool pos = ground arith
wild-none ndebug (suc fuel) a samples time memory pool pos = ground arith

-- A hole that is longer than the free part of the buffer makes the function read from the address
-- that it adds to the null pointer, as soon as two packets are free.
pub hole-faults :
    (ndebug : Bool) (fuel : ℕ) (a : Audio) (samples time : ℕ) (first second : List StereoSample)
    (pool : List (List StereoSample))
    → IsReady a
    → a.submit_buffer_size < a.sample_buffer_filled + samples
    → fragment_loop ndebug (suc fuel) a null samples time (first ∷ second ∷ pool) ≡ none
unfolding fragment_loop
hole-faults ndebug fuel a samples time first second pool v long = ground (
  arith,
  v.room,
  wild-none ndebug fuel
      (record a { last_timestamp = next_timestamp a time; sample_buffer_filled = 0 })
      (samples - (a.submit_buffer_size - a.sample_buffer_filled))
      (add_time time (duration a (a.submit_buffer_size - a.sample_buffer_filled))) second pool,
)
