-- ===== src/LiveAudio/Fragment/Loop.antt =====
-- The loop of ProcessFragment, and what it does with the samples.
use zamt.Prelude.{
  ℕ, zero, suc, ◌-◌, ◌≤◌, ◌<◌, ◌≡◌, inl, inr, refl, true, false, List, [], ◌∷◌, some, arith, leb,
  length, take, drop, length-take, length-drop, take-append-drop, take_all, subst, Bool-cases,
  Option-cases, Option, none, ◌>>=◌, if◌then◌else◌, ◌∙◌, ap,
}
use zamt.LiveAudio.Fragment.{
  StereoSample, Buffer, piece, advance, Packet, at, Audio, Processed, fill_packet, keep_rest,
  fragment_loop, process_fragment, buffer_time, Latency, failed, measured, next_timestamp,
  submitting, duration, add_time, sub_time,
}
use zamt.LiveAudio.Fragment.Samples.{
  IsReady, AllSized, Accounts, keep_rest-Accounts, stop-Accounts, overrun-Accounts,
  submitting-Accounts,
}

abbrev Done : ℕ → Audio → List StereoSample → ℕ → List (List StereoSample) → Type 0
Done fuel a xs time pool =
    (r : Processed) × (fragment_loop true fuel a (at xs) (length xs) time pool ≡ some r)
    × Accounts a xs pool r

kept-Done :
    (fuel : ℕ) (a : Audio) (x : StereoSample) (xs : List StereoSample) (time : ℕ)
    (pool : List (List StereoSample))
    → IsReady a
    → leb (a.submit_buffer_size - a.sample_buffer_filled) (suc (length xs)) ≡ false
    → Done (suc fuel) a (x ∷ xs) time pool
unfolding fragment_loop
kept-Done fuel a x xs time [] v short = (
  keep_rest a (x ∷ xs),
  ground (arith, short, take_all (length xs) xs),
  keep_rest-Accounts a (x ∷ xs) [] v (ground (arith, short)),
)
kept-Done fuel a x xs time (memory ∷ pool) v short = (
  keep_rest a (x ∷ xs),
  ground (arith, short, take_all (length xs) xs),
  keep_rest-Accounts a (x ∷ xs) (memory ∷ pool) v (ground (arith, short)),
)

next-Done :
    (fuel : ℕ) (a : Audio) (x : StereoSample) (xs : List StereoSample) (time : ℕ)
    (memory : List StereoSample) (pool : List (List StereoSample))
    → let free_left = a.submit_buffer_size - a.sample_buffer_filled in
      IsReady a
      → length memory ≡ a.submit_buffer_size
      → leb free_left (suc (length xs)) ≡ true
      → Done fuel
          (record a { last_timestamp = next_timestamp a time; sample_buffer_filled = 0 })
          (drop free_left (x ∷ xs))
          (add_time time (duration a free_left))
          pool
      → Done (suc fuel) a (x ∷ xs) time (memory ∷ pool)
unfolding fragment_loop
next-Done fuel a x xs time memory pool v sized enough (r, runs, acc) = (
  out,
  ground (arith, enough, shorter),
  subst (λ ys. Accounts a ys (memory ∷ pool) out) (take-append-drop free_left (x ∷ xs))
      (submitting-Accounts a a' memory (take free_left (x ∷ xs)) (drop free_left (x ∷ xs)) stamp
        pool r v sized
        (omega (arith, v.room, length-take free_left (x ∷ xs) (ground (arith, enough)))) refl refl
        refl refl refl acc),
)
  where
    free_left : ℕ
    free_left = a.submit_buffer_size - a.sample_buffer_filled

    stamp : ℕ
    stamp = next_timestamp a time

    a' : Audio
    a' = record a { last_timestamp = stamp; sample_buffer_filled = 0 }

    out : Processed
    out =
        submitting
          (record { samples = fill_packet a memory (take free_left (x ∷ xs)); timestamp = stamp }) r

    shorter :
        fragment_loop true fuel a'
          (at (drop free_left (x ∷ xs)))
          (suc (length xs) - free_left)
          (add_time time (duration a free_left))
          pool
        ≡ some r
    shorter =
        subst
          (λ n.
            fragment_loop true fuel a' (at (drop free_left (x ∷ xs))) n
              (add_time time (duration a free_left)) pool
            ≡ some r)
          (length-drop free_left (x ∷ xs)) runs

loop-Done :
    (fuel : ℕ) (a : Audio) (xs : List StereoSample) (time : ℕ) (pool : List (List StereoSample))
    → length xs ≤ fuel
    → IsReady a
    → AllSized a.submit_buffer_size pool
    → Done fuel a xs time pool
unfolding fragment_loop
loop-Done zero a [] time pool h v ok = (_, refl, stop-Accounts a [] v refl pool)
loop-Done zero a (x ∷ xs) time pool h v ok = absurd (omega arith)
loop-Done (suc fuel) a [] time [] h v ok = (_, refl, stop-Accounts a [] v refl [])
loop-Done (suc fuel) a [] time (memory ∷ pool) h v ok =
    (_, refl, stop-Accounts a [] v refl (memory ∷ pool))
loop-Done (suc fuel) a (x ∷ xs) time [] h v ok =
    elim (Bool-cases (leb (a.submit_buffer_size - a.sample_buffer_filled) (suc (length xs)))) [
      | inl e ↦ (
        record { audio = a; submitted = []; overrun = true },
        ground (arith, e),
        overrun-Accounts a (x ∷ xs) v (ground (arith, e)),
      )
      | inr e ↦ kept-Done fuel a x xs time [] v e
    ]
loop-Done (suc fuel) a (x ∷ xs) time (memory ∷ pool) h v ok =
    elim (Bool-cases (leb (a.submit_buffer_size - a.sample_buffer_filled) (suc (length xs)))) [
      | inl e ↦ next-Done fuel a x xs time memory pool v ok.0 e (
          loop-Done fuel _ (drop (a.submit_buffer_size - a.sample_buffer_filled) (x ∷ xs)) _ pool
            (omega
              (arith, v.room, length-drop (a.submit_buffer_size - a.sample_buffer_filled) (x ∷ xs)))
            (record { room = omega (arith, v.room); sized = v.sized }) ok.1)
      | inr e ↦ kept-Done fuel a x xs time (memory ∷ pool) v e
    ]

pub buffer_time-some :
    (a : Audio) (now : ℕ) (l : Latency)
    → 0 < a.hw_latency_in_us
    → (t : ℕ) × (buffer_time a now l ≡ some t)
unfolding buffer_time
buffer_time-some a now failed h = (sub_time now a.hw_latency_in_us, ground arith)
buffer_time-some a now (measured l true) h = (_, refl)
buffer_time-some a now (measured l false) h = (_, refl)

-- What a build with asserts makes of the result of one without: it fails the assert on the packet.
abbrev pub with_assert : Option Processed → Option Processed
with_assert none = none
with_assert (some r) = if r.overrun then none else some r

with_assert-submitting :
    (p : Packet) (o : Option Processed)
    → with_assert (o >>= λ r. some (submitting p r))
      ≡ (with_assert o >>= λ r. some (submitting p r))
with_assert-submitting p none = refl
with_assert-submitting p (some r) = elim (Bool-cases r.overrun) [
  | inl lacks ↦ rw lacks refl
  | inr enough ↦ rw enough refl
]

loop-with_assert :
    (fuel : ℕ) (a : Audio) (buffer : Buffer) (samples time : ℕ) (pool : List (List StereoSample))
    → fragment_loop false fuel a buffer samples time pool
      ≡ with_assert (fragment_loop true fuel a buffer samples time pool)
unfolding fragment_loop keep_rest
loop-with_assert zero a buffer samples time pool = ground arith
loop-with_assert (suc fuel) a buffer samples time [] = elim (Option-cases (piece buffer samples)) [
  | inl e ↦ ground (arith, e)
  | inr (part, e) ↦ ground (arith, e)
]
loop-with_assert (suc fuel) a buffer samples time (memory ∷ pool) =
    let free_left : ℕ = a.submit_buffer_size - a.sample_buffer_filled in
    let later =
      loop-with_assert fuel
        (record a { last_timestamp = next_timestamp a time; sample_buffer_filled = 0 })
        (advance buffer free_left) (samples - free_left) (add_time time (duration a free_left))
        pool in
    elim (Option-cases (piece buffer free_left)) [
      | inl fails ↦ elim (Option-cases (piece buffer samples)) [
        | inl fails' ↦ ground (arith, fails, fails')
        | inr (rest, is') ↦ ground (arith, fails, is')
      ]
      | inr (part, is) ↦
          let packs =
            with_assert-submitting
              (record { samples = fill_packet a memory part; timestamp = next_timestamp a time })
              (fragment_loop true fuel
                (record a { last_timestamp = next_timestamp a time; sample_buffer_filled = 0 })
                (advance buffer free_left) (samples - free_left)
                (add_time time (duration a free_left)) pool) in
          elim (Option-cases (piece buffer samples)) [
            | inl fails' ↦ ground (arith, is, fails', later, packs)
            | inr (rest, is') ↦ ground (arith, is, is', later, packs)
          ]
    ]

pub process_fragment-Accounts :
    (a : Audio) (xs : List StereoSample) (now : ℕ) (latency : Latency)
    (pool : List (List StereoSample))
    → IsReady a
    → a.audio_loop_should_run ≡ true
    → 0 < a.usec_per_sample_shl
    → 0 < a.hw_latency_in_us
    → 0 < length xs
    → AllSized a.submit_buffer_size pool
    → (r : Processed) × (process_fragment true a (at xs) (length xs) now latency pool ≡ some r)
      × (process_fragment false a (at xs) (length xs) now latency pool
          ≡ (if r.overrun then none else some r))
      × Accounts a xs pool r
unfolding process_fragment
process_fragment-Accounts a xs now latency pool v runs rate hw some_samples ok =
    let (time, timed) = buffer_time-some a now latency hw in
    let (r, done, acc) = loop-Done (length xs) a xs time pool (omega arith) v ok in
    let checked : fragment_loop false (length xs) a (at xs) (length xs) time pool
        ≡ (if r.overrun then none else some r) =
      loop-with_assert (length xs) a (at xs) (length xs) time pool ∙ ap with_assert done in
    (
      r,
      ground (arith, runs, timed, done, v.room),
      ground (arith, runs, timed, checked, v.room),
      acc,
    )
