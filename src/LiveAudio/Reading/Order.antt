-- ===== src/LiveAudio/Reading/Order.antt =====
-- The timestamps of the packets that one callback submits.
use zamt.Prelude.{
  Bool, ℕ, ◌-◌, ◌+◌, ◌%◌, ◌/◌, ◌<◌, ◌≡◌, refl, sym, ◌∙◌, subst, List, [], ◌∷◌, ◌++◌, Option, none,
  some, ◌==◌, ltb, if_cases, drop, length, ◌>>=◌, assert,
}
use zamt.LiveAudio.Fragment.{StereoSample, Audio, Packet, Processed, process_fragment, time_mod}
use zamt.LiveAudio.Fragment.Times.{Rises, last_of, InOrder, bind-InOrder, process_fragment-InOrder}
use zamt.LiveAudio.Reading.{Peek, read_stream, read_callback, before, bytes_per_sample, size_mod}

Rises-append :
    (last : ℕ) (ps qs : List Packet)
    → Rises last ps
    → Rises (last_of last ps) qs
    → Rises last (ps ++ qs) × (last_of last (ps ++ qs) ≡ last_of (last_of last ps) qs)
Rises-append last [] qs h k = (k, refl)
Rises-append last (p ∷ ps) qs h k =
    let (all, end) = Rises-append p.timestamp ps qs h.2 k in ((h.0, h.1, all), end)

last_of-lt :
    (last : ℕ) (ps : List Packet) → last < time_mod → Rises last ps → last_of last ps < time_mod
last_of-lt last [] h k = h
last_of-lt last (p ∷ ps) h k = last_of-lt p.timestamp ps k.1 k.2

before-InOrder :
    (last : ℕ) (r : Processed) (o : Option Processed)
    → InOrder last (some r)
    → InOrder r.audio.last_timestamp o
    → InOrder last (o >>= λ rest. some (before r rest))
before-InOrder last r none h k = tt
before-InOrder last r (some rest) h k =
    let (all, end) =
      Rises-append last r.submitted rest.submitted h.0
        (subst (λ n. Rises n rest.submitted) h.1 k.0) in
    (
      all,
      k.1
          ∙ subst (λ n. last_of n rest.submitted ≡ last_of last (r.submitted ++ rest.submitted))
              (sym h.1) (sym end),
    )

chain-InOrder :
    (last : ℕ) (o : Option Processed) (f : Processed → Option Processed)
    → InOrder last o
    → ((r : Processed) → InOrder last (some r) → InOrder last (f r))
    → InOrder last (o >>= f)
chain-InOrder last none f h k = tt
chain-InOrder last (some r) f h k = k r h

read_stream-InOrder :
    (ndebug : Bool) (nbytes : ℕ) (a : Audio) (peeks : List Peek) (pool : List (List StereoSample))
    → a.last_timestamp < time_mod
    → InOrder a.last_timestamp (read_stream ndebug nbytes a peeks pool)
unfolding read_stream
read_stream-InOrder ndebug nbytes a [] pool h =
    if_cases (InOrder a.last_timestamp) (nbytes == 0) _ _ (λ e. (tt, refl)) (λ e. tt)
read_stream-InOrder ndebug nbytes a (p ∷ peeks) pool h =
    if_cases (InOrder a.last_timestamp) (nbytes == 0) _ _ (λ e. (tt, refl))
      (λ e.
        if_cases (InOrder a.last_timestamp) (p.bytes_in_buf == 0) _ _ (λ e'. (tt, refl))
          (λ e'.
            bind-InOrder a.last_timestamp (assert (p.bytes_in_buf % bytes_per_sample == 0))
              (λ _. processed >>= further)
              (λ _.
                chain-InOrder a.last_timestamp processed further
                  (process_fragment-InOrder ndebug a p.buffer (p.bytes_in_buf / bytes_per_sample)
                    p.current_time p.latency pool h)
                  (λ r v. before-InOrder a.last_timestamp r (more r) v (
                    read_stream-InOrder ndebug ((nbytes + size_mod - p.bytes_in_buf) % size_mod)
                      r.audio peeks (drop (length r.submitted) pool)
                      (subst (λ n. n < time_mod) (sym v.1)
                        (last_of-lt a.last_timestamp r.submitted h v.0)))))))
  where
    processed : Option Processed
    processed =
        process_fragment ndebug a p.buffer (p.bytes_in_buf / bytes_per_sample) p.current_time
          p.latency pool

    more : Processed → Option Processed
    more r =
        read_stream ndebug ((nbytes + size_mod - p.bytes_in_buf) % size_mod) r.audio peeks
          (drop (length r.submitted) pool)

    further : Processed → Option Processed
    further r = more r >>= λ rest. some (before r rest)

-- All packets that one callback submits, over all the fragments that it reads, have rising
-- timestamps after the last one before it, and the last of them is remembered; with the one
-- exception of the timestamp 2^64 - 1.
pub read_callback-InOrder :
    (ndebug : Bool) (nbytes : ℕ) (a : Audio) (peeks : List Peek) (pool : List (List StereoSample))
    → a.last_timestamp < time_mod
    → InOrder a.last_timestamp (read_callback ndebug nbytes a peeks pool)
unfolding read_callback
read_callback-InOrder ndebug nbytes a peeks pool h =
    bind-InOrder a.last_timestamp (assert (ltb 0 nbytes))
      (λ _. read_stream ndebug nbytes a peeks pool)
      (λ _. read_stream-InOrder ndebug nbytes a peeks pool h)
