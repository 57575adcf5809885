-- ===== src/LiveAudio/Fragment/Samples.antt =====
-- The samples on their way into packets.
use zamt.Prelude.{
  ℕ, zero, suc, ◌+◌, ◌≤◌, ◌<◌, ◌≡◌, ◌⊎◌, inl, inr, refl, ◌∙◌, ap, true, false, List, [], ◌∷◌, ◌++◌,
  arith, ltb, length, take, length-append, length-take, length-write_at, take-write_at, drop_all,
  take-append, write_at, subst, if_cases,
}
use mathlib.Core.List.{append_assoc, append-nil}
use zamt.LiveAudio.Fragment.{
  StereoSample, Audio, Packet, Processed, fill_packet, keep_rest, submitting,
}

pub record IsReady (a : Audio) : Type 0 where
  pub room : a.sample_buffer_filled < a.submit_buffer_size
  pub sized : length a.sample_buffer ≡ a.submit_buffer_size

-- The samples that wait for a packet.
abbrev pub buffered : Audio → List StereoSample
buffered a = take a.sample_buffer_filled a.sample_buffer

abbrev pub AllSized : ℕ → List (List StereoSample) → Type 0
AllSized n [] = Unit {0}
AllSized n (m ∷ ms) = (length m ≡ n) × AllSized n ms

abbrev pub contents : List Packet → List StereoSample
contents [] = []
contents (p ∷ ps) = p.samples ++ contents ps

abbrev pub AllFull : ℕ → List Packet → Type 0
AllFull n [] = Unit {0}
AllFull n (p ∷ ps) = (length p.samples ≡ n) × AllFull n ps

-- How a call that got `xs` accounts for every sample: what it submits, then what stays buffered,
-- then what is lost is what was buffered and then `xs`. Only when the pool is used up is
-- anything lost.
pub record Accounts (a : Audio) (xs : List StereoSample) (pool : List (List StereoSample))
    (r : Processed) : Type 0 where
  pub ready : IsReady r.audio
  pub same_size : r.audio.submit_buffer_size ≡ a.submit_buffer_size
  pub same_rate : r.audio.usec_per_sample_shl ≡ a.usec_per_sample_shl
  pub same_latency : r.audio.hw_latency_in_us ≡ a.hw_latency_in_us
  pub same_run : r.audio.audio_loop_should_run ≡ a.audio_loop_should_run
  pub full : AllFull a.submit_buffer_size r.submitted
  pub lost : List StereoSample
  pub all : contents r.submitted ++ (buffered r.audio ++ lost) ≡ buffered a ++ xs
  pub losses :
      ((r.overrun ≡ false) × (lost ≡ []))
      ⊎ ((r.overrun ≡ true)
          × (length r.submitted ≡ length pool)
          × (a.submit_buffer_size ≤ r.audio.sample_buffer_filled + length lost))

-- A packet holds what was buffered and then the new part.
fill_packet-samples :
    (a : Audio) (memory part : List StereoSample)
    → IsReady a
    → length memory ≡ a.submit_buffer_size
    → a.sample_buffer_filled + length part ≡ a.submit_buffer_size
    → fill_packet a memory part ≡ buffered a ++ part
unfolding fill_packet
fill_packet-samples a memory part v sized whole =
    if_cases (λ first. write_at first a.sample_buffer_filled part ≡ buffered a ++ part)
      (ltb 0 a.sample_buffer_filled) _ _
      (λ some_first.
        whole_packet _
          (length-write_at memory 0 (buffered a) (omega (arith, length_buffered, v.room)) ∙ sized)
          (subst (λ n. take n (write_at memory 0 (buffered a)) ≡ buffered a) length_buffered
            (take-append (length (buffered a)) (buffered a) _ refl)))
      (λ none_first.
        whole_packet memory sized
          (nothing_yet a.sample_buffer_filled memory a.sample_buffer (ground (arith, none_first))))
  where
    length_buffered : length (buffered a) ≡ a.sample_buffer_filled
    length_buffered =
        length-take a.sample_buffer_filled a.sample_buffer (omega (arith, v.room, v.sized))

    nothing_yet : (n : ℕ) (xs ys : List StereoSample) → n ≡ 0 → take n xs ≡ take n ys
    nothing_yet zero xs ys e = refl
    nothing_yet (suc n) xs ys e = absurd (omega arith)

    whole_packet :
        (first : List StereoSample)
        → length first ≡ a.submit_buffer_size
        → take a.sample_buffer_filled first ≡ buffered a
        → write_at first a.sample_buffer_filled part ≡ buffered a ++ part
    whole_packet first size same =
        ap (λ rest. take a.sample_buffer_filled first ++ (part ++ rest))
          (drop_all (a.sample_buffer_filled + length part) first (omega (arith, size, whole)))
        ∙ ap (λ ys. take a.sample_buffer_filled first ++ ys) (append-nil part)
        ∙ ap (λ ys. ys ++ part) same

-- What is kept is what was buffered and then the new part.
pub keep_rest-Accounts :
    (a : Audio) (xs : List StereoSample) (pool : List (List StereoSample))
    → IsReady a
    → a.sample_buffer_filled + length xs < a.submit_buffer_size
    → Accounts a xs pool (keep_rest a xs)
unfolding keep_rest
keep_rest-Accounts a xs pool v fits = record {
  ready = record {
    room = fits;
    sized =
        length-write_at a.sample_buffer a.sample_buffer_filled xs (omega (arith, v.sized))
        ∙ v.sized;
  };
  same_size = refl;
  same_rate = refl;
  same_latency = refl;
  same_run = refl;
  full = tt;
  lost = [];
  all =
      append-nil _
      ∙ take-write_at a.sample_buffer a.sample_buffer_filled xs (omega (arith, v.sized));
  losses = inl (refl, refl);
}

-- A call with no samples left, or one that finds no free packet.
pub stop-Accounts :
    (a : Audio) (xs : List StereoSample)
    → IsReady a
    → length xs ≡ 0
    → (pool : List (List StereoSample))
    → Accounts a xs pool (record { audio = a; submitted = []; overrun = false })
stop-Accounts a [] v h pool = record {
  ready = v;
  same_size = refl;
  same_rate = refl;
  same_latency = refl;
  same_run = refl;
  full = tt;
  lost = [];
  all = refl;
  losses = inl (refl, refl);
}
stop-Accounts a (x ∷ xs) v h pool = absurd (omega arith)

pub overrun-Accounts :
    (a : Audio) (xs : List StereoSample)
    → IsReady a
    → a.submit_buffer_size ≤ a.sample_buffer_filled + length xs
    → Accounts a xs [] (record { audio = a; submitted = []; overrun = true })
overrun-Accounts a xs v h = record {
  ready = v;
  same_size = refl;
  same_rate = refl;
  same_latency = refl;
  same_run = refl;
  full = tt;
  lost = xs;
  all = refl;
  losses = inr (refl, refl, h);
}

-- A packet that is filled and submitted before the rest of the fragment is dealt with.
pub submitting-Accounts :
    (a a' : Audio) (memory xs rest : List StereoSample) (stamp : ℕ)
    (pool : List (List StereoSample)) (r : Processed)
    → IsReady a
    → length memory ≡ a.submit_buffer_size
    → a.sample_buffer_filled + length xs ≡ a.submit_buffer_size
    → a'.submit_buffer_size ≡ a.submit_buffer_size
    → a'.usec_per_sample_shl ≡ a.usec_per_sample_shl
    → a'.hw_latency_in_us ≡ a.hw_latency_in_us
    → a'.audio_loop_should_run ≡ a.audio_loop_should_run
    → a'.sample_buffer_filled ≡ 0
    → Accounts a' rest pool r
    → Accounts a
        (xs ++ rest)
        (memory ∷ pool)
        (submitting (record { samples = fill_packet a memory xs; timestamp = stamp }) r)
submitting-Accounts a a' memory xs rest stamp pool r v sized whole size rate latency run empty acc =
    record {
      ready = acc.ready;
      same_size = acc.same_size ∙ size;
      same_rate = acc.same_rate ∙ rate;
      same_latency = acc.same_latency ∙ latency;
      same_run = acc.same_run ∙ run;
      full = (
        ap length filled
            ∙ (length-append (buffered a) xs
                ∙ omega (
                  arith,
                  whole,
                  length-take a.sample_buffer_filled a.sample_buffer
                      (omega (arith, v.sized, v.room)),
                )),
        subst (λ n. AllFull n r.submitted) size acc.full,
      );
      lost = acc.lost;
      all =
          append_assoc (fill_packet a memory xs) (contents r.submitted) _
          ∙ ap (λ ys. fill_packet a memory xs ++ ys)
              (acc.all ∙ ap (λ ys. ys ++ rest) nothing_buffered)
          ∙ ap (λ ys. ys ++ rest) filled
          ∙ append_assoc (buffered a) xs rest;
      losses = ground (arith, acc.losses, size);
    }
  where
    filled : fill_packet a memory xs ≡ buffered a ++ xs
    filled = fill_packet-samples a memory xs v sized whole

    nothing_buffered : buffered a' ≡ []
    nothing_buffered = ap (λ n. take n a'.sample_buffer) empty
