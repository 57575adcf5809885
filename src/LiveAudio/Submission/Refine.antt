-- ===== src/LiveAudio/Submission/Refine.antt =====
-- ProcessFragment with the scheduler against ProcessFragment with a list of free packets.
use zamt.Prelude.{
  Bool, ℕ, zero, suc, ◌-◌, ◌*◌, ◌≡◌, ◌≢◌, ◌⊎◌, refl, ◌∙◌, true, false, List, [], ◌∷◌, Option, none,
  some, arith, leb, ◌==◌, length, Bool-cases, Option-cases, inl, inr,
}
use zamt.Scheduler.Source.{Source}
use zamt.Scheduler.Registry.{find_source}
use zamt.Scheduler.System.{System}
use zamt.Scheduler.System.Invariant.{Inv}
use zamt.Scheduler.System.Exchange.{get-submit, get-null}
use zamt.LiveAudio.Fragment.{
  StereoSample, Audio, Buffer, Processed, piece, advance, next_timestamp, fill_packet, submitting,
  keep_rest, duration, add_time, fragment_loop,
}
use zamt.LiveAudio.Fragment.Samples.{AllSized}
use zamt.LiveAudio.Submission.{Submission, submission_loop}

-- The scheduler after the calls: nothing is kept from it, and the source is still there.
pub record Returned (id : ℕ) (src : Source) (y z : System) : Type 0 where
  pub inv : Inv z
  pub loading : z.loading ≡ y.loading
  pub held : z.held ≡ y.held
  pub source : Source
  pub found : find_source id z.scheduler.sources ≡ some source
  pub size : source.packet_size ≡ src.packet_size
  pub subscriptions : source.subscriptions ≡ src.subscriptions

-- Both runs fail, or both end with the same result.
abbrev pub Agrees : ℕ → Source → System → Option Submission → Option Processed → Type 0
Agrees id src y o p =
    ((o ≡ none) × (p ≡ none))
    ⊎ ((s : Submission) × (o ≡ some s) × (p ≡ some s.processed) × Returned id src y s.system)

unchanged :
    {y : System} {id : ℕ} {src : Source}
    → Inv y
    → find_source id y.scheduler.sources ≡ some src
    → Returned id src y y
unchanged {src} v found = record {
  inv = v;
  loading = refl;
  held = refl;
  source = src;
  found = found;
  size = refl;
  subscriptions = refl;
}

module _ (ndebug : Bool) (id : ℕ) (memory : ℕ → List StereoSample) (size : ℕ)
    (sized : (p : ℕ) → length (memory p) ≡ size) where
  -- What is to be shown of some rounds of the loop.
  abbrev pub Loops : ℕ → Audio → Buffer → ℕ → ℕ → System → Source → Type 0
  Loops fuel a buffer samples time y src =
      (pool : List (List StereoSample)) × AllSized size pool
      × Agrees id src y (submission_loop ndebug fuel id memory a buffer samples time y)
          (fragment_loop ndebug fuel a buffer samples time pool)

  module _ (fuel : ℕ) (a : Audio) (buffer : Buffer) (samples time : ℕ) (y : System) {src : Source}
      (v : Inv y) (found : find_source id y.scheduler.sources ≡ some src) where
    ended : samples ≡ 0 → Loops (suc fuel) a buffer samples time y src
    unfolding submission_loop fragment_loop
    ended none_left = (
      [],
      tt,
      inr (
        record { processed = record { audio = a; submitted = []; overrun = false }; system = y },
        ground arith,
        ground arith,
        unchanged v found,
      ),
    )

    kept :
        samples ≢ 0
        → leb (a.submit_buffer_size - a.sample_buffer_filled) samples ≡ false
        → Loops (suc fuel) a buffer samples time y src
    unfolding submission_loop fragment_loop
    kept some_left short = elim (Option-cases (piece buffer samples)) [
      | inl fails ↦ ([], tt, inl (ground (arith, fails), ground (arith, fails)))
      | inr (part, is) ↦ (
        [],
        tt,
        inr (
          record { processed = keep_rest a part; system = y },
          ground (arith, is),
          ground (arith, is),
          unchanged v found,
        ),
      )
    ]

    overrun :
        samples ≢ 0
        → leb (a.submit_buffer_size - a.sample_buffer_filled) samples ≡ true
        → src.free_packets ≡ []
        → Loops (suc fuel) a buffer samples time y src
    unfolding submission_loop fragment_loop
    overrun some_left enough free =
        let (s, gets_it, w, found1) = get-null y id v found free in
        elim (Bool-cases ndebug) [
          | inr checks ↦ ([], tt, inl (ground (arith, gets_it, checks), ground (arith, checks)))
          | inl drops ↦ (
            [],
            tt,
            inr (
              record {
                processed = record { audio = a; submitted = []; overrun = true };
                system = record y { scheduler = s };
              },
              ground (arith, gets_it, drops),
              ground (arith, drops),
              record {
                inv = w;
                loading = refl;
                held = refl;
                source = src;
                found = found1;
                size = refl;
                subscriptions = refl;
              },
            ),
          )
        ]

    abbrev Later : Type 0
    Later =
        (z : System) (own : Source)
        → Inv z
        → find_source id z.scheduler.sources ≡ some own
        → Loops fuel (record a { last_timestamp = next_timestamp a time; sample_buffer_filled = 0 })
            (advance buffer (a.submit_buffer_size - a.sample_buffer_filled))
            (samples - (a.submit_buffer_size - a.sample_buffer_filled))
            (add_time time (duration a (a.submit_buffer_size - a.sample_buffer_filled))) z own

    -- A round that submits a packet, before rounds that agree.
    next :
        (n : ℕ) (rest : List ℕ)
        → samples ≢ 0
        → leb (a.submit_buffer_size - a.sample_buffer_filled) samples ≡ true
        → src.free_packets ≡ n ∷ rest
        → Later
        → Loops (suc fuel) a buffer samples time y src
    unfolding submission_loop fragment_loop
    next n rest some_left enough free later =
        let (s, gets_it, inside, (z, submits_it, kept, d)) =
          get-submit y id (next_timestamp a time) n rest v found free in
        let (pool, all_sized, agrees) = later z d.source d.inv d.found in
        let packet : ℕ = n * src.packet_size in
        elim (Option-cases (piece buffer (a.submit_buffer_size - a.sample_buffer_filled))) [
          | inl fails ↦ (
            memory packet ∷ pool,
            (sized packet, all_sized),
            inl (ground (arith, gets_it, fails, enough), ground (arith, fails, enough)),
          )
          | inr (part, is) ↦ (
            memory packet ∷ pool,
            (sized packet, all_sized),
            elim agrees [
              | inl (stops, stops') ↦ inl (
                ground (arith, gets_it, is, submits_it, enough, stops),
                ground (arith, is, enough, stops'),
              )
              | inr (out, ends, ends', ret) ↦ inr (
                record out {
                  processed =
                      submitting
                        (record {
                          samples = fill_packet a (memory packet) part;
                          timestamp = next_timestamp a time;
                        })
                        out.processed;
                },
                ground (arith, gets_it, is, submits_it, enough, ends),
                ground (arith, is, enough, ends'),
                record {
                  inv = ret.inv;
                  loading = ret.loading ∙ kept;
                  held = ret.held ∙ d.held;
                  source = ret.source;
                  found = ret.found;
                  size = ret.size ∙ d.size;
                  subscriptions = ret.subscriptions ∙ d.subscriptions;
                },
              )
            ],
          )
        ]

    full :
        (free : List ℕ)
        → src.free_packets ≡ free
        → samples ≢ 0
        → leb (a.submit_buffer_size - a.sample_buffer_filled) samples ≡ true
        → Later
        → Loops (suc fuel) a buffer samples time y src
    full [] free some_left enough later = overrun some_left enough free
    full (n ∷ rest) free some_left enough later = next n rest some_left enough free later

    round : Later → Loops (suc fuel) a buffer samples time y src
    round later = elim (Bool-cases (samples == 0)) [
      | inl e ↦ ended (ground (arith, e))
      | inr e ↦ elim (Bool-cases (leb (a.submit_buffer_size - a.sample_buffer_filled) samples)) [
        | inr short ↦ kept (ground (arith, e)) short
        | inl enough ↦ full src.free_packets refl (ground (arith, e)) enough later
      ]
    ]

  -- For any buffer, also one that the loop fails on: the loop on the scheduler does what it does
  -- on a list of free packets.
  pub submission_loop-Loops :
      (fuel : ℕ) (a : Audio) (buffer : Buffer) (samples time : ℕ) (y : System) {src : Source}
      → Inv y
      → find_source id y.scheduler.sources ≡ some src
      → Loops fuel a buffer samples time y src
  unfolding submission_loop fragment_loop
  submission_loop-Loops zero a buffer samples time y {src} v found =
      elim (Bool-cases (samples == 0)) [
        | inl e ↦ (
          [],
          tt,
          inr (
            record {
              processed = record { audio = a; submitted = []; overrun = false };
              system = y;
            },
            rw e refl,
            rw e refl,
            unchanged v found,
          ),
        )
        | inr e ↦ ([], tt, inl (rw e refl, rw e refl))
      ]
  submission_loop-Loops (suc fuel) a buffer samples time y {src} v found =
      round fuel a buffer samples time y v found
        (λ z own w found1. submission_loop-Loops fuel _ _ _ _ z {src = own} w found1)
