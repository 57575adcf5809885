-- ===== src/FourierTransform/Calls.antt =====
-- One call of the sink of FourierTransform, in a scheduler with the invariant.
use zamt.Prelude.{
  ℕ, suc, ◌+◌, ◌*◌, ◌/◌, ◌%◌, ◌^◌, ◌≤◌, ◌<◌, ◌≡◌, ◌≢◌, refl, sym, ◌∙◌, ap, List, [], ◌∷◌, some,
  arith, ◌==◌, length, take, map, length-take, if◌then◌else◌,
}
use zamt.Scheduler.Tasks.{tally}
use zamt.Scheduler.Source.{Source}
use zamt.Scheduler.Registry.{find_source}
use zamt.Scheduler.System.{System, is_of, end_task}
use zamt.Scheduler.System.Invariant.{Inv, references}
use zamt.Scheduler.System.Packets.{releases-Keeps}
use zamt.Scheduler.System.Releases.{releases-Released}
use zamt.Scheduler.System.Exchange.{audience, get-submit}
use zamt.LiveAudio.Fragment.{StereoSample}
use zamt.FourierTransform.{Fftw, Worker, Transformer, Call, sink, mono, complex_bytes}

pub map-length {ℓ κ} :
    {A : Type ℓ} {B : Type κ} (f : A → B) (xs : List A) → length (map f xs) ≡ length xs
map-length f [] = refl
map-length f (x ∷ xs) = ap suc (map-length f xs)

module _ (l : Fftw) where
  -- The spectrum of a packet, with no worker: that of the mean of its two channels.
  abbrev pub spectrum : ℕ → List StereoSample → List (l.Float × l.Float)
  spectrum sample_count samples = l.execute (map (mono l) (take sample_count samples))

  -- The sizes that Initialize has chosen, and the source that it has registered.
  pub record IsReady (f : Transformer l) (y : System) : Type 0 where
    pub sized : f.worker.size ≡ f.sample_count
    pub counted : f.result_count ≡ f.sample_count / 2 + 1
    pub source : Source
    pub found : find_source f.self_id y.scheduler.sources ≡ some source
    pub size : source.packet_size ≡ complex_bytes * f.result_count

  -- What a call leaves behind, but for what it writes.
  pub record Called (id packet : ℕ) (samples : List StereoSample) (y : System) (f : Transformer l)
      (own : Source) (c : Call l) : Type 0 where
    pub inv : Inv c.system
    pub ready : IsReady c.transformer c.system
    pub same_source : c.transformer.self_id ≡ f.self_id
    pub same_count : c.transformer.sample_count ≡ f.sample_count
    pub buffer : ready.source.packet_buffer ≡ own.packet_buffer
    pub subscriptions : ready.source.subscriptions ≡ own.subscriptions
    pub time : c.transformer.timestamp ≡ (f.timestamp + 1) % 2 ^ 64
    pub held : c.system.held ≡ end_task id packet y.held
    pub loading : c.system.loading ≡ y.loading
    pub refs :
        (p : ℕ)
        → references f.self_id p c.system
          ≡ references f.self_id p y
            + (if c.result_packet == p then audience own.subscriptions else 0)

  pub map-copy : (xs : List (l.Float × l.Float)) → map (λ item. (item.0, item.1)) xs ≡ xs
  map-copy [] = refl
  map-copy (x ∷ xs) = ap (λ ys. x ∷ ys) (map-copy xs)

  length-spectrum :
      (n : ℕ) (samples : List StereoSample)
      → n ≤ length samples
      → (length (map (mono l) (take n samples)) ≡ n) × (length (spectrum n samples) ≡ n / 2 + 1)
  length-spectrum n samples enough =
      let e : length (map (mono l) (take n samples)) ≡ n =
        map-length (mono l) (take n samples) ∙ length-take n samples enough in
      (e, l.length-execute (map (mono l) (take n samples)) ∙ ap (λ k. k / 2 + 1) e)

  module _ (id packet : ℕ) (samples : List StereoSample) (y : System) (f : Transformer l) where
    -- A call for a packet that a sink holds, of another source, while a packet of its own is free:
    -- no assert fails, what it submits is the spectrum of the packet, whatever the worker held
    -- before, and the spectrum lies inside the buffer.
    pub sink_lem :
        (n : ℕ) (rest : List ℕ)
        → Inv y
        → (ready : IsReady f y) → id ≢ f.self_id
        → 0 < tally (is_of id packet) y.held
        → f.sample_count ≤ length samples
        → ready.source.free_packets ≡ n ∷ rest
        → (c : Call l) × (sink l id packet samples y f ≡ some c)
          × (c.written ≡ spectrum f.sample_count samples)
          × (c.result_packet + complex_bytes * length c.written ≤ length ready.source.packet_buffer)
          × Called id packet samples y f ready.source c
    unfolding sink
    sink_lem n rest v ready other held enough free =
        let (y1, releases_it, v1) = releases-Keeps y id packet v held in
        let r = releases-Released y y1 id packet v held releases_it in
        let found1 : find_source f.self_id y1.scheduler.sources ≡ some ready.source =
          r.others f.self_id (λ e. other (sym e)) ∙ ready.found in
        let (s, gets_it, inside, (z, submits_it, kept, d)) =
          get-submit y1 f.self_id f.timestamp n rest v1 found1 free in
        let (fits, results) = length-spectrum f.sample_count samples enough in
        let worker : Worker l = record f.worker {
          input = map (mono l) (take f.sample_count samples);
          output = spectrum f.sample_count samples;
        } in
        (
          record {
            system = z;
            transformer = record f { worker = worker; timestamp = (f.timestamp + 1) % 2 ^ 64 };
            result_packet = n * ready.source.packet_size;
            written = spectrum f.sample_count samples;
          },
          ground (
            arith,
            releases_it,
            fits,
            ready.sized,
            ready.counted,
            results,
            gets_it,
            submits_it,
            map-copy (spectrum f.sample_count samples),
          ),
          refl,
          grind (arith, inside, results, ready.size, ready.counted),
          record {
            inv = d.inv;
            ready = record {
              sized = ready.sized;
              counted = ready.counted;
              source = d.source;
              found = d.found;
              size = d.size ∙ ready.size;
            };
            same_source = refl;
            same_count = refl;
            buffer = d.buffer;
            subscriptions = d.subscriptions;
            time = refl;
            held = d.held ∙ r.held;
            loading = kept ∙ r.loading;
            refs = λ p. ground (arith, d.refs f.self_id p, r.refs f.self_id p, other);
          },
        )
