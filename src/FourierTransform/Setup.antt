-- ===== src/FourierTransform/Setup.antt =====
-- Initialize of FourierTransform, and the states in which its sink must not be called.
use zamt.Prelude.{
  ℕ, ◌+◌, ◌*◌, ◌/◌, ◌^◌, ◌≤◌, ◌<◌, ◌≡◌, ◌≢◌, refl, sym, ◌∙◌, ap, false, List, [], Option, none,
  some, arith, length, map, replicate, length-replicate,
}
use zamt.Scheduler.Source.{Source, fresh, subscribe, subscribers}
use zamt.Scheduler.Source.Lifecycle.{get_packet-nil}
use zamt.Scheduler.Registry.{find_source}
use zamt.Scheduler.Api.{get_packet_size, get_packet_for_submission}
use zamt.Scheduler.System.{System, is_of}
use zamt.Scheduler.Tasks.{tally}
use zamt.Scheduler.System.Packets.{releases-Keeps}
use zamt.Scheduler.System.Releases.{releases-Released}
use zamt.Scheduler.System.Invariant.{Inv}
use zamt.Scheduler.System.Setup.{registers-Keeps, subscribes-Keeps}
use zamt.Scheduler.System.Joining.{registers-found, subscribes-found}
use zamt.LiveAudio.Fragment.{StereoSample}
use zamt.FourierTransform.{
  Fftw, Worker, Transformer, Initialized, initialize, sink, add_data, transform, sample_bytes,
  complex_bytes, packets_in_queue,
}
use zamt.FourierTransform.Calls.{IsReady, map-length, map-copy}
use zamt.FourierTransform.Runs.{IsUnheard}

module _ (l : Fftw) (audio self_id sink_name : ℕ) (y : System) {src : Source} (v : Inv y)
    (found : find_source audio y.scheduler.sources ≡ some src)
    (new : find_source self_id y.scheduler.sources ≡ none)
    (small : packets_in_queue * (complex_bytes * (src.packet_size / sample_bytes / 2 + 1))
      ≤ 2 ^ 31) where
  -- Initialize after that of the audio source, with packets whose spectra fit in the buffer: no
  -- assert fails, and it leaves the sizes of the worker, the sink and the own packets in agreement,
  -- a subscription of the audio source for a worker, and an own source with no sink yet.
  pub initialize_lem :
      (i : Initialized l) × (initialize l audio self_id sink_name y ≡ some i)
      × Inv i.system
      × (i.transformer.sample_count ≡ src.packet_size / sample_bytes)
      × (find_source audio i.system.scheduler.sources
          ≡ some (subscribe (some sink_name) false src).0)
      × ((ready : IsReady l i.transformer i.system) × IsUnheard i.transformer.self_id ready.source
            i.system)
  unfolding initialize get_packet_size fresh subscribers
  initialize_lem =
      let (y1, subscribes_it, v1) = subscribes-Keeps y audio (some sink_name) false v found in
      let (same1, at1) = subscribes-found y y1 audio (some sink_name) false v found subscribes_it in
      let apart : audio ≢ self_id = λ e. ground (arith, found, new, ap find e) in
      let new1 : find_source self_id y1.scheduler.sources ≡ none =
        ground (arith, at1 self_id, apart, new) in
      let fits : packets_in_queue * (complex_bytes * results) ≤ 2 ^ 31 =
        ground (arith, small, counted) in
      let (z, registers_it, v2) =
        registers-Keeps y1 self_id (complex_bytes * results) packets_in_queue v1 new1
          (omega (arith, counted)) (omega arith) fits in
      let (same2, at2) =
        registers-found y1 z self_id (complex_bytes * results) packets_in_queue v1 new1
          (omega arith) registers_it in
      let own : find_source self_id z.scheduler.sources
          ≡ some (fresh (complex_bytes * results) packets_in_queue) =
        ground (arith, at2 self_id) in
      let worker : Worker l = record {
        size = samples;
        input = silent;
        output = l.execute silent;
      } in
      (
        record {
          system = z;
          transformer = record {
            source_id = audio;
            subscription_id = 0;
            self_id = self_id;
            sample_count = samples;
            result_count = results;
            worker = worker;
            timestamp = 0;
          };
        },
        ground (arith, found, length-replicate samples l.zero_float, subscribes_it, registers_it),
        v2,
        refl,
        ground (arith, at2 audio, at1 audio, apart),
        (
          record {
            sized = refl;
            counted = counted;
            source = fresh (complex_bytes * results) packets_in_queue;
            found = own;
            size = refl;
          },
          record {
            quiet = refl;
            room = ground (
              arith,
              length-replicate {A = ℕ} (packets_in_queue * (complex_bytes * results)) 0,
              counted,
            );
            unreferenced = λ p.
                ground (arith, same2.refs self_id p, same1.refs self_id p, v.refs self_id p, new);
            unloaded = λ p. ground (arith, same2.loading, same1.loading, v.loads self_id p, new);
          },
        ),
      )
    where
      find : ℕ → Option Source
      find i = find_source i y.scheduler.sources

      samples : ℕ
      samples = src.packet_size / sample_bytes

      silent : List l.Float
      silent = replicate samples l.zero_float

      results : ℕ
      results = length {A = l.Float × l.Float} (map (λ item. item) (l.execute silent))

      counted : results ≡ samples / 2 + 1
      counted =
          map-length (λ (item : l.Float × l.Float). item) (l.execute silent)
          ∙ l.length-execute silent
          ∙ ap (λ k. k / 2 + 1) (length-replicate samples l.zero_float)

module _ (l : Fftw) where
  -- A call before RegisterSource, which a worker thread may make as soon as the sink is subscribed,
  -- fails the assert of GetPacketForSubmission that the own source is there.
  pub sink-unregistered :
      (id packet : ℕ) (samples : List StereoSample) (y : System) (f : Transformer l)
      → Inv y
      → id ≢ f.self_id
      → 0 < tally (is_of id packet) y.held
      → find_source f.self_id y.scheduler.sources ≡ none
      → sink l id packet samples y f ≡ none
  unfolding sink get_packet_for_submission
  sink-unregistered id packet samples y f v other held none_there =
      let (y1, releases_it, v1) = releases-Keeps y id packet v held in
      let r = releases-Released y y1 id packet v held releases_it in
      ground (arith, releases_it, r.others f.self_id (λ e. other (sym e)), none_there)

  -- A call when the sinks of the spectra have left no packet free fails the assert on the packet.
  pub sink-exhausted :
      (id packet : ℕ) (samples : List StereoSample) (y : System) (f : Transformer l) {own : Source}
      → Inv y
      → id ≢ f.self_id
      → 0 < tally (is_of id packet) y.held
      → find_source f.self_id y.scheduler.sources ≡ some own
      → own.free_packets ≡ []
      → sink l id packet samples y f ≡ none
  unfolding sink get_packet_for_submission
  sink-exhausted id packet samples y f {own} v other held found empty =
      let (y1, releases_it, v1) = releases-Keeps y id packet v held in
      let r = releases-Released y y1 id packet v held releases_it in
      ground (
        arith,
        releases_it,
        r.others f.self_id (λ e. other (sym e)),
        found,
        get_packet-nil {src = own} empty,
      )

  -- Two workers that call the sink at once share the wrapper: when the second has added its data
  -- before the first transforms, the first submits the spectrum of the second's packet.
  pub add_data-overtaken :
      (w : Worker l) (xs ys : List l.Float)
      → length xs ≡ w.size
      → length ys ≡ w.size
      → (a b : Worker l) × (add_data l xs w ≡ some a)
        × (add_data l ys a ≡ some b)
        × ((transform l b).0 ≡ l.execute ys)
  unfolding add_data transform
  add_data-overtaken w xs ys p q = (
    record w { input = xs },
    record w { input = ys },
    ground (arith, p),
    ground (arith, q),
    map-copy l (l.execute ys),
  )
