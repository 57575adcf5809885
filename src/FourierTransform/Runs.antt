-- ===== src/FourierTransform/Runs.antt =====
-- Calls of the sink of FourierTransform one after the other, with no sink on its own source.
use zamt.Prelude.{
  ℕ, suc, ◌*◌, ◌≤◌, ◌<◌, ◌≡◌, ◌≢◌, refl, sym, ◌∙◌, ap, subst, List, [], ◌∷◌, Option, some, arith,
  ◌==◌, if◌then◌else◌, length, map, count, ◌>>=◌,
}
use zamt.Scheduler.Tasks.{tally}
use zamt.Scheduler.Source.{Source}
use zamt.Scheduler.Registry.{find_source}
use zamt.Scheduler.System.{System, is_of, loans}
use zamt.Scheduler.System.Invariant.{Inv, references, tally-end_task}
use zamt.Scheduler.System.Safety.{packet_in_one_place}
use zamt.Scheduler.System.Exchange.{audience}
use zamt.LiveAudio.Fragment.{StereoSample}
use zamt.FourierTransform.{Fftw, Transformer, Call, sink}
use zamt.FourierTransform.Calls.{spectrum, IsReady, Called, sink_lem}

-- A packet with what is in its memory.
pub record Recorded : Type 0 where
  pub packet : ℕ
  pub samples : List StereoSample

-- No sink wants the packets of the source, and none of them is in use.
pub record IsUnheard (id : ℕ) (own : Source) (y : System) : Type 0 where
  pub quiet : audience own.subscriptions ≡ 0
  pub room : 0 < length own.packet_buffer
  pub unreferenced : (p : ℕ) → references id p y ≡ 0
  pub unloaded : (p : ℕ) → loans id p y.loading ≡ 0

-- Such a source has a free packet.
free_packet :
    (y : System) (id : ℕ) {own : Source}
    → Inv y
    → find_source id y.scheduler.sources ≡ some own
    → IsUnheard id own y
    → (n : ℕ) × (rest : List ℕ) × (own.free_packets ≡ n ∷ rest)
free_packet y id {own} v found u = listed own.free_packets refl
  where
    some_packet : 0 < length own.packet_usages
    some_packet = grind (arith, (v.valid id own found).buffer, u.room)

    once : count 0 own.free_packets ≡ 1
    once = omega (
      arith,
      packet_in_one_place y id 0 v found some_packet,
      u.unreferenced (0 * own.packet_size),
      u.unloaded (0 * own.packet_size),
    )

    listed :
        (free : List ℕ)
        → own.free_packets ≡ free
        → (n : ℕ) × (rest : List ℕ) × (own.free_packets ≡ n ∷ rest)
    listed [] e = absurd (ground (arith, once, ap (count 0) e))
    listed (n ∷ rest) e = (n, rest, e)

-- How often a packet is among those to come.
abbrev pub pending : ℕ → List Recorded → ℕ
pending p [] = 0
pending p (r ∷ rs) = if r.packet == p then suc (pending p rs) else pending p rs

abbrev pub AllSampled : ℕ → List Recorded → Type 0
AllSampled n [] = Unit {0}
AllSampled n (r ∷ rs) = (n ≤ length r.samples) × AllSampled n rs

module _ (l : Fftw) where
  -- The spectra that were submitted, and the state at the end.
  pub record Spectra : Type 0 where
    pub system : System
    pub transformer : Transformer l
    pub written : List (List (l.Float × l.Float))

  unfoldable pub sink_all : ℕ → List Recorded → System → Transformer l → Option Spectra
  sink_all id [] y f = some (record { system = y; transformer = f; written = [] })
  sink_all id (r ∷ rs) y f = do
    c ← sink l id r.packet r.samples y f
    rest ← sink_all id rs c.system c.transformer
    some (record rest { written = c.written ∷ rest.written })

  IsUnheard-Called :
      (id packet : ℕ) (samples : List StereoSample) (y : System) (f : Transformer l) {own : Source}
      {c : Call l}
      → IsUnheard f.self_id own y
      → (k : Called l id packet samples y f own c) → IsUnheard f.self_id k.ready.source c.system
  IsUnheard-Called id packet samples y f {own} {c} u k = record {
    quiet = ap audience k.subscriptions ∙ u.quiet;
    room = ground (arith, k.buffer, u.room);
    unreferenced = λ p. ground (arith, k.refs p, u.unreferenced p, u.quiet);
    unloaded = λ p. ap (loans f.self_id p) k.loading ∙ u.unloaded p;
  }

  -- With no sink on its own source the module never runs out of packets: for packets that the
  -- audio source's sink holds, however many, every call runs with no failed assert, and the
  -- spectra of the packets are submitted in turn.
  pub sink_all_lem :
      (id : ℕ) (rs : List Recorded) (y : System) (f : Transformer l)
      → Inv y
      → (ready : IsReady l f y) → IsUnheard f.self_id ready.source y
      → id ≢ f.self_id
      → ((p : ℕ) → pending p rs ≤ tally (is_of id p) y.held)
      → AllSampled f.sample_count rs
      → (out : Spectra) × (sink_all id rs y f ≡ some out)
        × (out.written ≡ map (λ r. spectrum l f.sample_count r.samples) rs)
        × Inv out.system
        × ((p : ℕ) → references f.self_id p out.system ≡ 0)
  unfolding sink_all
  sink_all_lem id [] y f v ready u other held sampled =
      (record { system = y; transformer = f; written = [] }, refl, refl, v, u.unreferenced)
  sink_all_lem id (r ∷ rs) y f v ready u other held sampled =
      let (n, rest, free) = free_packet y f.self_id v ready.found u in
      let holds : 0 < tally (is_of id r.packet) y.held = ground (arith, held r.packet) in
      let (c, runs, written, _, k) =
        sink_lem l id r.packet r.samples y f n rest v ready other holds sampled.0 free in
      let self : f.self_id ≡ c.transformer.self_id = sym k.same_source in
      let still : IsUnheard c.transformer.self_id k.ready.source c.system =
        subst (λ i. IsUnheard i k.ready.source c.system) self
          (IsUnheard-Called id r.packet r.samples y f u k) in
      let (out, runs_on, written_on, v', unused) =
        sink_all_lem id rs c.system c.transformer k.inv k.ready still
          (λ e. other (e ∙ k.same_source))
          (λ p. ground (arith, held p, k.held, holds, tally-end_task id r.packet id p y.held holds))
          (subst (λ m. AllSampled m rs) (sym k.same_count) sampled.1) in
      (
        record out { written = c.written ∷ out.written },
        rw (runs, runs_on) refl,
        ground (arith, written, written_on, k.same_count),
        v',
        λ p. ap (λ i. references i p out.system) self ∙ unused p,
      )
