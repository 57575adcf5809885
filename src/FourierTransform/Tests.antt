-- ===== src/FourierTransform/Tests.antt =====
-- Runs of FourierTransform with packets of two samples.
use zamt.Prelude.{
  ℕ, ◌+◌, ◌*◌, ◌/◌, ◌≤◌, ◌≡◌, refl, false, List, [], ◌∷◌, none, some, arith, length, map, replicate,
  length-replicate,
}
use zamt.Prelude.Int.{pos, pos_part, ◌+ℤ◌}
use zamt.Scheduler.Tasks.{pop_top}
use zamt.Scheduler.Source.{
  fresh, new_source, get_packet, submit, subscribe, packet_number, push_packets, add_tasks,
}
use zamt.Scheduler.Registry.{find_source, register, set_source}
use zamt.Scheduler.Api.{
  create, register_source, subscribe_to, get_packet_for_submission, submit_packet, dispatch,
}
use zamt.Scheduler.System.{
  System, Action, registers, subscribes, gets, submits, dispatches, perform, perform_all,
}
use zamt.Scheduler.System.Invariant.{Inv, references}
use zamt.Scheduler.System.Safety.{started}
use zamt.Scheduler.System.Reached.{or_started, Inv-or_started}
use zamt.LiveAudio.Fragment.{StereoSample}
use zamt.FourierTransform.{Fftw, Transformer, Initialized, Call, initialize, sink, complex_bytes}
use zamt.FourierTransform.Calls.{IsReady, Called, spectrum, sink_lem}
use zamt.FourierTransform.Runs.{IsUnheard, Recorded, Spectra, sink_all, sink_all_lem}
use zamt.FourierTransform.Setup.{initialize_lem, sink-unregistered}

abbrev sum : List ℕ → ℕ
sum [] = 0
sum (x ∷ xs) = x + sum xs

-- A transform whose every output is the sum of the inputs.
abbrev summing : Fftw
summing = record {
  Float = ℕ;
  zero_float = 0;
  of_int = pos_part;
  half = λ x. x / 2;
  execute = λ xs. replicate (length xs / 2 + 1) (sum xs, 0);
  length-execute = λ xs. length-replicate (length xs / 2 + 1) (sum xs, 0);
}

abbrev audio_script : List Action
audio_script = registers 1 8 2 ∷ []

with_audio : System
unfolding or_started perform_all perform create register_source register new_source fresh
    find_source push_packets
with_audio = or_started (perform_all audio_script (started 2 4))

with_audio-Inv : Inv with_audio
unfolding with_audio
with_audio-Inv =
    Inv-or_started audio_script with_audio ((refl, omega arith, omega arith, omega arith), tt) refl

initialized_here :
    (i : Initialized summing) × (initialize summing 1 2 9 with_audio ≡ some i)
    × Inv i.system
    × (i.transformer.sample_count ≡ 2)
    × (find_source 1 i.system.scheduler.sources ≡ some (subscribe (some 9) false (fresh 8 2)).0)
    × ((ready : IsReady summing i.transformer i.system) × IsUnheard i.transformer.self_id
          ready.source i.system)
unfolding with_audio
initialized_here =
    initialize_lem summing 1 2 9 with_audio {src = fresh 8 2} with_audio-Inv refl refl (omega arith)

-- A packet of audio is with the sink.
abbrev held_script : List Action
held_script =
    registers 1 8 2
    ∷ subscribes 1 (some 9) false
    ∷ registers 2 16 42
    ∷ gets 1
    ∷ submits 1 0 100
    ∷ dispatches false 0
    ∷ []

holding : System
unfolding with_audio subscribe_to subscribe set_source get_packet_for_submission get_packet
    submit_packet submit packet_number dispatch pop_top add_tasks
holding = or_started (perform_all held_script (started 2 4))

holding-Inv : Inv holding
unfolding holding
holding-Inv =
    Inv-or_started held_script holding
      (
        (refl, omega arith, omega arith, omega arith),
        (
          (_, refl),
          ((refl, omega arith, omega arith, omega arith), ((_, refl), (omega arith, (tt, tt)))),
        ),
      )
      refl

abbrev two_samples : List StereoSample
two_samples = record { left = pos 2; right = pos 4 } ∷ record { left = pos 6; right = pos 8 } ∷ []

abbrev transformer : Transformer summing
transformer = record {
  source_id = 1;
  subscription_id = 0;
  self_id = 2;
  sample_count = 2;
  result_count = 2;
  worker = record { size = 2; input = 0 ∷ 0 ∷ []; output = (0, 0) ∷ (0, 0) ∷ [] };
  timestamp = 0;
}

holding-IsReady : IsReady summing transformer holding
unfolding holding
holding-IsReady = record {
  sized = refl;
  counted = refl;
  source = fresh 16 42;
  found = refl;
  size = refl;
}

sink_lem_example :
    (c : Call summing) × (sink summing 1 0 two_samples holding transformer ≡ some c)
    × (c.written ≡ spectrum summing 2 two_samples)
    × (c.result_packet + complex_bytes * length c.written ≤ length (fresh 16 42).packet_buffer)
    × Called summing 1 0 two_samples holding transformer (fresh 16 42) c
unfolding holding holding-IsReady
sink_lem_example =
    sink_lem summing 1 0 two_samples holding transformer 0 (push_packets 41 41 []) holding-Inv
      holding-IsReady (omega arith) (omega arith) (omega arith) refl

holding-IsUnheard : IsUnheard 2 (fresh 16 42) holding
unfolding holding
holding-IsUnheard = record {
  quiet = refl;
  room = omega arith;
  unreferenced = λ p. ground arith;
  unloaded = λ p. refl;
}

abbrev recorded : List Recorded
recorded = record { packet = 0; samples = two_samples } ∷ []

sink_all_lem_example :
    (out : Spectra summing) × (sink_all summing 1 recorded holding transformer ≡ some out)
    × (out.written ≡ map (λ r. spectrum summing 2 r.samples) recorded)
    × Inv out.system
    × ((p : ℕ) → references 2 p out.system ≡ 0)
unfolding holding holding-IsReady
sink_all_lem_example =
    sink_all_lem summing 1 recorded holding transformer holding-Inv holding-IsReady
      holding-IsUnheard (omega arith) (λ p. ground arith) (omega arith, tt)

-- A packet of audio is with the sink, and no other source is registered.
abbrev early_script : List Action
early_script =
    registers 1 8 2
    ∷ subscribes 1 (some 9) false
    ∷ gets 1
    ∷ submits 1 0 100
    ∷ dispatches false 0
    ∷ []

early : System
unfolding holding
early = or_started (perform_all early_script (started 2 4))

early-Inv : Inv early
unfolding early
early-Inv =
    Inv-or_started early_script early
      (
        (refl, omega arith, omega arith, omega arith),
        ((_, refl), ((_, refl), (omega arith, (tt, tt)))),
      )
      refl

call_before_registration : sink summing 1 0 two_samples early transformer ≡ none
unfolding early
call_before_registration =
    sink-unregistered summing 1 0 two_samples early transformer early-Inv (omega arith)
      (omega arith) refl

-- The mean of the channels is 3 and 7.
two_spectrum : spectrum summing 2 two_samples ≡ (10, 0) ∷ (10, 0) ∷ []
unfolding ◌+ℤ◌
two_spectrum = refl
