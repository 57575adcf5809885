-- ===== src/Program/Tests.antt =====
-- Starts of the program.
use zamt.Prelude.{
  ℕ, ◌/◌, ◌+◌, ◌≡◌, refl, List, [], ◌∷◌, none, some, length, replicate, length-replicate,
}
use zamt.Prelude.Int.{pos, negsuc}
use zamt.Params.{Cli, has_param, get_num_param}
use zamt.Core.Start.{begin, k_exit_code_help}
use zamt.Scheduler.Api.{create}
use zamt.Scheduler.System.Safety.{started}
use zamt.LiveAudio.Fragment.{StereoSample, silence}
use zamt.LiveAudio.Start.{select_device, construct as construct_audio}
use zamt.Windows.Start.{construct}
use zamt.FourierTransform.{Fftw}
use zamt.Program.{
  core, visualization, live_audio, fourier_transform, Ids, Program, create_modules,
  initialize_module, initialize_all, start,
}
use zamt.Program.Orders.{start-help, start-transform_first}

quiet_memory : ℕ → List StereoSample
quiet_memory n = replicate n silence

abbrev zeros : Fftw
zeros = record {
  Float = ℕ;
  zero_float = 0;
  of_int = λ n. 0;
  half = λ x. x / 2;
  execute = λ xs. replicate (length xs / 2 + 1) (0, 0);
  length-execute = λ xs. length-replicate (length xs / 2 + 1) (0, 0);
}

abbrev addresses : Ids
addresses = record { live_audio_id = 5; fourier_transform_id = 7; sink_name = 9 }

-- "p -j2 -ar48000"
abbrev two_workers : Cli
two_workers = record {
  argv = (112 ∷ []) ∷ (45 ∷ 106 ∷ 50 ∷ []) ∷ (45 ∷ 97 ∷ 114 ∷ 52 ∷ 56 ∷ 48 ∷ 48 ∷ 48 ∷ []) ∷ [];
}

-- "p -h"
abbrev for_help : Cli
for_help = record { argv = (112 ∷ []) ∷ (45 ∷ 104 ∷ []) ∷ [] }

start-help_example :
    (p : Program zeros quiet_memory addresses) × (start zeros quiet_memory addresses 4 for_help
        (fourier_transform ∷ live_audio ∷ core ∷ visualization ∷ [])
      ≡ some p)
    × (p.system ≡ none)
    × (p.fps ≡ none)
    × (p.live ≡ none)
    × (p.transformer ≡ none)
    × (p.exit_code ≡ k_exit_code_help)
unfolding has_param
start-help_example =
    start-help zeros quiet_memory addresses 4 for_help
      (fourier_transform ∷ live_audio ∷ core ∷ visualization ∷ []) refl

start-transform_first_example :
    (p q : Program zeros quiet_memory addresses) × (create_modules zeros quiet_memory addresses 4
        two_workers
      ≡ some p)
    × (initialize_all zeros quiet_memory addresses (core ∷ visualization ∷ []) p ≡ some q)
    × (q.system ≡ some (started 2 4))
    × (initialize_module zeros quiet_memory addresses fourier_transform q ≡ none)
    × (start zeros quiet_memory addresses 4 two_workers
          (core ∷ visualization ∷ fourier_transform ∷ live_audio ∷ [])
        ≡ none)
unfolding has_param get_num_param begin create construct select_device construct_audio
start-transform_first_example =
    start-transform_first zeros quiet_memory addresses 4 2 two_workers (some (pos 25))
      (some (record {
        selected_device = negsuc 0;
        requested_sample_rate = pos 48000;
        requested_overall_latency = pos 480;
      }))
      (core ∷ visualization ∷ []) (live_audio ∷ []) refl refl refl refl tt
