-- ===== src/LiveAudio/Start/Tests.antt =====
-- Starts of LiveAudio.
use zamt.Prelude.{ℕ, ◌≡◌, refl, List, [], ◌∷◌, some, arith, replicate, length-replicate, ◌>>=◌}
use zamt.Prelude.Int.{pos}
use zamt.Params.{Cli, has_param, get_num_param}
use zamt.Scheduler.Api.{create}
use zamt.Scheduler.Registry.{find_source}
use zamt.Scheduler.System.{System}
use zamt.Scheduler.System.Safety.{started, started-Inv}
use zamt.LiveAudio.Fragment.{StereoSample, silence}
use zamt.LiveAudio.Start.{Live, select_device, construct, initialize}
use zamt.LiveAudio.Start.Ready.{IsLive, construct-initialize}

silent_memory : ℕ → List StereoSample
silent_memory n = replicate n silence

-- The program with the rate 48000 and the device 3: "p -ar48000 -ad3".
abbrev command_line : Cli
command_line = record {
  argv =
      (112 ∷ []) ∷ (45 ∷ 97 ∷ 114 ∷ 52 ∷ 56 ∷ 48 ∷ 48 ∷ 48 ∷ []) ∷ (45 ∷ 97 ∷ 100 ∷ 51 ∷ []) ∷ [];
}

command_line_config :
    construct command_line
    ≡ some (
        some (record {
          selected_device = pos 3;
          requested_sample_rate = pos 48000;
          requested_overall_latency = pos 480;
        }))
unfolding construct has_param get_num_param
command_line_config = refl

construct-initialize_example :
    (live : Live) × (z : System) × ((construct command_line >>= λ c.
    initialize silent_memory 5 c (started 2 4))
      ≡ some (some live, z))
    × IsLive 5 48000 480 (started 2 4) live z
unfolding has_param get_num_param silent_memory create find_source select_device
construct-initialize_example =
    construct-initialize silent_memory (λ n. length-replicate n silence) 5 (started 2 4)
      (started-Inv 2 4) refl command_line (pos 3) (pos 48000) 48000 refl refl refl refl refl
      (omega arith) (omega arith)
