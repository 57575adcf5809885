-- ===== src/Program.antt =====
-- core/src/main.cpp with the modules that it links: how the constructors and the functions
-- Initialize of Core, Visualization, LiveAudio and FourierTransform build on each other, and what
-- Core::Quit reaches. A result `none` is a failed assert, as in the modules themselves.
pub mod Starting
pub mod Orders
mod Tests
use zamt.Prelude.{ℕ, Bool, true, false, List, [], ◌∷◌, ◌++◌, Option, none, some, ◌>>=◌}
use zamt.Prelude.Int.{ℤ}
use zamt.Params.{Cli}
use zamt.Core.{no_exit_code}
use zamt.Core.Start.{Begun, quit, launched, begin}
use zamt.Scheduler.System.{System}
use zamt.LiveAudio.Fragment.{StereoSample}
use zamt.LiveAudio.Start.{
  Config, Live, construct as construct_audio, initialize as initialize_audio,
  shutdown as shutdown_audio,
}
use zamt.Windows.Start.{construct as construct_visualization}
use zamt.FourierTransform.{Fftw, Transformer, should_run_dft, initialize as initialize_transform}

-- The classes of the modules; the static initialization of the program puts them in some order.
pub data ModuleClass : Type 0 where
  core visualization live_audio fourier_transform : ModuleClass

-- `GetId` is the address of a static object of the class.
pub record Ids : Type 0 where
  pub live_audio_id : ℕ
  pub fourier_transform_id : ℕ
  pub sink_name : ℕ

module _ (l : Fftw) (memory : ℕ → List StereoSample) (ids : Ids) where
  -- `system` is there when Core has a scheduler. `fps` is there when the thread of the windows
  -- runs, `live` when that of LiveAudio does, and `transformer` when FourierTransform has its
  -- sink.
  pub record Program : Type 0 where
    pub exit_code : ℤ
    pub on_quit_callbacks : List ModuleClass
    pub system : Option System
    pub fps : Option ℤ
    pub shutdown_initiated : Bool
    pub config : Option Config
    pub live : Option Live
    pub should_run : Bool
    pub transformer : Option (Transformer l)

  abbrev pub exit_code_of : Begun → ℤ
  exit_code_of (quit exit_code) = exit_code
  exit_code_of (launched scheduler) = no_exit_code

  abbrev pub system_of : Begun → Option System
  system_of (quit exit_code) = none
  system_of (launched scheduler) = some (record { scheduler = scheduler; loading = []; held = [] })

  -- The constructors of the modules, which need nothing of each other.
  unfoldable pub create_modules : ℕ → Cli → Option Program
  create_modules hardware_concurrency cli = do
    begun ← begin hardware_concurrency cli
    fps ← construct_visualization cli
    config ← construct_audio cli
    some (record {
      exit_code = exit_code_of begun;
      on_quit_callbacks = [];
      system = system_of begun;
      fps = fps;
      shutdown_initiated = false;
      config = config;
      live = none;
      should_run = should_run_dft cli;
      transformer = none;
    })

  abbrev pub register_for_quit_event : ModuleClass → Program → Program
  register_for_quit_event m p = record p { on_quit_callbacks = p.on_quit_callbacks ++ (m ∷ []) }

  -- `Core::scheduler` asserts that there is one.
  abbrev pub start_audio : Config → Program → Option Program
  start_audio config p = do
    system ← p.system
    (live, y) ← initialize_audio memory ids.live_audio_id (some config) system
    some (record (register_for_quit_event live_audio p) { system = some y; live = live })

  abbrev pub start_transform : Program → Option Program
  start_transform p = do
    system ← p.system
    i ← initialize_transform l ids.live_audio_id ids.fourier_transform_id ids.sink_name system
    some (record p { system = some i.system; transformer = some i.transformer })

  -- The functions Initialize. Those of modules that are not to run return at once.
  unfoldable pub initialize_module : ModuleClass → Program → Option Program
  initialize_module core p = some p
  initialize_module visualization p = some (register_for_quit_event visualization p)
  initialize_module live_audio p = elim p.config [
    | none ↦ some p
    | some config ↦ start_audio config p
  ]
  initialize_module fourier_transform p = elim p.should_run [
    | true ↦ start_transform p
    | false ↦ some p
  ]

  unfoldable pub initialize_all : List ModuleClass → Program → Option Program
  initialize_all [] p = some p
  initialize_all (m ∷ ms) p = do p' ← initialize_module m p; initialize_all ms p'

  -- The constructor of ModuleCenter: all modules are created, then all are initialized.
  unfoldable pub start : ℕ → Cli → List ModuleClass → Option Program
  unfolding create_modules initialize_all
  start hardware_concurrency cli modules = do
    p ← create_modules hardware_concurrency cli
    initialize_all modules p

  -- The callback that the module has registered.
  abbrev pub shutdown_module : ModuleClass → Program → Program
  shutdown_module core p = p
  shutdown_module visualization p = record p { shutdown_initiated = true }
  shutdown_module live_audio p = record p { live = shutdown_audio p.live }
  shutdown_module fourier_transform p = p

  abbrev pub shutdown_all : List ModuleClass → Program → Program
  shutdown_all [] p = p
  shutdown_all (m ∷ ms) p = shutdown_all ms (shutdown_module m p)

  -- `Core::Quit`
  abbrev pub quit_program : ℤ → Program → Program
  quit_program exit_code p = record (shutdown_all p.on_quit_callbacks p) { exit_code = exit_code }
