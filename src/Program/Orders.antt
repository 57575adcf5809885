-- ===== src/Program/Orders.antt =====
-- Starting the program with "-h", and in an order of the modules that does not work.
use zamt.Prelude.{
  Option, ℕ, ◌≡◌, refl, true, false, List, [], ◌∷◌, ◌++◌, none, some, arith, Option-cases, inl, inr,
}
use zamt.Prelude.Int.{ℤ}
use zamt.Params.{Cli, has_param}
use zamt.Core.{no_exit_code}
use zamt.Core.Start.{help_param, k_exit_code_help, launched, begin}
use zamt.Scheduler.Registry.{find_source}
use zamt.Scheduler.Api.{create, get_packet_size}
use zamt.Scheduler.System.{System}
use zamt.Scheduler.System.Safety.{started}
use zamt.LiveAudio.Fragment.{StereoSample}
use zamt.LiveAudio.Start.{Config, construct as construct_audio}
use zamt.Windows.Start.{construct as construct_visualization}
use zamt.FourierTransform.{Fftw, should_run_dft, initialize as initialize_transform}
use zamt.Program.{
  ModuleClass, core, visualization, live_audio, fourier_transform, Ids, Program, create_modules,
  initialize_module, initialize_all, start,
}

-- Modules other than LiveAudio and FourierTransform.
abbrev pub AllOthers : List ModuleClass → Type 0
AllOthers [] = Unit {0}
AllOthers (core ∷ ms) = AllOthers ms
AllOthers (visualization ∷ ms) = AllOthers ms
AllOthers (live_audio ∷ ms) = ⊥
AllOthers (fourier_transform ∷ ms) = ⊥

module _ (l : Fftw) (memory : ℕ → List StereoSample) (ids : Ids) where
  -- Modules that are not to run change nothing but the list of callbacks.
  all_idle :
      (order : List ModuleClass) (p : Program l memory ids)
      → p.config ≡ none
      → p.should_run ≡ false
      → (q : Program l memory ids) × (initialize_all l memory ids order p ≡ some q)
        × ((q.system ≡ p.system)
            × (q.fps ≡ p.fps)
            × (q.live ≡ p.live)
            × (q.transformer ≡ p.transformer)
            × (q.exit_code ≡ p.exit_code))
  unfolding initialize_all initialize_module
  all_idle [] p quiet off = (p, refl, (refl, refl, refl, refl, refl))
  all_idle (core ∷ order) p quiet off = all_idle order p quiet off
  all_idle (visualization ∷ order) p quiet off = all_idle order _ quiet off
  all_idle (live_audio ∷ order) p quiet off =
      let (q, runs, same) = all_idle order p quiet off in (q, ground (arith, quiet, runs), same)
  all_idle (fourier_transform ∷ order) p quiet off =
      let (q, runs, same) = all_idle order p quiet off in (q, ground (arith, off, runs), same)

  -- With "-h", whatever the other parameters and the order of the modules, no assert fails, no
  -- thread is started and no scheduler is made; the program has the exit code for help.
  pub start-help :
      (hardware : ℕ) (cli : Cli) (order : List ModuleClass)
      → has_param help_param cli ≡ true
      → (p : Program l memory ids) × (start l memory ids hardware cli order ≡ some p)
        × (p.system ≡ none)
        × (p.fps ≡ none)
        × (p.live ≡ none)
        × (p.transformer ≡ none)
        × (p.exit_code ≡ k_exit_code_help)
  unfolding start create_modules begin construct_visualization construct_audio should_run_dft
  start-help hardware cli order help =
      let (p, runs, (system, fps, live, transformer, code)) =
        all_idle order
          (record {
            exit_code = k_exit_code_help;
            on_quit_callbacks = [];
            system = none;
            fps = none;
            shutdown_initiated = false;
            config = none;
            live = none;
            should_run = false;
            transformer = none;
          })
          refl refl in
      (p, ground (arith, help, runs), system, fps, live, transformer, code)

  -- The functions Initialize of the other modules run, and change no state but the list of
  -- callbacks.
  others_run :
      (before : List ModuleClass) (p : Program l memory ids)
      → AllOthers before
      → (q : Program l memory ids) × (initialize_all l memory ids before p ≡ some q)
        × (q.system ≡ p.system)
        × (q.should_run ≡ p.should_run)
  unfolding initialize_all initialize_module
  others_run [] p others = (p, refl, refl, refl)
  others_run (core ∷ before) p others = others_run before p others
  others_run (visualization ∷ before) p others = others_run before _ others
  others_run (live_audio ∷ before) p others = absurd others
  others_run (fourier_transform ∷ before) p others = absurd others

  initialize_all-append :
      (before after : List ModuleClass) (p q : Program l memory ids)
      → initialize_all l memory ids before p ≡ some q
      → initialize_all l memory ids (before ++ after) p ≡ initialize_all l memory ids after q
  unfolding initialize_all
  initialize_all-append [] after p q e = ground (arith, e)
  initialize_all-append (m ∷ before) after p q e =
      elim (Option-cases (initialize_module l memory ids m p)) [
        | inl fails ↦ ground (arith, fails, e)
        | inr (r, first) ↦
            let rest = initialize_all-append before after r q in ground (arith, first, e, rest)
      ]

  -- FourierTransform finds no source of the audio in a scheduler without it.
  transform-fails :
      (p : Program l memory ids) (y : System)
      → p.should_run ≡ true
      → p.system ≡ some y
      → find_source ids.live_audio_id y.scheduler.sources ≡ none
      → initialize_module l memory ids fourier_transform p ≡ none
  unfolding initialize_module initialize_transform get_packet_size
  transform-fails p y on there missing = ground (arith, on, there, missing)

  -- The program after the constructors, with a scheduler.
  abbrev created : ℕ → ℕ → Option ℤ → Option Config → Program l memory ids
  created hardware workers fps config = record {
    exit_code = no_exit_code;
    on_quit_callbacks = [];
    system = some (started workers hardware);
    fps = fps;
    shutdown_initiated = false;
    config = config;
    live = none;
    should_run = true;
    transformer = none;
  }

  create-runs :
      (hardware workers : ℕ) (cli : Cli) (fps : Option ℤ) (config : Option Config)
      → has_param help_param cli ≡ false
      → begin hardware cli ≡ some (launched (create workers hardware))
      → construct_visualization cli ≡ some fps
      → construct_audio cli ≡ some config
      → create_modules l memory ids hardware cli ≡ some (created hardware workers fps config)
  unfolding create_modules should_run_dft
  create-runs hardware workers cli fps config no_help begins shows audio =
      ground (arith, no_help, begins, shows, audio)

  -- Without "-h", where Core launches a scheduler and the constructors of the other modules accept
  -- the parameters: with FourierTransform before LiveAudio among the modules, an order that the
  -- static initialization may give, all constructors and the functions Initialize of the modules
  -- before FourierTransform run, but that of FourierTransform fails an assert, as the scheduler has
  -- no source yet, and so the program does not start.
  pub start-transform_first :
      (hardware workers : ℕ) (cli : Cli) (fps : Option ℤ) (config : Option Config)
      (before after : List ModuleClass)
      → has_param help_param cli ≡ false
      → begin hardware cli ≡ some (launched (create workers hardware))
      → construct_visualization cli ≡ some fps
      → construct_audio cli ≡ some config
      → AllOthers before
      → (p q : Program l memory ids) × (create_modules l memory ids hardware cli ≡ some p)
        × (initialize_all l memory ids before p ≡ some q)
        × (q.system ≡ some (started workers hardware))
        × (initialize_module l memory ids fourier_transform q ≡ none)
        × (start l memory ids hardware cli (before ++ (fourier_transform ∷ after)) ≡ none)
  unfolding start create find_source initialize_all
  start-transform_first hardware workers cli fps config before after no_help begins shows audio
        others =
      let (q, runs, system, should_run) =
        others_run before (created hardware workers fps config) others in
      let fails = transform-fails q (started workers hardware) should_run system refl in
      let creates = create-runs hardware workers cli fps config no_help begins shows audio in
      let together =
        initialize_all-append before (fourier_transform ∷ after)
          (created hardware workers fps config) q runs in
      (
        created hardware workers fps config,
        q,
        creates,
        runs,
        system,
        fails,
        ground (arith, creates, together, fails),
      )
