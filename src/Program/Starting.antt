-- ===== src/Program/Starting.antt =====
-- Starting the program with all its modules.
use zamt.Prelude.{ℕ, ◌*◌, ◌≡◌, true, false, List, [], ◌∷◌, some}
use zamt.Prelude.Int.{ℤ}
use zamt.Core.{no_exit_code}
use zamt.Scheduler.Source.{fresh, subscribe}
use zamt.Scheduler.Registry.{find_source}
use zamt.Scheduler.System.{System}
use zamt.Scheduler.System.Invariant.{Inv}
use zamt.LiveAudio.Fragment.{StereoSample}
use zamt.LiveAudio.Fragment.Samples as Samples
use zamt.LiveAudio.Objects.{Round, iterate}
use zamt.LiveAudio.Start.{
  Live, shutdown as shutdown_audio, construct as construct_audio, initialize as initialize_audio,
  stereo_sample_bytes,
}
use zamt.Windows.Start.{construct as construct_visualization}
use zamt.FourierTransform.{Fftw, Transformer, initialize as initialize_transform}
use zamt.FourierTransform.Calls.{IsReady}
use zamt.FourierTransform.Runs.{IsUnheard}
use zamt.Program.{ModuleClass, core, visualization, live_audio, fourier_transform, Ids, Program}

abbrev pub working_order : List ModuleClass
working_order = core ∷ visualization ∷ live_audio ∷ fourier_transform ∷ []

module _ (l : Fftw) (memory : ℕ → List StereoSample) (ids : Ids) where
  -- Every module runs: the audio source has the sink of FourierTransform as its subscriber, whose
  -- own source is there.
  pub record IsStarted (rate : ℕ) (fps : ℤ) (p : Program l memory ids) : Type 0 where
    pub system : System
    pub there : p.system ≡ some system
    pub inv : Inv system
    pub live : Live
    pub audio_runs : p.live ≡ some live
    pub samples : Samples.IsReady live.audio
    pub on : live.audio.audio_loop_should_run ≡ true
    pub transformer : Transformer l
    pub transforms : p.transformer ≡ some transformer
    pub whole : transformer.sample_count ≡ live.audio.submit_buffer_size
    pub capacity : ℕ
    pub heard :
        find_source ids.live_audio_id system.scheduler.sources
        ≡ some
            (subscribe
              (some ids.sink_name)
              false
              (fresh (live.audio.submit_buffer_size * stereo_sample_bytes) capacity)).0
    pub ready : IsReady l transformer system
    pub unheard : IsUnheard transformer.self_id ready.source system
    pub shows : p.fps ≡ some fps
    pub open_windows : p.shutdown_initiated ≡ false
    pub no_code : p.exit_code ≡ no_exit_code

  -- The loops of the audio thread and of the windows end at their next test.
  pub record HasStopped (exit_code : ℤ) (q : Program l memory ids) : Type 0 where
    pub live : Live
    pub audio_runs : q.live ≡ some live
    pub no_packets : live.audio.audio_loop_should_run ≡ false
    pub no_rounds :
        (rate : ℕ) (rounds : List Round)
        → iterate rate rounds live.session ≡ some (live.session, [])
    pub no_frames : q.shutdown_initiated ≡ true
    pub code : q.exit_code ≡ exit_code
