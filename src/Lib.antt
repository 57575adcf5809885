-- ===== src/Lib.antt =====
-- ZAMT, a library and testbed for music transcription: modules that record, pass on, transform
-- and show audio, each in its own threads.
--
-- The program's parts and the files that model them:
--
-- * core/src/Scheduler.cpp passes packets from sources to sinks. Scheduler/Tasks.antt has the
--   task queues (std::priority_queue of TaskRef); Scheduler/Source.antt one source, with its
--   packet pool and its subscriptions; Scheduler/Registry.antt the sorted vector of sources and
--   its search; Scheduler/Api.antt the class and its public operations (RegisterSource,
--   Subscribe, Unsubscribe, GetPacketForSubmission, SubmitPacket, ReleasePacket, Shutdown and one
--   turn of DispatchTasks). Scheduler/System.antt adds the clients: which packets a source is
--   loading, and which a sink was called with and has not released. One step is one operation,
--   since each runs under its locks. Scheduler/Handover.antt has the life of one packet between
--   the threads, in finer steps: SubmitPacket, DispatchTasks, ReleasePacket and Shutdown with the
--   spin lock of the source (LockSource, UnlockSource). Scheduler/Locks.antt has the semaphore of
--   the registry (WriteLockSources, ReadLockSources and their unlocks), and
--   Scheduler/Wakeups.antt the workers that sleep on the condition variable of their queue and
--   are notified by SubmitPacket and Shutdown, both as steps of threads.
-- * liveaudio_pulse/src/LiveAudio.cpp records. LiveAudio/Start.antt has the constructor with its
--   parameters, Initialize and Shutdown; LiveAudio/Objects.antt RunMainLoop and OpenStream with
--   the objects of PulseAudio, as the calls they make, and with the visualizer;
--   LiveAudio/Sizes.antt the buffer sizes that Initialize chooses, LiveAudio/Fragment.antt
--   ProcessFragment with a list of the packets that are free in turn, LiveAudio/Submission.antt
--   ProcessFragment with the scheduler, LiveAudio/Reading.antt stream_read_callback, and
--   LiveAudio/Session.antt the callbacks that follow the states of the context and the stream.
-- * dft_fftw/src/FourierTransform.cpp turns packets of audio into packets of spectra:
--   FourierTransform.antt has the constructor, Initialize, the sink and the wrapper of FFTW, over
--   a record of what the library FFTW and the arithmetic on floats give.
-- * liveaudio_pulse/src/RawAudioVisualizer.cpp shows packets: Visualizer.antt has UpdateBuffer
--   and the loop of Draw that reads the ring buffers, Visualizer/Statistics.antt UpdateStatistics
--   and ClearStatistics, and Visualizer/Life.antt the class with its window: the constructor, the
--   destructor, Show, and Draw as OnDraw calls it.
-- * vis_gtk/src/Visualization.cpp owns the windows: Windows.antt has OpenWindow, CloseWindow,
--   QueryRender, OnTimeout and OnDraw, Windows/Runs.antt runs of them, and Windows/Start.antt the
--   constructor and the timer of RunMainLoop.
-- * core/src/Core.cpp starts the scheduler and ends the process. Core.antt has Quit and
--   WaitForQuit as steps of threads, with the lock and the condition variable, also where a
--   signal interrupts the main thread; Core/Start.antt the constructor.
-- * core/src/main.cpp links the modules: Program.antt starts all of them in an order, with what
--   each needs of the others, and has what Core::Quit calls.
-- * core/src/ModuleCenter.cpp creates, initializes and destroys the modules: Modules.antt.
-- * core/src/CLIParameters.cpp and core/src/Log.cpp, the parameters and the log: Params.antt.
--
-- The parts meet where one calls the other: Program.antt starts and stops all of them; LiveAudio
-- registers a source, gets packets and submits them (LiveAudio/Start.antt,
-- LiveAudio/Submission.antt); FourierTransform subscribes that source, releases its packets and
-- submits its own, on the same scheduler; Core/Start.antt reads the number of threads by
-- Params.antt and makes the scheduler of Scheduler/Api.antt; the visualizer mixes the samples of
-- LiveAudio/Fragment.antt and owns a window of Windows.antt (Visualizer/Life.antt).
--
-- Prelude has the shared names: tests on native numbers, lists measured by them, integers, and
-- Option as the result of code that may fail. A result none is a failed assert, a division by
-- zero, an access out of range or an overflow of int, where the file does not say otherwise.
-- Where the code goes on behind an assert that may fail, in ProcessFragment without a free
-- packet, both builds are modelled: `ndebug` is the build without asserts. The counters of
-- Visualizer/Statistics.antt wrap around as integers of 32 and 64 bits.
--
-- Fuel: the loop of ProcessFragment has as many rounds as there are samples, since each takes one
-- sample at least; the loop that halves the submit buffer has 18, since halving 65536 17 times
-- gives 0; printing a number n has n + 1, more than it has digits. Times are modulo 2^64; the
-- sample rate and the fragment size of PulseAudio are below 2^31.
--
-- Not modelled: floating point (the scaling and the level in decibels of the visualizer; the
-- library FFTW and its numbers are a parameter), what PulseAudio and GTK do but for the values
-- that the code tests (a callback of PulseAudio is called for the object that it was set for),
-- the installation of signal handlers, the locks of windows and ring buffers, and the test
-- macros.

pub mod Core
pub mod FourierTransform
pub mod LiveAudio
pub mod Modules
pub mod Params
pub mod Prelude
pub mod Program
pub mod Scheduler
pub mod Visualizer
pub mod Windows
