-- ===== src/LiveAudio/Submission/Whole.antt =====
-- ProcessFragment and the scheduler as one.
use zamt.Scheduler.Source.{Source}
use zamt.Scheduler.System.{System}
use zamt.LiveAudio.Submission.{Submission}
