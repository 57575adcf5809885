-- ===== src/Core.antt =====
-- core/src/Core.cpp: how the process ends. WaitForQuit blocks the main thread on a condition
-- variable until a call of Quit, which may come from any thread, has stored an exit code. The steps
-- are those between which other threads can run.
pub mod Start
pub mod Invariant
pub mod Kept
pub mod Waiting
pub mod Interrupted
pub mod Tests
use zamt.Prelude.{
  ℕ, suc, ◌≡◌, Bool, true, false, List, [], ◌∷◌, ◌++◌, Option, none, some, ◌==◌, get_elem?, set,
  map,
}
use zamt.Prelude.Int.{ℤ, pos, negsuc}

-- `kNoExitCode` is -999999.
abbrev pub no_exit_code : ℤ
no_exit_code = negsuc 999998

-- `exit_code == kNoExitCode`
abbrev pub is_no_code : ℤ → Bool
is_no_code (pos n) = false
is_no_code (negsuc n) = n == 999998

-- The main thread in WaitForQuit: before it locks `mutex_`; with the lock, before it reads the
-- exit code; with the lock and the code it read; in `cond_var_.wait`; woken, without the lock; and
-- behind the return.
pub data Waiter : Type 0 where
  arriving reading : Waiter
  deciding : ℤ → Waiter
  asleep waking : Waiter
  returned : ℤ → Waiter

-- A thread that calls Quit with an exit code: before the call; with callbacks left to call; with
-- the lock; before `notify_all`; and behind the return.
pub data Quitter : Type 0 where
  entering : (exit_code : ℤ) → Quitter
  calling : (exit_code : ℤ) → List ℕ → Quitter
  locked : (exit_code : ℤ) → Quitter
  stored : Quitter
  finished : Quitter

-- `on_quit_callbacks_` is the list `on_quit_callbacks`, of those that were registered before any
-- call of Quit, and behind it `late_callbacks`, of those registered since. `calls` records the
-- calls of callbacks, with their argument.
pub record Core : Type 0 where
  pub on_quit_callbacks : List ℕ
  pub late_callbacks : List ℕ
  pub exit_code : ℤ
  pub mutex : Bool
  pub waiter : Waiter
  pub quitters : List Quitter
  pub calls : List (ℕ × ℤ)

-- `notify_all` wakes the waiter, if it sleeps.
abbrev pub wake : Waiter → Waiter
wake arriving = arriving
wake reading = reading
wake (deciding code) = deciding code
wake asleep = waking
wake waking = waking
wake (returned code) = returned code

abbrev pub with_quitter : ℕ → Quitter → Core → Core
with_quitter i q s = record s { quitters = set s.quitters i q }

pub data Step : Core → Core → Type 0 where
  -- Quit: the callbacks that are registered when it begins, in their order, then the store under
  -- the lock, then the notification.
  enter :
      (s : Core) (i : ℕ) (code : ℤ)
      → get_elem? s.quitters i ≡ some (entering code)
      → Step s (with_quitter i (calling code (s.on_quit_callbacks ++ s.late_callbacks)) s)
  call :
      (s : Core) (i cb : ℕ) (cbs : List ℕ) (code : ℤ)
      → get_elem? s.quitters i ≡ some (calling code (cb ∷ cbs))
      → Step s (record (with_quitter i (calling code cbs) s) { calls = (cb, code) ∷ s.calls })
  lock :
      (s : Core) (i : ℕ) (code : ℤ)
      → get_elem? s.quitters i ≡ some (calling code [])
      → s.mutex ≡ false
      → Step s (record (with_quitter i (locked code) s) { mutex = true })
  store :
      (s : Core) (i : ℕ) (code : ℤ)
      → get_elem? s.quitters i ≡ some (locked code)
      → Step s (record (with_quitter i stored s) { exit_code = code; mutex = false })
  notify :
      (s : Core) (i : ℕ)
      → get_elem? s.quitters i ≡ some stored
      → Step s (record (with_quitter i finished s) { waiter = wake s.waiter })
  -- RegisterForQuitEvent.
  register :
      (s : Core) (cb : ℕ) → Step s (record s { late_callbacks = s.late_callbacks ++ (cb ∷ []) })
  -- WaitForQuit.
  acquire :
      (s : Core)
      → s.waiter ≡ arriving
      → s.mutex ≡ false
      → Step s (record s { waiter = reading; mutex = true })
  read : (s : Core) → s.waiter ≡ reading → Step s (record s { waiter = deciding s.exit_code })
  wait :
      (s : Core) (code : ℤ)
      → s.waiter ≡ deciding code
      → is_no_code code ≡ true
      → Step s (record s { waiter = asleep; mutex = false })
  -- A sleeper may wake up without a notification.
  wake_up : (s : Core) → s.waiter ≡ asleep → Step s (record s { waiter = waking })
  acquire_again :
      (s : Core)
      → s.waiter ≡ waking
      → s.mutex ≡ false
      → Step s (record s { waiter = reading; mutex = true })
  return :
      (s : Core) (code : ℤ)
      → s.waiter ≡ deciding code
      → is_no_code code ≡ false
      → Step s (record s { waiter = returned code; mutex = false })

infixr 5 ◌▸◌
pub data Steps : Core → Core → Type 0 where
  stay : {s : Core} → Steps s s
  ◌▸◌ : {s t u : Core} → Step s t → Steps t u → Steps s u

-- Calls of Quit with the given exit codes, by as many threads.
abbrev pub quit_calls : List ℤ → List Quitter
quit_calls [] = []
quit_calls (code ∷ codes) = entering code ∷ quit_calls codes

abbrev pub started : List ℕ → List ℤ → Core
started cbs codes = record {
  on_quit_callbacks = cbs;
  late_callbacks = [];
  exit_code = no_exit_code;
  mutex = false;
  waiter = arriving;
  quitters = quit_calls codes;
  calls = [];
}
