-- ===== src/Core/Interrupted.antt =====
-- Quit as a signal handler calls it, on the main thread itself: that thread then does not go on in
-- WaitForQuit before the handler has returned.
use zamt.Prelude.{
  total, total-set, ℕ, ◌+◌, ◌≡◌, refl, ◌∙◌, Bool, true, false, List, ◌∷◌, ◌++◌, arith,
}
use zamt.Prelude.Int.{ℤ}
use zamt.Core.{
  Core, Step, enter, call, lock, store, notify, register, acquire, read, wait, wake_up,
  acquire_again, return, Steps, started, entering, calling, locked, stored, finished,
}
use zamt.Core.Invariant.{gone, holds, waiter_holds, held}
use zamt.Core.Waiting.{AllFair, started-Inv, Steps-Inv}

-- The steps of the threads that call Quit.
abbrev pub IsQuitters : {s t : Core} → Step s t → Type 0
IsQuitters (enter _ i code e) = Unit {0}
IsQuitters (call _ i cb cbs code e) = Unit {0}
IsQuitters (lock _ i code e free) = Unit {0}
IsQuitters (store _ i code e) = Unit {0}
IsQuitters (notify _ i e) = Unit {0}
IsQuitters (register _ cb) = ⊥
IsQuitters (acquire _ e free) = ⊥
IsQuitters (read _ e) = ⊥
IsQuitters (wait _ code e n) = ⊥
IsQuitters (wake_up _ e) = ⊥
IsQuitters (acquire_again _ e free) = ⊥
IsQuitters (return _ code e n) = ⊥

infixr 5 ◌▹◌
pub data Interrupted : Core → Core → Type 0 where
  still : {s : Core} → Interrupted s s
  ◌▹◌ : {s t u : Core} → (step : Step s t) × IsQuitters step → Interrupted t u → Interrupted s u

-- The mutex is taken, by nobody who calls Quit.
record Blocked (s : Core) : Type 0 where
  taken : s.mutex ≡ true
  by_none : total holds s.quitters ≡ 0

step-Blocked :
    (s t : Core) (step : Step s t)
    → IsQuitters step
    → Blocked s
    → Blocked t × (total gone t.quitters ≡ total gone s.quitters) × (t.exit_code ≡ s.exit_code)
step-Blocked s t (enter _ i code e) own h =
    let q = calling code (s.on_quit_callbacks ++ s.late_callbacks) in
    (
      record {
        taken = h.taken;
        by_none = omega (arith, total-set holds s.quitters i (entering code) q e, h.by_none);
      },
      omega (arith, total-set gone s.quitters i (entering code) q e),
      refl,
    )
step-Blocked s t (call _ i cb cbs code e) own h = (
  record {
    taken = h.taken;
    by_none = omega (
      arith,
      total-set holds s.quitters i (calling code (cb ∷ cbs)) (calling code cbs) e,
      h.by_none,
    );
  },
  omega (arith, total-set gone s.quitters i (calling code (cb ∷ cbs)) (calling code cbs) e),
  refl,
)
step-Blocked s t (lock _ i code e free) own h = cc (free, h.taken)
step-Blocked s t (store _ i code e) own h =
    absurd (omega (arith, total-set holds s.quitters i (locked code) stored e, h.by_none))
step-Blocked s t (notify _ i e) own h = (
  record {
    taken = h.taken;
    by_none = omega (arith, total-set holds s.quitters i stored finished e, h.by_none);
  },
  omega (arith, total-set gone s.quitters i stored finished e),
  refl,
)
step-Blocked s t (register _ cb) own h = absurd own
step-Blocked s t (acquire _ e free) own h = absurd own
step-Blocked s t (read _ e) own h = absurd own
step-Blocked s t (wait _ code e n) own h = absurd own
step-Blocked s t (wake_up _ e) own h = absurd own
step-Blocked s t (acquire_again _ e free) own h = absurd own
step-Blocked s t (return _ code e n) own h = absurd own

stays-Blocked :
    {s t : Core}
    → Interrupted s t
    → Blocked s
    → (total gone t.quitters ≡ total gone s.quitters) × (t.exit_code ≡ s.exit_code)
stays-Blocked still h = (refl, refl)
stays-Blocked ((step, own) ▹ steps) h =
    let (blocked, same, code) = step-Blocked _ _ step own h in
    let (after, code_after) = stays-Blocked steps blocked in (after ∙ same, code_after ∙ code)

held_once : (b : Bool) (n : ℕ) → 1 + n ≡ held b → (b ≡ true) × (n ≡ 0)
held_once true n h = (refl, omega (arith, h))
held_once false n h = absurd (omega (arith, h))

-- A signal that interrupts the main thread in WaitForQuit while it has the mutex: as long as the
-- main thread does not go on, no call of Quit stores its exit code, from whatever thread it is. So
-- the handler's own call never returns, and the main thread, which waits for it, never goes on.
pub Interrupted-exit_code :
    (cbs : List ℕ) (codes : List ℤ) (s t : Core)
    → AllFair codes
    → Steps (started cbs codes) s
    → waiter_holds s.waiter ≡ 1
    → Interrupted s t
    → (total gone t.quitters ≡ total gone s.quitters) × (t.exit_code ≡ s.exit_code)
Interrupted-exit_code cbs codes s t fair run has steps =
    let h = Steps-Inv run (started-Inv cbs codes fair) in
    let (taken, by_none) =
      held_once s.mutex (total holds s.quitters) (omega (arith, h.exclusive, has)) in
    stays-Blocked steps (record { taken = taken; by_none = by_none })
