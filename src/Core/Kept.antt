-- ===== src/Core/Kept.antt =====
-- The steps of Quit and WaitForQuit, one by one, against the invariant.
use mathlib.Core.List.{append_assoc, append-nil}
use zamt.Prelude.{
  total-set, total, ◌≢◌, subst, sym, ◌∙◌, ℕ, ◌+◌, ◌<◌, ◌≤◌, ◌≡◌, refl, ap, inl, inr, Bool, true,
  false, List, [], ◌∷◌, ◌++◌, some, get_elem?, arith,
}
use zamt.Prelude.Int.{ℤ}
use zamt.Core.{
  Waiter, arriving, reading, deciding, asleep, waking, returned, entering, calling, locked, stored,
  finished, Core, is_no_code, Step, enter, call, lock, store, notify, register, acquire, read, wait,
  wake_up, acquire_again, return, wake, with_quitter,
}
use zamt.Core.Invariant.{
  Inv, gone, holds, notifies, waiter_holds, held, QuittersOk-get, QuittersOk-set, QuittersOk-∷,
  AllCalled-∷, AllCalled-snoc, AllCalled-++, WaiterOk, Told, AllCalled,
}

true≢false : true ≢ false
true≢false e = cc

-- The waiter's part, if the exit code stays and the notifications to come and the calls are no
-- fewer.
WaiterOk-kept :
    (s t : Core) (w : Waiter)
    → t.exit_code ≡ s.exit_code
    → total notifies s.quitters ≤ total notifies t.quitters
    → ((code : ℤ)
        → AllCalled s.on_quit_callbacks code s.calls
        → AllCalled t.on_quit_callbacks code t.calls)
    → WaiterOk s w
    → WaiterOk t w
WaiterOk-kept s t arriving same more kept h = tt
WaiterOk-kept s t reading same more kept h = tt
WaiterOk-kept s t (deciding code) same more kept h = h ∙ sym same
WaiterOk-kept s t asleep same more kept (inl n) = inl (ap is_no_code same ∙ n)
WaiterOk-kept s t asleep same more kept (inr n) = inr (omega (arith, n, more))
WaiterOk-kept s t waking same more kept h = tt
WaiterOk-kept s t (returned code) same more kept (fair, told) = (fair, kept code told)

enter-Inv :
    (s : Core) (i : ℕ) (code : ℤ)
    → get_elem? s.quitters i ≡ some (entering code)
    → Inv s
    → Inv (with_quitter i (calling code (s.on_quit_callbacks ++ s.late_callbacks)) s)
enter-Inv s i code e h =
    let mine = QuittersOk-get s.on_quit_callbacks s.calls s.quitters i _ h.quitters e in
    let q = calling code (s.on_quit_callbacks ++ s.late_callbacks) in
    record {
      exclusive = omega (arith, h.exclusive, total-set holds s.quitters i _ q e);
      quitters =
          QuittersOk-set _ _ s.quitters i q h.quitters (mine, ([], s.late_callbacks, refl, tt));
      told = h.told;
      waiter =
          WaiterOk-kept s (with_quitter i q s) s.waiter refl
            (omega (arith, total-set notifies s.quitters i _ q e)) (λ c t. t) h.waiter;
      ended = elim h.ended [
        | inl f ↦ inl f
        | inr n ↦ inr (omega (arith, n, total-set gone s.quitters i _ q e))
      ];
    }

call-Inv :
    (s : Core) (i cb : ℕ) (cbs : List ℕ) (code : ℤ)
    → get_elem? s.quitters i ≡ some (calling code (cb ∷ cbs))
    → Inv s
    → Inv (record (with_quitter i (calling code cbs) s) { calls = (cb, code) ∷ s.calls })
call-Inv s i cb cbs code e h =
    let mine = QuittersOk-get s.on_quit_callbacks s.calls s.quitters i _ h.quitters e in
    let more = QuittersOk-∷ s.on_quit_callbacks s.calls (cb, code) s.quitters h.quitters in
    record {
      exclusive = omega (arith, h.exclusive, total-set holds s.quitters i _ (calling code cbs) e);
      quitters = QuittersOk-set _ _ s.quitters i (calling code cbs) more (
        mine.0,
        (
          mine.1.0 ++ (cb ∷ []),
          mine.1.1,
          mine.1.2 ∙ sym (append_assoc mine.1.0 (cb ∷ []) cbs),
          AllCalled-snoc mine.1.0 cb code s.calls mine.1.3,
        ),
      );
      told = elim h.told [
        | inl n ↦ inl n
        | inr (fair, t) ↦ inr (fair, AllCalled-∷ _ _ s.calls (cb, code) t)
      ];
      waiter =
          WaiterOk-kept s
            (record (with_quitter i (calling code cbs) s) { calls = (cb, code) ∷ s.calls }) s.waiter
            refl (omega (arith, total-set notifies s.quitters i _ (calling code cbs) e))
            (λ c. AllCalled-∷ _ c s.calls (cb, code)) h.waiter;
      ended = elim h.ended [
        | inl f ↦ inl f
        | inr n ↦ inr (omega (arith, n, total-set gone s.quitters i _ (calling code cbs) e))
      ];
    }

lock-Inv :
    (s : Core) (i : ℕ) (code : ℤ)
    → get_elem? s.quitters i ≡ some (calling code [])
    → s.mutex ≡ false
    → Inv s
    → Inv (record (with_quitter i (locked code) s) { mutex = true })
lock-Inv s i code e free h =
    let mine = QuittersOk-get s.on_quit_callbacks s.calls s.quitters i _ h.quitters e in
    record {
      exclusive =
          omega (arith, h.exclusive, ap held free, total-set holds s.quitters i _ (locked code) e);
      quitters = QuittersOk-set _ _ s.quitters i (locked code) h.quitters (
        mine.0,
        AllCalled-++ s.on_quit_callbacks mine.1.1 code s.calls (
            subst (λ all. AllCalled all code s.calls) (sym (mine.1.2 ∙ append-nil mine.1.0))
              mine.1.3),
      );
      told = h.told;
      waiter =
          WaiterOk-kept s (record (with_quitter i (locked code) s) { mutex = true }) s.waiter refl
            (omega (arith, total-set notifies s.quitters i _ (locked code) e)) (λ c t. t) h.waiter;
      ended = elim h.ended [
        | inl f ↦ inl f
        | inr n ↦ inr (omega (arith, n, total-set gone s.quitters i _ (locked code) e))
      ];
    }

held-le : (b : Bool) → held b ≤ 1
held-le true = omega arith
held-le false = omega arith

-- A waiter without the lock keeps its part when an exit code is stored, which a notification
-- follows.
WaiterOk-store :
    (s t : Core) (w : Waiter)
    → waiter_holds w ≡ 0
    → 0 < total notifies t.quitters
    → ((code : ℤ)
        → AllCalled s.on_quit_callbacks code s.calls
        → AllCalled t.on_quit_callbacks code t.calls)
    → WaiterOk s w
    → WaiterOk t w
WaiterOk-store s t arriving out more kept h = tt
WaiterOk-store s t reading out more kept h = tt
WaiterOk-store s t (deciding code) out more kept h = absurd (omega (arith, out))
WaiterOk-store s t asleep out more kept h = inr more
WaiterOk-store s t waking out more kept h = tt
WaiterOk-store s t (returned code) out more kept (fair, told) = (fair, kept code told)

store-Inv :
    (s : Core) (i : ℕ) (code : ℤ)
    → get_elem? s.quitters i ≡ some (locked code)
    → Inv s
    → Inv (record (with_quitter i stored s) { exit_code = code; mutex = false })
store-Inv s i code e h =
    let mine = QuittersOk-get s.on_quit_callbacks s.calls s.quitters i _ h.quitters e in
    let fewer = total-set holds s.quitters i _ stored e in
    record {
      exclusive = omega (arith, h.exclusive, held-le s.mutex, fewer);
      quitters = QuittersOk-set _ _ s.quitters i stored h.quitters tt;
      told = inr mine;
      waiter =
          WaiterOk-store s (record (with_quitter i stored s) { exit_code = code; mutex = false })
            s.waiter (omega (arith, h.exclusive, held-le s.mutex, fewer))
            (omega (arith, total-set notifies s.quitters i _ stored e)) (λ c t. t) h.waiter;
      ended = inl mine.0;
    }

wake-holds : (w : Waiter) → waiter_holds (wake w) ≡ waiter_holds w
wake-holds arriving = refl
wake-holds reading = refl
wake-holds (deciding code) = refl
wake-holds asleep = refl
wake-holds waking = refl
wake-holds (returned code) = refl

-- The waiter's part after a notification, with the exit code and the calls as they were.
WaiterOk-wake :
    (s t : Core) (w : Waiter)
    → t.exit_code ≡ s.exit_code
    → ((code : ℤ)
        → AllCalled s.on_quit_callbacks code s.calls
        → AllCalled t.on_quit_callbacks code t.calls)
    → WaiterOk s w
    → WaiterOk t (wake w)
WaiterOk-wake s t arriving same kept h = tt
WaiterOk-wake s t reading same kept h = tt
WaiterOk-wake s t (deciding code) same kept h = h ∙ sym same
WaiterOk-wake s t asleep same kept h = tt
WaiterOk-wake s t waking same kept h = tt
WaiterOk-wake s t (returned code) same kept (fair, told) = (fair, kept code told)

notify-Inv :
    (s : Core) (i : ℕ)
    → get_elem? s.quitters i ≡ some stored
    → Inv s
    → Inv (record (with_quitter i finished s) { waiter = wake s.waiter })
notify-Inv s i e h = record {
  exclusive =
      omega (arith, h.exclusive, wake-holds s.waiter, total-set holds s.quitters i _ finished e);
  quitters = QuittersOk-set _ _ s.quitters i finished h.quitters tt;
  told = h.told;
  waiter =
      WaiterOk-wake s (record (with_quitter i finished s) { waiter = wake s.waiter }) s.waiter refl
        (λ c t. t) h.waiter;
  ended = elim h.ended [
    | inl f ↦ inl f
    | inr n ↦ inr (omega (arith, n, total-set gone s.quitters i _ finished e))
  ];
}

-- The waiter moves on, with the lock or without it.
moved-Inv :
    (s : Core) (w : Waiter) (m : Bool)
    → waiter_holds w + held s.mutex ≡ waiter_holds s.waiter + held m
    → WaiterOk s w
    → Inv s
    → Inv (record s { waiter = w; mutex = m })
moved-Inv s w m moves ok h = record {
  exclusive = omega (arith, h.exclusive, moves);
  quitters = h.quitters;
  told = h.told;
  waiter = WaiterOk-kept s (record s { waiter = w; mutex = m }) w refl (omega arith) (λ c t. t) ok;
  ended = h.ended;
}

-- What a waiter with the lock has read.
deciding-eq : (s : Core) (code : ℤ) → s.waiter ≡ deciding code → Inv s → code ≡ s.exit_code
deciding-eq s code e h = subst (WaiterOk s) e h.waiter

returned-Ok :
    (s : Core) (code : ℤ)
    → code ≡ s.exit_code
    → is_no_code code ≡ false
    → Told s.on_quit_callbacks s.calls s.exit_code
    → WaiterOk s (returned code)
returned-Ok s code e n (inl absent) = absurd (true≢false (sym absent ∙ (ap is_no_code (sym e) ∙ n)))
returned-Ok s code e n (inr (fair, told)) =
    (n, subst (λ c. AllCalled s.on_quit_callbacks c s.calls) (sym e) told)

holding : (s : Core) (w : Waiter) → s.waiter ≡ w → waiter_holds w ≡ 1 → Inv s → held s.mutex ≡ 1
holding s w e one h = omega (arith, h.exclusive, ap waiter_holds e, one, held-le s.mutex)

-- Every step of the main thread in WaitForQuit and of the threads in Quit keeps the invariant: one
-- thread at most holds the lock, callbacks are called with the exit code in their order, the exit
-- code that is stored has been told to all of them, and a main thread that sleeps has a reason to:
-- no exit code is stored, or a notification is still to come.
pub Step-Inv : (s t : Core) → Step s t → Inv s → Inv t
Step-Inv s t (enter _ i code e) h = enter-Inv s i code e h
Step-Inv s t (call _ i cb cbs code e) h = call-Inv s i cb cbs code e h
Step-Inv s t (lock _ i code e free) h = lock-Inv s i code e free h
Step-Inv s t (store _ i code e) h = store-Inv s i code e h
Step-Inv s t (notify _ i e) h = notify-Inv s i e h
Step-Inv s t (register _ cb) h = record {
  exclusive = h.exclusive;
  quitters = h.quitters;
  told = h.told;
  waiter =
      WaiterOk-kept s (record s { late_callbacks = s.late_callbacks ++ (cb ∷ []) }) s.waiter refl
        (omega arith) (λ c told. told) h.waiter;
  ended = h.ended;
}
Step-Inv s t (acquire _ e free) h =
    moved-Inv s reading true (omega (arith, ap held free, ap waiter_holds e)) tt h
Step-Inv s t (read _ e) h =
    moved-Inv s (deciding s.exit_code) s.mutex (omega (arith, ap waiter_holds e)) refl h
Step-Inv s t (wait _ code e n) h =
    moved-Inv s asleep false (omega (arith, ap waiter_holds e, holding s (deciding code) e refl h))
      (inl (ap is_no_code (sym (deciding-eq s code e h)) ∙ n)) h
Step-Inv s t (wake_up _ e) h = moved-Inv s waking s.mutex (omega (arith, ap waiter_holds e)) tt h
Step-Inv s t (acquire_again _ e free) h =
    moved-Inv s reading true (omega (arith, ap held free, ap waiter_holds e)) tt h
Step-Inv s t (return _ code e n) h =
    moved-Inv s (returned code) false
      (omega (arith, ap waiter_holds e, holding s (deciding code) e refl h))
      (returned-Ok s code (deciding-eq s code e h) n h.told) h
