-- ===== src/Core/Waiting.antt =====
-- What WaitForQuit and the callers of Quit can rely on.
use zamt.Prelude.{
  total, subst, ◌∙◌, ℕ, ◌<◌, ◌≡◌, refl, ap, ◌⊎◌, inl, inr, Bool, true, false, List, [], ◌∷◌, length,
  arith,
}
use zamt.Prelude.Int.{ℤ}
use zamt.Core.{
  Waiter, arriving, reading, deciding, asleep, waking, returned, Quitter, finished, Core,
  is_no_code, Step, enter, call, lock, store, notify, register, acquire, read, wait, wake_up,
  acquire_again, return, Steps, stay, ◌▸◌, quit_calls, started,
}
use zamt.Core.Invariant.{
  Inv, gone, holds, notifies, waiter_holds, held, WaiterOk, AllCalled, QuittersOk,
}
use zamt.Core.Kept.{Step-Inv}

abbrev pub AllFair : List ℤ → Type 0
AllFair [] = Unit
AllFair (code ∷ codes) = (is_no_code code ≡ false) × AllFair codes

quit_calls-Ok :
    (cbs : List ℕ) (codes : List ℤ) → AllFair codes → QuittersOk cbs [] (quit_calls codes)
quit_calls-Ok cbs [] h = tt
quit_calls-Ok cbs (code ∷ codes) h = (h.0, quit_calls-Ok cbs codes h.1)

total-quit_calls :
    (codes : List ℤ) → (total holds (quit_calls codes) ≡ 0) × (total gone (quit_calls codes) ≡ 0)
total-quit_calls [] = (refl, refl)
total-quit_calls (code ∷ codes) =
    let (a, b) = total-quit_calls codes in (omega (arith, a), omega (arith, b))

pub started-Inv : (cbs : List ℕ) (codes : List ℤ) → AllFair codes → Inv (started cbs codes)
started-Inv cbs codes h = record {
  exclusive = omega (arith, (total-quit_calls codes).0);
  quitters = quit_calls-Ok cbs codes h;
  told = inl refl;
  waiter = tt;
  ended = inr (total-quit_calls codes).1;
}

pub Steps-Inv : {s t : Core} → Steps s t → Inv s → Inv t
Steps-Inv stay h = h
Steps-Inv (step ▸ steps) h = Steps-Inv steps (Step-Inv _ _ step h)

Step-callbacks : (s t : Core) → Step s t → t.on_quit_callbacks ≡ s.on_quit_callbacks
Step-callbacks s t (enter _ i code e) = refl
Step-callbacks s t (call _ i cb cbs code e) = refl
Step-callbacks s t (lock _ i code e free) = refl
Step-callbacks s t (store _ i code e) = refl
Step-callbacks s t (notify _ i e) = refl
Step-callbacks s t (register _ cb) = refl
Step-callbacks s t (acquire _ e free) = refl
Step-callbacks s t (read _ e) = refl
Step-callbacks s t (wait _ code e n) = refl
Step-callbacks s t (wake_up _ e) = refl
Step-callbacks s t (acquire_again _ e free) = refl
Step-callbacks s t (return _ code e n) = refl

Steps-callbacks : {s t : Core} → Steps s t → t.on_quit_callbacks ≡ s.on_quit_callbacks
Steps-callbacks stay = refl
Steps-callbacks (step ▸ steps) = Steps-callbacks steps ∙ Step-callbacks _ _ step

-- When WaitForQuit returns an exit code, every callback that was registered before the calls of
-- Quit began has been called with this code before, whatever the order in which the threads ran
-- and however many of them called Quit. A callback that is registered later may have been missed.
pub returned-AllCalled :
    (cbs : List ℕ) (codes : List ℤ) (t : Core) (code : ℤ)
    → AllFair codes
    → Steps (started cbs codes) t
    → t.waiter ≡ returned code
    → (is_no_code code ≡ false) × AllCalled cbs code t.calls
returned-AllCalled cbs codes t code fair run e =
    let (absent, told) = subst (WaiterOk t) e (Steps-Inv run (started-Inv cbs codes fair)).waiter in
    (absent, subst (λ all. AllCalled all code t.calls) (Steps-callbacks run) told)

-- No wakeup is lost: a main thread that sleeps though an exit code is stored has a notification
-- coming.
pub asleep-notifies :
    (cbs : List ℕ) (codes : List ℤ) (t : Core)
    → AllFair codes
    → Steps (started cbs codes) t
    → t.waiter ≡ asleep
    → (is_no_code t.exit_code ≡ true) ⊎ (0 < total notifies t.quitters)
asleep-notifies cbs codes t fair run e =
    subst (WaiterOk t) e (Steps-Inv run (started-Inv cbs codes fair)).waiter

abbrev pub AllFinished : List Quitter → Type 0
AllFinished [] = Unit
AllFinished (q ∷ qs) = (q ≡ finished) × AllFinished qs

total-AllFinished :
    (qs : List Quitter)
    → AllFinished qs
    → (total holds qs ≡ 0) × (total notifies qs ≡ 0) × (total gone qs ≡ length qs)
total-AllFinished [] h = (refl, refl, refl)
total-AllFinished (q ∷ qs) (e, h) =
    let (a, b, c) = total-AllFinished qs h in
    (omega (arith, ap holds e, a), omega (arith, ap notifies e, b), omega (arith, ap gone e, c))

Returns : Core → Type 0
Returns s =
    (t : Core) × (code : ℤ) × Steps s t × (t.waiter ≡ returned code) × (is_no_code code ≡ false)

free-mutex : (b : Bool) → held b ≡ 0 → b ≡ false
free-mutex true h = absurd (omega (arith, h))
free-mutex false h = refl

deciding-Returns :
    (s : Core) (code : ℤ) → s.waiter ≡ deciding code → is_no_code code ≡ false → Returns s
unfolding Returns
deciding-Returns s code e fair = (_, code, return s code e fair ▸ stay, refl, fair)

reading-Returns : (s : Core) → s.waiter ≡ reading → is_no_code s.exit_code ≡ false → Returns s
unfolding Returns
reading-Returns s e fair =
    let (t, code, run, there, ok) =
      deciding-Returns (record s { waiter = deciding s.exit_code }) s.exit_code refl fair in
    (t, code, read s e ▸ run, there, ok)

waiter-Returns :
    (s : Core) (w : Waiter)
    → s.waiter ≡ w
    → is_no_code s.exit_code ≡ false
    → (waiter_holds w ≡ 0 → s.mutex ≡ false)
    → total notifies s.quitters ≡ 0
    → ((code : ℤ) → w ≡ returned code → is_no_code code ≡ false)
    → WaiterOk s w
    → Returns s
unfolding Returns
waiter-Returns s arriving e fair free quiet back ok =
    let (t, code, run, there, good) =
      reading-Returns (record s { waiter = reading; mutex = true }) refl fair in
    (t, code, acquire s e (free refl) ▸ run, there, good)
waiter-Returns s reading e fair free quiet back ok = reading-Returns s e fair
waiter-Returns s (deciding code) e fair free quiet back ok =
    deciding-Returns s code e (ap is_no_code ok ∙ fair)
waiter-Returns s asleep e fair free quiet back (inl absent) = absurd (cc (absent, fair))
waiter-Returns s asleep e fair free quiet back (inr more) = absurd (omega (arith, more, quiet))
waiter-Returns s waking e fair free quiet back ok =
    let (t, code, run, there, good) =
      reading-Returns (record s { waiter = reading; mutex = true }) refl fair in
    (t, code, acquire_again s e (free refl) ▸ run, there, good)
waiter-Returns s (returned code) e fair free quiet back ok = (s, code, stay, e, back code refl)

-- Once at least one thread has called Quit and all calls have returned, WaitForQuit can go on to
-- its return with an exit code in every state that the threads can have reached.
pub finished-Returns :
    (cbs : List ℕ) (codes : List ℤ) (s : Core)
    → AllFair codes
    → Steps (started cbs codes) s
    → AllFinished s.quitters
    → 0 < length s.quitters
    → (t : Core) × (code : ℤ) × Steps s t × (t.waiter ≡ returned code) × (is_no_code code ≡ false)
unfolding Returns
finished-Returns cbs codes s fair run all some_quit =
    let h = Steps-Inv run (started-Inv cbs codes fair) in
    let (a, b, c) = total-AllFinished s.quitters all in
    waiter-Returns s s.waiter refl
      (elim h.ended [ inl f ↦ f | inr n ↦ absurd (omega (arith, n, c, some_quit)) ])
      (λ out. free-mutex s.mutex (omega (arith, h.exclusive, out, a))) b
      (λ code e. (subst (WaiterOk s) e h.waiter).0) h.waiter
