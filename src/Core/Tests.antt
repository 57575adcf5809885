-- ===== src/Core/Tests.antt =====
-- The theorems on Core, at small inputs.
use zamt.Prelude.{total, ◌<◌, ◌≡◌, ◌⊎◌, refl, true, false, [], ◌∷◌, ◌++◌, some, arith}
use zamt.Prelude.Int.{ℤ, pos}
use zamt.Params.{print_ℤ, print_ℕ, has_param}
use zamt.Scheduler.Api.{create}
use zamt.Core.{
  Core, reading, asleep, waking, returned, finished, is_no_code, no_exit_code, enter, call, lock,
  store, notify, acquire, read, wait, return, acquire_again, Steps, stay, ◌▸◌, started, calling,
}
use zamt.Core.Invariant.{Inv, AllCalled, notifies, gone}
use zamt.Core.Kept.{Step-Inv}
use zamt.Core.Waiting.{started-Inv, returned-AllCalled, asleep-notifies, finished-Returns}
use zamt.Core.Interrupted.{still, ◌▹◌, Interrupted-exit_code}
use zamt.Core.Start.{begin, launched, threads_param, begin-launched}

-- The main thread sleeps before one thread calls Quit(99), which calls one callback.
abbrev begun : Core
begun = started (5 ∷ []) (pos 99 ∷ [])

abbrev waiting : Core
waiting = record begun { waiter = asleep }

sleeps : Steps begun waiting
sleeps = acquire _ refl refl ▸ read _ refl ▸ wait _ no_exit_code refl refl ▸ stay

abbrev after_quit : Core
after_quit = record waiting {
  exit_code = pos 99;
  waiter = waking;
  quitters = finished ∷ [];
  calls = (5, pos 99) ∷ [];
}

quits : Steps waiting after_quit
quits =
    enter _ 0 (pos 99) refl
    ▸ call _ 0 5 [] (pos 99) refl
    ▸ lock _ 0 (pos 99) refl refl
    ▸ store _ 0 (pos 99) refl
    ▸ notify _ 0 refl
    ▸ stay

abbrev ended : Core
ended = record after_quit { waiter = returned (pos 99) }

ends : Steps after_quit ended
ends = acquire_again _ refl refl ▸ read _ refl ▸ return _ (pos 99) refl refl ▸ stay

join : {s t u : Core} → Steps s t → Steps t u → Steps s u
join stay r = r
join (step ▸ l) r = step ▸ join l r

store_keeps : Inv (record begun { waiter = reading; mutex = true })
store_keeps =
    Step-Inv begun (record begun { waiter = reading; mutex = true }) (acquire begun refl refl)
      (started-Inv (5 ∷ []) (pos 99 ∷ []) (refl, tt))

returned-AllCalled_example :
    (is_no_code (pos 99) ≡ false) × AllCalled (5 ∷ []) (pos 99) ((5, pos 99) ∷ [])
returned-AllCalled_example =
    returned-AllCalled (5 ∷ []) (pos 99 ∷ []) ended (pos 99) (refl, tt)
      (join sleeps (join quits ends)) refl

still_none : (is_no_code no_exit_code ≡ true) ⊎ (0 < total notifies waiting.quitters)
still_none = asleep-notifies (5 ∷ []) (pos 99 ∷ []) waiting (refl, tt) sleeps refl

finished-Returns_example :
    (t : Core) × (code : ℤ) × Steps after_quit t
    × (t.waiter ≡ returned code)
    × (is_no_code code ≡ false)
finished-Returns_example =
    finished-Returns (5 ∷ []) (pos 99 ∷ []) after_quit (refl, tt) (join sleeps quits) (refl, tt)
      (omega arith)

-- "-j8"
four_workers :
    begin 4 (record { argv = [] ∷ ([] ++ ((threads_param ++ print_ℤ (pos 8)) ∷ [])) })
    ≡ some (launched (create 8 4))
unfolding print_ℕ has_param
four_workers = begin-launched 4 8 [] [] [] refl tt refl

-- A signal comes when the main thread has the mutex; its handler calls the callback.
abbrev interrupted : Core
interrupted = record begun { waiter = reading; mutex = true }

abbrev in_handler : Core
in_handler = record interrupted { quitters = calling (pos 99) [] ∷ []; calls = (5, pos 99) ∷ [] }

Interrupted-exit_code_example :
    (total gone in_handler.quitters ≡ total gone interrupted.quitters)
    × (in_handler.exit_code ≡ interrupted.exit_code)
Interrupted-exit_code_example =
    Interrupted-exit_code (5 ∷ []) (pos 99 ∷ []) interrupted in_handler (refl, tt)
      (acquire begun refl refl ▸ stay) refl
      ((enter interrupted 0 (pos 99) refl, tt) ▹ (call _ 0 5 [] (pos 99) refl, tt) ▹ still)
