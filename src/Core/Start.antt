-- ===== src/Core/Start.antt =====
-- The constructor of Core, and the exit codes of signals.
use zamt.Prelude.{
  ℕ, ◌≡◌, refl, Bool, true, false, List, [], ◌∷◌, ◌++◌, Option, none, some, ◌==◌, if◌then◌else◌,
  ◌>>=◌,
}
use zamt.Prelude.Int.{ℤ, pos, negsuc}
use zamt.Params.{CString, Cli, has_param, get_num_param, print_ℤ, in_range}
use zamt.Params.Search.{AllAvoid}
use zamt.Params.Numbers.{get_num_param-print}
use zamt.Scheduler.Api.{Scheduler, create}

abbrev pub k_exit_code_help : ℤ
k_exit_code_help = pos 100

abbrev pub k_exit_code_sigterm : ℤ
k_exit_code_sigterm = pos 101

abbrev pub k_exit_code_sigint : ℤ
k_exit_code_sigint = pos 102

-- `quit_signaled`, with the numbers of the two signals.
abbrev pub signal_exit_code : (sigterm sigint signal_number : ℕ) → ℤ
signal_exit_code sigterm sigint signal_number =
    if signal_number == sigterm
    then k_exit_code_sigterm
    else if signal_number == sigint
    then k_exit_code_sigint
    else negsuc 0

-- "-h"
abbrev pub help_param : CString
help_param = 45 ∷ 104 ∷ []

-- "-j"
abbrev pub threads_param : CString
threads_param = 45 ∷ 106 ∷ []

-- `kNotFound`
abbrev pub is_not_found : ℤ → Bool
is_not_found (pos n) = false
is_not_found (negsuc n) = n == 99998

-- The constructor calls Quit, or it makes a scheduler.
pub data Begun : Type 0 where
  quit : (exit_code : ℤ) → Begun
  launched : Scheduler → Begun

-- `Scheduler(workers)` converts a negative number to a huge one, for which no threads can be had:
-- that is `none` here.
abbrev pub launch : ℕ → ℤ → Option Begun
launch hardware_concurrency (pos n) = some (launched (create n hardware_concurrency))
launch hardware_concurrency (negsuc n) = none

abbrev pub or_default : ℤ → ℤ
or_default workers = if is_not_found workers then pos 0 else workers

unfoldable pub begin : ℕ → Cli → Option Begun
begin hardware_concurrency cli =
    let started = (do
      workers ← get_num_param threads_param cli
      launch hardware_concurrency (or_default workers)) in
    if has_param help_param cli then some (quit k_exit_code_help) else started

-- With "-j" and a number among the arguments, and neither "-h" nor an earlier argument that
-- contains "-j", the scheduler is made for this number of workers.
pub begin-launched :
    (hardware_concurrency n : ℕ) (program : CString) (skipped later : List CString)
    → has_param help_param
        (record { argv = program ∷ (skipped ++ ((threads_param ++ print_ℤ (pos n)) ∷ later)) })
      ≡ false
    → AllAvoid threads_param skipped
    → in_range (pos n) ≡ true
    → begin hardware_concurrency
        (record { argv = program ∷ (skipped ++ ((threads_param ++ print_ℤ (pos n)) ∷ later)) })
      ≡ some (launched (create n hardware_concurrency))
unfolding begin
begin-launched hardware_concurrency n program skipped later no_help avoid range =
    rw no_help
      (rw (get_num_param-print threads_param program skipped later (pos n) avoid range) refl)
