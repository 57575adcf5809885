-- ===== src/Scheduler/System/Reached.antt =====
-- The states that legal runs reach, for tests.
use zamt.Prelude.{◌≡◌, subst, List, Option, none, some}
use zamt.Scheduler.System.{System, Action, perform_all}
use zamt.Scheduler.System.Invariant.{Inv}
use zamt.Scheduler.System.Safety.{perform_all-started-Inv, LegalRun, started}

-- The end of a run on a scheduler with two workers.
unfoldable pub or_started : Option System → System
or_started none = started 2 4
or_started (some y) = y

pub Inv-or_started :
    (run : List Action) (z : System)
    → LegalRun run (started 2 4)
    → perform_all run (started 2 4) ≡ some z
    → Inv z
Inv-or_started run z legal e =
    let (z', runs, v) = perform_all-started-Inv 2 4 run legal in
    let same : z' ≡ z = cc in subst Inv same v
