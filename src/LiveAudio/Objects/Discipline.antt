-- ===== src/LiveAudio/Objects/Discipline.antt =====
-- In which order the audio thread may use and release the objects that it has made.
use zamt.Prelude.{◌≡◌, true, List, [], ◌∷◌}
use zamt.LiveAudio.Session.{Session}
use zamt.LiveAudio.Session.Opening.{AllPlausible}
use zamt.LiveAudio.Objects.{is_fine, Round}

-- PulseAudio goes on, with plausible events.
pub record RoundIsFine (r : Round) : Type 0 where
  pub prepare_err : is_fine r.prepare_err ≡ true
  pub poll_err : is_fine r.poll_err ≡ true
  pub events : AllPlausible r.events

abbrev pub AllFine : List Round → Type 0
AllFine [] = Unit {0}
AllFine (r ∷ rs) = RoundIsFine r × AllFine rs
