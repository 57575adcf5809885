-- ===== src/LiveAudio/Objects/Tests.antt =====
-- Runs of the audio thread with their calls.
use zamt.Prelude.{◌≡◌, refl, true, false, none, List, [], ◌∷◌, some}
use zamt.Prelude.Int.{pos, negsuc}
use zamt.LiveAudio.Session.{
  Session, context_notify, stream_notify, context_ready, stream_failed, OpenAnswers, handle,
  initial,
}
use zamt.LiveAudio.Session.Opening.{ready_at}
use zamt.Windows.{open_window, close_window, find_free}
use zamt.Visualizer.Life.{construct}
use zamt.LiveAudio.Objects.{
  Display, Call, proplist, mainloop, context, stream, visualizer, sets, prepare, poll, dispatch,
  make, release, disconnect, connect, connect_record, Answers, Round, buffer_attr, stream_calls,
  dispatch_all, run_main_loop,
}

abbrev no_errors : Answers
no_errors = record {
  sets_id = pos 0;
  sets_name = pos 0;
  sets_role = pos 0;
  has_mainloop = true;
  has_context = true;
  connect_err = pos 0;
}

abbrev opens : OpenAnswers
opens = record { is_map_valid = true; has_stream = true; connect_err = pos 0 }

-- No window at the start, and the visualizer's window at the end.
abbrev display : Display
display = record {
  at_start = record { windows = []; shutdown_initiated = false; quits = 0 };
  at_end = record {
    windows =
        record {
          window_title = some 1;
          width = 640;
          height = 480;
          window = true;
          canvas = true;
          queried_callback = none;
        }
        ∷ [];
    shutdown_initiated = false;
    quits = 0;
  };
}

-- The context opens, and so does the stream; later the server goes away.
abbrev two_rounds : List Round
two_rounds =
    record {
      prepare_err = pos 0;
      poll_err = pos 1;
      events = context_notify (context_ready true opens) ∷ [];
    }
    ∷ record {
      prepare_err = pos 0;
      poll_err = pos 1;
      events = stream_notify (ready_at 44100 1252) ∷ stream_notify stream_failed ∷ [];
    }
    ∷ []

two_rounds_calls :
    (u : Session) × (run_main_loop
        (some display)
        44100
        no_errors
        two_rounds
        true
        (initial (negsuc 0) 313)
      ≡ some (
        u,
        make proplist
            ∷ sets
            ∷ sets
            ∷ sets
            ∷ make mainloop
            ∷ make context
            ∷ connect
            ∷ make visualizer
            ∷ prepare
            ∷ poll
            ∷ dispatch
            ∷ make stream
            ∷ connect_record (record { maxlength = 17640; fragsize = 626 })
            ∷ prepare
            ∷ poll
            ∷ dispatch
            ∷ release visualizer
            ∷ disconnect stream
            ∷ release stream
            ∷ disconnect context
            ∷ release context
            ∷ release mainloop
            ∷ release proplist
            ∷ [],
      ))
unfolding construct open_window close_window find_free run_main_loop buffer_attr stream_calls
    dispatch_all handle
two_rounds_calls = (_, refl)

-- Where the stream fails before it is ready, the disconnection asks for the exit a second time.
failed_round : List Round
failed_round =
    record {
      prepare_err = pos 0;
      poll_err = pos 1;
      events = context_notify (context_ready true opens) ∷ [];
    }
    ∷ record { prepare_err = pos 0; poll_err = pos 1; events = stream_notify stream_failed ∷ [] }
    ∷ []

failed_round_quits_twice :
    (u : Session) × (calls : List Call) × (run_main_loop none 44100 no_errors failed_round true
        (initial (negsuc 0) 313)
      ≡ some (u, calls))
    × (u.quits ≡ 200 ∷ 200 ∷ [])
unfolding construct open_window close_window find_free run_main_loop buffer_attr stream_calls
    dispatch_all handle failed_round
failed_round_quits_twice = (_, _, refl, refl)
