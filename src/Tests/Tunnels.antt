-- ===== src/Tests/Tunnels.antt =====
-- The sessions of grpc-tunnel/src/session.cc at concrete inputs.
use zero_touch.Base.{All, List, [], arith, refl, some, true, ℕ, ◌++◌, ◌∷◌, ◌≡◌}
use zero_touch.Base.Bytes.{codes}
use zero_touch.Base.Keys.{nat_ord, text_ord}
use zero_touch.Base.Map.{insert, lookup}
use zero_touch.Tunnel.Relay.{frames_of, pieces_of}
use zero_touch.Tunnel.Relay.Late.{close_conn-pump}
use zero_touch.Tunnel.Session.{
  RecvResult, Session, add_conn, close_all, close_conn, deref, get_conn, interrupted, new_session,
  next_stream_id, pump, pump_mark, received, shutdown,
}
use zero_touch.Tunnel.Session.Closing.{IsClosed, run-shutdown}
use zero_touch.Tunnel.Session.Pumps.{Reached, begins, goes, teardown_ends_pumps}
use zero_touch.Tunnel.Session.Steps.{adds, announces, closes, erases, marks, run, step}

abbrev one_stream : Session
one_stream = (add_conn 1 9 (next_stream_id new_session).1).1

run-shutdown_example :
    (run (shutdown one_stream) (closes 1 ∷ announces 1 true true ∷ [])).written ≡ one_stream.written
run-shutdown_example = run-shutdown one_stream (closes 1 ∷ announces 1 true true ∷ [])

stream_is_there : get_conn 1 one_stream ≡ some 0
unfolding get_conn add_conn next_stream_id lookup insert
stream_is_there = refl

-- What the socket of the stream still gives.
abbrev late_reads : List RecvResult
late_reads = received (codes "late") true ∷ interrupted ∷ []

close_conn-pump_example :
    (pump 1 0 late_reads true (close_conn 1 one_stream).1).written
    ≡ one_stream.written ++ frames_of 1 (pieces_of late_reads)
unfolding add_conn next_stream_id
close_conn-pump_example =
    close_conn-pump 1 0 late_reads true one_stream stream_is_there (omega arith) (refl, (tt, tt))
      refl

-- Two streams are added, and the pump of the first one comes to its end.
abbrev one_pump_ended : Session
one_pump_ended = step (step (step (step new_session (adds 1 7)) (adds 2 8)) (marks 0)) (erases 1)

one_pump_ended-Reached : Reached one_pump_ended ((2, 1) ∷ (1, 0) ∷ [])
unfolding step add_conn insert pump_mark deref lookup
one_pump_ended-Reached =
    goes _ _ (erases 1)
      (goes _ _ (marks 0) (goes _ _ (adds 2 8) (goes _ _ (adds 1 7) begins tt) (refl, tt))
        (tt, (tt, tt)))
      ((λ e. absurd (cc)), ((λ e. (omega arith, refl)), tt))

teardown_ends_pumps_example :
    All
      (λ (e : ℕ × ℕ).
        IsClosed e.1 (run (close_all (shutdown one_pump_ended)) (closes 2 ∷ marks 1 ∷ [])))
      ((2, 1) ∷ (1, 0) ∷ [])
teardown_ends_pumps_example =
    teardown_ends_pumps one_pump_ended ((2, 1) ∷ (1, 0) ∷ []) (closes 2 ∷ marks 1 ∷ [])
      one_pump_ended-Reached
