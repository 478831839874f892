-- ===== src/Tunnel/Stream/FromServer.antt =====
-- What the server says on a stream: its pumps read a socket, and its DATA frames carry what they
-- read.
use zero_touch.Base.{Bool, List, [], append-nil, append_assoc, false, refl, true, ℕ, ◌++◌, ◌∷◌}
use zero_touch.Base.Bytes.{Bytes}
use zero_touch.Tunnel.{
  Frame, FrameType, close_stream, data_bytes, keepalive, no_frame, open_stream, register,
  register_ack, unknown_type,
}
use zero_touch.Tunnel.Conformance.ServerEnd.{
  ServerStep, server_ends, server_forwards, server_gets, server_pumps, server_run, server_step,
}
use zero_touch.Tunnel.Net.{SendResult}
use zero_touch.Tunnel.Server.{Server, finish_forward, forward, on_frame, on_type, teardown}
use zero_touch.Tunnel.Session.{Session, add_conn, get_conn, next_stream_id, send}
use zero_touch.Tunnel.Stream.Quiet.{
  Quiet, Quiet-Said, Quiet-close_conn, Quiet-on_data, Quiet-same, Quiet-send, Quiet-shutdown,
  Quiet-trans, Said, pump_step-Said, read_by,
}

-- What the server's pumps read for the stream, in order.
abbrev pub server_reads : ℕ → List ServerStep → Bytes
server_reads id [] = []
server_reads id (server_gets f ok results ∷ ds) = server_reads id ds
server_reads id (server_forwards n target ok ∷ ds) = server_reads id ds
server_reads id (server_pumps d ∷ ds) = read_by id d ++ server_reads id ds
server_reads id (server_ends ∷ ds) = server_reads id ds

on_type-Quiet :
    (t : FrameType) (id me : ℕ) (f : Frame) (ok : Bool) (results : List SendResult) (v : Server)
    → Quiet id v.session (on_type t me f ok results v).session
unfolding on_type
on_type-Quiet register id me f ok results v = Quiet-send id _ ok v.session refl
on_type-Quiet data_bytes id me f ok results v =
    Quiet-on_data id (get_conn f.stream_id v.session) f ok results v.session
on_type-Quiet close_stream id me f ok results v = Quiet-close_conn id f.stream_id v.session
on_type-Quiet unknown_type id me f ok results v = Quiet-same id _ _ refl refl
on_type-Quiet open_stream id me f ok results v = Quiet-same id _ _ refl refl
on_type-Quiet register_ack id me f ok results v = Quiet-same id _ _ refl refl
on_type-Quiet keepalive id me f ok results v = Quiet-same id _ _ refl refl

forward-Quiet :
    (id n : ℕ) (target : Bytes) (ok : Bool) (s : Session) → Quiet id s (forward n target ok s).1
unfolding forward next_stream_id add_conn
forward-Quiet id n target ok s =
    Quiet-trans id s held _ (Quiet-same id s held refl refl)
      (finished (send open_frame ok held) sent)
  where
    held : Session
    held = (add_conn s.next_id n (next_stream_id s).1).1

    open_frame : Frame
    open_frame = record no_frame { stream_id = s.next_id; type = open_stream; target = target }

    sent : Quiet id held (send open_frame ok held).1
    sent = Quiet-send id open_frame ok held refl

    finished :
        (r : Bool × Session)
        → Quiet id held r.1
        → Quiet id held (finish_forward s.next_id s.next_ref r).1
    finished (true, s') k = unfold finish_forward in k
    finished (false, s') k =
        unfold finish_forward in Quiet-trans id held s' _ k (Quiet-close_conn id s.next_id s')

pub server_run-Said :
    (id me : ℕ) (ds : List ServerStep) (read : Bytes) (v : Server)
    → Said id read v.session
    → Said id (read ++ server_reads id ds) (server_run me ds v).session
unfolding server_run server_step on_frame teardown
server_run-Said id me [] read v h = rw append-nil h
server_run-Said id me (server_gets f ok results ∷ ds) read v h =
    server_run-Said id me ds read _
      (Quiet-Said id read v.session _ (on_type-Quiet f.type id me f ok results v) h)
server_run-Said id me (server_forwards n target ok ∷ ds) read v h =
    server_run-Said id me ds read _
      (Quiet-Said id read v.session _ (forward-Quiet id n target ok v.session) h)
server_run-Said id me (server_pumps d ∷ ds) read v h =
    rw (← append_assoc)
      (server_run-Said id me ds (read ++ read_by id d) _ (pump_step-Said id d read v.session h))
server_run-Said id me (server_ends ∷ ds) read v h =
    server_run-Said id me ds read _ (Quiet-Said id read v.session _ (Quiet-shutdown id v.session) h)
