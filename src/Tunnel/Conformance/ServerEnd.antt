-- ===== src/Tunnel/Conformance/ServerEnd.antt =====
-- A server's tunnel, in any interleaving of its handler, the forwarder and its pumps.
use zero_touch.Base.{
  Bool, List, [], all, arith, false, is_empty, not, refl, true, ℕ, ◌&&◌, ◌==◌, ◌∷◌, ◌≡◌,
}
use zero_touch.Base.Bytes.{Bytes}
use zero_touch.Tunnel.{
  Frame, FrameType, close_stream, data_bytes, keepalive, no_frame, open_stream, register,
  register_ack, unknown_type,
}
use zero_touch.Tunnel.Conformance.{
  Passes, PumpStep, close_all-Passes, close_conn-Passes, is_proper_pump, is_server_type,
  on_data-Passes, pump_step, pump_step-Passes, send-Passes,
}
use zero_touch.Tunnel.Net.{SendResult}
use zero_touch.Tunnel.Registry.{Registry}
use zero_touch.Tunnel.Server.{Server, finish_forward, forward, on_frame, on_type, teardown}
use zero_touch.Tunnel.Session.{
  Session, add_conn, get_conn, new_session, next_stream_id, send, shutdown,
}

-- What a server does: the loop of `Register`, the forwarder, the pumps, and the end.
pub data ServerStep : Type 0 where
  server_gets : Frame → Bool → List SendResult → ServerStep
  server_forwards : ℕ → Bytes → Bool → ServerStep
  server_pumps : PumpStep → ServerStep
  server_ends : ServerStep

unfoldable pub server_step : ℕ → ServerStep → Server → Server
server_step me (server_gets f ok results) v = on_frame me f ok results v
server_step me (server_forwards fd target ok) v = record v {
  session = (forward fd target ok v.session).1;
}
server_step me (server_pumps d) v = record v { session = pump_step d v.session }
server_step me server_ends v = teardown me v

unfoldable pub server_run : ℕ → List ServerStep → Server → Server
unfolding server_step
server_run me [] v = v
server_run me (d ∷ ds) v = server_run me ds (server_step me d v)

-- DATA comes with an id, and the forwarder has a target.
abbrev pub has_stream : FrameType → Frame → Bool
has_stream data_bytes f = not (f.stream_id == 0)
has_stream _ f = true

abbrev pub is_proper_server : ServerStep → Bool
is_proper_server (server_gets f ok results) = has_stream f.type f
is_proper_server (server_forwards fd target ok) = not (is_empty target)
is_proper_server (server_pumps d) = is_proper_pump d
is_proper_server server_ends = true

-- A frame that the server may send, but for the id of an OPEN.
abbrev pub is_sent_type : FrameType → Frame → Bool
is_sent_type open_stream f = not (is_empty f.target) && (is_empty f.payload && is_empty f.error)
is_sent_type t f = is_server_type t f

abbrev pub is_sent_frame : Frame → Bool
is_sent_frame f = is_sent_type f.type f

server_data :
    (id : ℕ) (buf : Bytes)
    → (id == 0) ≡ false
    → is_empty buf ≡ false
    → is_sent_frame (record no_frame { stream_id = id; type = data_bytes; payload = buf }) ≡ true
server_data id buf n m = ground arith

server_close :
    (id : ℕ) (error : Bytes)
    → (id == 0) ≡ false
    → is_sent_frame (record no_frame { stream_id = id; type = close_stream; error = error }) ≡ true
server_close id error n = ground arith

abbrev pub new_server : Registry → Server
new_server r = record { registry = r; session = new_session; target = []; to_socket = [] }

abbrev pub ServerConforms : Server → Type 0
ServerConforms v = Passes [] is_sent_frame v.session

on_type-ServerConforms :
    (t : FrameType) (me : ℕ) (f : Frame) (ok : Bool) (results : List SendResult) (v : Server)
    → has_stream t f ≡ true
    → ServerConforms v
    → ServerConforms (on_type t me f ok results v)
unfolding on_type
on_type-ServerConforms register me f ok results v g h =
    send-Passes [] is_sent_frame server_data server_close
      (record no_frame { type = register_ack; target = f.target }) ok v.session refl h
on_type-ServerConforms data_bytes me f ok results v g h =
    on_data-Passes [] is_sent_frame server_data server_close (get_conn f.stream_id v.session) f ok
      results v.session (ground arith) h
on_type-ServerConforms close_stream me f ok results v g h =
    close_conn-Passes [] is_sent_frame server_data server_close f.stream_id v.session h
on_type-ServerConforms unknown_type me f ok results v g h = h
on_type-ServerConforms register_ack me f ok results v g h = h
on_type-ServerConforms open_stream me f ok results v g h = h
on_type-ServerConforms keepalive me f ok results v g h = h

-- What the forwarder does with a session that conforms.
forward-Passes :
    (fd : ℕ) (target : Bytes) (ok : Bool) (s : Session)
    → is_empty target ≡ false
    → Passes [] is_sent_frame s
    → Passes [] is_sent_frame (forward fd target ok s).1
unfolding forward next_stream_id add_conn finish_forward
forward-Passes fd target ok s n h = finished (send open_frame ok held) sent
  where
    held : Session
    held = (add_conn s.next_id fd (next_stream_id s).1).1

    open_frame : Frame
    open_frame = record no_frame { stream_id = s.next_id; type = open_stream; target = target }

    sent : Passes [] is_sent_frame (send open_frame ok held).1
    sent = send-Passes [] is_sent_frame server_data server_close open_frame ok held (ground arith) h

    finished :
        (r : Bool × Session)
        → Passes [] is_sent_frame r.1
        → Passes [] is_sent_frame (finish_forward s.next_id s.next_ref r).1
    finished (true, s') k = k
    finished (false, s') k =
        close_conn-Passes [] is_sent_frame server_data server_close s.next_id s' k

server_step-ServerConforms :
    (me : ℕ) (d : ServerStep) (v : Server)
    → is_proper_server d ≡ true
    → ServerConforms v
    → ServerConforms (server_step me d v)
unfolding server_step on_frame teardown shutdown
server_step-ServerConforms me (server_gets f ok results) v g h =
    on_type-ServerConforms f.type me f ok results v g h
server_step-ServerConforms me (server_forwards fd target ok) v g h =
    forward-Passes fd target ok v.session (ground arith) h
server_step-ServerConforms me (server_pumps d) v g h =
    pump_step-Passes [] is_sent_frame server_data server_close d v.session g h
server_step-ServerConforms me server_ends v g h =
    close_all-Passes [] is_sent_frame server_data server_close (shutdown v.session) h

server_run-kept :
    (me : ℕ) (ds : List ServerStep) (v : Server)
    → all is_proper_server ds ≡ true
    → ServerConforms v
    → ServerConforms (server_run me ds v)
unfolding server_run
server_run-kept me [] v g h = h
server_run-kept me (d ∷ ds) v g h =
    server_run-kept me ds (server_step me d v) (ground arith)
      (server_step-ServerConforms me d v (ground arith) h)

-- Every frame that the server writes on a tunnel is one of those that the table of SPEC.md gives the
-- server, but for the id of an OPEN, after any steps.
pub server_run-ServerConforms :
    (me : ℕ) (r : Registry) (ds : List ServerStep)
    → all is_proper_server ds ≡ true
    → ServerConforms (server_run me ds (new_server r))
server_run-ServerConforms me r ds g = server_run-kept me ds (new_server r) g ([], refl, refl)
