-- ===== src/Tunnel/Server.antt =====
-- `TunnelServiceImpl::Register` and `ForwarderLoop` of grpc-tunnel/src/tunnel_server.cc.
pub mod EmptyName
use zero_touch.Base.{
  Bool, List, Option, [], if◌then◌else◌, is_empty, none, not, some, ℕ, ◌&&◌, ◌++◌, ◌∷◌,
}
use zero_touch.Base.Bytes.{Bytes, codes, equals}
use zero_touch.Tunnel.{
  Frame, FrameType, close_stream, data_bytes, no_frame, open_stream, register, register_ack,
}
use zero_touch.Tunnel.Net.{SendResult, write_all}
use zero_touch.Tunnel.Registry.{Registry, add, remove}
use zero_touch.Tunnel.Session.{
  Session, add_conn, close_all, close_conn, deref, get_conn, next_stream_id, send, send_close,
  shutdown,
}

-- What a handler of the stream works on: the shared registry, its session, the name that it last
-- registered, and the bytes given to sockets, oldest first.
pub record Server : Type 0 where
  pub registry : Registry
  pub session : Session
  pub target : Bytes
  pub to_socket : List (ℕ × Bytes)

-- The registry part of `case Frame::REGISTER`.
unfoldable pub rebind : Bytes → Bytes → ℕ → Registry → Registry
unfolding add remove
rebind old new sess r =
    let cleared = remove old sess r in
    if not (is_empty old) && not (equals old new) then add new sess cleared else add new sess r

-- `case Frame::DATA`, where `ok` is what the stream's write would return and `results` are those of
-- the socket's.
unfoldable pub on_data :
    Option ℕ → Frame → Bool → List SendResult → Session → Session × List (ℕ × Bytes)
unfolding send_close close_conn write_all deref
on_data none f ok results s = ((send_close f.stream_id [] ok s).1, [])
on_data (some ref) f ok results s =
    let fd = (deref ref s).fd in
    let (done, out) = write_all f.payload results in
    let failed =
      (send_close f.stream_id (codes "local write failed") ok (close_conn f.stream_id s).1).1 in
    (if not done then failed else s, (fd, out) ∷ [])

unfoldable pub on_type : FrameType → ℕ → Frame → Bool → List SendResult → Server → Server
unfolding rebind on_data send get_conn close_conn
on_type register me f ok results v =
    let ack = record no_frame { type = register_ack; target = f.target } in
    record v {
      registry = rebind v.target f.target me v.registry;
      target = f.target;
      session = (send ack ok v.session).1;
    }
on_type data_bytes me f ok results v =
    let (s, out) = on_data (get_conn f.stream_id v.session) f ok results v.session in
    record v { session = s; to_socket = v.to_socket ++ out }
on_type close_stream me f ok results v = record v { session = (close_conn f.stream_id v.session).1 }
on_type _ me f ok results v = v

-- One turn of the loop of `Register`, in the handler of session `me`.
unfoldable pub on_frame : ℕ → Frame → Bool → List SendResult → Server → Server
unfolding on_type
on_frame me f = on_type f.type me f

-- What follows the loop.
unfoldable pub teardown : ℕ → Server → Server
unfolding remove shutdown close_all
teardown me v = record v {
  registry = remove v.target me v.registry;
  session = close_all (shutdown v.session);
}

-- What `ForwarderLoop` does once the OPEN frame was sent, or not.
unfoldable pub finish_forward : ℕ → ℕ → Bool × Session → Option (ℕ × ℕ) × Session
unfolding close_conn
finish_forward id ref (sent_ok, s) =
    if not sent_ok then (none, (close_conn id s).1) else (some (id, ref), s)

-- What `ForwarderLoop` does with an accepted socket on a session: the stream id and the connection
-- that a pump is started on, unless the tunnel has gone away.
unfoldable pub forward : ℕ → Bytes → Bool → Session → Option (ℕ × ℕ) × Session
unfolding next_stream_id add_conn send finish_forward
forward fd target ok s0 =
    let (id, s1) = next_stream_id s0 in
    let (ref, s2) = add_conn id fd s1 in
    let open_frame = record no_frame { stream_id = id; type = open_stream; target = target } in
    finish_forward id ref (send open_frame ok s2)
