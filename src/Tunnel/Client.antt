-- ===== src/Tunnel/Client.antt =====
-- `RunTunnel` of grpc-tunnel/src/tunnel_client.cc.
use zero_touch.Base.{
  Bool, List, Option, [], if◌then◌else◌, is_empty, none, not, some, ℕ, ◌&&◌, ◌++◌, ◌∷◌,
}
use zero_touch.Base.Bytes.{Bytes, codes, equals}
use zero_touch.Tunnel.{Frame, FrameType, close_stream, data_bytes, no_frame, open_stream, register}
use zero_touch.Tunnel.Net.{SendResult}
use zero_touch.Tunnel.Server.{on_data}
use zero_touch.Tunnel.Session.{
  Session, add_conn, close_all, close_conn, get_conn, new_session, send, send_close, shutdown,
}

-- The client's side of a tunnel: its session, the bytes given to sockets, and the pumps started.
pub record Client : Type 0 where
  pub session : Session
  pub to_socket : List (ℕ × Bytes)
  pub pumps : List (ℕ × ℕ)

-- `case Frame::OPEN`, where `dialled` is the socket that `DialTcp` gives.
unfoldable pub on_open : Bytes → Frame → Bool → Option ℕ → Client → Client
unfolding send_close add_conn
on_open target f ok dialled v =
    if not (is_empty f.target) && not (equals f.target target)
    then record v { session = (send_close f.stream_id (codes "target mismatch") ok v.session).1 }
    else elim dialled [
      | none ↦ record v {
        session = (send_close f.stream_id (codes "local dial failed") ok v.session).1;
      }
      | some fd ↦
          let (ref, s) = add_conn f.stream_id fd v.session in
          record v { session = s; pumps = v.pumps ++ (f.stream_id, ref) ∷ [] }
    ]

unfoldable pub client_type :
    FrameType → Bytes → Frame → Bool → Option ℕ → List SendResult → Client → Client
unfolding on_open on_data get_conn close_conn
client_type open_stream target f ok dialled results v = on_open target f ok dialled v
client_type data_bytes target f ok dialled results v =
    let (s, out) = on_data (get_conn f.stream_id v.session) f ok results v.session in
    record v { session = s; to_socket = v.to_socket ++ out }
client_type close_stream target f ok dialled results v = record v {
  session = (close_conn f.stream_id v.session).1;
}
client_type _ target f ok dialled results v = v

-- One turn of the loop of `RunTunnel`.
unfoldable pub client_frame : Bytes → Frame → Bool → Option ℕ → List SendResult → Client → Client
unfolding client_type
client_frame target f = client_type f.type target f

abbrev pub new_client : Client
new_client = record { session = new_session; to_socket = []; pumps = [] }

-- The frame that registers, and the session behind it; `none` where `RunTunnel` gives up.
unfoldable pub register_client : Bytes → Bool → Option Client
unfolding send shutdown
register_client target ok =
    let (done, s) = send (record no_frame { type = register; target = target }) ok new_session in
    if not done then none else some (record new_client { session = s })

-- What follows the loop.
unfoldable pub client_teardown : Client → Client
unfolding shutdown close_all
client_teardown v = record v { session = close_all (shutdown v.session) }
