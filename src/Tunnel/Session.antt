-- ===== src/Tunnel/Session.antt =====
-- grpc-tunnel/src/session.cc: one tunnel and the streams in it. A `Conn` is shared by the table and
-- by a pump thread, so it lives on a heap and is named by its place there. Each operation
-- below is one step: it runs under a mutex, but for the marking of a connection that has just left
-- the table, which counts as part of its operation.
pub mod Steps
pub mod Closing
pub mod Fresh
pub mod Pumps
use zero_touch.Base.{
  Bool, List, Option, [], false, if◌then◌else◌, length, none, not, some, true, ℕ, ◌%◌, ◌++◌, ◌+◌,
  ◌^◌, ◌∷◌,
}
use zero_touch.Base.Bytes.{Bytes}
use zero_touch.Base.Keys.{nat_ord, text_ord}
use zero_touch.Base.Map.{erase, insert, lookup}
use zero_touch.Tunnel.{Frame, close_stream, data_bytes, no_frame}

-- `Conn`
pub record Conn : Type 0 where
  pub fd : ℕ
  pub closed : Bool

-- `Session`, with the heap of its connections, and what it did outside: the frames handed to
-- `write_`, oldest first, and the sockets shut down.
pub record Session : Type 0 where
  pub alive : Bool
  pub conns : List (ℕ × ℕ)
  pub next_id : ℕ
  pub heap : List (ℕ × Conn)
  pub next_ref : ℕ
  pub written : List Frame
  pub shut : List ℕ

abbrev pub new_session : Session
new_session = record {
  alive = true;
  conns = [];
  next_id = 1;
  heap = [];
  next_ref = 0;
  written = [];
  shut = [];
}

-- `Send`, where `ok` is what `write_` would return.
unfoldable pub send : Frame → Bool → Session → Bool × Session
send f ok s = if not s.alive then (false, s) else (ok, record s { written = s.written ++ f ∷ [] })

-- `SendData`
unfoldable pub send_data : ℕ → Bytes → Bool → Session → Bool × Session
unfolding send
send_data id buf = send (record no_frame { stream_id = id; type = data_bytes; payload = buf })

-- `SendClose`
unfoldable pub send_close : ℕ → Bytes → Bool → Session → Bool × Session
unfolding send
send_close id error = send (record no_frame { stream_id = id; type = close_stream; error = error })

-- `Shutdown`
unfoldable pub shutdown : Session → Session
shutdown s = record s { alive = false }

-- `NextStreamId`, on 64 bits
unfoldable pub next_stream_id : Session → ℕ × Session
next_stream_id s = (s.next_id, record s { next_id = (s.next_id + 1) % 2 ^ 64 })

-- `AddConn`: the reference of the new connection.
unfoldable pub add_conn : ℕ → ℕ → Session → ℕ × Session
unfolding insert
add_conn id fd s = (
  s.next_ref,
  record s {
    conns = insert id s.next_ref s.conns;
    heap = insert s.next_ref (record { fd = fd; closed = false }) s.heap;
    next_ref = s.next_ref + 1;
  },
)

-- `GetConn`
unfoldable pub get_conn : ℕ → Session → Option ℕ
unfolding lookup
get_conn id s = lookup id s.conns

abbrev pub no_conn : Conn
no_conn = record { fd = 0; closed = true }

abbrev pub conn_or : Option Conn → Conn
conn_or none = no_conn
conn_or (some c) = c

-- The connection at a reference.
unfoldable pub deref : ℕ → Session → Conn
unfolding lookup
deref ref s = conn_or (lookup ref s.heap)

-- `conn->closed.store(true); ::shutdown(conn->fd, SHUT_RDWR);`
unfoldable pub close_ref : ℕ → Session → Session
unfolding insert deref
close_ref ref s = record s {
  heap = insert ref (record (deref ref s) { closed = true }) s.heap;
  shut = s.shut ++ (deref ref s).fd ∷ [];
}

unfoldable pub close_found : ℕ → Option ℕ → Session → Bool × Session
unfolding close_ref erase
close_found id none s = (false, s)
close_found id (some ref) s = (true, close_ref ref (record s { conns = erase id s.conns }))

-- `CloseConn`
unfoldable pub close_conn : ℕ → Session → Bool × Session
unfolding close_found get_conn
close_conn id s = close_found id (get_conn id s) s

unfoldable pub close_refs : List (ℕ × ℕ) → Session → Session
unfolding close_ref
close_refs [] s = s
close_refs ((id, ref) ∷ taken) s = close_refs taken (close_ref ref s)

-- `CloseAll`
unfoldable pub close_all : Session → Session
unfolding close_refs
close_all s = close_refs s.conns (record s { conns = [] })

-- `OpenStreams`
unfoldable pub open_streams : Session → ℕ
open_streams s = length s.conns

-- The end of `Pump`, as its three steps on shared state: `closed.exchange(true)`, the erasure from
-- the table, and the CLOSE frame where the end was ours.
unfoldable pub pump_mark : ℕ → Session → Bool × Session
unfolding insert deref
pump_mark ref s = (
  not (deref ref s).closed,
  record s { heap = insert ref (record (deref ref s) { closed = true }) s.heap },
)

unfoldable pub pump_erase : ℕ → Session → Session
unfolding erase
pump_erase id s = record s { conns = erase id s.conns }

unfoldable pub pump_close : ℕ → Bool → Bool → Session → Session
unfolding send_close
pump_close id ours ok s = if ours then (send_close id [] ok s).1 else s

-- What `recv` gives before the end of the pump: bytes, with what the write of their frame would
-- return, or `EINTR`.
pub data RecvResult : Type 0 where
  received : Bytes → Bool → RecvResult
  interrupted : RecvResult

-- The loop of `Pump`, up to a failed write or the end of what `recv` gives.
unfoldable pub pump_read : ℕ → List RecvResult → Session → Session
pump_read id [] s = s
pump_read id (interrupted ∷ rs) s = pump_read id rs s
pump_read id (received buf ok ∷ rs) s =
    let (done, s') = send_data id buf ok s in elim done [ true ↦ pump_read id rs s' | false ↦ s' ]

-- `Pump`, where no other thread touches the session in the meantime.
unfoldable pub pump : ℕ → ℕ → List RecvResult → Bool → Session → Session
unfolding pump_read pump_mark pump_erase pump_close
pump id ref rs ok s =
    let (ours, s') = pump_mark ref (pump_read id rs s) in pump_close id ours ok (pump_erase id s')
