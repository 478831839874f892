-- ===== src/Tunnel/Relay/Late.antt =====
-- `Pump` of grpc-tunnel/src/session.cc behind a `CloseConn`, as a CLOSE of the peer makes it.
use zero_touch.Base.{All, Bool, List, ap, refl, some, true, ℕ, ◌++◌, ◌<◌, ◌∙◌, ◌≡◌}
use zero_touch.Tunnel.{Frame}
use zero_touch.Tunnel.Relay.{IsAccepted, frames_of, pieces_of, pump_read-written, with_written}
use zero_touch.Tunnel.Session.{
  RecvResult, Session, close_conn, deref, get_conn, pump, pump_close, pump_erase, pump_mark,
}
use zero_touch.Tunnel.Session.Closing.{close_conn-IsClosed, close_found-dead}

pump_marked :
    (id ref : ℕ) (ok : Bool) (s : Session)
    → (deref ref s).closed ≡ true
    → (let (ours, t) = pump_mark ref s in pump_close id ours ok (pump_erase id t)).written
      ≡ s.written
unfolding pump_mark pump_close pump_erase
pump_marked id ref ok s h = rw h refl

-- Where the tunnel is up and the peer has closed a stream, the pump of the stream goes on to write a
-- DATA frame for each piece that it still gets from the socket, in order, if the writes succeed, and
-- it writes no CLOSE.
pub close_conn-pump :
    (id ref : ℕ) (rs : List RecvResult) (ok : Bool) (s : Session)
    → get_conn id s ≡ some ref
    → ref < s.next_ref
    → All IsAccepted rs
    → s.alive ≡ true
    → (pump id ref rs ok (close_conn id s).1).written ≡ s.written ++ frames_of id (pieces_of rs)
unfolding pump
close_conn-pump id ref rs ok s e h taken up =
    let c = (close_conn id s).1 in
    let fs = frames_of id (pieces_of rs) in
    let rest = close_found-dead id (get_conn id s) s in
    let read = pump_read-written id rs c taken (unfold close_conn in rest.0 ∙ up) in
    let closed = (close_conn-IsClosed id ref s e h).1 in
    ap
      (λ (t : Session).
        (let (ours, u) = pump_mark ref t in pump_close id ours ok (pump_erase id u)).written)
      read
    ∙ pump_marked id ref ok (with_written c fs) (unfold deref in closed)
    ∙ ap (λ (w : List Frame). w ++ fs) (unfold close_conn in rest.1)
