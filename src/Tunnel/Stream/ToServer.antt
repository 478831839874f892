-- ===== src/Tunnel/Stream/ToServer.antt =====
-- A stream at the server, in any interleaving of the handler `Register`, `ForwarderLoop` and the
-- pumps of a session.
use zero_touch.Base.{Bool, List, [], append-nil, append_assoc, false, refl, true, ℕ, ◌++◌, ◌∷◌, ◌≢◌}
use zero_touch.Base.Bytes.{Bytes}
use zero_touch.Tunnel.{
  Frame, FrameType, close_stream, data_bytes, keepalive, no_frame, open_stream, register,
  register_ack, unknown_type,
}
use zero_touch.Tunnel.Conformance.ServerEnd.{
  ServerStep, server_ends, server_forwards, server_gets, server_pumps, server_run, server_step,
}
use zero_touch.Tunnel.Net.{SendResult}
use zero_touch.Tunnel.Server.{Server, finish_forward, forward, on_frame, on_type, teardown}
use zero_touch.Tunnel.Session.{Session, add_conn, next_stream_id, send}
use zero_touch.Tunnel.Stream.{carried, payloads}
use zero_touch.Tunnel.Stream.Follows.{Follows}
use zero_touch.Tunnel.Stream.Shrinking.{
  Shrinks, Shrinks-close_conn, Shrinks-pump_step, Shrinks-send, Shrinks-shutdown, Shrinks-trans,
  Shrinks-same,
}

-- The frames that the handler took, oldest first.
abbrev pub frames_taken : List ServerStep → List Frame
frames_taken [] = []
frames_taken (server_gets f ok results ∷ ds) = f ∷ frames_taken ds
frames_taken (server_forwards n target ok ∷ ds) = frames_taken ds
frames_taken (server_pumps d ∷ ds) = frames_taken ds
frames_taken (server_ends ∷ ds) = frames_taken ds

-- No step accepts the socket.
abbrev pub Avoids : ℕ → List ServerStep → Type 0
Avoids fd [] = Unit
Avoids fd (server_gets f ok results ∷ ds) = Avoids fd ds
Avoids fd (server_forwards n target ok ∷ ds) = (n ≢ fd) × Avoids fd ds
Avoids fd (server_pumps d ∷ ds) = Avoids fd ds
Avoids fd (server_ends ∷ ds) = Avoids fd ds

-- What `ForwarderLoop` does behind `AddConn` adds no connection.
pub forward-Shrinks :
    (fd : ℕ) (target : Bytes) (ok : Bool) (s : Session)
    → Shrinks (add_conn s.next_id fd (next_stream_id s).1).1 (forward fd target ok s).1
unfolding forward
forward-Shrinks fd target ok s = finished (send open_frame ok held) sent
  where
    held : Session
    held = (add_conn s.next_id fd (next_stream_id s).1).1

    open_frame : Frame
    open_frame = record no_frame { stream_id = s.next_id; type = open_stream; target = target }

    sent : Shrinks held (send open_frame ok held).1
    sent = Shrinks-send open_frame ok held

    finished :
        (r : Bool × Session)
        → Shrinks held r.1
        → Shrinks held (finish_forward s.next_id s.next_ref r).1
    finished (true, s') k = unfold finish_forward in k
    finished (false, s') k =
        unfold finish_forward in Shrinks-trans held s' _ k (Shrinks-close_conn s.next_id s')

pub next_stream_id-Shrinks : (s : Session) → Shrinks s (next_stream_id s).1
unfolding next_stream_id
next_stream_id-Shrinks s = Shrinks-same s _ refl refl refl

module _ (id fd : ℕ) {P : Bytes → Session → List (ℕ × Bytes) → Type 0}
    (laws : Follows id fd P) where
  forward-follows :
      (a : Bytes) (n : ℕ) (target : Bytes) (ok : Bool) (s : Session) (out : List (ℕ × Bytes))
      → n ≢ fd
      → P a s out
      → P a (forward n target ok s).1 out
  forward-follows a n target ok s out other h =
      laws.shrinks a _ _ out (forward-Shrinks n target ok s) (
        laws.adds a s.next_id n (next_stream_id s).1 out other
          (laws.shrinks a s _ out (next_stream_id-Shrinks s) h))

  on_type-follows :
      (t : FrameType) (a : Bytes) (me : ℕ) (f : Frame) (ok : Bool) (results : List SendResult)
      (v : Server)
      → P a v.session v.to_socket
      → let v' = on_type t me f ok results v in P (a ++ carried id t f) v'.session v'.to_socket
  unfolding on_type
  on_type-follows register a me f ok results v h =
      rw append-nil (laws.shrinks a v.session _ v.to_socket (Shrinks-send _ ok v.session) h)
  on_type-follows data_bytes a me f ok results v h =
      laws.takes a f ok results v.session v.to_socket h
  on_type-follows close_stream a me f ok results v h =
      rw append-nil
        (laws.shrinks a v.session _ v.to_socket (Shrinks-close_conn f.stream_id v.session) h)
  on_type-follows unknown_type a me f ok results v h = rw append-nil h
  on_type-follows open_stream a me f ok results v h = rw append-nil h
  on_type-follows register_ack a me f ok results v h = rw append-nil h
  on_type-follows keepalive a me f ok results v h = rw append-nil h

  -- The predicate follows a server's end over any steps.
  pub server_run-follows :
      (a : Bytes) (me : ℕ) (ds : List ServerStep) (v : Server)
      → Avoids fd ds
      → P a v.session v.to_socket
      → let v' = server_run me ds v in
        P (a ++ payloads id (frames_taken ds)) v'.session v'.to_socket
  unfolding server_run server_step on_frame teardown
  server_run-follows a me [] v n h = rw append-nil h
  server_run-follows a me (server_gets f ok results ∷ ds) v n h = rw (← append_assoc) (
      server_run-follows (a ++ carried id f.type f) me ds _ n
        (on_type-follows f.type a me f ok results v h))
  server_run-follows a me (server_forwards m target ok ∷ ds) v n h =
      server_run-follows a me ds _ n.1 (forward-follows a m target ok v.session v.to_socket n.0 h)
  server_run-follows a me (server_pumps d ∷ ds) v n h =
      server_run-follows a me ds _ n
        (laws.shrinks a v.session _ v.to_socket (Shrinks-pump_step d v.session) h)
  server_run-follows a me (server_ends ∷ ds) v n h =
      server_run-follows a me ds _ n
        (laws.shrinks a v.session _ v.to_socket (Shrinks-shutdown v.session) h)
