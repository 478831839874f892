-- ===== src/Tunnel/Relay.antt =====
-- A stream through the tunnel: from a socket on one end, by `Pump` of grpc-tunnel/src/session.cc and
-- `RunTunnel` of grpc-tunnel/src/tunnel_client.cc, to a socket on the other.
pub mod Late
use zero_touch.Base.{
  All, Bool, List, [], ap, append-nil, append_assoc, ap₂, drop, drop-length_append, false, is_empty,
  length, none, refl, some, sym, true, ℕ, ◌++◌, ◌∙◌, ◌∷◌, ◌≡◌, ◌≤◌,
}
use zero_touch.Base.Bytes.{Bytes}
use zero_touch.Tunnel.{Frame, close_stream, data_bytes, no_frame}
use zero_touch.Tunnel.Client.{Client, client_frame, client_type}
use zero_touch.Tunnel.Net.{SendResult, write_all}
use zero_touch.Tunnel.Net.Writing.{taken_by, write_all-Wrote, write_all_enough}
use zero_touch.Tunnel.Server.{on_data}
use zero_touch.Tunnel.Session.{
  RecvResult, Session, deref, get_conn, interrupted, pump, pump_read, received, send, send_data,
}
use zero_touch.Tunnel.Session.Closing.{pump_end_announced}

-- The pieces that `recv` gave.
abbrev pub pieces_of : List RecvResult → List Bytes
pieces_of [] = []
pieces_of (interrupted ∷ rs) = pieces_of rs
pieces_of (received buf ok ∷ rs) = buf ∷ pieces_of rs

-- The write of each frame succeeds.
abbrev pub IsAccepted : RecvResult → Type 0
IsAccepted interrupted = Unit
IsAccepted (received buf ok) = ok ≡ true

abbrev pub data_frame : ℕ → Bytes → Frame
data_frame id buf = record no_frame { stream_id = id; type = data_bytes; payload = buf }

abbrev pub frames_of : ℕ → List Bytes → List Frame
frames_of id [] = []
frames_of id (b ∷ bs) = data_frame id b ∷ frames_of id bs

abbrev pub with_written : Session → List Frame → Session
with_written s fs = record s { written = s.written ++ fs }

send_data-up :
    (id : ℕ) (buf : Bytes) (ok : Bool) (s : Session)
    → ok ≡ true
    → s.alive ≡ true
    → send_data id buf ok s ≡ (true, with_written s (data_frame id buf ∷ []))
unfolding send_data send
send_data-up id buf ok s e up =
    ap₂ (λ (a : Bool) (b : Session). (a, b)) (rw (up, e) refl) (rw (up) refl)

pump_read-received :
    (id : ℕ) (buf : Bytes) (ok : Bool) (rs : List RecvResult) (s : Session)
    → ok ≡ true
    → s.alive ≡ true
    → pump_read id (received buf ok ∷ rs) s
      ≡ pump_read id rs (with_written s (data_frame id buf ∷ []))
unfolding pump_read
pump_read-received id buf ok rs s e up =
    rw (send_data-up id buf ok s e up, pump_read)
      (ap (λ (r : Bool × Session). pump_read id rs r.1) (send_data-up id buf ok s e up))

pump_read_interrupted :
    (id : ℕ) (rs : List RecvResult) (s : Session)
    → pump_read id (interrupted ∷ rs) s ≡ pump_read id rs s
unfolding pump_read
pump_read_interrupted id rs s = refl

-- The loop writes one frame for each piece, in order, and changes nothing else.
pub pump_read-written :
    (id : ℕ) (rs : List RecvResult) (s : Session)
    → All IsAccepted rs
    → s.alive ≡ true
    → pump_read id rs s ≡ with_written s (frames_of id (pieces_of rs))
pump_read-written id [] s a up =
    unfold pump_read in ap (λ w. record s { written = w }) (sym (append-nil s.written))
pump_read-written id (interrupted ∷ rs) s a up =
    pump_read_interrupted id rs s ∙ pump_read-written id rs s a.1 up
pump_read-written id (received buf ok ∷ rs) s a up =
    pump_read-received id buf ok rs s a.0 up
    ∙ pump_read-written id rs (with_written s (data_frame id buf ∷ [])) a.1 up
    ∙ ap (λ w. record s { written = w })
        (append_assoc s.written (data_frame id buf ∷ []) (frames_of id (pieces_of rs)))

abbrev pub close_frame : ℕ → Frame
close_frame id = record no_frame { stream_id = id; type = close_stream }

-- A pump alone on an open connection of a tunnel that is up writes one DATA frame for each piece
-- that the socket gave, in order, and one CLOSE.
pub pump-written :
    (id ref : ℕ) (rs : List RecvResult) (s : Session)
    → All IsAccepted rs
    → s.alive ≡ true
    → (deref ref s).closed ≡ false
    → (pump id ref rs true s).written
      ≡ s.written ++ (frames_of id (pieces_of rs) ++ close_frame id ∷ [])
unfolding pump
pump-written id ref rs s a up open_yet =
    let s' = with_written s (frames_of id (pieces_of rs)) in
    rw (pump_read-written id rs s a up) (
      (pump_end_announced id ref s' true (unfold deref in open_yet) up).0
      ∙ append_assoc s.written (frames_of id (pieces_of rs)) (close_frame id ∷ []))

-- The frames one after another at the client, where `socket` gives what the local socket makes of
-- the bytes of a frame.
abbrev pub receive_all : Bytes → (Frame → List SendResult) → List Frame → Client → Client
receive_all target socket [] v = v
receive_all target socket (f ∷ fs) v =
    receive_all target socket fs (client_frame target f true none (socket f) v)

-- The bytes of each piece to a socket.
abbrev pub to_fd : ℕ → List Bytes → List (ℕ × Bytes)
to_fd fd [] = []
to_fd fd (b ∷ bs) = (fd, b) ∷ to_fd fd bs

nothing_left : (s : Bytes) → is_empty s ≡ true → s ≡ []
nothing_left [] h = refl
nothing_left (c ∷ s) h = cc

write_all-whole :
    (buf : Bytes) (results : List SendResult)
    → length buf ≤ taken_by results
    → write_all buf results ≡ (true, buf)
write_all-whole buf results h =
    let w = write_all-Wrote buf results in
    let done = write_all_enough buf results h in
    let all_sent = nothing_left (w.unsent) (sym w.complete ∙ done) in
    ap₂ (λ (a : Bool) (b : Bytes). (a, b)) done
      (sym (
        w.in_order
        ∙ ap (◌++◌ (write_all buf results).1) all_sent
        ∙ append-nil (write_all buf results).1))

client_data :
    (target : Bytes) (id ref : ℕ) (buf : Bytes) (results : List SendResult) (v : Client)
    → get_conn id v.session ≡ some ref
    → length buf ≤ taken_by results
    → client_frame target (data_frame id buf) true none results v
      ≡ record v { to_socket = v.to_socket ++ ((deref ref v.session).fd, buf) ∷ [] }
unfolding client_frame client_type on_data
client_data target id ref buf results v e h = rw (e, write_all-whole buf results h)

receive-frames_of :
    (target : Bytes) (socket : Frame → List SendResult) (id ref : ℕ) (bs : List Bytes) (v : Client)
    → get_conn id v.session ≡ some ref
    → ((f : Frame) → length f.payload ≤ taken_by (socket f))
    → receive_all target socket (frames_of id bs) v
      ≡ record v { to_socket = v.to_socket ++ to_fd (deref ref v.session).fd bs }
receive-frames_of target socket id ref [] v e h =
    ap (λ o. record v { to_socket = o }) (sym (append-nil v.to_socket))
receive-frames_of target socket id ref (b ∷ bs) v e h =
    ap (receive_all target socket (frames_of id bs))
      (client_data target id ref b (socket (data_frame id b)) v e (h (data_frame id b)))
    ∙ receive-frames_of target socket id ref bs
        (record v { to_socket = v.to_socket ++ ((deref ref v.session).fd, b) ∷ [] }) e h
    ∙ ap (λ o. record v { to_socket = o })
        (append_assoc v.to_socket (((deref ref v.session).fd, b) ∷ [])
          (to_fd (deref ref v.session).fd bs))

receive_all-append :
    (target : Bytes) (socket : Frame → List SendResult) (fs gs : List Frame) (v : Client)
    → receive_all target socket (fs ++ gs) v
      ≡ receive_all target socket gs (receive_all target socket fs v)
receive_all-append target socket [] gs v = refl
receive_all-append target socket (f ∷ fs) gs v =
    receive_all-append target socket fs gs (client_frame target f true none (socket f) v)

client_close :
    (target : Bytes) (id : ℕ) (results : List SendResult) (v : Client)
    → (client_frame target (close_frame id) true none results v).to_socket ≡ v.to_socket
unfolding client_frame client_type
client_close target id results v = refl

-- End to end: what the pump of one end writes for a stream, taken by the client of the other, gives
-- the client's socket for that stream the same pieces in the same order, and nothing else. The
-- pump is alone on an open connection, the tunnel is up, and the local socket takes all bytes.
pub relay :
    (target : Bytes) (socket : Frame → List SendResult) (id ref ref' : ℕ) (rs : List RecvResult)
    (s : Session) (v : Client)
    → All IsAccepted rs
    → s.alive ≡ true
    → (deref ref s).closed ≡ false
    → get_conn id v.session ≡ some ref'
    → ((f : Frame) → length f.payload ≤ taken_by (socket f))
    → (receive_all target socket
        (drop (length s.written) (pump id ref rs true s).written)
        v).to_socket
      ≡ v.to_socket ++ to_fd (deref ref' v.session).fd (pieces_of rs)
relay target socket id ref ref' rs s v a up open_yet e h =
    rw (pump-written id ref rs s a up open_yet) (
      ap (λ fs. (receive_all target socket fs v).to_socket)
        (drop-length_append s.written (frames_of id (pieces_of rs) ++ close_frame id ∷ []))
      ∙ ap (λ c. c.to_socket)
          (receive_all-append target socket (frames_of id (pieces_of rs)) (close_frame id ∷ []) v)
      ∙ client_close target id (socket (close_frame id))
          (receive_all target socket (frames_of id (pieces_of rs)) v)
      ∙ ap (λ c. c.to_socket) (receive-frames_of target socket id ref' (pieces_of rs) v e h))
