-- ===== src/Tunnel/Stream/ToClient.antt =====
-- A stream at the client, in any interleaving of the loop of `RunTunnel`, its keepalive thread and
-- its pumps.
use zero_touch.Base.{
  Bool, Bool-cases, List, Option, [], append-nil, append_assoc, inl, inr, is_empty, none, not, some,
  ℕ, ◌&&◌, ◌++◌, ◌∷◌, ◌≢◌,
}
use zero_touch.Base.Bytes.{Bytes, codes, equals}
use zero_touch.Tunnel.{
  Frame, FrameType, close_stream, data_bytes, keepalive, open_stream, register, register_ack,
  unknown_type,
}
use zero_touch.Tunnel.Client.{Client, client_frame, client_teardown, client_type, on_open}
use zero_touch.Tunnel.Conformance.ClientEnd.{
  ClientStep, client_ends, client_gets, client_pumps, client_run, client_step, client_ticks,
}
use zero_touch.Tunnel.Net.{SendResult}
use zero_touch.Tunnel.Session.{Session, add_conn, send_close}
use zero_touch.Tunnel.Settings.{keepalive_tick}
use zero_touch.Tunnel.Stream.{carried, payloads}
use zero_touch.Tunnel.Stream.Follows.{Follows}
use zero_touch.Tunnel.Stream.Shrinking.{
  Shrinks-close_conn, Shrinks-pump_step, Shrinks-send, Shrinks-send_close, Shrinks-shutdown,
}

-- The frames that the client took, oldest first.
abbrev pub frames_got : List ClientStep → List Frame
frames_got [] = []
frames_got (client_gets f ok dialled results ∷ ds) = f ∷ frames_got ds
frames_got (client_ticks ok ∷ ds) = frames_got ds
frames_got (client_pumps d ∷ ds) = frames_got ds
frames_got (client_ends ∷ ds) = frames_got ds

-- No step dials the socket.
abbrev pub IsSpared : ℕ → Option ℕ → Type 0
IsSpared fd none = Unit
IsSpared fd (some n) = n ≢ fd

abbrev pub Spares : ℕ → List ClientStep → Type 0
Spares fd [] = Unit
Spares fd (client_gets f ok dialled results ∷ ds) = IsSpared fd dialled × Spares fd ds
Spares fd (client_ticks ok ∷ ds) = Spares fd ds
Spares fd (client_pumps d ∷ ds) = Spares fd ds
Spares fd (client_ends ∷ ds) = Spares fd ds

module _ (id fd : ℕ) {P : Bytes → Session → List (ℕ × Bytes) → Type 0}
    (laws : Follows id fd P) where
  on_open-follows :
      (a target : Bytes) (f : Frame) (ok : Bool) (dialled : Option ℕ) (v : Client)
      → IsSpared fd dialled
      → P a v.session v.to_socket
      → let v' = on_open target f ok dialled v in P a v'.session v'.to_socket
  unfolding on_open
  on_open-follows a target f ok dialled v n h =
      elim (Bool-cases (not (is_empty f.target) && not (equals f.target target))) [
        | inl other ↦ rw other (refused (codes "target mismatch"))
        | inr ours ↦ rw ours (dials dialled n)
      ]
    where
      refused : (error : Bytes) → P a (send_close f.stream_id error ok v.session).1 v.to_socket
      refused error =
          laws.shrinks a v.session _ v.to_socket (Shrinks-send_close f.stream_id error ok v.session)
            h

      dials :
          (o : Option ℕ)
          → IsSpared fd o
          → let v' = elim o as (λ _. Client) [
            | none ↦ record v {
              session = (send_close f.stream_id (codes "local dial failed") ok v.session).1;
            }
            | some n ↦
                let (ref, s) = add_conn f.stream_id n v.session in
                record v { session = s; pumps = v.pumps ++ (f.stream_id, ref) ∷ [] }
          ] in
            P a v'.session v'.to_socket
      dials none n' = refused (codes "local dial failed")
      dials (some n) n' = laws.adds a f.stream_id n v.session v.to_socket n' h

  client_type-follows :
      (t : FrameType) (a target : Bytes) (f : Frame) (ok : Bool) (dialled : Option ℕ)
      (results : List SendResult) (v : Client)
      → IsSpared fd dialled
      → P a v.session v.to_socket
      → let v' = client_type t target f ok dialled results v in
        P (a ++ carried id t f) v'.session v'.to_socket
  unfolding client_type
  client_type-follows open_stream a target f ok dialled results v n h =
      rw append-nil (on_open-follows a target f ok dialled v n h)
  client_type-follows data_bytes a target f ok dialled results v n h =
      laws.takes a f ok results v.session v.to_socket h
  client_type-follows close_stream a target f ok dialled results v n h =
      rw append-nil
        (laws.shrinks a v.session _ v.to_socket (Shrinks-close_conn f.stream_id v.session) h)
  client_type-follows unknown_type a target f ok dialled results v n h = rw append-nil h
  client_type-follows register a target f ok dialled results v n h = rw append-nil h
  client_type-follows register_ack a target f ok dialled results v n h = rw append-nil h
  client_type-follows keepalive a target f ok dialled results v n h = rw append-nil h

  -- The predicate follows a client over any steps.
  pub client_run-follows :
      (a target : Bytes) (ds : List ClientStep) (v : Client)
      → Spares fd ds
      → P a v.session v.to_socket
      → let v' = client_run target ds v in
        P (a ++ payloads id (frames_got ds)) v'.session v'.to_socket
  unfolding client_run client_step client_frame client_teardown keepalive_tick
  client_run-follows a target [] v n h = rw append-nil h
  client_run-follows a target (client_gets f ok dialled results ∷ ds) v n h = rw (← append_assoc) (
      client_run-follows (a ++ carried id f.type f) target ds _ n.1
        (client_type-follows f.type a target f ok dialled results v n.0 h))
  client_run-follows a target (client_ticks ok ∷ ds) v n h =
      client_run-follows a target ds _ n
        (laws.shrinks a v.session _ v.to_socket (Shrinks-send _ ok v.session) h)
  client_run-follows a target (client_pumps d ∷ ds) v n h =
      client_run-follows a target ds _ n
        (laws.shrinks a v.session _ v.to_socket (Shrinks-pump_step d v.session) h)
  client_run-follows a target (client_ends ∷ ds) v n h =
      client_run-follows a target ds _ n
        (laws.shrinks a v.session _ v.to_socket (Shrinks-shutdown v.session) h)
