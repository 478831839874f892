-- ===== src/Tunnel/Stream/FromClient.antt =====
-- What a client says on a stream: its pumps read a socket, and its DATA frames carry what they read.
use zero_touch.Base.{
  Bool, Bool-cases, List, Option, [], append-nil, append_assoc, inl, inr, is_empty, none, not, refl,
  some, ℕ, ◌&&◌, ◌++◌, ◌∷◌,
}
use zero_touch.Base.Bytes.{Bytes, codes, equals}
use zero_touch.Tunnel.{
  Frame, FrameType, close_stream, data_bytes, keepalive, open_stream, register, register_ack,
  unknown_type,
}
use zero_touch.Tunnel.Client.{Client, client_frame, client_teardown, client_type, on_open}
use zero_touch.Tunnel.Conformance.ClientEnd.{
  ClientStep, client_ends, client_gets, client_pumps, client_run, client_step, client_ticks,
}
use zero_touch.Tunnel.Net.{SendResult}
use zero_touch.Tunnel.Session.{add_conn, get_conn, send_close}
use zero_touch.Tunnel.Settings.{keepalive_tick}
use zero_touch.Tunnel.Stream.Quiet.{
  Quiet, Quiet-Said, Quiet-close_conn, Quiet-on_data, Quiet-same, Quiet-send, Quiet-send_close,
  Quiet-shutdown, Said, pump_step-Said, read_by,
}

-- What the client's pumps read for the stream, in order.
abbrev pub client_reads : ℕ → List ClientStep → Bytes
client_reads id [] = []
client_reads id (client_gets f ok dialled results ∷ ds) = client_reads id ds
client_reads id (client_ticks ok ∷ ds) = client_reads id ds
client_reads id (client_pumps d ∷ ds) = read_by id d ++ client_reads id ds
client_reads id (client_ends ∷ ds) = client_reads id ds

on_open-Quiet :
    (id : ℕ) (target : Bytes) (f : Frame) (ok : Bool) (dialled : Option ℕ) (v : Client)
    → Quiet id v.session (on_open target f ok dialled v).session
unfolding on_open
on_open-Quiet id target f ok dialled v =
    elim (Bool-cases (not (is_empty f.target) && not (equals f.target target))) [
      | inl other ↦
          rw other (Quiet-send_close id f.stream_id (codes "target mismatch") ok v.session)
      | inr ours ↦ rw ours (dials dialled)
    ]
  where
    dials :
        (o : Option ℕ)
        → Quiet id v.session
            (elim o as (λ _. Client) [
              | none ↦ record v {
                session = (send_close f.stream_id (codes "local dial failed") ok v.session).1;
              }
              | some n ↦
                  let (ref, s) = add_conn f.stream_id n v.session in
                  record v { session = s; pumps = v.pumps ++ (f.stream_id, ref) ∷ [] }
            ]).session
    dials none = Quiet-send_close id f.stream_id (codes "local dial failed") ok v.session
    dials (some n) = unfold add_conn in Quiet-same id v.session _ refl refl

client_type-Quiet :
    (t : FrameType) (id : ℕ) (target : Bytes) (f : Frame) (ok : Bool) (dialled : Option ℕ)
    (results : List SendResult) (v : Client)
    → Quiet id v.session (client_type t target f ok dialled results v).session
unfolding client_type
client_type-Quiet open_stream id target f ok dialled results v =
    on_open-Quiet id target f ok dialled v
client_type-Quiet data_bytes id target f ok dialled results v =
    Quiet-on_data id (get_conn f.stream_id v.session) f ok results v.session
client_type-Quiet close_stream id target f ok dialled results v =
    Quiet-close_conn id f.stream_id v.session
client_type-Quiet unknown_type id target f ok dialled results v = Quiet-same id _ _ refl refl
client_type-Quiet register id target f ok dialled results v = Quiet-same id _ _ refl refl
client_type-Quiet register_ack id target f ok dialled results v = Quiet-same id _ _ refl refl
client_type-Quiet keepalive id target f ok dialled results v = Quiet-same id _ _ refl refl

pub client_run-Said :
    (id : ℕ) (target : Bytes) (ds : List ClientStep) (read : Bytes) (v : Client)
    → Said id read v.session
    → Said id (read ++ client_reads id ds) (client_run target ds v).session
unfolding client_run client_step client_frame client_teardown keepalive_tick
client_run-Said id target [] read v h = rw append-nil h
client_run-Said id target (client_gets f ok dialled results ∷ ds) read v h =
    client_run-Said id target ds read _
      (Quiet-Said id read v.session _ (client_type-Quiet f.type id target f ok dialled results v) h)
client_run-Said id target (client_ticks ok ∷ ds) read v h =
    client_run-Said id target ds read _
      (Quiet-Said id read v.session _ (Quiet-send id _ ok v.session refl) h)
client_run-Said id target (client_pumps d ∷ ds) read v h =
    rw (← append_assoc)
      (client_run-Said id target ds (read ++ read_by id d) _ (pump_step-Said id d read v.session h))
client_run-Said id target (client_ends ∷ ds) read v h =
    client_run-Said id target ds read _
      (Quiet-Said id read v.session _ (Quiet-shutdown id v.session) h)
