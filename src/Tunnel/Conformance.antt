-- ===== src/Tunnel/Conformance.antt =====
-- The table of the frames in grpc-tunnel/SPEC.md, 3.1, and what the two ends write by it.
pub mod ClientEnd
pub mod ServerEnd
pub mod Opens
pub mod Answers
use zero_touch.AtModem.Sending.{at}
use zero_touch.Base.{
  Bool, Bool-cases, List, Option, [], all, ap, append_assoc, arith, false, inl, inr, is_empty, none,
  not, refl, some, true, ℕ, ◌&&◌, ◌++◌, ◌==◌, ◌∙◌, ◌∷◌, ◌≡◌,
}
use zero_touch.Base.Bytes.{Bytes, codes}
use zero_touch.Tunnel.{
  Frame, FrameType, close_stream, data_bytes, keepalive, no_frame, open_stream, register,
  register_ack,
}
use zero_touch.Tunnel.Net.{SendResult, sent, write_all}
use zero_touch.Tunnel.Server.{on_data}
use zero_touch.Tunnel.Session.{
  Session, close_all, close_conn, close_found, close_ref, get_conn, pump_close, pump_erase,
  pump_mark, send, send_close, send_data,
}
use zero_touch.Tunnel.Session.Steps.{close_all-rest}

-- What a frame of either end carries: DATA its stream and bytes, no target and no error; CLOSE its
-- stream, no bytes and no target.
abbrev pub is_stream_frame : FrameType → Frame → Bool
is_stream_frame data_bytes f =
    not (f.stream_id == 0) && (not (is_empty f.payload) && (is_empty f.target && is_empty f.error))
is_stream_frame close_stream f = not (f.stream_id == 0) && (is_empty f.payload && is_empty f.target)
is_stream_frame _ f = false

-- The frames that the client may send.
abbrev pub is_client_type : FrameType → Frame → Bool
is_client_type register f =
    f.stream_id == 0 && (not (is_empty f.target) && (is_empty f.payload && is_empty f.error))
is_client_type keepalive f =
    f.stream_id == 0 && (is_empty f.payload && (is_empty f.target && is_empty f.error))
is_client_type t f = is_stream_frame t f

abbrev pub is_client_frame : Frame → Bool
is_client_frame f = is_client_type f.type f

-- What the client may send behind its REGISTER.
abbrev pub is_later_type : FrameType → Frame → Bool
is_later_type register f = false
is_later_type t f = is_client_type t f

abbrev pub is_later_frame : Frame → Bool
is_later_frame f = is_later_type f.type f

-- The frames that the server may send.
abbrev pub is_server_type : FrameType → Frame → Bool
is_server_type register_ack f = f.stream_id == 0 && (is_empty f.payload && is_empty f.error)
is_server_type open_stream f =
    not (f.stream_id == 0) && (not (is_empty f.target) && (is_empty f.payload && is_empty f.error))
is_server_type t f = is_stream_frame t f

abbrev pub is_server_frame : Frame → Bool
is_server_frame f = is_server_type f.type f

all-last :
    (p : Frame → Bool) (fs : List Frame) (f : Frame)
    → all p fs ≡ true
    → p f ≡ true
    → all p (fs ++ f ∷ []) ≡ true
all-last p [] f h k = rw k refl
all-last p (g ∷ fs) f h k = elim (Bool-cases (p g)) [
  | inl good ↦ rw good (all-last p fs f (rw good at h) k)
  | inr bad ↦ absurd (ground arith)
]

-- The steps of a pump, of any stream.
pub data PumpStep : Type 0 where
  pumps_data : ℕ → Bytes → Bool → PumpStep
  pumps_mark : ℕ → PumpStep
  pumps_erase : ℕ → PumpStep
  pumps_close : ℕ → Bool → Bool → PumpStep

unfoldable pub pump_step : PumpStep → Session → Session
pump_step (pumps_data id buf ok) s = (send_data id buf ok s).1
pump_step (pumps_mark ref) s = (pump_mark ref s).1
pump_step (pumps_erase id) s = pump_erase id s
pump_step (pumps_close id ours ok) s = pump_close id ours ok s

-- A pump of a stream other than 0, and the bytes of a `recv` that did not end it.
abbrev pub is_proper_pump : PumpStep → Bool
is_proper_pump (pumps_data id buf ok) = not (id == 0) && not (is_empty buf)
is_proper_pump (pumps_close id ours ok) = not (id == 0)
is_proper_pump _ = true

-- Every frame that was written behind the first ones, `front`, passes.
abbrev pub Passes : List Frame → (Frame → Bool) → Session → Type 0
Passes front p s = (rest : List Frame) × (s.written ≡ front ++ rest) × (all p rest ≡ true)

-- A test that the frames of a stream pass.
module _ (front : List Frame) (p : Frame → Bool)
    (takes_data : (id : ℕ) (buf : Bytes)
      → (id == 0) ≡ false
      → is_empty buf ≡ false
      → p (record no_frame { stream_id = id; type = data_bytes; payload = buf }) ≡ true)
    (takes_close : (id : ℕ) (error : Bytes)
      → (id == 0) ≡ false
      → p (record no_frame { stream_id = id; type = close_stream; error = error }) ≡ true) where
  pub send-Passes :
      (f : Frame) (ok : Bool) (s : Session)
      → p f ≡ true
      → Passes front p s
      → Passes front p (send f ok s).1
  unfolding send
  send-Passes f ok s k h = elim (Bool-cases s.alive) [
    | inl up ↦ simp up (sent h)
    | inr down ↦ simp down h
  ]
    where
      sent : Passes front p s → Passes front p (record s { written = s.written ++ f ∷ [] })
      sent (rest, e, good) = (
        rest ++ f ∷ [],
        ap (λ fs. fs ++ f ∷ []) e ∙ append_assoc front rest (f ∷ []),
        all-last p rest f good k,
      )

  pub send_close-Passes :
      (id : ℕ) (error : Bytes) (ok : Bool) (s : Session)
      → (id == 0) ≡ false
      → Passes front p s
      → Passes front p (send_close id error ok s).1
  unfolding send_close
  send_close-Passes id error ok s n h =
      send-Passes (record no_frame { stream_id = id; type = close_stream; error = error }) ok s
        (takes_close id error n) h

  send_data-Passes :
      (id : ℕ) (buf : Bytes) (ok : Bool) (s : Session)
      → (id == 0) ≡ false
      → is_empty buf ≡ false
      → Passes front p s
      → Passes front p (send_data id buf ok s).1
  unfolding send_data
  send_data-Passes id buf ok s n m h =
      send-Passes (record no_frame { stream_id = id; type = data_bytes; payload = buf }) ok s
        (takes_data id buf n m) h

  pub close_conn-Passes :
      (id : ℕ) (s : Session) → Passes front p s → Passes front p (close_conn id s).1
  unfolding close_conn close_found close_ref
  close_conn-Passes id s h = closed (get_conn id s)
    where
      closed : (o : Option ℕ) → Passes front p (close_found id o s).1
      closed none = h
      closed (some ref) = h

  pub close_all-Passes : (s : Session) → Passes front p s → Passes front p (close_all s)
  close_all-Passes s h = rw ((close_all-rest s).1) h

  pump_close-Passes :
      (id : ℕ) (ours ok : Bool) (s : Session)
      → (id == 0) ≡ false
      → Passes front p s
      → Passes front p (pump_close id ours ok s)
  unfolding pump_close
  pump_close-Passes id true ok s n h = send_close-Passes id [] ok s n h
  pump_close-Passes id false ok s n h = h

  pub on_data-Passes :
      (o : Option ℕ) (f : Frame) (ok : Bool) (results : List SendResult) (s : Session)
      → (f.stream_id == 0) ≡ false
      → Passes front p s
      → Passes front p (on_data o f ok results s).0
  unfolding on_data
  on_data-Passes none f ok results s n h = send_close-Passes f.stream_id [] ok s n h
  on_data-Passes (some ref) f ok results s n h = elim (Bool-cases (write_all f.payload results).0) [
    | inl done ↦ rw done h
    | inr failed_write ↦ rw failed_write (
        send_close-Passes f.stream_id (codes "local write failed") ok (close_conn f.stream_id s).1 n
          (close_conn-Passes f.stream_id s h))
  ]

  pub pump_step-Passes :
      (d : PumpStep) (s : Session)
      → is_proper_pump d ≡ true
      → Passes front p s
      → Passes front p (pump_step d s)
  unfolding pump_step pump_mark pump_erase
  pump_step-Passes (pumps_data id buf ok) s g h =
      send_data-Passes id buf ok s (ground arith) (ground arith) h
  pump_step-Passes (pumps_mark ref) s g h = h
  pump_step-Passes (pumps_erase id) s g h = h
  pump_step-Passes (pumps_close id ours ok) s g h = pump_close-Passes id ours ok s (ground arith) h
