-- ===== src/Tunnel/Conformance/ClientEnd.antt =====
-- A client, in any interleaving of its loop, its keepalive thread and its pumps.
use mathlib.Core.Option.{none-ne-some, some-injective}
use zero_touch.Base.{
  Bool, Bool-cases, List, Option, [], all, arith, false, inl, inr, is_empty, none, not, refl, some,
  subst, true, ℕ, ◌&&◌, ◌++◌, ◌==◌, ◌∷◌, ◌≡◌,
}
use zero_touch.Base.Bytes.{Bytes, codes, equals}
use zero_touch.Tunnel.{
  Frame, FrameType, close_stream, data_bytes, keepalive, no_frame, open_stream, register,
  register_ack, unknown_type,
}
use zero_touch.Tunnel.Client.{
  Client, client_frame, client_teardown, client_type, new_client, on_open, register_client,
}
use zero_touch.Tunnel.Conformance.{
  Passes, PumpStep, close_all-Passes, close_conn-Passes, is_client_frame, is_later_frame,
  is_proper_pump, on_data-Passes, pump_step, pump_step-Passes, send-Passes, send_close-Passes,
}
use zero_touch.Tunnel.Net.{SendResult}
use zero_touch.Tunnel.Session.{add_conn, get_conn, new_session, send, send_close, shutdown}
use zero_touch.Tunnel.Settings.{keepalive_tick}

-- What a client does: the loop of `RunTunnel`, its keepalive thread, its pumps, and its end.
pub data ClientStep : Type 0 where
  client_gets : Frame → Bool → Option ℕ → List SendResult → ClientStep
  client_ticks : Bool → ClientStep
  client_pumps : PumpStep → ClientStep
  client_ends : ClientStep

unfoldable pub client_step : Bytes → ClientStep → Client → Client
client_step target (client_gets f ok dialled results) v = client_frame target f ok dialled results v
client_step target (client_ticks ok) v = record v { session = (keepalive_tick ok v.session).1 }
client_step target (client_pumps d) v = record v { session = pump_step d v.session }
client_step target client_ends v = client_teardown v

unfoldable pub client_run : Bytes → List ClientStep → Client → Client
unfolding client_step
client_run target [] v = v
client_run target (d ∷ ds) v = client_run target ds (client_step target d v)

-- A frame that the client may answer by its stream has one: DATA and OPEN come with an id.
abbrev pub is_proper_type : FrameType → Frame → Bool
is_proper_type data_bytes f = not (f.stream_id == 0)
is_proper_type open_stream f = not (f.stream_id == 0)
is_proper_type _ f = true

abbrev pub is_proper_client : ClientStep → Bool
is_proper_client (client_gets f ok dialled results) = is_proper_type f.type f
is_proper_client (client_pumps d) = is_proper_pump d
is_proper_client _ = true

client_data :
    (id : ℕ) (buf : Bytes)
    → (id == 0) ≡ false
    → is_empty buf ≡ false
    → is_later_frame (record no_frame { stream_id = id; type = data_bytes; payload = buf }) ≡ true
client_data id buf n m = ground arith

client_close :
    (id : ℕ) (error : Bytes)
    → (id == 0) ≡ false
    → is_later_frame (record no_frame { stream_id = id; type = close_stream; error = error }) ≡ true
client_close id error n = ground arith

abbrev pub register_frame_of : Bytes → Frame
register_frame_of target = record no_frame { type = register; target = target }

-- The first frame is the REGISTER of the target, and the frames behind it are others.
abbrev pub ClientConforms : Bytes → Client → Type 0
ClientConforms target v = Passes (register_frame_of target ∷ []) is_later_frame v.session

on_open-ClientConforms :
    (target : Bytes) (f : Frame) (ok : Bool) (dialled : Option ℕ) (v : Client)
    → (f.stream_id == 0) ≡ false
    → ClientConforms target v
    → ClientConforms target (on_open target f ok dialled v)
unfolding on_open add_conn
on_open-ClientConforms target f ok dialled v n h =
    elim (Bool-cases (not (is_empty f.target) && not (equals f.target target))) [
      | inl other ↦ rw other (close_with (codes "target mismatch"))
      | inr ours ↦ rw ours (dials dialled)
    ]
  where
    close_with :
        (error : Bytes)
        → Passes
            (register_frame_of target ∷ [])
            is_later_frame
            (send_close f.stream_id error ok v.session).1
    close_with error =
        send_close-Passes (register_frame_of target ∷ []) is_later_frame client_data client_close
          f.stream_id error ok v.session n h

    dials :
        (o : Option ℕ)
        → ClientConforms target (elim o [
          | none ↦ record v {
            session = (send_close f.stream_id (codes "local dial failed") ok v.session).1;
          }
          | some fd ↦
              let (ref, s) = add_conn f.stream_id fd v.session in
              record v { session = s; pumps = v.pumps ++ (f.stream_id, ref) ∷ [] }
        ])
    dials none = close_with (codes "local dial failed")
    dials (some fd) = h

client_type-ClientConforms :
    (t : FrameType) (target : Bytes) (f : Frame) (ok : Bool) (dialled : Option ℕ)
    (results : List SendResult) (v : Client)
    → is_proper_type t f ≡ true
    → ClientConforms target v
    → ClientConforms target (client_type t target f ok dialled results v)
unfolding client_type
client_type-ClientConforms open_stream target f ok dialled results v g h =
    on_open-ClientConforms target f ok dialled v (ground arith) h
client_type-ClientConforms data_bytes target f ok dialled results v g h =
    on_data-Passes (register_frame_of target ∷ []) is_later_frame client_data client_close
      (get_conn f.stream_id v.session) f ok results v.session (ground arith) h
client_type-ClientConforms close_stream target f ok dialled results v g h =
    close_conn-Passes (register_frame_of target ∷ []) is_later_frame client_data client_close
      f.stream_id v.session h
client_type-ClientConforms unknown_type target f ok dialled results v g h = h
client_type-ClientConforms register target f ok dialled results v g h = h
client_type-ClientConforms register_ack target f ok dialled results v g h = h
client_type-ClientConforms keepalive target f ok dialled results v g h = h

client_step-ClientConforms :
    (target : Bytes) (d : ClientStep) (v : Client)
    → is_proper_client d ≡ true
    → ClientConforms target v
    → ClientConforms target (client_step target d v)
unfolding client_step client_frame keepalive_tick client_teardown shutdown
client_step-ClientConforms target (client_gets f ok dialled results) v g h =
    client_type-ClientConforms f.type target f ok dialled results v g h
client_step-ClientConforms target (client_ticks ok) v g h =
    send-Passes (register_frame_of target ∷ []) is_later_frame client_data client_close
      (record no_frame { type = keepalive }) ok v.session refl h
client_step-ClientConforms target (client_pumps d) v g h =
    pump_step-Passes (register_frame_of target ∷ []) is_later_frame client_data client_close d
      v.session g h
client_step-ClientConforms target client_ends v g h =
    close_all-Passes (register_frame_of target ∷ []) is_later_frame client_data client_close
      (shutdown v.session) h

client_run-kept :
    (target : Bytes) (ds : List ClientStep) (v : Client)
    → all is_proper_client ds ≡ true
    → ClientConforms target v
    → ClientConforms target (client_run target ds v)
unfolding client_run
client_run-kept target [] v g h = h
client_run-kept target (d ∷ ds) v g h =
    client_run-kept target ds (client_step target d v) (ground arith)
      (client_step-ClientConforms target d v (ground arith) h)

abbrev pub registered : Bytes → Client
registered target = record new_client {
  session = record new_session { written = register_frame_of target ∷ [] };
}

-- The first frame that a client writes is the REGISTER of its target, and each later one is another
-- of those that the table of SPEC.md gives the client, with the fields set that the table requires and
-- those unset that it wants unset. This holds after any steps of its loop, its keepalive thread, its
-- pumps and its teardown, in any order and whichever writes fail, where the target is not empty, the
-- DATA and OPEN frames of the server name a stream other than 0, and so do the pumps, which read no
-- empty piece.
pub client_run-ClientConforms :
    (target : Bytes) (ok : Bool) (v : Client) (ds : List ClientStep)
    → is_empty target ≡ false
    → all is_proper_client ds ≡ true
    → register_client target ok ≡ some v
    → (is_client_frame (register_frame_of target) ≡ true)
      × ClientConforms target (client_run target ds v)
unfolding register_client send
client_run-ClientConforms target true v ds named g e = (
  ground arith,
  client_run-kept target ds v g
      (subst (ClientConforms target) (some-injective (registered target) v e) ([], refl, refl)),
)
client_run-ClientConforms target false v ds named g e = absurd (none-ne-some v e)
