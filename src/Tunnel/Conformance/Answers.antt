-- ===== src/Tunnel/Conformance/Answers.antt =====
-- What a server of grpc-tunnel/src/tunnel_server.cc answers to the REGISTER frames that it gets, 4.1 of
-- grpc-tunnel/SPEC.md.
use zero_touch.Base.{
  Bool, Bool-cases, List, [], all, ap, append-nil, append_assoc, arith, false, inl, inr, length,
  refl, sym, true, ℕ, ◌++◌, ◌+◌, ◌<◌, ◌^◌, ◌∙◌, ◌∷◌, ◌≡◌,
}
use zero_touch.Base.Bytes.{Bytes}
use zero_touch.Tunnel.{
  Frame, FrameType, close_stream, data_bytes, keepalive, no_frame, open_stream, register,
  register_ack, unknown_type,
}
use zero_touch.Tunnel.Conformance.{is_server_frame, is_server_type}
use zero_touch.Tunnel.Conformance.Opens.{Growing, opened_id, opened_ids, opened_ids-Growing}
use zero_touch.Tunnel.Conformance.ServerEnd.{
  ServerStep, is_proper_server, is_sent_frame, is_sent_type, new_server, server_ends,
  server_forwards, server_gets, server_pumps, server_run, server_run-ServerConforms, server_step,
}
use zero_touch.Tunnel.Handshake.{open_of}
use zero_touch.Tunnel.Net.{SendResult}
use zero_touch.Tunnel.Registry.{Registry}
use zero_touch.Tunnel.Server.{Server, forward, on_frame, on_type, teardown}
use zero_touch.Tunnel.Session.{Session, add_conn, get_conn, next_stream_id, send, shutdown}
use zero_touch.Tunnel.Session.Steps.{close_all-rest}
use zero_touch.Tunnel.Tally.{
  Silent, Silent-close_conn, Silent-finish_forward, Silent-on_data, Silent-pump_step, Silent-same,
  Silent-send, tally, tally_last,
}

-- The name in a REGISTER_ACK frame.
abbrev pub acked_name : FrameType → Frame → List Bytes
acked_name register_ack f = f.target ∷ []
acked_name _ f = []

-- The name in a REGISTER frame.
abbrev pub asked_name : FrameType → Frame → List Bytes
asked_name register f = f.target ∷ []
asked_name _ f = []

-- The names in the REGISTER frames that come before the handler ends.
abbrev pub asked_names : List ServerStep → List Bytes
asked_names [] = []
asked_names (server_gets f ok results ∷ ds) = asked_name f.type f ++ asked_names ds
asked_names (server_forwards fd target ok ∷ ds) = asked_names ds
asked_names (server_pumps d ∷ ds) = asked_names ds
asked_names (server_ends ∷ ds) = []

-- What the session says while it is up, and once it is down.
record Answers (names : List Bytes) (s s' : Session) : Type 0 where
  up :
      s.alive ≡ true
      → (s'.alive ≡ true) × (tally acked_name s'.written ≡ tally acked_name s.written ++ names)
  down :
      s.alive ≡ false
      → (s'.alive ≡ false) × (tally acked_name s'.written ≡ tally acked_name s.written)

same-Answers :
    (s s' : Session)
    → s'.alive ≡ s.alive
    → tally acked_name s'.written ≡ tally acked_name s.written
    → Answers [] s s'
same-Answers s s' a w = record {
  up = λ e. (a ∙ e, w ∙ sym (append-nil (tally acked_name s.written)));
  down = λ e. (a ∙ e, w);
}

Silent-Answers : (s s' : Session) → Silent acked_name s s' → Answers [] s s'
Silent-Answers s s' h = same-Answers s s' h.same_alive h.untold

send-Answers :
    (f : Frame) (ok : Bool) (s : Session) → Answers (acked_name f.type f) s (send f ok s).1
unfolding send
send-Answers f ok s = elim (Bool-cases s.alive) [
  | inl up ↦
      simp up
        (record { up = λ e. (refl, tally_last acked_name s.written f); down = λ e. absurd (cc) })
  | inr down ↦ simp down (record { up = λ e. absurd (cc); down = λ e. (e, refl) })
]

on_type-Answers :
    (t : FrameType) (me : ℕ) (f : Frame) (ok : Bool) (results : List SendResult) (v : Server)
    → Answers (asked_name t f) v.session (on_type t me f ok results v).session
unfolding on_type
on_type-Answers register me f ok results v =
    send-Answers (record no_frame { type = register_ack; target = f.target }) ok v.session
on_type-Answers data_bytes me f ok results v =
    Silent-Answers v.session _ (
      Silent-on_data acked_name (λ g. refl) (get_conn f.stream_id v.session) f ok results v.session)
on_type-Answers close_stream me f ok results v =
    Silent-Answers v.session _ (Silent-close_conn acked_name f.stream_id v.session)
on_type-Answers unknown_type me f ok results v =
    Silent-Answers _ _ (Silent-same acked_name _ _ refl refl refl)
on_type-Answers open_stream me f ok results v =
    Silent-Answers _ _ (Silent-same acked_name _ _ refl refl refl)
on_type-Answers register_ack me f ok results v =
    Silent-Answers _ _ (Silent-same acked_name _ _ refl refl refl)
on_type-Answers keepalive me f ok results v =
    Silent-Answers _ _ (Silent-same acked_name _ _ refl refl refl)

forward-Answers :
    (fd : ℕ) (target : Bytes) (ok : Bool) (s : Session) → Answers [] s (forward fd target ok s).1
unfolding forward next_stream_id add_conn
forward-Answers fd target ok s =
    let held = (add_conn s.next_id fd (next_stream_id s).1).1 in
    let sent = Silent-send acked_name (open_of s.next_id target) ok held refl in
    let ended =
      Silent-finish_forward acked_name s.next_id s.next_ref
        (send (open_of s.next_id target) ok held) in
    same-Answers s _ (ended.same_alive ∙ sent.same_alive) (ended.untold ∙ sent.untold)

server_ends-down :
    (me : ℕ) (v : Server)
    → let s' = (teardown me v).session in
      (s'.alive ≡ false) × (tally acked_name s'.written ≡ tally acked_name v.session.written)
unfolding teardown shutdown
server_ends-down me v =
    let k = close_all-rest (record v.session { alive = false }) in (k.0, ap (tally acked_name) k.1)

-- Once the session is down, nothing is acknowledged.
server_run-down :
    (me : ℕ) (ds : List ServerStep) (v : Server)
    → v.session.alive ≡ false
    → tally acked_name (server_run me ds v).session.written ≡ tally acked_name v.session.written
unfolding server_run server_step on_frame
server_run-down me [] v e = refl
server_run-down me (server_gets f ok results ∷ ds) v e =
    let k = (on_type-Answers f.type me f ok results v).down e in
    server_run-down me ds (on_type f.type me f ok results v) k.0 ∙ k.1
server_run-down me (server_forwards fd target ok ∷ ds) v e =
    let k = (forward-Answers fd target ok v.session).down e in server_run-down me ds _ k.0 ∙ k.1
server_run-down me (server_pumps d ∷ ds) v e =
    let k = Silent-pump_step acked_name (λ g. refl) (λ g. refl) d v.session in
    server_run-down me ds _ (k.same_alive ∙ e) ∙ k.untold
server_run-down me (server_ends ∷ ds) v e =
    let k = server_ends-down me v in server_run-down me ds _ k.0 ∙ k.1

server_run-up :
    (me : ℕ) (ds : List ServerStep) (v : Server)
    → v.session.alive ≡ true
    → tally acked_name (server_run me ds v).session.written
      ≡ tally acked_name v.session.written ++ asked_names ds
unfolding server_run server_step on_frame
server_run-up me [] v e = sym (append-nil (tally acked_name v.session.written))
server_run-up me (server_gets f ok results ∷ ds) v e =
    let k = (on_type-Answers f.type me f ok results v).up e in
    server_run-up me ds (on_type f.type me f ok results v) k.0
    ∙ ap (λ l. l ++ asked_names ds) k.1
    ∙ append_assoc (tally acked_name v.session.written) (asked_name f.type f) (asked_names ds)
server_run-up me (server_forwards fd target ok ∷ ds) v e =
    let k = (forward-Answers fd target ok v.session).up e in
    server_run-up me ds _ k.0
    ∙ ap (λ l. l ++ asked_names ds) (k.1 ∙ append-nil (tally acked_name v.session.written))
server_run-up me (server_pumps d ∷ ds) v e =
    let k = Silent-pump_step acked_name (λ g. refl) (λ g. refl) d v.session in
    server_run-up me ds _ (k.same_alive ∙ e) ∙ ap (λ l. l ++ asked_names ds) k.untold
server_run-up me (server_ends ∷ ds) v e =
    let k = server_ends-down me v in
    server_run-down me ds _ k.0 ∙ k.1 ∙ sym (append-nil (tally acked_name v.session.written))

-- An OPEN whose id is above a bound has one that is not 0.
with_id :
    (t : FrameType) (f : Frame) (n : ℕ) (ids : List ℕ)
    → is_sent_type t f ≡ true
    → Growing n (opened_id t f ++ ids)
    → (is_server_type t f ≡ true) × ((m : ℕ) × Growing m ids)
with_id open_stream f n ids h g = (ground (arith, g.0), (f.stream_id, g.1))
with_id data_bytes f n ids h g = (h, (n, g))
with_id close_stream f n ids h g = (h, (n, g))
with_id register f n ids h g = (h, (n, g))
with_id register_ack f n ids h g = (h, (n, g))
with_id keepalive f n ids h g = (h, (n, g))
with_id unknown_type f n ids h g = (h, (n, g))

all_with_id :
    (fs : List Frame) (n : ℕ)
    → all is_sent_frame fs ≡ true
    → Growing n (opened_ids fs)
    → all is_server_frame fs ≡ true
all_with_id [] n h g = refl
all_with_id (f ∷ fs) n h g =
    let k = with_id f.type f n (opened_ids fs) (ground arith) g in
    let rest = all_with_id fs k.1.0 (ground arith) k.1.1 in rw (k.0, rest) refl

-- Every frame that the server writes on a tunnel is one of those that the table of SPEC.md gives the
-- server, with the fields set that the table requires and those unset that it wants unset, and the
-- REGISTER_ACK frames answer the REGISTER frames that come before the handler ends: one for each, with
-- its name, in order, and no others. This holds after fewer than 2^64 - 1 steps of the handler, of
-- the forwarder, of the pumps and of the teardown, in any order and whichever writes fail, where the
-- target of the forwarder is not empty, the DATA frames of the client name a stream other than 0, and
-- so do the pumps, which read no empty piece.
pub server_run-asked_names :
    (me : ℕ) (r : Registry) (ds : List ServerStep)
    → all is_proper_server ds ≡ true
    → 1 + length ds < 2 ^ 64
    → let v = server_run me ds (new_server r) in
      (all is_server_frame v.session.written ≡ true)
      × (tally acked_name v.session.written ≡ asked_names ds)
server_run-asked_names me r ds proper short =
    let (rest, e, good) = server_run-ServerConforms me r ds proper in
    let v = server_run me ds (new_server r) in
    let sent : all is_sent_frame v.session.written ≡ true = rw e good in
    (
      all_with_id v.session.written 0 sent (opened_ids-Growing me r ds short),
      server_run-up me ds (new_server r) refl,
    )
