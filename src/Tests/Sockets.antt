-- ===== src/Tests/Sockets.antt =====
-- grpc-tunnel/src/net.cc, the forwarder and the client at concrete inputs.
use zero_touch.Tunnel.Registry.{get}
use zero_touch.Args.{leave}
use zero_touch.Base.{
  List, [], all, arith, false, length, none, refl, some, true, ℕ, ◌+◌, ◌==◌, ◌∷◌, ◌≡◌,
}
use zero_touch.Base.Bytes.{codes, equals, starts_with}
use zero_touch.Base.Keys.{nat_ord, text_ord}
use zero_touch.Base.Map.{lookup}
use zero_touch.Tunnel.{Frame, close_stream, data_bytes, no_frame, open_stream, register}
use zero_touch.Tunnel.Client.{Client, client_frame, client_teardown, new_client, register_client}
use zero_touch.Tunnel.Conformance.{
  is_client_frame, is_server_frame, pump_step, pumps_data, pumps_mark,
}
use zero_touch.Tunnel.Conformance.Answers.{acked_name, asked_names, server_run-asked_names}
use zero_touch.Tunnel.Conformance.ClientEnd.{
  ClientConforms, ClientStep, client_ends, client_gets, client_pumps, client_run,
  client_run-ClientConforms, client_ticks, register_frame_of,
}
use zero_touch.Tunnel.Conformance.ServerEnd.{
  ServerStep, new_server, server_ends, server_forwards, server_gets, server_pumps, server_run,
}
use zero_touch.Tunnel.Forwarder.{Forwarder, forwarder_loop, session_at}
use zero_touch.Tunnel.Forwarder.Opening.{Done, Served, Serves, accepts, forwarder_loop-Serves}
use zero_touch.Tunnel.Handshake.{mismatch, open_of}
use zero_touch.Tunnel.Net.Sockets.{Sockets, dial_tcp, listen_tcp, local_address}
use zero_touch.Tunnel.Net.Sockets.Held.{Held, dial_tcp-Held, tracked}
use zero_touch.Tunnel.Session.{get_conn, new_session, send, send_data}
use zero_touch.Tunnel.Settings.{
  ClientEvent, arrives, client_events, client_settings, keepalive_tick, run_tunnel, ticks,
}
use zero_touch.Tunnel.Settings.Teardown.{TornDown, run_tunnel-TornDown}
use zero_touch.Tunnel.Tally.{tally}

-- Two addresses, of which the second one answers.
abbrev two_addresses : Sockets ℕ ℕ
two_addresses = record {
  resolve = λ w host service. (some (1 ∷ 2 ∷ []), w);
  socket_for = λ w a. (some (a + 10), w);
  connect = λ w n a. (a == 2, w);
  socket_inet = λ w. (some 3, w);
  any_address = λ port. port;
  parse_address = λ host port. none;
  bind = λ w n a. (true, w);
  listen = λ w n backlog. (false, w);
  reuse_address = λ w n. w;
  no_delay = λ w n. w;
  close = λ w n. w + 1;
}

dial_tcp-Held_example :
    Held (5 ∷ []) (dial_tcp (tracked two_addresses) (codes "localhost") 50060 (0, 5 ∷ []))
dial_tcp-Held_example = dial_tcp-Held two_addresses (codes "localhost") 50060 0 (5 ∷ [])

second_answers : (dial_tcp (tracked two_addresses) (codes "localhost") 50060 (0, [])).0 ≡ some 12
unfolding dial_tcp
second_answers = refl

listen_fails : listen_tcp (tracked two_addresses) (codes "*") 80 (0, []) ≡ (none, (1, []))
unfolding listen_tcp local_address equals
listen_fails = refl

abbrev one_edge : Forwarder
one_edge = record {
  registry = (codes "edge-1", 1) ∷ [];
  sessions = (1, new_session) ∷ [];
  closed = [];
  pumps = [];
}

-- Nothing was done yet.
abbrev nothing_done : Done
nothing_done = record { id = 1; ref = 0; log = []; conns = []; heap = []; pumps = []; closed = [] }

one_edge-Serves : Serves (codes "edge-1") 1 nothing_done one_edge
unfolding get session_at lookup equals
one_edge-Serves = record {
  bound = refl;
  up = refl;
  next_id = refl;
  next_ref = refl;
  written = refl;
  table = refl;
  sockets = refl;
  reading = refl;
  given_up = refl;
}

forwarder_loop-Serves_example :
    Served
      (codes "edge-1")
      1
      (7 ∷ 8 ∷ [])
      nothing_done
      (forwarder_loop (codes "edge-1") (accepts (7 ∷ 8 ∷ [])) one_edge)
forwarder_loop-Serves_example =
    forwarder_loop-Serves (codes "edge-1") 1 (7 ∷ 8 ∷ []) nothing_done one_edge one_edge-Serves

-- Without a registration the sockets are closed.
sockets_closed :
    (forwarder_loop (codes "edge-2") (accepts (7 ∷ 8 ∷ [])) one_edge).closed ≡ 7 ∷ 8 ∷ []
unfolding forwarder_loop get lookup equals
sockets_closed = refl

abbrev register_frame : Frame
register_frame = record no_frame { type = register; target = codes "edge-1" }

abbrev registered_edge : Client
registered_edge = record new_client {
  session = record new_session { written = register_frame ∷ [] };
}

edge_registers : register_client (codes "edge-1") true ≡ some registered_edge
unfolding register_client
edge_registers = refl

abbrev one_stream : List ClientEvent
one_stream =
    arrives (record no_frame { stream_id = 1; type = open_stream; target = codes "edge-1" }) true
      (some 9) []
    ∷ ticks true
    ∷ []

run_tunnel-TornDown_example :
    (v : Client) × (run_tunnel (codes "edge-1") true one_stream (true ∷ []) ≡ some v)
    × TornDown (client_events (codes "edge-1") one_stream (true, registered_edge)).1 v
run_tunnel-TornDown_example =
    run_tunnel-TornDown (codes "edge-1") true one_stream (true ∷ []) registered_edge edge_registers

-- The two options are alternatives.
both_options : client_settings (codes "--dial=a:1" ∷ codes "--echo=b:2" ∷ []) ≡ leave 1
unfolding client_settings starts_with equals
both_options = refl

-- A stream that is opened, pumped and closed from the server's side, and a tick.
abbrev client_steps : List ClientStep
client_steps =
    client_gets (open_of 1 (codes "edge-1")) true (some 9) []
    ∷ client_pumps (pumps_data 1 (codes "hi") true)
    ∷ client_ticks true
    ∷ client_gets (record no_frame { stream_id = 1; type = close_stream }) true none []
    ∷ client_gets (record no_frame { stream_id = 1; type = data_bytes }) true none []
    ∷ client_ends
    ∷ []

client_run-ClientConforms_example :
    (is_client_frame (register_frame_of (codes "edge-1")) ≡ true)
    × ClientConforms (codes "edge-1") (client_run (codes "edge-1") client_steps registered_edge)
client_run-ClientConforms_example =
    client_run-ClientConforms (codes "edge-1") true registered_edge client_steps refl refl
      edge_registers

-- They write a REGISTER, a DATA, a KEEPALIVE and a CLOSE.
four_frames : length (client_run (codes "edge-1") client_steps registered_edge).session.written ≡ 4
unfolding client_run client_frame equals get_conn send client_teardown keepalive_tick pump_step
    send_data
four_frames = refl

abbrev server_steps : List ServerStep
server_steps =
    server_gets register_frame true []
    ∷ server_forwards 7 (codes "edge-1") true
    ∷ server_pumps (pumps_data 1 (codes "hi") true)
    ∷ server_gets (mismatch 1) true []
    ∷ server_pumps (pumps_mark 0)
    ∷ server_ends
    ∷ []

server_run-asked_names_example :
    let v = server_run 1 server_steps (new_server []) in
    (all is_server_frame v.session.written ≡ true)
    × (tally acked_name v.session.written ≡ asked_names server_steps)
server_run-asked_names_example = server_run-asked_names 1 [] server_steps refl (omega arith)
