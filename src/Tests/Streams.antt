-- ===== src/Tests/Streams.antt =====
-- A stream through grpc-tunnel/src with other steps in between, at concrete inputs.
use zero_touch.Base.{List, [], arith, none, refl, some, true, ◌++◌, ◌∷◌, ◌≡◌}
use zero_touch.Base.Bytes.{Bytes, codes, equals}
use zero_touch.Tunnel.{Frame, data_bytes, keepalive, no_frame, register, register_ack}
use zero_touch.Tunnel.Client.{Client, client_frame, new_client, register_client}
use zero_touch.Tunnel.Conformance.{pump_step, pumps_data}
use zero_touch.Tunnel.Conformance.ClientEnd.{
  ClientStep, client_gets, client_pumps, client_run, client_ticks,
}
use zero_touch.Tunnel.Conformance.Opens.{Growing, opened_ids, opened_ids-Growing}
use zero_touch.Tunnel.Conformance.ServerEnd.{
  ServerStep, new_server, server_ends, server_forwards, server_gets, server_pumps, server_run,
  server_step,
}
use zero_touch.Tunnel.Handshake.{open_of}
use zero_touch.Tunnel.Net.{sent, write_all}
use zero_touch.Tunnel.Server.{forward, on_frame, teardown}
use zero_touch.Tunnel.Session.{get_conn, new_session, send, send_data}
use zero_touch.Tunnel.Settings.{keepalive_tick}
use zero_touch.Tunnel.Stream.{IsPrefix, bytes_to}
use zero_touch.Tunnel.Stream.Downstream.{downstream, downstream_whole, opening}
use zero_touch.Tunnel.Stream.FromClient.{client_reads}
use zero_touch.Tunnel.Stream.FromServer.{server_reads}
use zero_touch.Tunnel.Stream.Upstream.{upstream}

abbrev register_frame : Frame
register_frame = record no_frame { type = register; target = codes "edge-1" }

abbrev ack_frame : Frame
ack_frame = record no_frame { type = register_ack; target = codes "edge-1" }

abbrev data_of : Bytes → Frame
data_of buf = record no_frame { stream_id = 1; type = data_bytes; payload = buf }

abbrev registered_edge : Client
registered_edge = record new_client {
  session = record new_session { written = register_frame ∷ [] };
}

edge_registers : register_client (codes "edge-1") true ≡ some registered_edge
unfolding register_client
edge_registers = refl

-- The server opens stream 1 and reads twice; between its reads the client speaks.
abbrev serving : List ServerStep
serving =
    server_gets register_frame true []
    ∷ server_forwards 7 (codes "edge-1") true
    ∷ server_pumps (pumps_data 1 (codes "hi") true)
    ∷ server_gets (data_of (codes "yo")) true (sent 2 ∷ [])
    ∷ server_pumps (pumps_data 1 (codes "ho") true)
    ∷ []

abbrev before_open : List ClientStep
before_open = client_gets ack_frame true none [] ∷ client_ticks true ∷ []

-- The socket takes the first frame in two pieces.
abbrev after_open : List ClientStep
after_open =
    client_pumps (pumps_data 1 (codes "yo") true)
    ∷ client_gets (data_of (codes "hi")) true none (sent 1 ∷ sent 1 ∷ [])
    ∷ []

downstream_example :
    IsPrefix
      (bytes_to 9
        (client_run
          (codes "edge-1")
          (before_open ++ opening 1 (codes "edge-1") 9 ∷ after_open)
          registered_edge).to_socket)
      (server_reads 1 serving)
unfolding server_run server_step forward send get_conn write_all pump_step send_data on_frame
downstream_example =
    downstream (codes "edge-1") 1 1 9 [] serving before_open after_open registered_edge
      (data_of (codes "ho") ∷ []) edge_registers (omega arith) (tt, tt) (tt, tt) refl refl

-- The socket was given the first frame.
first_frame :
    bytes_to 9
      (client_run
        (codes "edge-1")
        (before_open ++ opening 1 (codes "edge-1") 9 ∷ after_open)
        registered_edge).to_socket
    ≡ codes "hi"
unfolding client_run client_frame get_conn write_all equals pump_step send_data keepalive_tick
first_frame = refl

abbrev all_taken : List ClientStep
all_taken = after_open ++ client_gets (data_of (codes "ho")) true none (sent 2 ∷ []) ∷ []

downstream_whole_example :
    bytes_to 9
      (client_run
        (codes "edge-1")
        (before_open ++ opening 1 (codes "edge-1") 9 ∷ all_taken)
        registered_edge).to_socket
    ≡ server_reads 1 serving
unfolding server_run server_step forward send get_conn write_all client_run client_frame equals
    pump_step send_data on_frame keepalive_tick
downstream_whole_example =
    downstream_whole (codes "edge-1") 1 1 9 [] serving before_open all_taken registered_edge
      edge_registers (omega arith) (tt, tt) (tt, (tt, tt)) refl refl refl refl

abbrev early_steps : List ServerStep
early_steps = server_gets register_frame true [] ∷ []

abbrev late_steps : List ServerStep
late_steps =
    server_pumps (pumps_data 1 (codes "hi") true)
    ∷ server_gets (record no_frame { type = keepalive }) true []
    ∷ server_gets (data_of (codes "yo")) true (sent 1 ∷ sent 1 ∷ [])
    ∷ []

abbrev dialling : List ClientStep
dialling =
    client_ticks true
    ∷ client_gets (open_of 1 (codes "edge-1")) true (some 9) []
    ∷ client_pumps (pumps_data 1 (codes "yo") true)
    ∷ []

upstream_example :
    IsPrefix
      (bytes_to 7
        (server_run 1
          (early_steps ++ server_forwards 7 (codes "edge-1") true ∷ late_steps)
          (new_server [])).to_socket)
      (client_reads 1 dialling)
unfolding server_run server_step forward send get_conn write_all client_run client_frame equals
    pump_step send_data on_frame keepalive_tick
upstream_example =
    upstream (codes "edge-1") (codes "edge-1") 1 7 true [] early_steps late_steps dialling
      registered_edge [] edge_registers (omega arith) tt tt refl refl

abbrev two_opens : List ServerStep
two_opens =
    server_gets (record no_frame { type = register; target = codes "edge-1" }) true []
    ∷ server_forwards 7 (codes "edge-1") true
    ∷ server_pumps (pumps_data 1 (codes "hi") true)
    ∷ server_forwards 8 (codes "edge-1") true
    ∷ server_ends
    ∷ []

opened_ids-Growing_example :
    Growing 0 (opened_ids (server_run 1 two_opens (new_server [])).session.written)
opened_ids-Growing_example = opened_ids-Growing 1 [] two_opens (omega arith)

-- They are 1 and 2.
first_ids : opened_ids (server_run 1 two_opens (new_server [])).session.written ≡ 1 ∷ 2 ∷ []
unfolding server_run server_step on_frame forward send pump_step send_data teardown
first_ids = refl
