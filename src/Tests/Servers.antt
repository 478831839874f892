-- ===== src/Tests/Servers.antt =====
-- The server of grpc-tunnel/src/tunnel_server.cc and the sockets of grpc-tunnel/src/net.cc at
-- concrete inputs.
use zero_touch.Base.{List, [], false, refl, some, true, ◌∷◌, ◌≡◌}
use zero_touch.Base.Bytes.{codes, equals}
use zero_touch.Base.Keys.{nat_ord, text_lt, text_ord}
use zero_touch.Base.Map.{erase, insert, lookup}
use zero_touch.Tunnel.Registry.{add, get, remove}
use zero_touch.Tunnel.Registry.Binding.{Event, ends, no_bindings, opens, registers, run, run-bound}
use zero_touch.Tunnel.Server.{Server, on_frame, rebind, teardown}
use zero_touch.Tunnel.Server.EmptyName.{register_frame, teardown-empty_name}
use zero_touch.Tunnel.Session.{new_session}

abbrev two_clients : List Event
two_clients =
    opens 1 ∷ registers 1 (codes "edge-1") ∷ opens 2 ∷ registers 2 (codes "edge-1") ∷ ends 1 ∷ []

edge_is_bound : get (codes "edge-1") (run no_bindings two_clients).registry ≡ some 2
unfolding get run lookup insert erase equals text_lt rebind add remove
edge_is_bound = refl

run-bound_example : lookup 2 (run no_bindings two_clients).handlers ≡ some (codes "edge-1")
run-bound_example =
    run-bound two_clients (codes "edge-1") (tt, ((λ e. cc), (tt, ((λ e. cc), (tt, tt)))))
      edge_is_bound

abbrev fresh_server : Server
fresh_server = record { registry = []; session = new_session; target = []; to_socket = [] }

teardown-empty_name_example :
    let w = teardown 1 (
      on_frame 1
        (register_frame (codes "edge-1"))
        true
        []
        (on_frame 1 (register_frame []) true [] fresh_server)) in
    (get [] w.registry ≡ some 1) × (w.session.alive ≡ false)
teardown-empty_name_example =
    teardown-empty_name 1 (codes "edge-1") true [] fresh_server tt refl (λ e. cc)
