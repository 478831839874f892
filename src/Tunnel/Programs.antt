-- ===== src/Tunnel/Programs.antt =====
-- `main` of grpc-tunnel/src/tunnel_server.cc and of tunnel_client.cc, behind their settings. The gRPC
-- server is a parameter: whether `BuildAndStart` succeeds on an address, over the state of the
-- system.
pub mod Outcomes
use Prim.Native.Char.{code}
use zero_touch.Args.{Start, crash, leave, starts}
use zero_touch.Base.{Bool, List, Option, [], false, if◌then◌else◌, none, some, suc, true, ℕ, ◌∷◌}
use zero_touch.Base.Bytes.{Bytes, codes}
use zero_touch.Base.Num.{pos, ℤ}
use zero_touch.Tunnel.Client.{Client}
use zero_touch.Tunnel.Forwarder.{ServerSettings, server_settings}
use zero_touch.Tunnel.Net.Sockets.{Sockets, listen_tcp}
use zero_touch.Tunnel.Settings.{
  ClientEvent, ClientSettings, client_settings, find_arg, local_of, run_tunnel,
}

-- What a server that has started holds: its settings, the socket that `ForwarderLoop` accepts on, and
-- the period of `AutoCallLoop`, where that runs.
pub record Serving : Type 0 where
  pub settings : ServerSettings
  pub listen_fd : ℕ
  pub calls : Option ℕ

-- `auto_period > 0`
abbrev pub period_of : Option ℤ → Option ℕ
period_of (some (pos (suc n))) = some (suc n)
period_of _ = none

module _ {W Address : Type 0} (s : Sockets W Address) (build_and_start : W → Bytes → Bool × W) where
  abbrev pub built : ServerSettings → ℕ → Bool × W → Start Serving × W
  built cfg fd (false, w) = (leave 1, w)
  built cfg fd (true, w) =
      (starts (record { settings = cfg; listen_fd = fd; calls = period_of cfg.auto_period }), w)

  abbrev pub serve_on : ServerSettings → Option ℕ × W → Start Serving × W
  serve_on cfg (none, w) = (leave 1, w)
  serve_on cfg (some fd, w) = built cfg fd (build_and_start w cfg.listen_addr)

  abbrev pub serve : Start ServerSettings → W → Start Serving × W
  serve (starts cfg) w = serve_on cfg (listen_tcp s cfg.forward_host cfg.forward_port w)
  serve (leave code) w = (leave code, w)
  serve crash w = (crash, w)

  -- `main` of tunnel_server.cc, up to `Wait`
  unfoldable pub server_main : List Bytes → W → Start Serving × W
  unfolding server_settings listen_tcp
  server_main args w = serve (server_settings args) w

module _ {W : Type 0} (build_and_start : W → Bytes → Bool × W) where
  abbrev pub echo_started : ClientSettings → Bool × W → Start ClientSettings × W
  echo_started cfg (false, w) = (leave 1, w)
  echo_started cfg (true, w) = (starts cfg, w)

  abbrev pub serve_echo : Bytes → Start ClientSettings → W → Start ClientSettings × W
  serve_echo local_addr (starts cfg) w =
      if cfg.serve_demo then echo_started cfg (build_and_start w local_addr) else (starts cfg, w)
  serve_echo local_addr (leave code) w = (leave code, w)
  serve_echo local_addr crash w = (crash, w)

  -- `main` of tunnel_client.cc, up to its loop
  unfoldable pub client_main : List Bytes → W → Start ClientSettings × W
  unfolding client_settings find_arg
  client_main args w =
      let local_addr = local_of (find_arg args (codes "--dial")) (find_arg args (codes "--echo")) in
      serve_echo local_addr (client_settings args) w

-- What one turn of the loop of `main` meets: whether the REGISTER frame can be written, what happens
-- while the tunnel is up, and the ticks behind its teardown.
pub record Attempt : Type 0 where
  pub writes : Bool
  pub events : List ClientEvent
  pub late : List Bool

-- The loop of `main` of tunnel_client.cc: what each of its tunnels comes to.
unfoldable pub reconnect : Bytes → List Attempt → List (Option Client)
unfolding run_tunnel
reconnect target [] = []
reconnect target (a ∷ more) = run_tunnel target a.writes a.events a.late ∷ reconnect target more
