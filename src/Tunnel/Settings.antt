-- ===== src/Tunnel/Settings.antt =====
-- `Keepalive`, the whole of `RunTunnel`, and the settings of `main` of
-- grpc-tunnel/src/tunnel_client.cc.
pub mod Teardown
use zero_touch.Args.{Start, leave, starts}
use zero_touch.Base.{
  Bool, List, Option, [], drop, false, if◌then◌else◌, length, none, not, some, true, ℕ, ◌&&◌, ◌++◌,
  ◌∷◌,
}
use zero_touch.Base.Bytes.{Bytes, codes, equals, starts_with}
use zero_touch.Base.Num.{ℤ}
use zero_touch.Tunnel.{Frame, keepalive, no_frame}
use zero_touch.Tunnel.Args.{arg}
use zero_touch.Tunnel.Client.{Client, client_frame, client_teardown, register_client}
use zero_touch.Tunnel.Net.{SendResult, atoi, split_host_port}
use zero_touch.Tunnel.Session.{Session, send}

-- `Arg` with a null fallback.
unfoldable pub find_arg : List Bytes → Bytes → Option Bytes
unfolding equals starts_with
find_arg [] flag = none
find_arg (a ∷ []) flag =
    if starts_with (flag ++ codes "=") a then some (drop (length (flag ++ codes "=")) a) else none
find_arg (a ∷ b ∷ args) flag =
    let rest = find_arg (b ∷ args) flag in
    if equals a flag
    then some b
    else if starts_with (flag ++ codes "=") a
    then some (drop (length (flag ++ codes "=")) a)
    else rest

-- The settings of `main`: where the tunnel leads, what is dialled, and whether the built-in service
-- is served there. The periods are `none` where `atoi` has no defined value.
pub record ClientSettings : Type 0 where
  pub tunnel_addr : Bytes
  pub target : Bytes
  pub retry_period : Option ℤ
  pub keepalive_period : Option ℤ
  pub serve_demo : Bool
  pub local_host : Bytes
  pub local_port : ℕ

abbrev pub local_of : Option Bytes → Option Bytes → Bytes
local_of (some dial) echo = dial
local_of none (some echo) = echo
local_of none none = codes "127.0.0.1:50060"

abbrev pub is_given : Option Bytes → Bool
is_given none = false
is_given (some a) = true

abbrev pub with_local : List Bytes → Bool → Option (Bytes × ℕ) → Start ClientSettings
with_local args serve_demo none = leave 1
with_local args serve_demo (some (host, port)) = starts (record {
  tunnel_addr = arg args (codes "--tunnel") (codes "tunnel-server:50051");
  target = arg args (codes "--target") (codes "edge-1");
  retry_period = atoi (arg args (codes "--retry") (codes "3"));
  keepalive_period = atoi (arg args (codes "--keepalive") (codes "20"));
  serve_demo = serve_demo;
  local_host = host;
  local_port = port;
})

-- `main`, up to the start of the service.
unfoldable pub client_settings : List Bytes → Start ClientSettings
unfolding arg find_arg atoi split_host_port
client_settings args =
    let dial = find_arg args (codes "--dial") in
    let echo = find_arg args (codes "--echo") in
    if is_given dial && is_given echo
    then leave 1
    else with_local args (not (is_given dial)) (split_host_port (local_of dial echo))

-- One period of `Keepalive`, where `ok` is what the write of its frame would return: the session, and
-- whether the thread goes on.
unfoldable pub keepalive_tick : Bool → Session → Bool × Session
keepalive_tick ok s = send (record no_frame { type = keepalive }) ok s

-- What happens while a tunnel is up: a frame arrives, with the results of the calls of its handler,
-- or a period of the keepalive thread ends.
pub data ClientEvent : Type 0 where
  arrives : Frame → Bool → Option ℕ → List SendResult → ClientEvent
  ticks : Bool → ClientEvent

-- The thread's part of a state: whether it still runs.
unfoldable pub client_event : Bytes → ClientEvent → Bool × Client → Bool × Client
unfolding keepalive_tick
client_event target (arrives f ok dialled results) (running, v) =
    (running, client_frame target f ok dialled results v)
client_event target (ticks ok) (running, v) =
    let (goes_on, s) = keepalive_tick ok v.session in
    if running then (goes_on, record v { session = s }) else (running, v)

unfoldable pub client_events : Bytes → List ClientEvent → Bool × Client → Bool × Client
unfolding client_event
client_events target [] state = state
client_events target (e ∷ es) state = client_events target es (client_event target e state)

abbrev pub late_ticks : List Bool → List ClientEvent
late_ticks [] = []
late_ticks (ok ∷ oks) = ticks ok ∷ late_ticks oks

abbrev pub served : Bytes → List ClientEvent → List Bool → Option Client → Option Client
served target events late none = none
served target events late (some v) =
    let (running, up) = client_events target events (true, v) in
    some (client_events target (late_ticks late) (running, client_teardown up)).1

-- `RunTunnel`: the thread of the keepalive ends after the teardown, so that it may still tick. The
-- result is `none` where the client could not register.
unfoldable pub run_tunnel : Bytes → Bool → List ClientEvent → List Bool → Option Client
unfolding register_client client_events
run_tunnel target ok events late = served target events late (register_client target ok)
