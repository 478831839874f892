-- ===== src/Tunnel/Forwarder.antt =====
-- `ForwarderLoop`, `WaitFor`, `AutoCallLoop` and the settings of `main` of
-- grpc-tunnel/src/tunnel_server.cc.
pub mod Opening
use zero_touch.Args.{Start, leave, starts}
use zero_touch.Base.{Bool, List, Option, [], none, some, suc, zero, ℕ, ◌%◌, ◌++◌, ◌+◌, ◌^◌, ◌∷◌}
use zero_touch.Base.Bytes.{Bytes, codes}
use zero_touch.Base.Keys.{nat_ord, text_ord}
use zero_touch.Base.Map.{insert, lookup}
use zero_touch.Base.Num.{to_string, ℤ}
use zero_touch.Tunnel.Args.{arg}
use zero_touch.Tunnel.Net.{atoi, split_host_port}
use zero_touch.Tunnel.Registry.{Registry, get}
use zero_touch.Tunnel.Server.{forward}
use zero_touch.Tunnel.Session.{Session, new_session, pump}

-- What the forwarder works on: the registry, the sessions that it names, the sockets that the
-- forwarder closed, and the pumps that it started, each with its session, stream and connection.
pub record Forwarder : Type 0 where
  pub registry : Registry
  pub sessions : List (ℕ × Session)
  pub closed : List ℕ
  pub pumps : List (ℕ × ℕ × ℕ)

-- What `accept` gives before it fails: a socket, with what the write of its OPEN frame would return,
-- or `EINTR`.
pub data AcceptResult : Type 0 where
  accepted : ℕ → Bool → AcceptResult
  interrupted : AcceptResult

abbrev pub session_or : Option Session → Session
session_or none = new_session
session_or (some s) = s

-- `*sess`
unfoldable pub session_at : ℕ → Forwarder → Session
session_at sess f = session_or (lookup sess f.sessions)

abbrev pub started : ℕ → Option (ℕ × ℕ) → List (ℕ × ℕ × ℕ) → List (ℕ × ℕ × ℕ)
started sess none pumps = pumps
started sess (some (id, ref)) pumps = pumps ++ (sess, id, ref) ∷ []

-- A socket, and what the registry gives for the target.
unfoldable pub accept_on : Option ℕ → Bytes → ℕ → Bool → Forwarder → Forwarder
unfolding session_at
accept_on none target fd ok f = record f { closed = f.closed ++ fd ∷ [] }
accept_on (some sess) target fd ok f =
    let (pump, s) = forward fd target ok (session_at sess f) in
    record f { sessions = insert sess s f.sessions; pumps = started sess pump f.pumps }

-- `ForwarderLoop`, up to an `accept` that fails; `SetNoDelay` on the socket is left out.
unfoldable pub forwarder_loop : Bytes → List AcceptResult → Forwarder → Forwarder
unfolding accept_on
forwarder_loop target [] f = f
forwarder_loop target (interrupted ∷ rs) f = forwarder_loop target rs f
forwarder_loop target (accepted fd ok ∷ rs) f =
    forwarder_loop target rs (accept_on (get target f.registry) target fd ok f)

-- `WaitFor`, over the registries that it sees when it is called and each time that it is notified.
unfoldable pub wait_for : Bytes → List Registry → Option ℕ
wait_for target [] = none
wait_for target (r ∷ rs) = elim (get target r) [ some sess ↦ some sess | none ↦ wait_for target rs ]

-- The messages of the next `k` turns of `AutoCallLoop`, after `n` turns, on 64 bits.
unfoldable pub auto_messages : ℕ → ℕ → List Bytes
unfolding to_string
auto_messages zero n = []
auto_messages (suc k) n =
    let m = (n + 1) % 2 ^ 64 in (codes "auto-" ++ to_string m) ∷ auto_messages k m

-- The settings of `main`. The period is `none` where `atoi` has no defined value.
pub record ServerSettings : Type 0 where
  pub listen_addr : Bytes
  pub forward_addr : Bytes
  pub forward_host : Bytes
  pub forward_port : ℕ
  pub target : Bytes
  pub auto_period : Option ℤ

abbrev pub with_forward : List Bytes → Bytes → Option (Bytes × ℕ) → Start ServerSettings
with_forward args forward_addr none = leave 1
with_forward args forward_addr (some (host, port)) = starts (record {
  listen_addr = arg args (codes "--listen") (codes "0.0.0.0:50051");
  forward_addr = forward_addr;
  forward_host = host;
  forward_port = port;
  target = arg args (codes "--target") (codes "edge-1");
  auto_period = atoi (arg args (codes "--auto") (codes "0"));
})

unfoldable pub server_settings : List Bytes → Start ServerSettings
unfolding arg atoi split_host_port
server_settings args =
    let forward_addr = arg args (codes "--forward") (codes "127.0.0.1:50052") in
    with_forward args forward_addr (split_host_port forward_addr)
