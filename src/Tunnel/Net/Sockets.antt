-- ===== src/Tunnel/Net/Sockets.antt =====
-- `DialTcp` and `ListenTcp` of grpc-tunnel/src/net.cc. The calls of the system are parameters; `W` is
-- the state of the system. A descriptor is `none` where the call returns a negative number.
pub mod Held
use zero_touch.Base.{
  Bool, List, Option, [], false, if◌then◌else◌, is_empty, none, not, some, true, ℕ, ◌%◌, ◌^◌, ◌||◌,
  ◌∷◌,
}
use zero_touch.Base.Bytes.{Bytes, codes, equals}
use zero_touch.Base.Num.{to_string}

-- The calls. An address is what the system takes for one: of a resolved host, or of a local port.
pub record Sockets (W Address : Type 0) : Type 0 where
  pub resolve : W → Bytes → Bytes → Option (List Address) × W
  pub socket_for : W → Address → Option ℕ × W
  pub connect : W → ℕ → Address → Bool × W
  pub socket_inet : W → Option ℕ × W
  pub any_address : ℕ → Address
  pub parse_address : Bytes → ℕ → Option Address
  pub bind : W → ℕ → Address → Bool × W
  pub listen : W → ℕ → ℕ → Bool × W
  pub reuse_address : W → ℕ → W
  pub no_delay : W → ℕ → W
  pub close : W → ℕ → W

module _ {W Address : Type 0} (s : Sockets W Address) where
  abbrev pub connected : ℕ → Bool × W → Option ℕ × W
  connected n (true, w) = (some n, w)
  connected n (false, w) = (none, s.close w n)

  abbrev pub connect_to : Address → Option ℕ × W → Option ℕ × W
  connect_to a (none, w) = (none, w)
  connect_to a (some n, w) = connected n (s.connect w n a)

  -- The loop of `DialTcp` over the addresses.
  unfoldable pub try_all : List Address → W → Option ℕ × W
  try_all [] w = (none, w)
  try_all (a ∷ rest) w =
      let (fd, w1) = connect_to a (s.socket_for w a) in
      elim fd [ some n ↦ (some n, w1) | none ↦ try_all rest w1 ]

  abbrev pub set_no_delay : Option ℕ × W → Option ℕ × W
  set_no_delay (none, w) = (none, w)
  set_no_delay (some n, w) = (some n, s.no_delay w n)

  unfoldable pub dial_resolved : Option (List Address) × W → Option ℕ × W
  unfolding try_all
  dial_resolved (none, w) = (none, w)
  dial_resolved (some addresses, w) = set_no_delay (try_all addresses w)

  -- `DialTcp`
  unfoldable pub dial_tcp : Bytes → ℕ → W → Option ℕ × W
  unfolding dial_resolved to_string
  dial_tcp host port w = dial_resolved (s.resolve w host (to_string port))

  -- The address that `ListenTcp` binds to. The port is cut to 16 bits.
  unfoldable pub local_address : Bytes → ℕ → Option Address
  unfolding equals
  local_address host port =
      if is_empty host || equals host (codes "0.0.0.0") || equals host (codes "*")
      then some (s.any_address (port % 2 ^ 16))
      else s.parse_address host (port % 2 ^ 16)

  abbrev pub bind_to : ℕ → Option Address → W → Option ℕ × W
  bind_to fd none w = (none, s.close w fd)
  bind_to fd (some a) w =
      let (bound, w1) = s.bind w fd a in
      let (listening, w2) = s.listen w1 fd 128 in
      if not bound
      then (none, s.close w1 fd)
      else if not listening
      then (none, s.close w2 fd)
      else (some fd, w2)

  abbrev pub listen_on : Bytes → ℕ → Option ℕ × W → Option ℕ × W
  listen_on host port (none, w) = (none, w)
  listen_on host port (some fd, w) = bind_to fd (local_address host port) (s.reuse_address w fd)

  -- `ListenTcp`
  unfoldable pub listen_tcp : Bytes → ℕ → W → Option ℕ × W
  listen_tcp host port w = listen_on host port (s.socket_inet w)
