-- ===== src/Daemon/Status/Secrecy.antt =====
-- No secret leaves the daemon of daemon/zerotouchd.cpp: what the world sees of it does not depend on
-- the values of sensitive leaves behind src/local_gnmi_sink.cpp.
use mathlib.Core.Path.{fun_ext}
use zero_touch.Base.{All, Bool, List, Option, ap₂, arith, refl, true, ℕ, ◌<◌, ◌^◌, ◌≡◌}
use zero_touch.Base.Bytes.{Bytes}
use zero_touch.Classic.{Engine}
use zero_touch.Daemon.{Item, SessionStore, load_config}
use zero_touch.Daemon.Status.{DataStore, World, publish, publish_state, start_up}
use zero_touch.Daemon.Status.Mirror.{Event, on_events}
use zero_touch.Daemon.Status.Ports.{on_events-Agrees}
use zero_touch.Executor.{GnmiSink}
use zero_touch.LocalSink.{GnmiClient, SinkConfig, deny_of, local_sink, sink_set}
use zero_touch.LocalSink.Secrecy.{BlankedBy, IsHarmless, sink_get-secrecy}
use zero_touch.Reply.{GnmiResult}

-- Two gNMI servers that are the same but for the values of sensitive leaves, which the second one
-- blanks when harmless paths are read.
pub record Indistinct {W : Type 0} (cfg : SinkConfig) (client other : GnmiClient W) : Type 0 where
  pub reads :
      (w : W) (xps : List Bytes)
      → All (IsHarmless (deny_of cfg)) xps
      → BlankedBy
          (deny_of cfg)
          (client.call_get w cfg.host cfg.port cfg.get_role xps)
          (other.call_get w cfg.host cfg.port cfg.get_role xps)
  pub writes :
      (w : W) (updates : List (Bytes × Bytes))
      → other.call_set w cfg.host cfg.port cfg.set_role updates
        ≡ client.call_set w cfg.host cfg.port cfg.set_role updates

-- The sink over either is the same function.
local_sink-secrecy :
    {W : Type 0} (cfg : SinkConfig) (client other : GnmiClient W)
    → Indistinct cfg client other
    → local_sink other cfg ≡ local_sink client cfg
local_sink-secrecy {W = W} cfg client other like =
    ap₂
      (λ (g : W → List Bytes → GnmiResult × W) (s : W → List (Bytes × Bytes) → GnmiResult × W).
        let sink : GnmiSink W = record { get_paths = g; set_paths = s } in sink)
      (fun_ext (λ w. fun_ext (λ xps. sink_get-secrecy client cfg other like.reads w xps)))
      (fun_ext (λ w. fun_ext (λ updates. unfold sink_set in rw (like.writes w updates) refl)))

-- The sink of the daemon at a port: its configuration is `cfg`, but for the port, which the daemon
-- takes from its settings.
abbrev pub sinks_at : {W : Type 0} → GnmiClient W → SinkConfig → ℕ → GnmiSink W
sinks_at client cfg port = local_sink client (record cfg { port = port })

module _ {C S D V : Type 0} (store : SessionStore S) (ds : DataStore D V) (engine : Engine C S D)
    (parse_array : Bytes → Option (List Item)) (transmit : D → Bytes → Bytes → Bool × D)
    (tokenize : Bytes → List Bytes) where
  start_up-IsPort : (w : World S D) → (start_up store ds true w).1.daemon.sink_port < 2 ^ 16
  unfolding start_up load_config publish_state publish
  start_up-IsPort w = omega arith

  -- Whatever happens to the daemon once it is up, in any order, SMS of any sender and changes of the
  -- port among it, its whole state and all that it did outside, the SMS that it sent and what it
  -- published, are the same with a gNMI server that blanks the values of its sensitive leaves, where
  -- the two servers are the same but for these values at every port of 16 bits.
  pub on_events-secrecy :
      (cfg : SinkConfig) (client other : GnmiClient D)
      → ((port : ℕ) → port < 2 ^ 16 → Indistinct (record cfg { port = port }) client other)
      → (es : List (Event D)) (w : World S D)
      → on_events store ds engine parse_array transmit
          (sinks_at other cfg)
          tokenize
          es
          (start_up store ds true w).1
        ≡ on_events store ds engine parse_array transmit
            (sinks_at client cfg)
            tokenize
            es
            (start_up store ds true w).1
  on_events-secrecy cfg client other like es w =
      on_events-Agrees store ds engine parse_array transmit tokenize (sinks_at client cfg)
        (sinks_at other cfg)
        (λ port h. local_sink-secrecy (record cfg { port = port }) client other (like port h)) es
        (start_up store ds true w).1 (start_up-IsPort w)
