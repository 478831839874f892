-- ===== src/Standalone.antt =====
-- daemon/zerotouchd_standalone.cpp: the daemon without a data store. The modem, the gNMI sink and
-- smsctl are parameters; the sink of the classic commands is src/direct_action_sink.cpp.
pub mod Inert
pub mod Refusals
use zero_touch.AtModem.{AtResult}
use zero_touch.Base.{Bool, List, Option, [], none, some, ℕ, ◌%◌, ◌&&◌, ◌++◌, ◌+◌, ◌^◌}
use zero_touch.Base.Bytes.{Bytes, codes, equals}
use zero_touch.Bridge.{Bridge}
use zero_touch.Classic.{
  DsSink, Engine, Kind, factory_reset, not_a_command, other_kind, seed_of, wifi,
}
use zero_touch.Config.{AppConfig, parse_config}
use zero_touch.Daemon.{Account, SessionConfig, SessionStore, level_of, value_or}
use zero_touch.DirectAction.{action_get, action_set, arm_trigger}
use zero_touch.Executor.{Access, GnmiSink}
use zero_touch.Users.{User, UserStore, find_user, parse_users}

-- `StandaloneClient`, but for the path of its file, with the state `M` of the modem and the gNMI
-- server behind it.
pub record Box (S M : Type 0) : Type 0 where
  pub config : AppConfig
  pub users : UserStore
  pub sessions : S
  pub handled : ℕ
  pub modem : M

-- `read_file`: the bytes of the file, or nothing where it cannot be read.
unfoldable pub read_file : (Bytes → Option Bytes) → Bytes → Bytes
read_file file path = value_or (file path) []

abbrev pub account_of_user : Option User → Option Account
account_of_user none = none
account_of_user (some u) = some (record { id = u.id; hash = u.hash; access = u.access })

-- The `lookup` of `run`.
unfoldable pub lookup_user : UserStore → Bytes → Option Account
unfolding find_user
lookup_user users id = account_of_user (find_user id users)

-- `DirectActionSink`, with the exchange of a command and the reboot of `run`.
abbrev pub action_sink :
    {M : Type 0} → (M → Bytes → AtResult × M) → Bytes → (M → Bool × M) → DsSink M
action_sink at reboot_trigger reboot = record {
  set = action_set at;
  get = action_get at;
  arm_trigger = λ m path content. arm_trigger at reboot_trigger (some reboot) m path;
}

module _ {S M : Type 0} (store : SessionStore S) where
  -- The first half of `run`: the configuration and the users are read, and the sessions are told.
  unfoldable pub set_up : (Bytes → Option Bytes) → Bytes → Box S M → Box S M
  unfolding read_file
  set_up file path b =
      let config = parse_config (read_file file path) in
      let c : SessionConfig = record {
        session_ttl_sec = config.session_ttl_sec;
        lockout_failures = config.lockout_failures;
        lockout_sec = config.lockout_sec;
        allowed_numbers = config.allowed_numbers;
      } in
      record b {
        config = config;
        users = parse_users (read_file file config.users_file);
        sessions = store.set_config c b.sessions;
      }

  -- `authfn`
  unfoldable pub box_access : ℕ → Box S M → Bytes → Access × Box S M
  unfolding equals
  box_access now b sender = (level_of store (store.session b.sessions sender now), b)

  -- `allow`
  unfoldable pub box_allows : Box S M → Bytes → Bool × Box S M
  box_allows b sender = (b.config.enabled && store.allows b.sessions sender, b)

  -- `handle_timeout`
  unfoldable pub sweep_box : ℕ → Box S M → Box S M
  sweep_box now b = record b { sessions = store.sweep now b.sessions }

abbrev pub unsupported : Bytes → Bytes
unsupported keyword = codes "ERR " ++ keyword ++ codes ": not supported on this device"

abbrev pub ran : {S M : Type 0} → Box S M → Bytes × (S × M) → Bytes × Box S M
ran b (reply, (sessions, m)) = (reply, record b { sessions = sessions; modem = m })

module _ {C S M : Type 0} (engine : Engine C S M) (sink : DsSink M) where
  unfoldable pub run_classic : Kind → C → ℕ → Bytes → Box S M → Bytes × Box S M
  run_classic not_a_command cmd now sender b = ([], b)
  run_classic wifi cmd now sender b = (unsupported (engine.keyword cmd), b)
  run_classic factory_reset cmd now sender b = (unsupported (engine.keyword cmd), b)
  run_classic other_kind cmd now sender b =
      let counted = record b { handled = (b.handled + 1) % 2 ^ 64 } in
      ran counted (
        engine.handle sink (λ m id. lookup_user b.users id) cmd sender now
          (seed_of now counted.handled) (b.sessions, b.modem))

  -- `fallback`
  unfoldable pub fallback : ℕ → Box S M → Bytes → Bytes → Bytes × Box S M
  unfolding run_classic
  fallback now b sender text =
      let cmd = engine.parse text in run_classic (engine.kind cmd) cmd now sender b

  -- The bridge that `run` builds; the transport's `send` and the gNMI sink act on the modem.
  abbrev pub box_bridge :
      SessionStore S
      → (Box S M → Bytes → Bytes → Bool × Box S M)
      → GnmiSink (Box S M)
      → (Bytes → List Bytes)
      → ℕ
      → Bridge (Box S M)
  box_bridge store transmit gnmi tokenize now = record {
    send = transmit;
    executor = record { sink = gnmi; auth = some (box_access store now) };
    tokenize = some tokenize;
    fallback = some (fallback now);
    allow = some (box_allows store);
  }
