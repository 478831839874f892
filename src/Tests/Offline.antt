-- ===== src/Tests/Offline.antt =====
-- daemon/zerotouchd_standalone.cpp and sim/zt_sim.cpp at concrete inputs.
use zero_touch.Args.{daemon_args, host_port, leave, sim_args, starts}
use zero_touch.AtModem.{without_cr}
use zero_touch.Base.{Bool, List, [], false, inl, length, none, refl, true, ℕ, ◌+◌, ◌∷◌, ◌≡◌}
use zero_touch.Base.Bytes.{Bytes, codes, equals, rfind, starts_with}
use zero_touch.Base.Keys.{nat_ord, text_ord}
use zero_touch.Base.Num.{stoi}
use zero_touch.Bridge.{on_sms}
use zero_touch.Classic.{DsSink, Engine, wifi}
use zero_touch.Command.{parse_gnmi}
use zero_touch.Config.{default_config}
use zero_touch.Console.{Sim, console, console_send, new_sim, sim_allows, sim_fallback, word_of}
use zero_touch.Daemon.{SessionConfig, SessionStore}
use zero_touch.Executor.{GnmiSink}
use zero_touch.Reply.{no_result}
use zero_touch.Sms.{InboundSms}
use zero_touch.Standalone.{Box, box_bridge}
use zero_touch.Standalone.Refusals.{on_sms-unsupported}

-- Nobody is logged in, and everybody is let in.
abbrev nobody : SessionStore ℕ
nobody = record {
  session = λ s sender now. none;
  allows = λ s sender. true;
  set_config = λ c s. s;
  sweep = λ now s. s;
  session_count = λ s. 0;
}

abbrev wifi_engine : {D : Type 0} → Engine Bytes ℕ D
wifi_engine = record {
  parse = λ text. text;
  kind = λ cmd. wifi;
  keyword = λ cmd. codes "WIFI";
  handle = λ sink lookup cmd sender now seed state. (codes "OK", state);
}

abbrev no_sink : DsSink ℕ
no_sink = record {
  set = λ d key value. (true, d);
  get = λ d key. (none, d);
  arm_trigger = λ d path content. (false, d);
}

abbrev some_box : Box ℕ ℕ
some_box = record { config = default_config; users = []; sessions = 0; handled = 0; modem = 0 }

-- The modem counts the SMS that it sent.
abbrev counting : Box ℕ ℕ → Bytes → Bytes → Bool × Box ℕ ℕ
counting b to text = (true, record b { modem = b.modem + 1 })

abbrev no_gnmi : GnmiSink (Box ℕ ℕ)
no_gnmi = record { get_paths = λ b xs. (no_result, b); set_paths = λ b us. (no_result, b) }

abbrev one_token : Bytes → List Bytes
one_token text = text ∷ []

abbrev wifi_sms : InboundSms
wifi_sms = record { sender = codes "+491234567"; text = codes "IOT WIFI a b"; ts = [] }

-- An enabled box answers a WiFi command by one SMS.
wifi_refused :
    on_sms
      (box_bridge wifi_engine no_sink nobody counting no_gnmi one_token 7)
      wifi_sms
      (record some_box { config = record default_config { enabled = true } })
    ≡ record some_box { config = record default_config { enabled = true }; modem = 1 }
wifi_refused =
    on_sms-unsupported wifi_engine no_sink nobody counting no_gnmi one_token 7 wifi_sms
      (record some_box { config = record default_config { enabled = true } }) refl refl
      (unfold parse_gnmi in refl) (inl refl)

abbrev no_settings : ℕ → SessionConfig
no_settings s = record {
  session_ttl_sec = 600;
  lockout_failures = 5;
  lockout_sec = 900;
  allowed_numbers = [];
}

abbrev no_hash : Bytes → Bytes
no_hash s = s

abbrev first_sim : Sim ℕ
first_sim = new_sim 0

abbrev sim_off : Sim ℕ
sim_off = record first_sim { enabled = false }

-- A line that comes in while the simulator is enabled is answered.
answered_online :
    length
      (console wifi_engine nobody no_settings no_hash one_token none
        ((1, codes "IOT WIFI a b") ∷ (2, codes "quit") ∷ (3, codes "hello") ∷ [])
        first_sim).sent
    ≡ 1
unfolding console word_of without_cr equals on_sms parse_gnmi sim_fallback sim_allows console_send
answered_online = refl

sim_arguments : sim_args true (codes "--gnmi=host:70000" ∷ []) ≡ starts (codes "host", 4464)
unfolding sim_args starts_with equals rfind stoi host_port
sim_arguments = refl

unknown_argument : daemon_args (codes "--ds-sock=/run/ds" ∷ codes "-x" ∷ []) ≡ leave 2
unfolding daemon_args starts_with equals
unknown_argument = refl
