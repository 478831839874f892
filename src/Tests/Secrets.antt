-- ===== src/Tests/Secrets.antt =====
-- The daemon of daemon/zerotouchd.cpp over two gNMI servers, at concrete inputs.
use zero_touch.Base.{
  ◌+◌, Bool, List, Option, [], false, length, none, refl, some, true, ℕ, ◌<◌, ◌^◌, ◌∷◌, ◌≡◌,
}
use zero_touch.Base.Bytes.{Bytes, codes}
use zero_touch.Base.Keys.{nat_ord, text_ord}
use zero_touch.Base.Num.{pos}
use zero_touch.Bridge.{on_sms}
use zero_touch.Classic.{Engine, not_a_command}
use zero_touch.Command.{csv, ieq, parse_gnmi}
use zero_touch.Daemon.{load_config, on_wake, Item, SessionStore, sender_access, sender_allowed}
use zero_touch.Daemon.Status.{DataStore, World, on_change, on_exception, on_timeout, start_up}
use zero_touch.Daemon.Status.Mirror.{Event, arrives, change, on_event, on_events, tick, wake}
use zero_touch.Daemon.Status.Secrecy.{Indistinct, on_events-secrecy, sinks_at}
use zero_touch.Executor.{handle}
use zero_touch.LocalSink.{GnmiClient, default_sink_config, deny_of, sink_get}
use zero_touch.Policy.{is_sensitive_path}
use zero_touch.Reply.{format_get}

-- Every sender is logged in as a viewer.
abbrev viewers : SessionStore (List Bytes)
viewers = record {
  session = λ s sender now.
      some (record { id = codes "viewer"; hash = codes "h"; access = codes "Viewer" });
  allows = λ s sender. true;
  set_config = λ c s. s;
  sweep = λ now s. [];
  session_count = λ s. length s;
}

-- The data store is the list of the texts that were sent or written, and every number in it goes by
-- their count.
abbrev log_store : DataStore (List Bytes) Bytes
log_store = record {
  read = λ d. record {
    get = λ key. some (some key ∷ []);
    as_text = λ v. some v;
    as_int32 = λ v. some (pos (50000 + length d));
    as_bool = λ v. some true;
  };
  set_text = λ d key value. (true, value ∷ d);
  set_volatile = λ d batch. (true, d);
  truncate = λ d path. (true, d);
  write = λ d path content. (true, content ∷ d);
}

abbrev deaf_engine : Engine Bytes (List Bytes) (List Bytes)
deaf_engine = record {
  parse = λ text. text;
  kind = λ cmd. not_a_command;
  keyword = λ cmd. [];
  handle = λ sink lookup cmd sender now seed state. ([], state);
}

abbrev parse_nothing : Bytes → Option (List Item)
parse_nothing text = none

abbrev send_text : List Bytes → Bytes → Bytes → Bool × List Bytes
send_text d to reply = (true, reply ∷ d)

-- Every text asks for the system.
abbrev ask_system : Bytes → List Bytes
ask_system text = codes "IOT" ∷ codes "GNMI" ∷ codes "GET" ∷ codes "/system" ∷ []

abbrev server_with : Bytes → GnmiClient (List Bytes)
server_with secret = record {
  call_get = λ w host port role paths. (
    record {
      grpc_status = pos 0;
      grpc_message = [];
      body = some (
          ((codes "/system/hostname", codes "edge") ∷ (codes "/system/Password", secret) ∷ [])
          ∷ []);
    },
    w,
  );
  call_set = λ w host port role updates.
      (record { grpc_status = pos 7; grpc_message = []; body = none }, w);
}

secrets_alike :
    (port : ℕ)
    → port < 2 ^ 16
    → Indistinct
        (record default_sink_config { port = port })
        (server_with (codes "hunter2"))
        (server_with [])
unfolding deny_of is_sensitive_path
secrets_alike port h = record {
  reads = λ w xps h. (refl, refl, refl, refl);
  writes = λ w updates. refl;
}

abbrev fresh : World (List Bytes) (List Bytes)
fresh = record {
  daemon = record {
    enabled = false;
    gnmi_port = 0;
    sink_port = 0;
    sessions = [];
    cfg_dirty = false;
  };
  handled = 0;
  store = [];
  published = [];
}

abbrev two_reads : List (Event (List Bytes))
two_reads =
    arrives 5 7 (record { sender = codes "+491234567"; text = codes "IOT GNMI GET"; ts = [] })
    ∷ tick 6
    ∷ change
    ∷ wake
    ∷ arrives 7 7 (record { sender = codes "+497654321"; text = codes "IOT GNMI GET"; ts = [] })
    ∷ []

-- What becomes of the daemon over the server with a secret.
abbrev served_with : Bytes → World (List Bytes) (List Bytes)
served_with secret =
    on_events viewers log_store deaf_engine parse_nothing send_text
      (sinks_at (server_with secret) default_sink_config) ask_system two_reads
      (start_up viewers log_store true fresh).1

on_events-secrecy_example : served_with [] ≡ served_with (codes "hunter2")
on_events-secrecy_example =
    on_events-secrecy viewers log_store deaf_engine parse_nothing send_text ask_system
      default_sink_config (server_with (codes "hunter2")) (server_with []) secrets_alike two_reads
      fresh

-- The port is another one after the wake-up.
other_port : (served_with []).daemon.sink_port ≡ 50002
unfolding on_events on_event on_sms handle format_get sink_get parse_gnmi sender_access
    sender_allowed on_timeout ieq csv is_sensitive_path start_up on_exception on_change on_wake
    load_config
other_port = refl

-- Both reads are answered, behind the text that the start-up writes.
two_replies : length (served_with (codes "hunter2")).store ≡ 3
unfolding on_events on_event on_sms handle format_get sink_get parse_gnmi sender_access
    sender_allowed on_timeout ieq csv is_sensitive_path start_up on_exception on_change on_wake
    load_config
two_replies = refl
