-- ===== src/Tests/Daemons.antt =====
-- daemon/zerotouchd.cpp and src/direct_action_sink.cpp at concrete inputs.
use zero_touch.AtModem.{AtResult, first_with}
use zero_touch.Base.{
  List, Option, [], false, if◌then◌else◌, inl, length, none, refl, some, true, ℕ, ◌+◌, ◌∷◌, ◌≡◌,
}
use zero_touch.Base.Bytes.{Bytes, codes, equals, find, starts_with}
use zero_touch.Base.Num.{int_to_string}
use zero_touch.Bridge.{on_sms}
use zero_touch.Config.Lines.{line}
use zero_touch.Daemon.{
  Account, Daemon, Item, SessionStore, Store, load_config, lookup_account, no_object, object,
}
use zero_touch.Daemon.Gate.{on_sms-closed, wired}
use zero_touch.DirectAction.{action_get, at_fields, fields_from, trim_back, trim_front}
use zero_touch.Executor.{GnmiSink}
use zero_touch.Reply.{no_result}
use zero_touch.Sms.{InboundSms}

-- The sessions are the senders that are logged in as admin.
abbrev sessions_here : SessionStore (List Bytes)
sessions_here = record {
  session = λ s sender now. none;
  allows = λ s sender. equals sender (codes "+491234567");
  set_config = λ c s. s;
  sweep = λ now s. s;
  session_count = λ s. length s;
}

abbrev daemon_off : Daemon (List Bytes)
daemon_off = record {
  enabled = false;
  gnmi_port = 50051;
  sink_port = 50051;
  sessions = [];
  cfg_dirty = false;
}

abbrev refusing_sink : GnmiSink (Daemon (List Bytes))
refusing_sink = record {
  get_paths = λ d paths. (no_result, d);
  set_paths = λ d updates. (no_result, d);
}

abbrev login_sms : InboundSms
login_sms = record { sender = codes "+491234567"; text = codes "IOT LOGIN admin x"; ts = [] }

on_sms-closed_example :
    on_sms
      (wired sessions_here
        (λ d to text. (true, d))
        refusing_sink
        (λ text. text ∷ [])
        (λ d sender text. (codes "OK", d))
        7)
      login_sms
      daemon_off
    ≡ daemon_off
on_sms-closed_example =
    on_sms-closed sessions_here (λ d to text. (true, d)) refusing_sink (λ text. text ∷ [])
      (λ d sender text. (codes "OK", d)) 7 login_sms daemon_off (inl refl)

abbrev store_here : Store Bytes
store_here = record {
  get = λ key.
      if equals key (codes "auth.users.accounts") then some (some (codes "[...]") ∷ []) else none;
  as_text = λ v. some v;
  as_int32 = λ v. none;
  as_bool = λ v. none;
}

abbrev array_here : Bytes → Option (List Item)
array_here text = some (
    no_object
    ∷ object (some (codes "bob")) (some []) (some (codes "Admin"))
    ∷ object (some (codes "ann")) (some (codes "h1")) (some (codes "Viewer"))
    ∷ [])

abbrev ann : Account
ann = record { id = codes "ann"; hash = codes "h1"; access = codes "Viewer" }

ann_found : lookup_account store_here array_here (codes "ann") ≡ some ann
unfolding lookup_account
ann_found = refl

-- An account without a hash is not found.
bob_missing : lookup_account store_here array_here (codes "bob") ≡ none
unfolding lookup_account
bob_missing = refl

-- Where the data store has no settings, the defaults hold.
defaults_loaded : (load_config store_here sessions_here daemon_off).gnmi_port ≡ 50051
unfolding load_config equals
defaults_loaded = refl

-- The modem answers every command with the same line.
abbrev modem_with : Bytes → ℕ → Bytes → AtResult × ℕ
modem_with line w cmd = (record { ok = true; lines = line ∷ [] }, w + 1)

signal_text :
    action_get (modem_with (codes "+CSQ: 17,99")) 0 (codes "cell.signal.dbm")
    ≡ (some (codes "-79"), 1)
unfolding action_get trim_front trim_back fields_from find starts_with at_fields first_with
    int_to_string equals
signal_text = refl

no_signal : action_get (modem_with (codes "+CSQ: 99,99")) 0 (codes "cell.signal.dbm") ≡ (none, 1)
unfolding action_get trim_front trim_back fields_from find starts_with at_fields first_with
    int_to_string equals
no_signal = refl

roaming :
    action_get (modem_with (codes "+CREG: 0,5")) 0 (codes "cell.reg") ≡ (some (codes "roam"), 1)
unfolding action_get trim_front trim_back fields_from find starts_with at_fields first_with
    int_to_string equals
roaming = refl
