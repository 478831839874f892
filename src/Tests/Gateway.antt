-- ===== src/Tests/Gateway.antt =====
-- src/bridge.cpp, src/gnmi_executor.cpp, src/local_gnmi_sink.cpp and the reading of commands at
-- concrete inputs. The state is a number: how many calls reached the server.
use zero_touch.Base.{
  All, Bool, List, [], false, if◌then◌else◌, inl, inr, leb, length, none, refl, some, true, ℕ, ◌+◌,
  ◌↔◌, ◌∷◌, ◌≡◌, ◌≢◌,
}
use zero_touch.Base.Bytes.{Bytes, codes, equals, lacks, to_lower}
use zero_touch.Base.Num.{pos}
use zero_touch.Bridge.{Bridge, on_sms, reply_to}
use zero_touch.Bridge.Replies.{Replied, command_of, on_sms-Replied, on_sms-unauthorized, recorded}
use zero_touch.Command.{csv, get, ieq, no_command, not_gnmi, parse_gnmi, set}
use zero_touch.Command.Csv.{IsPiece}
use zero_touch.Command.Grammar.{parse_gnmi-set_message, set_message}
use zero_touch.Executor.{Access, GnmiExecutor, admin, handle, no_access, viewer}
use zero_touch.Executor.Authorization.{Authorized, asked}
use zero_touch.LocalSink.{
  GnmiClient, RpcResponse, SinkConfig, Update, default_sink_config, deny_of, local_sink, sink_get,
}
use zero_touch.LocalSink.Secrecy.{BlankedBy, IsHarmless, IsMasked, sink_get-IsMasked}
use zero_touch.Policy.{default_deny_tokens, is_sensitive_path}
use zero_touch.Policy.Deny.{DeniedInAnyCase, is_sensitive_path_iff}
use zero_touch.Reply.{clamp_to, format_get}
use zero_touch.Reply.Bounds.{Clamped, clamp_to-Clamped}
use zero_touch.Sms.{InboundSms}

abbrev viewer_cfg : SinkConfig
viewer_cfg = default_sink_config

abbrev leaf : Update
leaf = (codes "/system/hostname", codes "edge")

abbrev secret_leaf : Update
secret_leaf = (codes "/system/Password", codes "hunter2")

abbrev answer_with : List Update → RpcResponse (List (List Update))
answer_with us = record { grpc_status = pos 0; grpc_message = []; body = some (us ∷ []) }

abbrev open_client : GnmiClient ℕ
open_client = record {
  call_get = λ w host port role paths. (answer_with (leaf ∷ secret_leaf ∷ []), w + 1);
  call_set = λ w host port role updates.
      (record { grpc_status = pos 7; grpc_message = []; body = none }, w + 1);
}

abbrev blind_client : GnmiClient ℕ
blind_client = record open_client {
  call_get =
      λ w host port role paths. (answer_with (leaf ∷ (codes "/system/Password", []) ∷ []), w + 1);
}

like_open :
    (w : ℕ) (xps : List Bytes)
    → All (IsHarmless (deny_of viewer_cfg)) xps
    → BlankedBy
        (deny_of viewer_cfg)
        (open_client.call_get w viewer_cfg.host viewer_cfg.port viewer_cfg.get_role xps)
        (blind_client.call_get w viewer_cfg.host viewer_cfg.port viewer_cfg.get_role xps)
unfolding deny_of is_sensitive_path
like_open w xps h = (refl, refl, refl, refl)

abbrev asked_paths : List Bytes
asked_paths = codes "/system" ∷ codes "/wifi/psk" ∷ []

sink_get-IsMasked_example :
    All (IsMasked (deny_of viewer_cfg)) (sink_get open_client viewer_cfg 0 asked_paths).0.paths
sink_get-IsMasked_example = sink_get-IsMasked open_client viewer_cfg 0 asked_paths

-- What the reply to the read shows.
read_reply :
    format_get (sink_get open_client viewer_cfg 0 asked_paths).0
    ≡ codes
        "OK GNMI GET /wifi/psk=<sensitive path denied>; /system/hostname=edge; /system/Password=<sensitive path denied>"
unfolding format_get sink_get is_sensitive_path
read_reply = refl

abbrev access_by_sender : ℕ → Bytes → Access × ℕ
access_by_sender w sender = (if equals sender (codes "+49123456789") then viewer else no_access, w)

abbrev executor_here : GnmiExecutor ℕ
executor_here = record { sink = local_sink open_client viewer_cfg; auth = some access_by_sender }

abbrev set_tokens : List Bytes
set_tokens = codes "IOT" ∷ codes "Gnmi" ∷ codes "SET" ∷ codes "/a,/b" ∷ codes "1,2" ∷ []

abbrev get_tokens : List Bytes
get_tokens = codes "iot" ∷ codes "gnmi" ∷ codes "get" ∷ codes "/system" ∷ []

abbrev refuse_short : ℕ → Bytes → Bool × ℕ
refuse_short w sender = (leb 7 (length sender), w + 100)

abbrev bridge_here : Bridge ℕ
bridge_here = record {
  send = λ w to text. (true, w + 1000);
  executor = executor_here;
  tokenize = some (λ text. if equals text (codes "set") then set_tokens else get_tokens);
  fallback = none;
  allow = some refuse_short;
}

abbrev set_sms : InboundSms
set_sms = record { sender = codes "+49123456789"; text = codes "set"; ts = [] }

abbrev short_sms : InboundSms
short_sms = record { sender = codes "12345"; text = codes "set"; ts = [] }

set-ne-not_gnmi : set ≢ not_gnmi
set-ne-not_gnmi h = cc

set-ne-get : set ≢ get
set-ne-get h = cc

viewer-ne-admin : viewer ≢ admin
viewer-ne-admin h = cc

is_command : (parse_gnmi set_tokens).kind ≢ not_gnmi
unfolding parse_gnmi ieq csv
is_command h = set-ne-not_gnmi h

not_authorized : ¬ Authorized executor_here (parse_gnmi set_tokens) (codes "+49123456789") 100
unfolding equals parse_gnmi ieq csv
not_authorized (inl h) = viewer-ne-admin h.1
not_authorized (inr h) = set-ne-get h.0

on_sms-unauthorized_example :
    on_sms bridge_here set_sms 0
    ≡ reply_to bridge_here (codes "+49123456789") (
      (handle executor_here (command_of bridge_here set_sms) (codes "+49123456789") 100).0,
      asked executor_here (command_of bridge_here set_sms) (codes "+49123456789") 100,
    )
unfolding equals
on_sms-unauthorized_example =
    on_sms-unauthorized bridge_here set_sms 0 is_command refl not_authorized

on_sms-Replied_example :
    Replied
      (command_of bridge_here set_sms).kind
      (codes "+49123456789")
      []
      (on_sms (recorded bridge_here) set_sms (0, [])).1
on_sms-Replied_example = on_sms-Replied bridge_here set_sms 0 []

set_is_set : (parse_gnmi set_tokens).kind ≡ set
unfolding parse_gnmi ieq csv
set_is_set = refl

get_is_get : (parse_gnmi get_tokens).kind ≡ get
unfolding parse_gnmi ieq
get_is_get = refl

abbrev two_updates : List (Bytes × Bytes)
two_updates = (codes "/a", codes "1") ∷ (codes "/b", codes "2") ∷ []

two_pieces : All (λ p. IsPiece p.0 × IsPiece p.1) two_updates
unfolding lacks
two_pieces = ((refl, refl), ((refl, refl), tt))

parse_gnmi-set_message_example :
    parse_gnmi (set_message (codes "IOT") (codes "Gnmi") (codes "SET") two_updates)
    ≡ record no_command { kind = set; updates = two_updates }
parse_gnmi-set_message_example =
    parse_gnmi-set_message (codes "IOT") (codes "Gnmi") (codes "SET") two_updates
      (unfold to_lower in record { is_iot = refl; is_gnmi = refl; is_op = refl }) (λ e. cc)
      two_pieces

clamp_to-Clamped_example : Clamped (codes "abcdefgh") 5 (clamp_to (codes "abcdefgh") 5)
clamp_to-Clamped_example = clamp_to-Clamped (codes "abcdefgh") 5

cut_text : clamp_to (codes "abcdefgh") 5 ≡ codes "ab..."
unfolding clamp_to
cut_text = refl

is_sensitive_path_iff_example :
    (is_sensitive_path (codes "/wifi/PSK") default_deny_tokens ≡ true)
    ↔ DeniedInAnyCase (codes "/wifi/PSK") default_deny_tokens
is_sensitive_path_iff_example = is_sensitive_path_iff (codes "/wifi/PSK") default_deny_tokens

psk_is_sensitive : is_sensitive_path (codes "/wifi/PSK") default_deny_tokens ≡ true
unfolding is_sensitive_path
psk_is_sensitive = refl

-- A token in capitals.
capital_token : is_sensitive_path (codes "/wifi/psk") (codes "PSK" ∷ []) ≡ false
unfolding is_sensitive_path
capital_token = refl
