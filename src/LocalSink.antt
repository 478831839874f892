-- ===== src/LocalSink.antt =====
-- src/local_gnmi_sink.cpp: the gNMI backend. The client library (path and value codecs, protobuf,
-- the RPC) is not in the repository: it is the parameter `GnmiClient`, with no laws. `W` is the
-- state of the server behind it.
pub mod Secrecy
use zero_touch.Base.{
  Bool, List, Option, [], false, if◌then◌else◌, is_empty, none, not, some, true, ℕ, ◌++◌, ◌==◌, ◌∷◌,
}
use zero_touch.Base.Bytes.{Bytes, codes}
use zero_touch.Base.Num.{negsuc, pos, ℤ}
use zero_touch.Executor.{GnmiSink}
use zero_touch.Executor.Authorization.{asked}
use zero_touch.Policy.{default_deny_tokens, is_sensitive_path}
use zero_touch.Reply.{GnmiPathResult, GnmiResult, no_result}

-- `LocalGnmiSink::Config`
pub record SinkConfig : Type 0 where
  pub host : Bytes
  pub port : ℕ
  pub get_role : Bytes
  pub set_role : Bytes
  pub deny_tokens : List Bytes

abbrev pub default_sink_config : SinkConfig
default_sink_config = record {
  host = codes "127.0.0.1";
  port = 50051;
  get_role = codes "VIEWER";
  set_role = codes "ADMIN";
  deny_tokens = [];
}

-- The outcome of an RPC: `gnmi_client::response`, whose body is decoded where the status is 0. The
-- decoded body is `none` where `ParseFromString` fails.
pub record RpcResponse (Body : Type 0) : Type 0 where
  pub grpc_status : ℤ
  pub grpc_message : Bytes
  pub body : Option Body

-- An update of a notification: its path and its value, each as text (`gnmi_util::path_to_string`,
-- `gnmi_util::typed_value_to_string`).
abbrev pub Update : Type 0
Update = Bytes × Bytes

-- `/gnmi.gNMI/Get` with the role and the paths asked for, answered by notifications that hold
-- updates; `/gnmi.gNMI/Set` with the role and the updates, answered by paths. Either with the
-- host and port of the configuration.
pub record GnmiClient (W : Type 0) : Type 0 where
  pub call_get : W → Bytes → ℕ → Bytes → List Bytes → RpcResponse (List (List Update)) × W
  pub call_set : W → Bytes → ℕ → Bytes → List (Bytes × Bytes) → RpcResponse (List Bytes) × W

abbrev pub is_zero : ℤ → Bool
is_zero (pos n) = n == 0
is_zero (negsuc n) = false

-- `rpc_ok`: whether the body is worth decoding, and the result with the status and the message.
unfoldable pub rpc_ok : {B : Type 0} → RpcResponse B → GnmiResult → Bool × GnmiResult
rpc_ok r out = (
  is_zero r.grpc_status,
  record out { grpc_status = r.grpc_status; grpc_message = r.grpc_message },
)

abbrev pub denied_row : Bytes → GnmiPathResult
denied_row xp = record { xpath = xp; value = []; error = codes "sensitive path denied" }

-- `const auto& deny = ...`
unfoldable pub deny_of : SinkConfig → List Bytes
deny_of cfg = if is_empty cfg.deny_tokens then default_deny_tokens else cfg.deny_tokens

-- The loop over the requested paths: the rows pushed on `out.paths`, and `asked`.
unfoldable pub screen : List Bytes → List Bytes → List GnmiPathResult × List Bytes
screen deny [] = ([], [])
screen deny (xp ∷ xps) =
    let (rows, asked) = screen deny xps in
    if is_sensitive_path xp deny then (denied_row xp ∷ rows, asked) else (rows, xp ∷ asked)

-- The row of one returned leaf.
unfoldable pub row_of : List Bytes → Update → GnmiPathResult
row_of deny (xp, value) =
    if is_sensitive_path xp deny
    then denied_row xp
    else record { xpath = xp; value = value; error = [] }

-- The loops over the notifications and their updates, pushing on the rows so far.
unfoldable pub push_updates : List Bytes → List GnmiPathResult → List Update → List GnmiPathResult
unfolding row_of
push_updates deny rows [] = rows
push_updates deny rows (u ∷ us) = push_updates deny (rows ++ row_of deny u ∷ []) us

unfoldable pub push_notifications :
    List Bytes → List GnmiPathResult → List (List Update) → List GnmiPathResult
unfolding push_updates
push_notifications deny rows [] = rows
push_notifications deny rows (n ∷ ns) = push_notifications deny (push_updates deny rows n) ns

-- What `get` does with the response.
unfoldable pub finish_get :
    List Bytes → Bool → GnmiResult → Option (List (List Update)) → GnmiResult
unfolding push_notifications
finish_get deny false out body = out
finish_get deny true out none = record out { grpc_message = codes "response parse failed" }
finish_get deny true out (some ns) = record out {
  ok = true;
  paths = push_notifications deny out.paths ns;
}

push_set_rows : List Bytes → List GnmiPathResult
push_set_rows [] = []
push_set_rows (p ∷ ps) = record { xpath = p; value = []; error = [] } ∷ push_set_rows ps

-- What `set` does with the response.
unfoldable pub finish_set : Bool → GnmiResult → Option (List Bytes) → GnmiResult
unfolding push_set_rows
finish_set false out body = out
finish_set true out none = record out { grpc_message = codes "response parse failed" }
finish_set true out (some ps) = record out { ok = true; paths = out.paths ++ push_set_rows ps }

-- The result of `get` once the server has answered.
unfoldable pub answered :
    {W : Type 0}
    → List Bytes
    → List GnmiPathResult
    → RpcResponse (List (List Update)) × W
    → GnmiResult × W
unfolding rpc_ok finish_get
answered deny rows (r, w) =
    let (ok, out) = rpc_ok r (record no_result { paths = rows }) in
    (finish_get deny ok out r.body, w)

module _ {W : Type 0} (client : GnmiClient W) (cfg : SinkConfig) where
  -- `LocalGnmiSink::get`
  unfoldable pub sink_get : W → List Bytes → GnmiResult × W
  unfolding deny_of screen answered
  sink_get w xpaths =
      let deny = deny_of cfg in
      let (rows, asked) = screen deny xpaths in
      if is_empty asked
      then (record no_result { ok = not (is_empty rows); grpc_status = pos 0; paths = rows }, w)
      else answered deny rows (client.call_get w cfg.host cfg.port cfg.get_role asked)

  -- `LocalGnmiSink::set`
  unfoldable pub sink_set : W → List (Bytes × Bytes) → GnmiResult × W
  unfolding rpc_ok finish_set
  sink_set w updates =
      let (r, w') = client.call_set w cfg.host cfg.port cfg.set_role updates in
      let (ok, out) = rpc_ok r no_result in (finish_set ok out r.body, w')

  -- The interface that the executor takes.
  abbrev pub local_sink : GnmiSink W
  local_sink = record { get_paths = sink_get; set_paths = sink_set }
