-- ===== src/Executor.antt =====
-- src/gnmi_executor.cpp: authorise a gNMI command and run it on the sink. `W` is the state that the
-- sink, the session store and the modem share; the sink is the interface of
-- inc/zerotouch/gnmi_sink.hpp.
pub mod Authorization
use zero_touch.Base.{List, Option, [], length, none, some, ◌++◌}
use zero_touch.Base.Bytes.{Bytes, codes}
use zero_touch.Command.{GnmiCommand, GnmiKind, get, not_gnmi, set, unknown}
use zero_touch.Reply.{GnmiResult, clamp_sms, format_get, format_set}

-- `Access`
pub data Access : Type 0 where
  no_access viewer admin : Access

-- `GnmiSink`
pub record GnmiSink (W : Type 0) : Type 0 where
  pub get_paths : W → List Bytes → GnmiResult × W
  pub set_paths : W → List (Bytes × Bytes) → GnmiResult × W

-- `GnmiExecutor`: the sink and the callback `AuthFn`, which may be empty.
pub record GnmiExecutor (W : Type 0) : Type 0 where
  pub sink : GnmiSink W
  pub auth : Option (W → Bytes → Access × W)

module _ {W : Type 0} where
  -- `m_auth ? m_auth(sender) : Access::None`
  abbrev pub access_of : Option (W → Bytes → Access × W) → W → Bytes → Access × W
  access_of none w sender = (no_access, w)
  access_of (some auth) w sender = auth w sender

  -- `case GnmiKind::Get`
  unfoldable pub handle_get : GnmiSink W → Access → GnmiCommand → W → Bytes × W
  handle_get sink no_access cmd w = (clamp_sms (codes "ERR GNMI GET login required"), w)
  handle_get sink _ cmd w = let (r, w') = sink.get_paths w cmd.xpaths in (format_get r, w')

  -- `case GnmiKind::Set`
  unfoldable pub handle_set : GnmiSink W → Access → GnmiCommand → W → Bytes × W
  handle_set sink admin cmd w =
      let (r, w') = sink.set_paths w cmd.updates in (format_set r (length cmd.updates), w')
  handle_set sink _ cmd w = (clamp_sms (codes "ERR GNMI SET admin login required"), w)

  -- The `switch` on the kind, once the access is known.
  unfoldable pub dispatch : GnmiKind → GnmiSink W → Access → GnmiCommand → W → Bytes × W
  unfolding handle_get handle_set
  dispatch not_gnmi sink level cmd w = ([], w)
  dispatch unknown sink level cmd w = (clamp_sms (codes "ERR " ++ cmd.error), w)
  dispatch get sink level cmd w = handle_get sink level cmd w
  dispatch set sink level cmd w = handle_set sink level cmd w

  -- `GnmiExecutor::handle`
  unfoldable pub handle : GnmiExecutor W → GnmiCommand → Bytes → W → Bytes × W
  unfolding dispatch
  handle ex cmd sender w =
      let (level, w') = access_of ex.auth w sender in dispatch cmd.kind ex.sink level cmd w'
