-- ===== src/Bridge.antt =====
-- src/bridge.cpp, with the message of inc/zerotouch/sms_transport.hpp: what happens to one inbound
-- SMS. The callbacks are parameters, and may be empty as a `std::function` may.
pub mod Replies
pub mod Preserving
use zero_touch.Base.{Bool, List, Option, [], if◌then◌else◌, is_empty, none, not, some, true}
use zero_touch.Base.Bytes.{Bytes}
use zero_touch.Command.{GnmiCommand, GnmiKind, not_gnmi, parse_gnmi}
use zero_touch.Executor.{GnmiExecutor, handle}
use zero_touch.Sms.{InboundSms}

-- `Bridge`: its transport's `send`, its executor and its three callbacks.
pub record Bridge (W : Type 0) : Type 0 where
  pub send : W → Bytes → Bytes → Bool × W
  pub executor : GnmiExecutor W
  pub tokenize : Option (Bytes → List Bytes)
  pub fallback : Option (W → Bytes → Bytes → Bytes × W)
  pub allow : Option (W → Bytes → Bool × W)

-- `m_tok ? m_tok(in.text) : std::vector<std::string>{}`
abbrev pub tokens_of : Option (Bytes → List Bytes) → Bytes → List Bytes
tokens_of none text = []
tokens_of (some tokenize) text = tokenize text

module _ {W : Type 0} where
  -- `!m_allow || m_allow(sender)`
  abbrev pub allowed : Option (W → Bytes → Bool × W) → W → Bytes → Bool × W
  allowed none w sender = (true, w)
  allowed (some allow) w sender = allow w sender

  -- `if (!reply.empty()) m_tx.send(sender, reply);`
  unfoldable pub reply_to : Bridge W → Bytes → Bytes × W → W
  reply_to b sender (reply, w) = if is_empty reply then w else (b.send w sender reply).1

  unfoldable pub run_fallback :
      Option (W → Bytes → Bytes → Bytes × W) → Bridge W → InboundSms → W → W
  unfolding reply_to
  run_fallback none b sms w = w
  run_fallback (some f) b sms w = reply_to b sms.sender (f w sms.sender sms.text)

  unfoldable pub route : GnmiKind → Bridge W → GnmiCommand → InboundSms → W → W
  unfolding run_fallback reply_to
  route not_gnmi b g sms w = run_fallback b.fallback b sms w
  route _ b g sms w = reply_to b sms.sender (handle b.executor g sms.sender w)

  -- What `on_sms` does behind the gate.
  unfoldable pub admit : Bool → Bridge W → InboundSms → W → W
  unfolding route
  admit ok b sms w =
      let g = parse_gnmi (tokens_of b.tokenize sms.text) in
      if not ok then w else route g.kind b g sms w

  -- `Bridge::on_sms`
  unfoldable pub on_sms : Bridge W → InboundSms → W → W
  unfolding admit
  on_sms b sms w = let (ok, w') = allowed b.allow w sms.sender in admit ok b sms w'
