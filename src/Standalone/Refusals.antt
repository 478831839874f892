-- ===== src/Standalone/Refusals.antt =====
-- The commands that daemon/zerotouchd_standalone.cpp does not take.
use zero_touch.Base.{Bool, List, ap, inl, inr, refl, true, ℕ, ◌∙◌, ◌≡◌, ◌⊎◌}
use zero_touch.Base.Bytes.{Bytes}
use zero_touch.Bridge.{on_sms, reply_to}
use zero_touch.Bridge.Replies.{on_sms-fallback}
use zero_touch.Classic.{DsSink, Engine, factory_reset, wifi}
use zero_touch.Command.{not_gnmi, parse_gnmi}
use zero_touch.Daemon.{SessionStore}
use zero_touch.Executor.{GnmiSink}
use zero_touch.Sms.{InboundSms}
use zero_touch.Standalone.{Box, box_allows, box_bridge, fallback, run_classic, unsupported}

module _ {C S M : Type 0} (engine : Engine C S M) (sink : DsSink M) (store : SessionStore S) where
  fallback-refused :
      (now : ℕ) (b : Box S M) (sender text : Bytes)
      → (engine.kind (engine.parse text) ≡ wifi) ⊎ (engine.kind (engine.parse text) ≡ factory_reset)
      → fallback engine sink now b sender text
        ≡ (unsupported (engine.keyword (engine.parse text)), b)
  unfolding fallback run_classic
  fallback-refused now b sender text (inl e) = rw e refl
  fallback-refused now b sender text (inr e) = rw e refl

  -- A WiFi or factory reset command, from a sender that the daemon lets in, is answered by one SMS
  -- that says that it is not supported, and by nothing else: neither the sessions, nor the modem but
  -- for that SMS, nor the count of commands is touched, and no login is asked for.
  pub on_sms-unsupported :
      (transmit : Box S M → Bytes → Bytes → Bool × Box S M) (gnmi : GnmiSink (Box S M))
      (tokenize : Bytes → List Bytes) (now : ℕ) (sms : InboundSms) (b : Box S M)
      → b.config.enabled ≡ true
      → store.allows b.sessions sms.sender ≡ true
      → (parse_gnmi (tokenize sms.text)).kind ≡ not_gnmi
      → (engine.kind (engine.parse sms.text) ≡ wifi)
        ⊎ (engine.kind (engine.parse sms.text) ≡ factory_reset)
      → on_sms (box_bridge engine sink store transmit gnmi tokenize now) sms b
        ≡ (transmit b sms.sender (unsupported (engine.keyword (engine.parse sms.text)))).1
  on_sms-unsupported transmit gnmi tokenize now sms b on listed other k =
      let bridge = box_bridge engine sink store transmit gnmi tokenize now in
      on_sms-fallback bridge sms b (box_allows store) (fallback engine sink now) refl refl
        (unfold box_allows in rw (on, listed) refl) other
      ∙ ap (reply_to bridge sms.sender) (fallback-refused now b sms.sender sms.text k)
      ∙ unfold reply_to in refl
