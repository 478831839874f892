-- ===== src/Daemon/Gate.antt =====
-- The bridge as daemon/zerotouchd.cpp wires it.
use zero_touch.Base.{Bool, List, arith, false, inl, inr, refl, some, ℕ, ◌∙◌, ◌≡◌, ◌⊎◌}
use zero_touch.Base.Bytes.{Bytes}
use zero_touch.Bridge.{Bridge, on_sms}
use zero_touch.Bridge.Replies.{on_sms-refused}
use zero_touch.Daemon.{Daemon, SessionStore, sender_access, sender_allowed}
use zero_touch.Executor.{GnmiSink}
use zero_touch.Sms.{InboundSms}

module _ {S : Type 0} (store : SessionStore S) where
  -- The transport, the sink and the classic engine are arguments; the gate and the access of a
  -- sender are the daemon's own.
  abbrev pub wired :
      (Daemon S → Bytes → Bytes → Bool × Daemon S)
      → GnmiSink (Daemon S)
      → (Bytes → List Bytes)
      → (Daemon S → Bytes → Bytes → Bytes × Daemon S)
      → ℕ
      → Bridge (Daemon S)
  wired transmit sink tokenize classic now = record {
    send = transmit;
    executor = record { sink = sink; auth = some (sender_access store now) };
    tokenize = some tokenize;
    fallback = some classic;
    allow = some (sender_allowed store);
  }

  closed :
      (sender : Bytes) (d : Daemon S)
      → (d.enabled ≡ false) ⊎ (store.allows d.sessions sender ≡ false)
      → (sender_allowed store d sender).0 ≡ false
  unfolding sender_allowed
  closed sender d (inl off) = rw off refl
  closed sender d (inr refused) = ground arith

  -- A daemon that is not enabled, or whose allow-list refuses the sender, does nothing at all with
  -- an SMS: no reply, no read, no write, no classic command.
  pub on_sms-closed :
      (transmit : Daemon S → Bytes → Bytes → Bool × Daemon S) (sink : GnmiSink (Daemon S))
      (tokenize : Bytes → List Bytes) (classic : Daemon S → Bytes → Bytes → Bytes × Daemon S)
      (now : ℕ) (sms : InboundSms) (d : Daemon S)
      → (d.enabled ≡ false) ⊎ (store.allows d.sessions sms.sender ≡ false)
      → on_sms (wired transmit sink tokenize classic now) sms d ≡ d
  on_sms-closed transmit sink tokenize classic now sms d h =
      on_sms-refused (wired transmit sink tokenize classic now) sms d (sender_allowed store) refl
        (closed sms.sender d h)
      ∙ unfold sender_allowed in refl
