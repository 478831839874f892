-- ===== src/Standalone/Inert.antt =====
-- The file of daemon/zerotouchd_standalone.cpp that leaves the daemon without effect.
use zero_touch.Base.{
  Bool, List, Option, [], any, arith, drop, false, if◌then◌else◌, is_empty, none, not, refl, some,
  take, ℕ, ◌&&◌, ◌+◌, ◌∙◌, ◌∷◌, ◌≡◌,
}
use zero_touch.Base.Bytes.{Bytes, codes, equals, find}
use zero_touch.Base.Text.{lines, strip_comment, trim}
use zero_touch.Bridge.{on_sms}
use zero_touch.Bridge.Replies.{on_sms-refused}
use zero_touch.Classic.{DsSink, Engine}
use zero_touch.Config.{
  AppConfig, assign, assign_at, config_line, config_lines, default_config, parse_config, to_bool,
}
use zero_touch.Daemon.{SessionStore}
use zero_touch.Executor.{GnmiSink}
use zero_touch.Sms.{InboundSms}
use zero_touch.Standalone.{Box, box_allows, box_bridge, read_file, set_up}

-- The line gives `enabled` the value true.
abbrev pub enables_at : Bytes → Option ℕ → Bool
enables_at line none = false
enables_at line (some eq) =
    equals (trim (take eq line)) (codes "enabled") && to_bool (trim (drop (eq + 1) line))

abbrev pub enables : Bytes → Bool
enables raw =
    let line = trim (strip_comment raw) in not (is_empty line) && enables_at line (find b'=' line)

assign-enabled :
    (key val : Bytes) (c : AppConfig)
    → (assign key val c).enabled ≡ (if equals key (codes "enabled") then to_bool val else c.enabled)
unfolding assign
assign-enabled key val c = ground arith

assign_at-enabled :
    (line : Bytes) (eq : Option ℕ) (c : AppConfig)
    → c.enabled ≡ false
    → enables_at line eq ≡ false
    → (assign_at line eq c).enabled ≡ false
unfolding assign_at
assign_at-enabled line none c off h = off
assign_at-enabled line (some eq) c off h =
    assign-enabled (trim (take eq line)) (trim (drop (eq + 1) line)) c ∙ ground arith

config_line-enabled :
    (raw : Bytes) (c : AppConfig)
    → c.enabled ≡ false
    → enables raw ≡ false
    → (config_line raw c).enabled ≡ false
unfolding config_line
config_line-enabled raw c off h = ground (
  arith,
  assign_at-enabled (trim (strip_comment raw)) (find b'=' (trim (strip_comment raw))) c off,
)

config_lines-enabled :
    (ls : List Bytes) (c : AppConfig)
    → c.enabled ≡ false
    → any enables ls ≡ false
    → (config_lines ls c).enabled ≡ false
unfolding config_lines
config_lines-enabled [] c off h = off
config_lines-enabled (l ∷ ls) c off h =
    config_lines-enabled ls (config_line l c) (config_line-enabled l c off (ground arith))
      (ground arith)

pub parse_config-enabled :
    (text : Bytes) → any enables (lines text) ≡ false → (parse_config text).enabled ≡ false
unfolding parse_config
parse_config-enabled text h = config_lines-enabled (lines text) default_config refl h

module _ {C S M : Type 0} (engine : Engine C S M) (sink : DsSink M) (store : SessionStore S) where
  closed :
      (b : Box S M) (sender : Bytes)
      → b.config.enabled ≡ false
      → (box_allows store b sender).0 ≡ false
  unfolding box_allows
  closed b sender off = rw off refl

  -- Where no line of the configuration file gives `enabled` a true value - or there is no file - the
  -- daemon that was set up from it does nothing at all with an SMS, whoever sends it: no reply, no
  -- command of the modem, no gNMI call.
  pub set_up-inert :
      (file : Bytes → Option Bytes) (path : Bytes) (b : Box S M)
      (transmit : Box S M → Bytes → Bytes → Bool × Box S M) (gnmi : GnmiSink (Box S M))
      (tokenize : Bytes → List Bytes) (now : ℕ) (sms : InboundSms)
      → any enables (lines (read_file file path)) ≡ false
      → on_sms
          (box_bridge engine sink store transmit gnmi tokenize now)
          sms
          (set_up store file path b)
        ≡ set_up store file path b
  set_up-inert file path b transmit gnmi tokenize now sms h =
      on_sms-refused (box_bridge engine sink store transmit gnmi tokenize now) sms
        (set_up store file path b) (box_allows store) refl
        (closed (set_up store file path b) sms.sender
          (unfold set_up in parse_config-enabled (read_file file path) h))
      ∙ unfold box_allows in refl
