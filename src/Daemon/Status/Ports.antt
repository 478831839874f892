-- ===== src/Daemon/Status/Ports.antt =====
-- The port of the gNMI server in daemon/zerotouchd.cpp: `load_config_from_ds` sets it, an SMS uses it.
use zero_touch.Base.{
  Bool, Bool-cases, List, Option, [], ap, arith, inl, inr, length, refl, ℕ, ◌<◌, ◌==◌, ◌^◌, ◌∙◌,
  ◌∷◌, ◌≡◌,
}
use zero_touch.Base.Bytes.{Bytes}
use zero_touch.Bridge.{Bridge, admit, on_sms, reply_to, route, run_fallback}
use zero_touch.Bridge.Preserving.{on_sms-P}
use zero_touch.Classic.{Engine, Kind, factory_reset, not_a_command, other_kind, wifi}
use zero_touch.Command.{GnmiCommand, GnmiKind, get, not_gnmi, parse_gnmi, set, unknown}
use zero_touch.Daemon.{
  Item, SessionStore, handle_timeout, load_config, on_wake, sender_access, sender_allowed,
}
use zero_touch.Daemon.Status.{
  DataStore, World, classic_reply, on_change, on_exception, on_timeout, publish, publish_state,
  run_command, tell,
}
use zero_touch.Daemon.Status.Mirror.{
  Event, arrives, change, on_event, on_events, rewrite, tick, wake,
}
use zero_touch.Daemon.Status.Wiring.{daemon_bridge, daemon_bridge-Preserves, on_store, store_sink}
use zero_touch.Executor.{
  Access, GnmiSink, admin, dispatch, handle, handle_get, handle_set, no_access, viewer,
}
use zero_touch.Reply.{format_get, format_set}
use zero_touch.Sms.{InboundSms}

module _ {C S D V : Type 0} (store : SessionStore S) (ds : DataStore D V) (engine : Engine C S D)
    (parse_array : Bytes → Option (List Item)) (transmit : D → Bytes → Bytes → Bool × D)
    (tokenize : Bytes → List Bytes) where
  -- The port is one of 16 bits.
  abbrev pub IsPort : World S D → Type 0
  IsPort w = w.daemon.sink_port < 2 ^ 16

  run_command-IsPort :
      (kind : Kind) (cmd : C) (sender : Bytes) (sec usec : ℕ) (w : World S D)
      → IsPort w
      → IsPort (run_command store ds engine parse_array kind cmd sender sec usec w).1
  unfolding run_command tell publish
  run_command-IsPort not_a_command cmd sender sec usec w h = h
  run_command-IsPort wifi cmd sender sec usec w h = h
  run_command-IsPort factory_reset cmd sender sec usec w h = h
  run_command-IsPort other_kind cmd sender sec usec w h = h

  classic_reply-IsPort :
      (sec usec : ℕ) (sender message : Bytes) (w : World S D)
      → IsPort w
      → IsPort (classic_reply store ds engine parse_array sec usec sender message w).1
  unfolding classic_reply
  classic_reply-IsPort sec usec sender message w h =
      run_command-IsPort (engine.kind (engine.parse message)) (engine.parse message) sender sec usec
        w h

  module _ (gnmi : ℕ → GnmiSink D) where
    -- Whatever happens, the port stays one of 16 bits.
    pub on_event-IsPort :
        (e : Event D) (w : World S D)
        → IsPort w
        → IsPort (on_event store ds engine parse_array transmit gnmi tokenize e w)
    unfolding on_event on_change on_timeout handle_timeout publish_state publish on_exception
        on_wake load_config
    on_event-IsPort (tick now) w h =
        elim (Bool-cases (
          store.session_count (store.sweep now w.daemon.sessions)
          == store.session_count w.daemon.sessions)) [
            | inl same ↦ rw same h
            | inr other ↦ rw other h
          ]
    on_event-IsPort wake w h = elim (Bool-cases w.daemon.cfg_dirty) [
      | inl dirty ↦ rw dirty (omega arith)
      | inr clean ↦ rw clean h
    ]
    on_event-IsPort change w h = h
    on_event-IsPort (rewrite d) w h = h
    on_event-IsPort (arrives sec usec sms) w h =
        on_sms-P IsPort (daemon_bridge store ds engine parse_array transmit gnmi tokenize sec usec)
          (daemon_bridge-Preserves store ds engine parse_array IsPort (λ d w h. h)
            classic_reply-IsPort transmit gnmi tokenize sec usec)
          sms w h

  -- Two families of sinks that are the same at the port that the daemon has now.
  module _ (gnmi other : ℕ → GnmiSink D) where
    abbrev Agrees : World S D → Type 0
    Agrees w = other w.daemon.sink_port ≡ gnmi w.daemon.sink_port

    abbrev got : GnmiCommand → World S D → GnmiSink D → Bytes × World S D
    got g w sink = let (r, w') = on_store (λ d. sink.get_paths d g.xpaths) w in (format_get r, w')

    abbrev written : GnmiCommand → World S D → GnmiSink D → Bytes × World S D
    written g w sink =
        let (r, w') = on_store (λ d. sink.set_paths d g.updates) w in
        (format_set r (length g.updates), w')

    get-Agrees :
        (g : GnmiCommand) (w : World S D)
        → Agrees w
        → got g w (other w.daemon.sink_port) ≡ got g w (gnmi w.daemon.sink_port)
    get-Agrees g w e = ap (got g w) e

    set-Agrees :
        (g : GnmiCommand) (w : World S D)
        → Agrees w
        → written g w (other w.daemon.sink_port) ≡ written g w (gnmi w.daemon.sink_port)
    set-Agrees g w e = ap (written g w) e

    dispatch-Agrees :
        (kind : GnmiKind) (level : Access) (g : GnmiCommand) (w : World S D)
        → Agrees w
        → dispatch kind (store_sink other) level g w ≡ dispatch kind (store_sink gnmi) level g w
    unfolding dispatch handle_get handle_set
    dispatch-Agrees not_gnmi level g w e = refl
    dispatch-Agrees unknown level g w e = refl
    dispatch-Agrees get no_access g w e = refl
    dispatch-Agrees get viewer g w e = get-Agrees g w e
    dispatch-Agrees get admin g w e = get-Agrees g w e
    dispatch-Agrees set no_access g w e = refl
    dispatch-Agrees set viewer g w e = refl
    dispatch-Agrees set admin g w e = set-Agrees g w e

    abbrev bridge_on : (ℕ → GnmiSink D) → ℕ → ℕ → Bridge (World S D)
    bridge_on sinks = daemon_bridge store ds engine parse_array transmit sinks tokenize

    reply_to-Agrees :
        (sec usec : ℕ) (to : Bytes) (r : Bytes × World S D)
        → reply_to (bridge_on other sec usec) to r ≡ reply_to (bridge_on gnmi sec usec) to r
    unfolding reply_to
    reply_to-Agrees sec usec to r = refl

    handled-Agrees :
        (sec usec : ℕ) (g : GnmiCommand) (sender : Bytes) (w : World S D)
        → Agrees w
        → reply_to
            (bridge_on other sec usec)
            sender
            (handle (bridge_on other sec usec).executor g sender w)
          ≡ reply_to
              (bridge_on gnmi sec usec)
              sender
              (handle (bridge_on gnmi sec usec).executor g sender w)
    unfolding handle
    handled-Agrees sec usec g sender w e =
        let level = (sender_access store sec w.daemon sender).0 in
        reply_to-Agrees sec usec sender (dispatch g.kind (store_sink other) level g w)
        ∙ ap (reply_to (bridge_on gnmi sec usec) sender) (dispatch-Agrees g.kind level g w e)

    route-Agrees :
        (kind : GnmiKind) (sec usec : ℕ) (g : GnmiCommand) (sms : InboundSms) (w : World S D)
        → Agrees w
        → route kind (bridge_on other sec usec) g sms w
          ≡ route kind (bridge_on gnmi sec usec) g sms w
    unfolding route run_fallback
    route-Agrees not_gnmi sec usec g sms w e =
        reply_to-Agrees sec usec sms.sender
          (classic_reply store ds engine parse_array sec usec sms.sender sms.text w)
    route-Agrees unknown sec usec g sms w e = handled-Agrees sec usec g sms.sender w e
    route-Agrees get sec usec g sms w e = handled-Agrees sec usec g sms.sender w e
    route-Agrees set sec usec g sms w e = handled-Agrees sec usec g sms.sender w e

    -- What happens next is the same with either.
    pub on_event-Agrees :
        (e : Event D) (w : World S D)
        → Agrees w
        → on_event store ds engine parse_array transmit other tokenize e w
          ≡ on_event store ds engine parse_array transmit gnmi tokenize e w
    unfolding on_event on_sms admit
    on_event-Agrees (tick now) w a = refl
    on_event-Agrees wake w a = refl
    on_event-Agrees change w a = refl
    on_event-Agrees (rewrite d) w a = refl
    on_event-Agrees (arrives sec usec sms) w a =
        elim (Bool-cases (sender_allowed store w.daemon sms.sender).0) [
          | inl let_in ↦ rw let_in (
              route-Agrees (parse_gnmi (tokenize sms.text)).kind sec usec
                (parse_gnmi (tokenize sms.text)) sms w a)
          | inr refused ↦ rw refused refl
        ]

  -- Two families of sinks that are the same at every port of 16 bits make no difference.
  pub on_events-Agrees :
      (gnmi other : ℕ → GnmiSink D)
      → ((port : ℕ) → port < 2 ^ 16 → other port ≡ gnmi port)
      → (es : List (Event D)) (w : World S D) → IsPort w
      → on_events store ds engine parse_array transmit other tokenize es w
        ≡ on_events store ds engine parse_array transmit gnmi tokenize es w
  unfolding on_events
  on_events-Agrees gnmi other same [] w h = refl
  on_events-Agrees gnmi other same (e ∷ es) w h =
      ap (on_events store ds engine parse_array transmit other tokenize es)
        (on_event-Agrees gnmi other e w (same w.daemon.sink_port h))
      ∙ on_events-Agrees gnmi other same es
          (on_event store ds engine parse_array transmit gnmi tokenize e w)
          (on_event-IsPort gnmi e w h)
