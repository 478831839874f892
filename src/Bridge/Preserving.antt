-- ===== src/Bridge/Preserving.antt =====
-- An invariant of the state that src/bridge.cpp and its callbacks share.
use zero_touch.Base.{Bool, List, Option, [], false, none, refl, some, true, ◌∷◌, ◌≡◌}
use zero_touch.Base.Bytes.{Bytes}
use zero_touch.Bridge.{Bridge, admit, allowed, on_sms, reply_to, route, run_fallback, tokens_of}
use zero_touch.Command.{GnmiCommand, GnmiKind, get, not_gnmi, parse_gnmi, set, unknown}
use zero_touch.Executor.{
  Access, access_of, admin, dispatch, handle, handle_get, handle_set, no_access, viewer,
}
use zero_touch.Sms.{InboundSms}

module _ {W : Type 0} (P : W → Type 0) where
  -- Each callback of the bridge, the transport and the sink keep the predicate.
  pub record Preserves (b : Bridge W) : Type 0 where
    pub sends : (w : W) (to reply : Bytes) → P w → P (b.send w to reply).1
    pub reads : (w : W) (xs : List Bytes) → P w → P (b.executor.sink.get_paths w xs).1
    pub writes : (w : W) (us : List (Bytes × Bytes)) → P w → P (b.executor.sink.set_paths w us).1
    pub asks :
        (auth : W → Bytes → Access × W)
        → b.executor.auth ≡ some auth
        → (w : W) (sender : Bytes) → P w
        → P (auth w sender).1
    pub falls_back :
        (f : W → Bytes → Bytes → Bytes × W)
        → b.fallback ≡ some f
        → (w : W) (sender message : Bytes) → P w
        → P (f w sender message).1
    pub gates :
        (allow : W → Bytes → Bool × W)
        → b.allow ≡ some allow
        → (w : W) (sender : Bytes) → P w
        → P (allow w sender).1

  module _ (b : Bridge W) (k : Preserves b) where
    reply_to-P : (to reply : Bytes) (w : W) → P w → P (reply_to b to (reply, w))
    unfolding reply_to
    reply_to-P to [] w h = h
    reply_to-P to (c ∷ reply) w h = k.sends w to (c ∷ reply) h

    access_of-P :
        (a : Option (W → Bytes → Access × W))
        → b.executor.auth ≡ a
        → (w : W) (sender : Bytes) → P w
        → P (access_of a w sender).1
    access_of-P none e w sender h = h
    access_of-P (some auth) e w sender h = k.asks auth e w sender h

    dispatch-P :
        (kind : GnmiKind) (level : Access) (g : GnmiCommand) (w : W)
        → P w
        → P (dispatch kind b.executor.sink level g w).1
    unfolding dispatch handle_get handle_set
    dispatch-P not_gnmi level g w h = h
    dispatch-P unknown level g w h = h
    dispatch-P get no_access g w h = h
    dispatch-P get viewer g w h = k.reads w g.xpaths h
    dispatch-P get admin g w h = k.reads w g.xpaths h
    dispatch-P set no_access g w h = h
    dispatch-P set viewer g w h = h
    dispatch-P set admin g w h = k.writes w g.updates h

    handle-P : (g : GnmiCommand) (sender : Bytes) (w : W) → P w → P (handle b.executor g sender w).1
    unfolding handle
    handle-P g sender w h =
        let (level, w') = access_of b.executor.auth w sender in
        dispatch-P g.kind level g w' (access_of-P b.executor.auth refl w sender h)

    run_fallback-P :
        (o : Option (W → Bytes → Bytes → Bytes × W))
        → b.fallback ≡ o
        → (sms : InboundSms) (w : W) → P w
        → P (run_fallback o b sms w)
    unfolding run_fallback
    run_fallback-P none e sms w h = h
    run_fallback-P (some f) e sms w h =
        let (reply, w') = f w sms.sender sms.text in
        reply_to-P sms.sender reply w' (k.falls_back f e w sms.sender sms.text h)

    handled-P :
        (g : GnmiCommand) (sms : InboundSms) (w : W)
        → P w
        → P (reply_to b sms.sender (handle b.executor g sms.sender w))
    handled-P g sms w h =
        let (reply, w') = handle b.executor g sms.sender w in
        reply_to-P sms.sender reply w' (handle-P g sms.sender w h)

    route-P :
        (kind : GnmiKind) (g : GnmiCommand) (sms : InboundSms) (w : W)
        → P w
        → P (route kind b g sms w)
    unfolding route
    route-P not_gnmi g sms w h = run_fallback-P b.fallback refl sms w h
    route-P unknown g sms w h = handled-P g sms w h
    route-P get g sms w h = handled-P g sms w h
    route-P set g sms w h = handled-P g sms w h

    allowed-P :
        (a : Option (W → Bytes → Bool × W))
        → b.allow ≡ a
        → (w : W) (sender : Bytes) → P w
        → P (allowed a w sender).1
    allowed-P none e w sender h = h
    allowed-P (some allow) e w sender h = k.gates allow e w sender h

    admit-P : (ok : Bool) (sms : InboundSms) (w : W) → P w → P (admit ok b sms w)
    unfolding admit
    admit-P false sms w h = h
    admit-P true sms w h =
        let g = parse_gnmi (tokens_of b.tokenize sms.text) in route-P g.kind g sms w h

    -- What every callback keeps, an SMS keeps, whatever it says.
    pub on_sms-P : (sms : InboundSms) (w : W) → P w → P (on_sms b sms w)
    unfolding on_sms
    on_sms-P sms w h =
        let (ok, w') = allowed b.allow w sms.sender in
        admit-P ok sms w' (allowed-P b.allow refl w sms.sender h)
