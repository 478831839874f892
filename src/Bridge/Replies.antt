-- ===== src/Bridge/Replies.antt =====
-- What src/bridge.cpp sends, and when it is silent.
use mathlib.Core.Option
use zero_touch.Base.{
  Bool, List, Option, [], ap, false, inl, inr, length, none, refl, some, subst, true, ◌++◌, ◌∙◌,
  ◌∷◌, ◌≡◌, ◌≢◌, ◌≤◌, ◌⊎◌,
}
use zero_touch.Base.Bytes.{Bytes}
use zero_touch.Bridge.{Bridge, admit, allowed, on_sms, reply_to, route, run_fallback, tokens_of}
use zero_touch.Command.{GnmiCommand, GnmiKind, get, not_gnmi, parse_gnmi, set, unknown}
use zero_touch.Executor.{
  Access, GnmiExecutor, GnmiSink, access_of, admin, dispatch, handle, no_access, viewer,
}
use zero_touch.Executor.Authorization.{Authorized, asked, handle-unauthorized, length-handle}
use zero_touch.Reply.{max_reply}
use zero_touch.Sms.{InboundSms}

-- A transport that also keeps what it was asked to send, oldest first.
abbrev pub Outbox : Type 0
Outbox = List (Bytes × Bytes)

module _ {W : Type 0} where
  abbrev pub recorded_send :
      (W → Bytes → Bytes → Bool × W) → (W × Outbox) → Bytes → Bytes → Bool × (W × Outbox)
  recorded_send send (w, out) to text =
      let (ok, w') = send w to text in (ok, (w', out ++ (to, text) ∷ []))

  -- A callback that leaves the outbox alone.
  abbrev pub beside : {A : Type 0} → (W → A × W) → W × Outbox → A × (W × Outbox)
  beside f (w, out) = let (a, w') = f w in (a, (w', out))

  abbrev pub recorded_sink : GnmiSink W → GnmiSink (W × Outbox)
  recorded_sink s = record {
    get_paths = λ w xs. beside (λ v. s.get_paths v xs) w;
    set_paths = λ w us. beside (λ v. s.set_paths v us) w;
  }

  abbrev pub recorded_executor : GnmiExecutor W → GnmiExecutor (W × Outbox)
  recorded_executor ex = record {
    sink = recorded_sink ex.sink;
    auth = Option.map (λ auth w sender. beside (λ v. auth v sender) w) ex.auth;
  }

  abbrev pub recorded : Bridge W → Bridge (W × Outbox)
  recorded b = record {
    send = recorded_send b.send;
    executor = recorded_executor b.executor;
    tokenize = b.tokenize;
    fallback = Option.map (λ f w sender text. beside (λ v. f v sender text) w) b.fallback;
    allow = Option.map (λ allow w sender. beside (λ v. allow v sender) w) b.allow;
  }

-- Nothing was sent, or one reply that is not empty, to the sender. A reply to a gNMI command fits
-- one SMS.
abbrev pub Replied : GnmiKind → Bytes → Outbox → Outbox → Type 0
Replied k sender out out' =
    (out' ≡ out)
    ⊎ ((r : Bytes) × (r ≢ [])
        × ((k ≡ not_gnmi) ⊎ (length r ≤ max_reply))
        × (out' ≡ out ++ (sender, r) ∷ []))

module _ {W : Type 0} (b : Bridge W) where
  reply_to-Replied :
      (k : GnmiKind) (sender reply : Bytes) (w : W) (out : Outbox)
      → (k ≡ not_gnmi) ⊎ (length reply ≤ max_reply)
      → Replied k sender out (reply_to (recorded b) sender (reply, (w, out))).1
  unfolding reply_to
  reply_to-Replied k sender [] w out h = inl refl
  reply_to-Replied k sender (c ∷ r) w out h = inr (c ∷ r, (λ e. cc), h, refl)

  access_of-recorded :
      (auth : Option (W → Bytes → Access × W)) (sender : Bytes) (w : W) (out : Outbox)
      → (access_of
          (Option.map (λ auth w sender. beside (λ v. auth v sender) w) auth)
          (w, out)
          sender).1.1
        ≡ out
  access_of-recorded none sender w out = refl
  access_of-recorded (some auth) sender w out = refl

  dispatch-recorded :
      (k : GnmiKind) (held : Access) (g : GnmiCommand) (v : W × Outbox)
      → (dispatch k (recorded_sink b.executor.sink) held g v).1.1 ≡ v.1
  unfolding dispatch
  dispatch-recorded not_gnmi held g v = refl
  dispatch-recorded unknown held g v = refl
  dispatch-recorded get no_access g v = refl
  dispatch-recorded get viewer g v = refl
  dispatch-recorded get admin g v = refl
  dispatch-recorded set no_access g v = refl
  dispatch-recorded set viewer g v = refl
  dispatch-recorded set admin g v = refl

  handle-recorded :
      (g : GnmiCommand) (sender : Bytes) (w : W) (out : Outbox)
      → (handle (recorded_executor b.executor) g sender (w, out)).1.1 ≡ out
  unfolding handle
  handle-recorded g sender w out =
      dispatch-recorded g.kind _ g _ ∙ access_of-recorded b.executor.auth sender w out

  run_fallback-Replied :
      (f : Option (W → Bytes → Bytes → Bytes × W)) (sms : InboundSms) (w : W) (out : Outbox)
      → Replied not_gnmi sms.sender out
          (run_fallback
            (Option.map (λ f w sender text. beside (λ v. f v sender text) w) f)
            (recorded b)
            sms
            (w, out)).1
  unfolding run_fallback
  run_fallback-Replied none sms w out = inl refl
  run_fallback-Replied (some f) sms w out = reply_to-Replied not_gnmi sms.sender _ _ out (inl refl)

  gnmi-Replied :
      (k : GnmiKind) (g : GnmiCommand) (sms : InboundSms) (w : W) (out : Outbox)
      → Replied k sms.sender out
          (reply_to
            (recorded b)
            sms.sender
            (handle (recorded_executor b.executor) g sms.sender (w, out))).1
  gnmi-Replied k g sms w out =
      let r = handle (recorded_executor b.executor) g sms.sender (w, out) in
      subst (λ o. Replied k sms.sender o (reply_to (recorded b) sms.sender r).1)
        (handle-recorded g sms.sender w out)
        (reply_to-Replied k sms.sender r.0 r.1.0 r.1.1
          (inr (length-handle (recorded_executor b.executor) g sms.sender (w, out))))

  route-Replied :
      (k : GnmiKind) (g : GnmiCommand) (sms : InboundSms) (w : W) (out : Outbox)
      → Replied k sms.sender out (route k (recorded b) g sms (w, out)).1
  unfolding route
  route-Replied not_gnmi g sms w out = run_fallback-Replied b.fallback sms w out
  route-Replied unknown g sms w out = gnmi-Replied unknown g sms w out
  route-Replied get g sms w out = gnmi-Replied get g sms w out
  route-Replied set g sms w out = gnmi-Replied set g sms w out

  -- The command in a message, and the state once the gate has been asked.
  abbrev pub command_of : InboundSms → GnmiCommand
  command_of sms = parse_gnmi (tokens_of b.tokenize sms.text)

  abbrev pub gated : InboundSms → W → W
  gated sms w = (allowed b.allow w sms.sender).1

  abbrev kind_of : InboundSms → GnmiKind
  kind_of sms = (command_of sms).kind

  admit-Replied :
      (ok : Bool) (sms : InboundSms) (w : W) (out : Outbox)
      → Replied (kind_of sms) sms.sender out (admit ok (recorded b) sms (w, out)).1
  unfolding admit
  admit-Replied false sms w out = inl refl
  admit-Replied true sms w out =
      route-Replied (kind_of sms) (parse_gnmi (tokens_of b.tokenize sms.text)) sms w out

  allowed-recorded :
      (a : Option (W → Bytes → Bool × W)) (sender : Bytes) (w : W) (out : Outbox)
      → (allowed
          (Option.map (λ allow w sender. beside (λ v. allow v sender) w) a)
          (w, out)
          sender).1.1
        ≡ out
  allowed-recorded none sender w out = refl
  allowed-recorded (some f) sender w out = refl

  -- One SMS brings at most one reply: not an empty one, to its sender alone, and for a gNMI command
  -- short enough for one SMS.
  pub on_sms-Replied :
      (sms : InboundSms) (w : W) (out : Outbox)
      → Replied (command_of sms).kind sms.sender out (on_sms (recorded b) sms (w, out)).1
  unfolding on_sms
  on_sms-Replied sms w out =
      let r = allowed (recorded b).allow (w, out) sms.sender in
      subst (λ o. Replied (kind_of sms) sms.sender o (admit r.0 (recorded b) sms r.1).1)
        (allowed-recorded b.allow sms.sender w out) (admit-Replied r.0 sms r.1.0 r.1.1)

  -- A sender that the gate refuses gets silence: no reply, and nothing is done but ask the gate.
  pub on_sms-refused :
      (sms : InboundSms) (w : W) (gate : W → Bytes → Bool × W)
      → b.allow ≡ some gate
      → (gate w sms.sender).0 ≡ false
      → on_sms b sms w ≡ (gate w sms.sender).1
  unfolding on_sms
  on_sms-refused sms w gate e h = rw (e, h)

  route-unauthorized :
      (k : GnmiKind) (g : GnmiCommand) (sms : InboundSms) (v : W)
      → k ≢ not_gnmi
      → ¬ Authorized b.executor g sms.sender v
      → route k b g sms v
        ≡ reply_to b sms.sender
            ((handle b.executor g sms.sender v).0, asked b.executor g sms.sender v)
  unfolding route
  route-unauthorized not_gnmi g sms v n u = absurd (n refl)
  route-unauthorized unknown g sms v n u =
      ap (λ s. reply_to b sms.sender ((handle b.executor g sms.sender v).0, s))
        (handle-unauthorized b.executor g sms.sender v u)
  route-unauthorized get g sms v n u =
      ap (λ s. reply_to b sms.sender ((handle b.executor g sms.sender v).0, s))
        (handle-unauthorized b.executor g sms.sender v u)
  route-unauthorized set g sms v n u =
      ap (λ s. reply_to b sms.sender ((handle b.executor g sms.sender v).0, s))
        (handle-unauthorized b.executor g sms.sender v u)

  -- Behind the gate, a gNMI command that its sender is not authorised for leaves the sink alone:
  -- the state is as the gate and the authorisation left it, but for the reply.
  pub on_sms-unauthorized :
      (sms : InboundSms) (w : W)
      → (command_of sms).kind ≢ not_gnmi
      → (allowed b.allow w sms.sender).0 ≡ true
      → ¬ Authorized b.executor (command_of sms) sms.sender (gated sms w)
      → on_sms b sms w
        ≡ reply_to b sms.sender (
          (handle b.executor (command_of sms) sms.sender (gated sms w)).0,
          asked b.executor (command_of sms) sms.sender (gated sms w),
        )
  unfolding on_sms
  on_sms-unauthorized sms w n h u = rw h (route-unauthorized (kind_of sms) _ sms _ n u)

module _ {W : Type 0} (b : Bridge W) (sms : InboundSms) (w : W) where
  -- The way of a text that is no gNMI command, from a sender that is let in, to its reply.
  pub on_sms-fallback :
      (allow : W → Bytes → Bool × W) (f : W → Bytes → Bytes → Bytes × W)
      → b.allow ≡ some allow
      → b.fallback ≡ some f
      → allow w sms.sender ≡ (true, w)
      → (parse_gnmi (tokens_of b.tokenize sms.text)).kind ≡ not_gnmi
      → on_sms b sms w ≡ reply_to b sms.sender (f w sms.sender sms.text)
  unfolding on_sms admit route run_fallback
  on_sms-fallback allow f gate classic let_in other =
      let g = parse_gnmi (tokens_of b.tokenize sms.text) in
      ap
        (λ (a : Option (W → Bytes → Bool × W)).
          let (ok, w') = allowed a w sms.sender in admit ok b sms w')
        gate
      ∙ ap (λ (r : Bool × W). admit r.0 b sms r.1) let_in
      ∙ ap (λ (k : GnmiKind). route k b g sms w) other
      ∙ ap (λ (h : Option (W → Bytes → Bytes → Bytes × W)). run_fallback h b sms w) classic
