-- ===== src/Daemon/Status/Mirror.antt =====
-- What daemon/zerotouchd.cpp last published, beside the state that it is in.
use zero_touch.Base.{
  ==_iff, Bool, Bool-cases, List, Option, [], ap, arith, false, if◌then◌else◌, inl, inr, refl, some,
  subst, sym, true, ℕ, ◌==◌, ◌∙◌, ◌∷◌, ◌≡◌,
}
use zero_touch.Base.Bytes.{Bytes, codes, equals}
use zero_touch.Base.Keys.{nat_ord, text_ord}
use zero_touch.Base.Map.{lookup}
use zero_touch.Base.Num.{to_string}
use zero_touch.Bridge.{on_sms}
use zero_touch.Bridge.Preserving.{on_sms-P}
use zero_touch.Classic.{Engine, Kind, factory_reset, not_a_command, other_kind, wifi}
use zero_touch.Daemon.{Daemon, Item, SessionStore, Store, handle_timeout, load_config, on_wake}
use zero_touch.Daemon.Status.{
  DataStore, World, classic_reply, command_batch, on_change, on_exception, on_timeout, publish,
  publish_state, run_command, start_up, state_batch, tell,
}
use zero_touch.Daemon.Status.Wiring.{daemon_bridge, daemon_bridge-Preserves}
use zero_touch.Executor.{GnmiSink}
use zero_touch.Sms.{InboundSms}

abbrev pub state_text : Bool → Bytes
state_text enabled = if enabled then codes "listening" else codes "disabled"

-- What happens to the daemon in the event loop: a second passes, the reactor wakes it, a watched
-- setting changes, another process writes to the data store, an SMS comes in.
pub data Event (D : Type 0) : Type 0 where
  tick : ℕ → Event D
  wake : Event D
  change : Event D
  rewrite : D → Event D
  arrives : ℕ → ℕ → InboundSms → Event D

module _ {C S D V : Type 0} (store : SessionStore S) (ds : DataStore D V) (engine : Engine C S D)
    (parse_array : Bytes → Option (List Item)) (transmit : D → Bytes → Bytes → Bool × D)
    (gnmi : ℕ → GnmiSink D) (tokenize : Bytes → List Bytes) where
  -- The state and the number of sessions that were published last are those of the daemon.
  abbrev pub Mirrors : World S D → Type 0
  Mirrors w =
      (lookup (codes "zerotouch.state") w.published ≡ some (state_text w.daemon.enabled))
      × (lookup (codes "zerotouch.sessions") w.published
          ≡ some (to_string (store.session_count w.daemon.sessions)))

  unfoldable pub on_event : Event D → World S D → World S D
  on_event (tick now) w = on_timeout store ds now w
  on_event wake w = on_exception store ds w
  on_event change w = on_change store ds w
  on_event (rewrite d) w = record w { store = d }
  on_event (arrives sec usec sms) w =
      on_sms (daemon_bridge store ds engine parse_array transmit gnmi tokenize sec usec) sms w

  unfoldable pub on_events : List (Event D) → World S D → World S D
  on_events [] w = w
  on_events (e ∷ es) w = on_events es (on_event e w)

  publish_state-Mirrors : (w : World S D) → Mirrors (publish_state store ds w)
  unfolding publish_state publish state_batch lookup equals
  publish_state-Mirrors w = (refl, refl)

  on_timeout-Mirrors : (now : ℕ) (w : World S D) → Mirrors w → Mirrors (on_timeout store ds now w)
  unfolding on_timeout handle_timeout
  on_timeout-Mirrors now w (state, count) =
      let swept = record w { daemon = handle_timeout store now w.daemon } in
      elim (Bool-cases (
        store.session_count (store.sweep now w.daemon.sessions)
        == store.session_count w.daemon.sessions)) [
          | inl same ↦
              rw same
                (state, count ∙ ap (λ (n : ℕ). some (to_string n)) (sym ((==_iff _ _).0 same)))
          | inr other ↦ rw other (publish_state-Mirrors swept)
        ]

  either-Mirrors :
      (b : Bool) (v w : World S D)
      → Mirrors v
      → (b ≡ false → Mirrors w)
      → Mirrors (if b then v else w)
  either-Mirrors true v w h k = h
  either-Mirrors false v w h k = k refl

  on_wake_clean : (d : Store V) (c : Daemon S) → c.cfg_dirty ≡ false → on_wake d store c ≡ c
  unfolding on_wake
  on_wake_clean d c clean = ground arith

  on_exception-Mirrors : (w : World S D) → Mirrors w → Mirrors (on_exception store ds w)
  unfolding on_exception
  on_exception-Mirrors w h =
      let woken : World S D = record w { daemon = on_wake (ds.read w.store) store w.daemon } in
      either-Mirrors w.daemon.cfg_dirty (publish_state store ds woken) woken
        (publish_state-Mirrors woken)
        (λ clean.
          subst (λ (d : Daemon S). Mirrors (record w { daemon = d }))
            (sym (on_wake_clean (ds.read w.store) w.daemon clean)) h)

  run_command-Mirrors :
      (kind : Kind) (cmd : C) (sender : Bytes) (sec usec : ℕ) (w : World S D)
      → Mirrors w
      → Mirrors (run_command store ds engine parse_array kind cmd sender sec usec w).1
  unfolding run_command tell publish command_batch lookup equals
  run_command-Mirrors not_a_command cmd sender sec usec w h = h
  run_command-Mirrors wifi cmd sender sec usec w h = (h.0, refl)
  run_command-Mirrors factory_reset cmd sender sec usec w h = (h.0, refl)
  run_command-Mirrors other_kind cmd sender sec usec w h = (h.0, refl)

  classic_reply-Mirrors :
      (sec usec : ℕ) (sender message : Bytes) (w : World S D)
      → Mirrors w
      → Mirrors (classic_reply store ds engine parse_array sec usec sender message w).1
  unfolding classic_reply
  classic_reply-Mirrors sec usec sender message w h =
      run_command-Mirrors (engine.kind (engine.parse message)) (engine.parse message) sender sec
        usec w h

  on_event-Mirrors : (e : Event D) (w : World S D) → Mirrors w → Mirrors (on_event e w)
  unfolding on_event on_change
  on_event-Mirrors (tick now) w h = on_timeout-Mirrors now w h
  on_event-Mirrors wake w h = on_exception-Mirrors w h
  on_event-Mirrors change w h = h
  on_event-Mirrors (rewrite d) w h = h
  on_event-Mirrors (arrives sec usec sms) w h =
      on_sms-P Mirrors (daemon_bridge store ds engine parse_array transmit gnmi tokenize sec usec)
        (daemon_bridge-Preserves store ds engine parse_array Mirrors (λ d w h. h)
          classic_reply-Mirrors transmit gnmi tokenize sec usec)
        sms w h

  on_events-Mirrors : (es : List (Event D)) (w : World S D) → Mirrors w → Mirrors (on_events es w)
  unfolding on_events
  on_events-Mirrors [] w h = h
  on_events-Mirrors (e ∷ es) w h = on_events-Mirrors es (on_event e w) (on_event-Mirrors e w h)

  -- Once the daemon is up, then whatever happens to it, in any order - seconds that pass, wake-ups,
  -- settings that change, writes of other processes, SMS with gNMI or classic commands or with
  -- anything else - the state and the number of sessions that it last asked the data store to publish
  -- are those that it is in.
  pub start_up-Mirrors :
      (w : World S D) (es : List (Event D)) → Mirrors (on_events es (start_up store ds true w).1)
  unfolding start_up
  start_up-Mirrors w es =
      let loaded = record w { daemon = load_config (ds.read w.store) store w.daemon } in
      on_events-Mirrors es (start_up store ds true w).1 (publish_state-Mirrors loaded)
