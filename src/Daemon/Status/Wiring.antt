-- ===== src/Daemon/Status/Wiring.antt =====
-- The bridge that `run` of daemon/zerotouchd.cpp builds, over the whole state of the daemon. The
-- transport and the sink of gNMI act on the data store's side of it. The configuration of the sink is
-- that of its client, but for the port, which `load_config_from_ds` sets: so the sink is a function of
-- the port that the daemon has now.
use zero_touch.Base.{Bool, List, Option, none, some, subst, ℕ}
use zero_touch.Base.Bytes.{Bytes}
use zero_touch.Bridge.{Bridge}
use zero_touch.Bridge.Preserving.{Preserves}
use zero_touch.Classic.{Engine}
use zero_touch.Daemon.{Item, SessionStore, sender_access, sender_allowed}
use zero_touch.Daemon.Status.{DataStore, World, classic_reply}
use zero_touch.Executor.{Access, GnmiSink}

module _ {S D : Type 0} where
  abbrev pub on_store : {A : Type 0} → (D → A × D) → World S D → A × World S D
  on_store f w = let (a, d) = f w.store in (a, record w { store = d })

  abbrev pub store_sink : (ℕ → GnmiSink D) → GnmiSink (World S D)
  store_sink gnmi = record {
    get_paths = λ w xpaths. on_store (λ d. (gnmi w.daemon.sink_port).get_paths d xpaths) w;
    set_paths = λ w updates. on_store (λ d. (gnmi w.daemon.sink_port).set_paths d updates) w;
  }

module _ {C S D V : Type 0} (store : SessionStore S) (ds : DataStore D V) (engine : Engine C S D)
    (parse_array : Bytes → Option (List Item)) where
  abbrev pub daemon_bridge :
      (D → Bytes → Bytes → Bool × D)
      → (ℕ → GnmiSink D)
      → (Bytes → List Bytes)
      → ℕ
      → ℕ
      → Bridge (World S D)
  daemon_bridge transmit gnmi tokenize sec usec = record {
    send = λ w to reply. on_store (λ d. transmit d to reply) w;
    executor = record {
      sink = store_sink gnmi;
      auth = some (λ w sender. ((sender_access store sec w.daemon sender).0, w));
    };
    tokenize = some tokenize;
    fallback =
        some
          (λ w sender message. classic_reply store ds engine parse_array sec usec sender message w);
    allow = some (λ w sender. ((sender_allowed store w.daemon sender).0, w));
  }

  -- What does not look at the data store, and what a classic command keeps, the callbacks keep.
  module _ (P : World S D → Type 0)
      (moves : (d : D) (w : World S D) → P w → P (record w { store = d }))
      (answers : (sec usec : ℕ) (sender message : Bytes) (w : World S D)
        → P w
        → P (classic_reply store ds engine parse_array sec usec sender message w).1) where
    abbrev KeepsAsking : Option (World S D → Bytes → Access × World S D) → Type 0
    KeepsAsking none = Unit
    KeepsAsking (some f) = (w : World S D) (sender : Bytes) → P w → P (f w sender).1

    abbrev KeepsAnswering : Option (World S D → Bytes → Bytes → Bytes × World S D) → Type 0
    KeepsAnswering none = Unit
    KeepsAnswering (some f) =
        (w : World S D) (sender message : Bytes) → P w → P (f w sender message).1

    abbrev KeepsGating : Option (World S D → Bytes → Bool × World S D) → Type 0
    KeepsGating none = Unit
    KeepsGating (some f) = (w : World S D) (sender : Bytes) → P w → P (f w sender).1

    pub daemon_bridge-Preserves :
        (transmit : D → Bytes → Bytes → Bool × D) (gnmi : ℕ → GnmiSink D)
        (tokenize : Bytes → List Bytes) (sec usec : ℕ)
        → Preserves P (daemon_bridge transmit gnmi tokenize sec usec)
    daemon_bridge-Preserves transmit gnmi tokenize sec usec = record {
      sends = λ w to reply h. moves _ w h;
      reads = λ w xs h. moves _ w h;
      writes = λ w us h. moves _ w h;
      asks = λ auth e w sender h.
          subst (λ (o : Option (World S D → Bytes → Access × World S D)). KeepsAsking o) e
            (λ w sender h. h) w sender h;
      falls_back = λ f e w sender message h.
          subst (λ (o : Option (World S D → Bytes → Bytes → Bytes × World S D)). KeepsAnswering o) e
            (λ w sender message h. answers sec usec sender message w h) w sender message h;
      gates = λ allow e w sender h.
          subst (λ (o : Option (World S D → Bytes → Bool × World S D)). KeepsGating o) e
            (λ w sender h. h) w sender h;
    }
