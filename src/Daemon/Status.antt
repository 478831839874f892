-- ===== src/Daemon/Status.antt =====
-- daemon/zerotouchd.cpp: the sink of the classic commands, `classic_reply`, and what the daemon
-- publishes in the data store, with the handlers that publish.
pub mod Wiring
pub mod Mirror
pub mod Privacy
pub mod Watch
pub mod Secrecy
pub mod Ports
use zero_touch.Base.{
  Bool, List, Option, [], false, if◌then◌else◌, none, not, some, take, true, ℕ, ◌%◌, ◌+◌, ◌==◌, ◌^◌,
  ◌∷◌,
}
use zero_touch.Base.Bytes.{Bytes, codes, equals}
use zero_touch.Base.Keys.{nat_ord, text_ord}
use zero_touch.Base.Map.{lookup}
use zero_touch.Base.Num.{to_string}
use zero_touch.Classic.{DsSink, Engine, Kind, not_a_command, seed_of}
use zero_touch.Daemon.{
  Daemon, Item, SessionStore, Store, bind_value, first_value, handle_timeout, load_config,
  lookup_account, on_wake,
}

-- `data_store::Client` and the file system, over a state `D`: what a read sees, the writes, and the
-- two halves of writing a trigger file.
pub record DataStore (D V : Type 0) : Type 0 where
  pub read : D → Store V
  pub set_text : D → Bytes → Bytes → Bool × D
  pub set_volatile : D → List (Bytes × Bytes) → Bool × D
  pub truncate : D → Bytes → Bool × D
  pub write : D → Bytes → Bytes → Bool × D

module _ {D V : Type 0} (ds : DataStore D V) where
  abbrev pub write_to : Bytes → Bytes → Bool × D → Bool × D
  write_to path content (false, d) = (false, d)
  write_to path content (true, d) = ds.write d path content

  -- `LiveSink`
  abbrev pub live_sink : DsSink D
  live_sink = record {
    set = ds.set_text;
    get = λ d key. (bind_value (first_value ((ds.read d).get key)) (ds.read d).as_text, d);
    arm_trigger = λ d path content. write_to path content (ds.truncate d path);
  }

-- The daemon, the commands that it ran, the data store, and what it asked the data store to publish,
-- the newest first.
pub record World (S D : Type 0) : Type 0 where
  pub daemon : Daemon S
  pub handled : ℕ
  pub store : D
  pub published : List (Bytes × Bytes)

abbrev pub push : List (Bytes × Bytes) → List (Bytes × Bytes) → List (Bytes × Bytes)
push [] log = log
push (kv ∷ batch) log = push batch (kv ∷ log)

-- `reply.compare(0, 2, "OK") == 0`
abbrev pub is_ok : Bytes → Bool
is_ok reply = equals (take 2 reply) (codes "OK")

-- The batch of `classic_reply`.
unfoldable pub command_batch : Bytes → Bytes → Bool → ℕ → ℕ → ℕ → List (Bytes × Bytes)
command_batch sender keyword ok now count handled =
    (codes "zerotouch.last.sender", sender)
    ∷ (codes "zerotouch.last.cmd", keyword)
    ∷ (codes "zerotouch.last.result", if ok then codes "ok" else codes "err")
    ∷ (codes "zerotouch.last.ts", to_string now)
    ∷ (codes "zerotouch.sessions", to_string count)
    ∷ (codes "zerotouch.version", to_string handled)
    ∷ []

unfoldable pub state_batch : Bool → ℕ → List (Bytes × Bytes)
state_batch enabled count =
    (codes "zerotouch.state", if enabled then codes "listening" else codes "disabled")
    ∷ (codes "zerotouch.sessions", to_string count)
    ∷ []

module _ {S D V : Type 0} (store : SessionStore S) (ds : DataStore D V) where
  -- `m_ds.set_volatile(batch)`
  unfoldable pub publish : List (Bytes × Bytes) → World S D → World S D
  publish batch w = record w {
    store = (ds.set_volatile w.store batch).1;
    published = push batch w.published;
  }

  -- `publish_state`
  unfoldable pub publish_state : World S D → World S D
  unfolding publish
  publish_state w = publish (state_batch w.daemon.enabled (store.session_count w.daemon.sessions)) w

  -- `handle_timeout`
  unfoldable pub on_timeout : ℕ → World S D → World S D
  unfolding publish_state handle_timeout
  on_timeout now w =
      let before = store.session_count w.daemon.sessions in
      let swept = record w { daemon = handle_timeout store now w.daemon } in
      if not (store.session_count swept.daemon.sessions == before)
      then publish_state swept
      else swept

  -- `handle_exception`
  unfoldable pub on_exception : World S D → World S D
  unfolding publish_state
  on_exception w =
      let woken = record w { daemon = on_wake (ds.read w.store) store w.daemon } in
      if w.daemon.cfg_dirty then publish_state woken else woken

  -- The callback of the watch of the settings.
  unfoldable pub on_change : World S D → World S D
  on_change w = record w { daemon = record w.daemon { cfg_dirty = true } }

  module _ {C : Type 0} (engine : Engine C S D) (parse_array : Bytes → Option (List Item)) where
    -- What `classic_reply` does with the answer of the engine.
    unfoldable pub tell : Bytes → C → ℕ → Bytes × (S × D) → World S D → Bytes × World S D
    unfolding publish
    tell sender cmd now (reply, (sessions, d)) w =
        let after = record w { daemon = record w.daemon { sessions = sessions }; store = d } in
        let count = store.session_count sessions in
        let batch = command_batch sender (engine.keyword cmd) (is_ok reply) now count w.handled in
        (reply, publish batch after)

    unfoldable pub run_command : Kind → C → Bytes → ℕ → ℕ → World S D → Bytes × World S D
    unfolding tell
    run_command not_a_command cmd sender sec usec w = ([], w)
    run_command _ cmd sender sec usec w =
        let counted = record w { handled = (w.handled + 1) % 2 ^ 64 } in
        let lookup = λ (d : D) (id : Bytes). lookup_account (ds.read d) parse_array id in
        let answer =
          engine.handle (live_sink ds) lookup cmd sender sec (seed_of usec counted.handled)
            (w.daemon.sessions, w.store) in
        tell sender cmd sec answer counted

    -- `classic_reply`, at a time in seconds and microseconds
    unfoldable pub classic_reply : ℕ → ℕ → Bytes → Bytes → World S D → Bytes × World S D
    unfolding run_command
    classic_reply sec usec sender text w =
        let cmd = engine.parse text in run_command (engine.kind cmd) cmd sender sec usec w

  -- `run`, up to the event loop: its result where it ends at once, and the state. The transport's
  -- own start and the statistics are left out.
  unfoldable pub start_up : Bool → World S D → Option ℕ × World S D
  unfolding publish_state load_config
  start_up connected w =
      let loaded = record w { daemon = load_config (ds.read w.store) store w.daemon } in
      let told = publish_state loaded in
      let running = record told {
        store = (ds.set_text told.store (codes "services.zerotouch.state") (codes "running")).1;
      } in
      if not connected then (some 1, w) else (none, running)

-- The settings that `run` watches.
unfoldable pub config_keys : List Bytes
config_keys =
    codes "zerotouch.enabled"
    ∷ codes "zerotouch.gnmi.port"
    ∷ codes "zerotouch.allowed.numbers"
    ∷ codes "zerotouch.session.ttl.sec"
    ∷ codes "zerotouch.lockout.failures"
    ∷ codes "zerotouch.lockout.sec"
    ∷ []
