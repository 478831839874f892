-- ===== src/Daemon/Status/Privacy.antt =====
-- What the telemetry of daemon/zerotouchd.cpp tells of a classic command.
use zero_touch.Base.{List, Option, refl, sym, true, ℕ, ◌%◌, ◌+◌, ◌^◌, ◌∙◌, ◌≡◌}
use zero_touch.Base.Bytes.{Bytes}
use zero_touch.Classic.{
  Engine, Kind, factory_reset, is_command, not_a_command, other_kind, seed_of, wifi,
}
use zero_touch.Daemon.{Item, SessionStore, lookup_account}
use zero_touch.Daemon.Status.{
  DataStore, World, classic_reply, command_batch, is_ok, live_sink, publish, push, run_command,
  tell,
}

module _ {C S D V : Type 0} (store : SessionStore S) (ds : DataStore D V) (engine : Engine C S D)
    (parse_array : Bytes → Option (List Item)) where
  -- The answer of the engine to a text that is a command.
  abbrev pub answer_to : ℕ → ℕ → Bytes → Bytes → World S D → Bytes × (S × D)
  answer_to sec usec sender text w =
      engine.handle (live_sink ds) (λ d id. lookup_account (ds.read d) parse_array id)
        (engine.parse text) sender sec (seed_of usec ((w.handled + 1) % 2 ^ 64))
        (w.daemon.sessions, w.store)

  published_by :
      (kind : Kind) (cmd : C) (sec usec : ℕ) (sender text : Bytes) (w : World S D)
      → is_command kind ≡ true
      → cmd ≡ engine.parse text
      → (run_command store ds engine parse_array kind cmd sender sec usec w).1.published
        ≡ push
            (command_batch sender
              (engine.keyword cmd)
              (is_ok (answer_to sec usec sender text w).0)
              sec
              (store.session_count (answer_to sec usec sender text w).1.0)
              ((w.handled + 1) % 2 ^ 64))
            w.published
  unfolding run_command tell publish
  published_by not_a_command cmd sec usec sender text w h e = cc
  published_by wifi cmd sec usec sender text w h e = rw e refl
  published_by factory_reset cmd sec usec sender text w h e = rw e refl
  published_by other_kind cmd sec usec sender text w h e = rw e refl

  -- Two commands with one keyword, sent by one sender to one daemon at one time, that the engine
  -- answers with the same outcome, OK or not, and that leave as many sessions, publish the same,
  -- whatever their arguments and the texts of the replies are.
  pub classic_reply-private :
      (sec usec : ℕ) (sender text other : Bytes) (w : World S D)
      → is_command (engine.kind (engine.parse text)) ≡ true
      → is_command (engine.kind (engine.parse other)) ≡ true
      → engine.keyword (engine.parse text) ≡ engine.keyword (engine.parse other)
      → is_ok (answer_to sec usec sender text w).0 ≡ is_ok (answer_to sec usec sender other w).0
      → store.session_count (answer_to sec usec sender text w).1.0
        ≡ store.session_count (answer_to sec usec sender other w).1.0
      → (classic_reply store ds engine parse_array sec usec sender text w).1.published
        ≡ (classic_reply store ds engine parse_array sec usec sender other w).1.published
  unfolding classic_reply
  classic_reply-private sec usec sender text other w k1 k2 same_keyword same_outcome same_count =
      published_by _ _ sec usec sender text w k1 refl
      ∙ rw (same_keyword, same_outcome, same_count) refl
      ∙ sym (published_by _ _ sec usec sender other w k2 refl)
