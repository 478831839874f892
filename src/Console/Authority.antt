-- ===== src/Console/Authority.antt =====
-- Whose SMS change the tree of sim/zt_sim.cpp.
use zero_touch.Base.{Bool-cases, List, [], inl, inr, none, refl, ℕ, ◌&&◌, ◌∙◌, ◌∷◌, ◌≡◌, ◌≢◌}
use zero_touch.Base.Bytes.{Bytes}
use zero_touch.Base.Num.{to_string}
use zero_touch.Bridge.{Bridge, admit, on_sms, reply_to, route, run_fallback}
use zero_touch.Classic.{Engine, Kind, factory_reset, not_a_command, other_kind, wifi}
use zero_touch.Command.{GnmiCommand, GnmiKind, get, not_gnmi, parse_gnmi, set, unknown}
use zero_touch.Console.{
  Sim, console_send, mem_sink, on_text, run_text, sim_access, sim_allows, sim_bridge, sim_fallback,
}
use zero_touch.Daemon.{SessionConfig, SessionStore, level_of}
use zero_touch.Executor.{Access, admin, dispatch, handle, handle_get, handle_set, no_access, viewer}
use zero_touch.SimTree.{Tree}

module _ {C S : Type 0} (engine : Engine C S Tree) (store : SessionStore S)
    (config_of : S → SessionConfig) (sha256_hex : Bytes → Bytes)
    (tokenize : Bytes → List Bytes) where
  abbrev bridge : ℕ → Bridge (Sim S)
  bridge now = sim_bridge engine store config_of sha256_hex tokenize none now

  pub reply_to-tree :
      (now : ℕ) (to reply : Bytes) (s : Sim S) → (reply_to (bridge now) to (reply, s)).tree ≡ s.tree
  unfolding reply_to console_send
  reply_to-tree now to [] s = refl
  reply_to-tree now to (c ∷ reply) s = refl

  run_text-tree :
      (kind : Kind) (cmd : C) (now : ℕ) (sender : Bytes) (s : Sim S)
      → (run_text engine store config_of sha256_hex tokenize none kind cmd now sender s).1.tree
        ≡ s.tree
  unfolding run_text
  run_text-tree not_a_command cmd now sender s = refl
  run_text-tree wifi cmd now sender s = refl
  run_text-tree factory_reset cmd now sender s = refl
  run_text-tree other_kind cmd now sender s = refl

  dispatch-tree :
      (kind : GnmiKind) (level : Access) (g : GnmiCommand) (s : Sim S)
      → level ≢ admin
      → (dispatch kind mem_sink level g s).1.tree ≡ s.tree
  unfolding dispatch handle_get handle_set
  dispatch-tree not_gnmi level g s n = refl
  dispatch-tree unknown level g s n = refl
  dispatch-tree get no_access g s n = refl
  dispatch-tree get viewer g s n = refl
  dispatch-tree get admin g s n = refl
  dispatch-tree set no_access g s n = refl
  dispatch-tree set viewer g s n = refl
  dispatch-tree set admin g s n = absurd (n refl)

  handled-tree :
      (now : ℕ) (g : GnmiCommand) (s : Sim S)
      → level_of store (store.session s.sessions s.from now) ≢ admin
      → (reply_to (bridge now) s.from (handle (bridge now).executor g s.from s)).tree ≡ s.tree
  handled-tree now g s n =
      let level = level_of store (store.session s.sessions s.from now) in
      let (reply, s') = dispatch g.kind mem_sink level g s in
      ◌∙◌ {b = s'.tree} (unfold handle sim_access in reply_to-tree now s.from reply s')
        (dispatch-tree g.kind level g s n)

  route-tree :
      (kind : GnmiKind) (now : ℕ) (line : Bytes) (g : GnmiCommand) (s : Sim S)
      → level_of store (store.session s.sessions s.from now) ≢ admin
      → (route kind
          (bridge now)
          g
          (record { sender = s.from; text = line; ts = to_string now })
          s).tree
        ≡ s.tree
  unfolding route run_fallback
  route-tree not_gnmi now line g s n =
      let cmd = engine.parse line in
      let (reply, s') =
        run_text engine store config_of sha256_hex tokenize none (engine.kind cmd) cmd now s.from
          s in
      ◌∙◌ {b = s'.tree} (unfold sim_fallback in reply_to-tree now s.from reply s')
        (run_text-tree (engine.kind cmd) cmd now s.from s)
  route-tree unknown now line g s n = handled-tree now g s n
  route-tree get now line g s n = handled-tree now g s n
  route-tree set now line g s n = handled-tree now g s n

  -- An SMS typed into the simulator on its in-memory tree leaves the tree as it is, unless its sender
  -- has a session with admin access at that time.
  pub on_text-tree :
      (now : ℕ) (line : Bytes) (s : Sim S)
      → level_of store (store.session s.sessions s.from now) ≢ admin
      → (on_text engine store config_of sha256_hex tokenize none now line s).tree ≡ s.tree
  unfolding on_text on_sms admit sim_allows
  on_text-tree now line s n = elim (Bool-cases (s.enabled && store.allows s.sessions s.from)) [
    | inl let_in ↦ rw let_in (route-tree _ now line (parse_gnmi (tokenize line)) s n)
    | inr refused ↦ rw refused refl
  ]
