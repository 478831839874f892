-- ===== src/Console.antt =====
-- sim/zt_sim.cpp: the simulator of the SMS conversation. smsctl and the remote gNMI server are
-- parameters; what is printed is left out, but for the replies.
pub mod Offline
pub mod Authority
pub mod ReadBack
use zero_touch.AtModem.{without_cr}
use zero_touch.Base.{
  Bool, List, Option, [], false, if◌then◌else◌, is_empty, none, not, some, true, ℕ, ◌%◌, ◌&&◌, ◌++◌,
  ◌+◌, ◌==◌, ◌^◌, ◌||◌, ◌∷◌,
}
use zero_touch.Base.Bytes.{Bytes, codes, equals}
use zero_touch.Base.Keys.{nat_ord, text_ord}
use zero_touch.Base.Map.{insert}
use zero_touch.Base.Num.{is_white, to_string}
use zero_touch.Base.Text.{split_csv}
use zero_touch.Bridge.{Bridge, on_sms}
use zero_touch.Classic.{Engine, Kind, not_a_command, seed_of}
use zero_touch.Daemon.{Account, SessionConfig, SessionStore, level_of}
use zero_touch.Executor.{Access, GnmiSink}
use zero_touch.MemSinks.{mem_ds_sink, mem_get, mem_set}
use zero_touch.SimTree.{Tree}
use zero_touch.Standalone.{fallback}

-- The state of `main`: the number that SMS come from, the switch, the sessions, the count of
-- commands, the store of the classic commands, the gNMI tree, and the replies, oldest first.
pub record Sim (S : Type 0) : Type 0 where
  pub from : Bytes
  pub enabled : Bool
  pub sessions : S
  pub handled : ℕ
  pub kv : Tree
  pub tree : Tree
  pub sent : List (Bytes × Bytes)

module _ {S : Type 0} where
  -- `MemGnmiSink` in the state of `main`.
  abbrev pub mem_sink : GnmiSink (Sim S)
  mem_sink = record {
    get_paths = λ s xpaths. (mem_get s.tree xpaths, s);
    set_paths =
        λ s updates. let (r, tree) = mem_set s.tree updates in (r, record s { tree = tree });
  }

  -- The sink that `main` picks: the remote one, where a host was given.
  abbrev pub picked : Option (GnmiSink (Sim S)) → GnmiSink (Sim S)
  picked none = mem_sink
  picked (some remote) = remote

  -- `ConsoleTransport::send`
  unfoldable pub console_send : Sim S → Bytes → Bytes → Bool × Sim S
  console_send s to text = (true, record s { sent = s.sent ++ (to, text) ∷ [] })

-- The demo users, with the hashes of smsctl.
abbrev pub demo_user : (Bytes → Bytes) → Bytes → Bytes → Account
demo_user sha256_hex id access = record { id = id; hash = sha256_hex id; access = access }

unfoldable pub demo_lookup : (Bytes → Bytes) → Bytes → Option Account
unfolding equals
demo_lookup sha256_hex id =
    if equals id (codes "admin")
    then some (demo_user sha256_hex (codes "admin") (codes "Admin"))
    else if equals id (codes "viewer")
    then some (demo_user sha256_hex (codes "viewer") (codes "Viewer"))
    else none

-- What a line that starts with a slash says: its word, and the rest behind one space.
unfoldable pub word_of : Bytes → Bytes × Bytes
unfolding is_white
word_of [] = ([], [])
word_of (c ∷ s) =
    let (word, rest) = word_of s in if is_white c then ([], c ∷ s) else (c ∷ word, rest)

abbrev pub behind_space : Bytes → Bytes
behind_space [] = []
behind_space (c ∷ rest) = if c == b' ' then rest else c ∷ rest

abbrev pub is_quit : Bytes → Bool
is_quit line = equals line (codes "quit") || equals line (codes "exit") || equals line (codes "q")

module _ {C S : Type 0} (engine : Engine C S Tree) (store : SessionStore S)
    (config_of : S → SessionConfig) (sha256_hex : Bytes → Bytes) (tokenize : Bytes → List Bytes)
    (remote : Option (GnmiSink (Sim S))) where
  -- `authfn`
  unfoldable pub sim_access : ℕ → Sim S → Bytes → Access × Sim S
  sim_access now s sender = (level_of store (store.session s.sessions sender now), s)

  -- `allow`
  unfoldable pub sim_allows : Sim S → Bytes → Bool × Sim S
  sim_allows s sender = (s.enabled && store.allows s.sessions sender, s)

  abbrev pub taken_up : Sim S → Bytes × (S × Tree) → Bytes × Sim S
  taken_up s (reply, (sessions, kv)) = (reply, record s { sessions = sessions; kv = kv })

  unfoldable pub run_text : Kind → C → ℕ → Bytes → Sim S → Bytes × Sim S
  unfolding demo_lookup
  run_text not_a_command cmd now sender s = ([], s)
  run_text _ cmd now sender s =
      let counted = record s { handled = (s.handled + 1) % 2 ^ 64 } in
      taken_up counted (
        engine.handle mem_ds_sink (λ kv id. demo_lookup sha256_hex id) cmd sender now
          (seed_of now counted.handled) (s.sessions, s.kv))

  -- `fallback`
  unfoldable pub sim_fallback : ℕ → Sim S → Bytes → Bytes → Bytes × Sim S
  unfolding run_text
  sim_fallback now s sender text =
      let cmd = engine.parse text in run_text (engine.kind cmd) cmd now sender s

  abbrev pub sim_bridge : ℕ → Bridge (Sim S)
  sim_bridge now = record {
    send = console_send;
    executor = record { sink = picked remote; auth = some (sim_access now) };
    tokenize = some tokenize;
    fallback = some (sim_fallback now);
    allow = some sim_allows;
  }

  -- The GET of the whole tree that `/tree` makes of a remote server.
  abbrev pub dump_tree : Option (GnmiSink (Sim S)) → Sim S → Sim S
  dump_tree none s = s
  dump_tree (some sink) s = (sink.get_paths s (codes "/" ∷ [])).1

  -- A line that starts with a slash: the state, or `none` where the program leaves.
  unfoldable pub on_slash : Bytes → Bytes → Sim S → Option (Sim S)
  unfolding equals split_csv
  on_slash cmd rest s =
      if equals cmd (codes "/quit") || equals cmd (codes "/exit")
      then none
      else if equals cmd (codes "/help")
      then some s
      else if equals cmd (codes "/from") && not (is_empty rest)
      then some (record s { from = rest })
      else if equals cmd (codes "/enable")
      then some (record s { enabled = true })
      else if equals cmd (codes "/disable")
      then some (record s { enabled = false })
      else if equals cmd (codes "/allow")
      then some (record s {
        sessions =
            store.set_config (record (config_of s.sessions) { allowed_numbers = split_csv rest })
              s.sessions;
      })
      else if equals cmd (codes "/tree")
      then some (dump_tree remote s)
      else some s

  -- A line that is an SMS.
  unfoldable pub on_text : ℕ → Bytes → Sim S → Sim S
  on_text now line s =
      on_sms (sim_bridge now) (record { sender = s.from; text = line; ts = to_string now }) s

  unfoldable pub on_clean_line : ℕ → Bytes → Sim S → Option (Sim S)
  unfolding on_slash on_text word_of
  on_clean_line now [] s = some s
  on_clean_line now (c ∷ line) s =
      let (cmd, rest) = word_of (c ∷ line) in
      if is_quit (c ∷ line)
      then none
      else if c == b'/'
      then on_slash cmd (behind_space rest) s
      else some (on_text now (c ∷ line) s)

  -- One turn of the loop.
  unfoldable pub on_line : ℕ → Bytes → Sim S → Option (Sim S)
  unfolding on_clean_line without_cr
  on_line now line s = on_clean_line now (without_cr line) s

  -- The loop over the lines of the console, each with the time at which it is read.
  unfoldable pub console : List (ℕ × Bytes) → Sim S → Sim S
  unfolding on_line
  console [] s = s
  console ((now, line) ∷ more) s = elim (on_line now line s) [
    | none ↦ s
    | some next ↦ console more next
  ]

-- The tree and the settings that `main` starts from.
abbrev pub demo_tree : Tree
demo_tree = insert (codes "/system/aaa/user[name=admin]/config/password") (codes "s3cr3t") (
    insert (codes "/interfaces/interface[name=eth0]/state/oper-status") (codes "UP") (
      insert (codes "/system/state/uptime") (codes "12345")
        (insert (codes "/system/config/hostname") (codes "demo-router") [])))

abbrev pub new_sim : {S : Type 0} → S → Sim S
new_sim sessions = record {
  from = codes "+15551230000";
  enabled = true;
  sessions = sessions;
  handled = 0;
  kv = [];
  tree = demo_tree;
  sent = [];
}
