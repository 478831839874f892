-- ===== src/Tests/Statuses.antt =====
-- What daemon/zerotouchd.cpp publishes and watches, at concrete inputs.
use zero_touch.Base.{
  Bool, Bool-cases, List, Option, [], any, false, if◌then◌else◌, inl, inr, length, none, refl, some,
  subst, true, ◌∷◌, ◌≡◌,
}
use zero_touch.Base.Bytes.{Bytes, codes, equals, equals_iff}
use zero_touch.Base.Keys.{nat_ord, text_ord}
use zero_touch.Base.Map.{lookup}
use zero_touch.Classic.{Engine, other_kind}
use zero_touch.Daemon.{Item, SessionStore, Store, load_config}
use zero_touch.Daemon.Status.{DataStore, World, classic_reply, command_batch, config_keys, start_up}
use zero_touch.Daemon.Status.Mirror.{
  Event, Mirrors, arrives, change, on_events, start_up-Mirrors, tick, wake,
}
use zero_touch.Daemon.Status.Privacy.{classic_reply-private}
use zero_touch.Daemon.Status.Watch.{load_config-watched}
use zero_touch.Executor.{GnmiSink}
use zero_touch.Reply.{no_result}

-- The sessions are the senders that are logged in.
abbrev logins : SessionStore (List Bytes)
logins = record {
  session = λ s sender now. none;
  allows = λ s sender. true;
  set_config = λ c s. s;
  sweep = λ now s. [];
  session_count = λ s. length s;
}

-- A data store that holds texts, and takes whatever is written to it.
abbrev texts : DataStore (List (Bytes × Bytes)) Bytes
texts = record {
  read = λ d. record {
    get = λ key.
        if equals key (codes "zerotouch.enabled") then some (some (codes "true") ∷ []) else none;
    as_text = λ v. some v;
    as_int32 = λ v. none;
    as_bool = λ v. some true;
  };
  set_text = λ d key value. (true, (key, value) ∷ d);
  set_volatile = λ d batch. (true, d);
  truncate = λ d path. (true, d);
  write = λ d path content. (true, d);
}

-- Every text is a login that succeeds.
abbrev login_engine : Engine Bytes (List Bytes) (List (Bytes × Bytes))
login_engine = record {
  parse = λ text. text;
  kind = λ cmd. other_kind;
  keyword = λ cmd. codes "LOGIN";
  handle = λ sink lookup cmd sender now seed state. (codes "OK LOGIN", (sender ∷ state.0, state.1));
}

abbrev no_accounts : Bytes → Option (List Item)
no_accounts text = none

abbrev fresh_world : World (List Bytes) (List (Bytes × Bytes))
fresh_world = record {
  daemon = record {
    enabled = false;
    gnmi_port = 50051;
    sink_port = 50051;
    sessions = [];
    cfg_dirty = false;
  };
  handled = 0;
  store = [];
  published = [];
}

abbrev a_day : List (Event (List (Bytes × Bytes)))
a_day =
    arrives 5 7 (record { sender = codes "+491234567"; text = codes "IOT LOGIN admin x"; ts = [] })
    ∷ change
    ∷ wake
    ∷ tick 600
    ∷ []

abbrev silent_modem : List (Bytes × Bytes) → Bytes → Bytes → Bool × List (Bytes × Bytes)
silent_modem d to reply = (true, d)

abbrev no_server : GnmiSink (List (Bytes × Bytes))
no_server = record { get_paths = λ d xs. (no_result, d); set_paths = λ d us. (no_result, d) }

abbrev one_word : Bytes → List Bytes
one_word message = message ∷ []

start_up-Mirrors_example :
    Mirrors logins texts login_engine no_accounts silent_modem
      (λ port. no_server)
      one_word
      (on_events logins texts login_engine no_accounts silent_modem
        (λ port. no_server)
        one_word
        a_day
        (start_up logins texts true fresh_world).1)
start_up-Mirrors_example =
    start_up-Mirrors logins texts login_engine no_accounts silent_modem (λ port. no_server) one_word
      fresh_world a_day

classic_reply-private_example :
    (classic_reply logins texts login_engine no_accounts 5 7
      (codes "+49")
      (codes "LOGIN a b")
      fresh_world).1.published
    ≡ (classic_reply logins texts login_engine no_accounts 5 7
        (codes "+49")
        (codes "LOGIN c d")
        fresh_world).1.published
classic_reply-private_example =
    classic_reply-private logins texts login_engine no_accounts 5 7 (codes "+49")
      (codes "LOGIN a b") (codes "LOGIN c d") fresh_world refl refl refl refl refl

-- A store that answers for the accounts alone, and one that answers for nothing.
abbrev accounts_only : Store Bytes
accounts_only = record {
  get = λ key.
      if equals key (codes "auth.users.accounts") then some (some (codes "[]") ∷ []) else none;
  as_text = λ v. some v;
  as_int32 = λ v. none;
  as_bool = λ v. none;
}

unwatched : (key : Bytes) → any (equals key) config_keys ≡ true → none ≡ accounts_only.get key
unwatched key h = elim (Bool-cases (equals key (codes "auth.users.accounts"))) [
  | inl e ↦ absurd (
      accounts_unwatched (
        subst (λ k. any (equals k) config_keys ≡ true)
          ((equals_iff key (codes "auth.users.accounts")).0 e) h))
  | inr e ↦ rw e refl
]
  where
    accounts_unwatched : any (equals (codes "auth.users.accounts")) config_keys ≡ true → ⊥
    accounts_unwatched h = unfold config_keys equals in cc

load_config-watched_example :
    load_config (record accounts_only { get = λ key. none }) logins fresh_world.daemon
    ≡ load_config accounts_only logins fresh_world.daemon
load_config-watched_example =
    load_config-watched accounts_only logins (λ key. none) fresh_world.daemon unwatched

-- A login publishes its keyword and its outcome, and not its arguments.
login_published :
    lookup
      (codes "zerotouch.last.cmd")
      (classic_reply logins texts login_engine no_accounts 5 7
        (codes "+49")
        (codes "LOGIN a b")
        fresh_world).1.published
    ≡ some (codes "LOGIN")
unfolding classic_reply command_batch lookup equals
login_published = refl
