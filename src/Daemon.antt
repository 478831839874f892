-- ===== src/Daemon.antt =====
-- daemon/zerotouchd.cpp: the settings, the accounts, and what the daemon binds the bridge to. The
-- data store, JSON and the sessions of smsctl are not in the repository: they are parameters.
pub mod Accounts
pub mod Gate
pub mod Status
use zero_touch.Base.{
  Bool, List, Option, [], false, if◌then◌else◌, is_empty, none, not, some, ℕ, ◌%◌, ◌&&◌, ◌^◌, ◌∷◌,
}
use zero_touch.Base.Bytes.{Bytes, codes, equals}
use zero_touch.Base.Num.{ℤ}
use zero_touch.Base.Text.{split_csv}
use zero_touch.Config.{positive_u32}
use zero_touch.Executor.{Access, admin, no_access, viewer}

-- `smsctl::Account` and `smsctl::Config`
pub record Account : Type 0 where
  pub id : Bytes
  pub hash : Bytes
  pub access : Bytes

pub record SessionConfig : Type 0 where
  pub session_ttl_sec : ℕ
  pub lockout_failures : ℕ
  pub lockout_sec : ℕ
  pub allowed_numbers : List Bytes

-- `smsctl::SessionStore`
pub record SessionStore (S : Type 0) : Type 0 where
  pub session : S → Bytes → ℕ → Option Account
  pub allows : S → Bytes → Bool
  pub set_config : SessionConfig → S → S
  pub sweep : ℕ → S → S
  pub session_count : S → ℕ

-- The data store: its answer for a key, as in the client's `get`, and the readers of a value.
pub record Store (V : Type 0) : Type 0 where
  pub get : Bytes → Option (List (Option V))
  pub as_text : V → Option Bytes
  pub as_int32 : V → Option ℤ
  pub as_bool : V → Option Bool

-- `m_ds.get({key}, got).ok && !got.empty() && got[0].has_value`, and the value.
abbrev pub first_value : {V : Type 0} → Option (List (Option V)) → Option V
first_value (some (some v ∷ more)) = some v
first_value _ = none

abbrev pub bind_value : {A B : Type 0} → Option A → (A → Option B) → Option B
bind_value none f = none
bind_value (some a) f = f a

abbrev pub value_or : {A : Type 0} → Option A → A → A
value_or none d = d
value_or (some a) d = a

-- `ZeroTouchClient`: its settings, the port of its sink, its sessions, and the flag that the
-- watch of the settings sets.
pub record Daemon (S : Type 0) : Type 0 where
  pub enabled : Bool
  pub gnmi_port : ℕ
  pub sink_port : ℕ
  pub sessions : S
  pub cfg_dirty : Bool

module _ {V : Type 0} (ds : Store V) where
  -- The readers of `load_config_from_ds`.
  unfoldable pub get_str : Bytes → Bytes
  get_str key = value_or (bind_value (first_value (ds.get key)) ds.as_text) []

  unfoldable pub get_u32 : Bytes → ℕ → ℕ
  unfolding positive_u32
  get_u32 key dflt = positive_u32 (bind_value (first_value (ds.get key)) ds.as_int32) dflt

  unfoldable pub get_bool : Bytes → Bool → Bool
  get_bool key dflt = value_or (bind_value (first_value (ds.get key)) ds.as_bool) dflt

  module _ {S : Type 0} (store : SessionStore S) where
    -- `load_config_from_ds`
    unfoldable pub load_config : Daemon S → Daemon S
    unfolding get_str get_u32 get_bool split_csv
    load_config d =
        let port = get_u32 (codes "zerotouch.gnmi.port") 50051 % 2 ^ 16 in
        let c : SessionConfig = record {
          session_ttl_sec = get_u32 (codes "zerotouch.session.ttl.sec") 600;
          lockout_failures = get_u32 (codes "zerotouch.lockout.failures") 5;
          lockout_sec = get_u32 (codes "zerotouch.lockout.sec") 900;
          allowed_numbers = split_csv (get_str (codes "zerotouch.allowed.numbers"));
        } in
        record d {
          enabled = get_bool (codes "zerotouch.enabled") false;
          gnmi_port = port;
          sink_port = port;
          sessions = store.set_config c d.sessions;
        }

    -- `handle_exception`, but for what it publishes and logs.
    unfoldable pub on_wake : Daemon S → Daemon S
    unfolding load_config
    on_wake d =
        let clean = record d { cfg_dirty = false } in
        if d.cfg_dirty then load_config clean else clean

module _ {S : Type 0} (store : SessionStore S) where
  abbrev pub level_of : Option Account → Access
  level_of none = no_access
  level_of (some acc) = if equals acc.access (codes "Admin") then admin else viewer

  -- `sender_access`
  unfoldable pub sender_access : ℕ → Daemon S → Bytes → Access × Daemon S
  unfolding equals
  sender_access now d sender = (level_of (store.session d.sessions sender now), d)

  -- `sender_allowed`
  unfoldable pub sender_allowed : Daemon S → Bytes → Bool × Daemon S
  sender_allowed d sender = (d.enabled && store.allows d.sessions sender, d)

  -- `handle_timeout`, but for what it publishes.
  unfoldable pub handle_timeout : ℕ → Daemon S → Daemon S
  handle_timeout now d = record d { sessions = store.sweep now d.sessions }

-- An element of the JSON array of accounts: no object, or an object with the three members read
-- with their defaults, each `none` where the member has another type and the reading throws.
pub data Item : Type 0 where
  no_object : Item
  object : Option Bytes → Option Bytes → Option Bytes → Item

unfoldable pub account_of : Bytes → Option Bytes → Option Bytes → Option Account
account_of id (some hash) (some access) =
    if is_empty hash then none else some (record { id = id; hash = hash; access = access })
account_of id _ _ = none

-- The loop of `lookup_account` over the array.
unfoldable pub find_account : Bytes → List Item → Option Account
unfolding equals account_of
find_account id [] = none
find_account id (no_object ∷ items) = find_account id items
find_account id (object none hash access ∷ items) = none
find_account id (object (some u) hash access ∷ items) =
    let rest = find_account id items in
    if not (equals u id) then rest else account_of id hash access

abbrev pub admin_level : Option Bytes → Bytes
admin_level none = codes "Admin"
admin_level (some a) = if equals a (codes "Viewer") then codes "Viewer" else codes "Admin"

abbrev pub admin_account : Option Bytes → Option Bytes → Option Account
admin_account none level = none
admin_account (some hash) level =
    if is_empty hash
    then none
    else some (record { id = codes "admin"; hash = hash; access = admin_level level })

module _ {V : Type 0} (ds : Store V) (parse_array : Bytes → Option (List Item)) where
  abbrev pub text_at : Bytes → Option Bytes
  text_at key = bind_value (first_value (ds.get key)) ds.as_text

  abbrev pub find_in : Bytes → Option Bytes → Option Account
  find_in id none = none
  find_in id (some text) =
      if is_empty text then none else bind_value (parse_array text) (find_account id)

  -- `lookup_account`, where `parse_array` is `none` if the text is no JSON or no array.
  unfoldable pub lookup_account : Bytes → Option Account
  unfolding equals find_account
  lookup_account id =
      if equals id (codes "admin")
      then admin_account (text_at (codes "auth.users.admin.password.hash"))
          (text_at (codes "auth.users.admin.access"))
      else find_in id (text_at (codes "auth.users.accounts"))
