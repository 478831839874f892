-- ===== src/Daemon/Status/Watch.antt =====
-- The settings that daemon/zerotouchd.cpp watches, beside those that it reads.
use zero_touch.Base.{List, Option, any, refl, true, ◌≡◌}
use zero_touch.Base.Bytes.{Bytes, codes, equals}
use zero_touch.Daemon.{Daemon, SessionStore, Store, get_bool, get_str, get_u32, load_config}
use zero_touch.Daemon.Status.{config_keys}

module _ {V S : Type 0} (ds : Store V) (store : SessionStore S) where
  -- A data store that agrees with another one on every setting that is watched gives the daemon the
  -- same configuration: no setting that is read goes unwatched.
  pub load_config-watched :
      (other : Bytes → Option (List (Option V))) (d : Daemon S)
      → ((key : Bytes) → any (equals key) config_keys ≡ true → other key ≡ ds.get key)
      → load_config (record ds { get = other }) store d ≡ load_config ds store d
  unfolding load_config get_str get_u32 get_bool config_keys equals
  load_config-watched other d h =
      rw
        (
          h (codes "zerotouch.enabled") refl,
          h (codes "zerotouch.gnmi.port") refl,
          h (codes "zerotouch.allowed.numbers") refl,
          h (codes "zerotouch.session.ttl.sec") refl,
          h (codes "zerotouch.lockout.failures") refl,
          h (codes "zerotouch.lockout.sec") refl,
        )
        refl
