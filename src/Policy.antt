-- ===== src/Policy.antt =====
-- src/path_policy.cpp: which xpaths are sensitive.
pub mod Deny
use zero_touch.Base.{Bool, List, [], false, if◌then◌else◌, is_empty, not, true, ◌&&◌, ◌∷◌}
use zero_touch.Base.Bytes.{Bytes, codes, contains, lower, to_lower}

-- `default_deny_tokens`
abbrev pub default_deny_tokens : List Bytes
default_deny_tokens =
    codes "password"
    ∷ codes "passwd"
    ∷ codes "psk"
    ∷ codes "secret"
    ∷ codes "private-key"
    ∷ codes "privatekey"
    ∷ codes "credential"
    ∷ codes "pre-shared"
    ∷ codes "apikey"
    ∷ codes "api-key"
    ∷ codes "auth-key"
    ∷ []

-- The loop of `is_sensitive_path`, on the lowered path.
unfoldable pub matches_any : Bytes → List Bytes → Bool
unfolding contains
matches_any low [] = false
matches_any low (t ∷ ts) =
    let rest = matches_any low ts in if not (is_empty t) && contains t low then true else rest

unfoldable pub is_sensitive_path : Bytes → List Bytes → Bool
unfolding matches_any to_lower
is_sensitive_path xpath tokens = matches_any (lower xpath) tokens
