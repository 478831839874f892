-- ===== src/Users.antt =====
-- src/users.cpp and inc/zerotouch/users.hpp: the file of users, one `id:hash:access` a line.
pub mod Store
pub mod RoundTrip
use zero_touch.Base.{
  List, Option, [], drop, if◌then◌else◌, is_empty, none, not, some, take, ℕ, ◌+◌, ◌-◌, ◌||◌, ◌∷◌,
}
use zero_touch.Base.Bytes.{Bytes, codes, equals, find, substr}
use zero_touch.Base.Keys.{nat_ord, text_ord}
use zero_touch.Base.Map.{insert, lookup}
use zero_touch.Base.Text.{lines, strip_comment, trim}

-- `User`
pub record User : Type 0 where
  pub id : Bytes
  pub hash : Bytes
  pub access : Bytes

-- `UserStore::m_users`
abbrev pub UserStore : Type 0
UserStore = List (Bytes × User)

-- The line from the second colon, of which `c1` is the place of the first one.
unfoldable pub user_at : Bytes → ℕ → Option ℕ → Option User
unfolding trim
user_at line c1 none = none
user_at line c1 (some k) =
    let c2 = c1 + 1 + k in
    let id = trim (take c1 line) in
    let hash = trim (substr line (c1 + 1) (c2 - c1 - 1)) in
    let access = trim (drop (c2 + 1) line) in
    if is_empty id || is_empty hash
    then none
    else some (record {
      id = id;
      hash = hash;
      access = if not (equals access (codes "Admin")) then codes "Viewer" else access;
    })

-- `line.find(':', c1 + 1)` is the first colon of what follows `c1`, counted from there.
unfoldable pub user_from : Bytes → Option ℕ → Option User
unfolding user_at
user_from line none = none
user_from line (some c1) = user_at line c1 (find b':' (drop (c1 + 1) line))

-- One turn of the loop of `parse`: the user that the line stores, if it does.
unfoldable pub parse_user : Bytes → Option User
unfolding trim strip_comment user_from
parse_user raw =
    let line = trim (strip_comment raw) in
    if is_empty line then none else user_from line (find b':' line)

unfoldable pub store_user : Option User → UserStore → UserStore
store_user none m = m
store_user (some u) m = insert u.id u m

-- The loop of `UserStore::parse` over the lines.
unfoldable pub parse_lines : List Bytes → UserStore → UserStore
unfolding parse_user store_user
parse_lines [] m = m
parse_lines (l ∷ ls) m = parse_lines ls (store_user (parse_user l) m)

-- `UserStore::parse`
unfoldable pub parse_users : Bytes → UserStore
unfolding lines parse_lines
parse_users text = parse_lines (lines text) []

-- `UserStore::lookup`
unfoldable pub find_user : Bytes → UserStore → Option User
find_user id store = lookup id store
