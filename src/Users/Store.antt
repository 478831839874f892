-- ===== src/Users/Store.antt =====
-- What src/users.cpp stores.
use zero_touch.Base.{
  Bool-cases, List, Option, [], arith, drop, false, if◌then◌else◌, inl, inr, is_empty, none, not,
  refl, some, subst, ℕ, ◌++◌, ◌+◌, ◌||◌, ◌∙◌, ◌∷◌, ◌≡◌, ◌≢◌, ◌⊎◌,
}
use zero_touch.Base.Bytes.{Bytes, codes, equals, equals_refl, equals_iff, find}
use zero_touch.Base.Keys.{nat_ord, text_ord}
use zero_touch.Base.Map.{insert, lookup, lookup-insert}
use zero_touch.Base.Text.{lines, strip_comment, trim}
use zero_touch.Config.Lines.{line}
use zero_touch.LocalSink.Secrecy.{blank}
use zero_touch.Users.{
  User, UserStore, find_user, parse_lines, parse_user, parse_users, store_user, user_at, user_from,
}

-- A stored user is complete, is kept under its own id, and has one of the two access levels.
pub record IsUser (id : Bytes) (u : User) : Type 0 where
  pub named : u.id ≡ id
  pub has_id : u.id ≢ []
  pub has_hash : u.hash ≢ []
  pub level : (u.access ≡ codes "Admin") ⊎ (u.access ≡ codes "Viewer")

-- What a line gives.
abbrev pub Given : Option User → Type 0
Given none = Unit
Given (some u) = IsUser u.id u

ne_nil : (s : Bytes) → is_empty s ≡ false → s ≢ []
ne_nil s h e = cc

access_level :
    (a : Bytes)
    → let b = if not (equals a (codes "Admin")) then codes "Viewer" else a in
      (b ≡ codes "Admin") ⊎ (b ≡ codes "Viewer")
access_level a = elim (Bool-cases (equals a (codes "Admin"))) [
  | inl hit ↦ rw hit (inl ((equals_iff a (codes "Admin")).0 hit))
  | inr miss ↦ rw miss (inr refl)
]

complete_user :
    (id hash access : Bytes)
    → Given (
        if is_empty id || is_empty hash
        then none
        else some (record {
          id = id;
          hash = hash;
          access = if not (equals access (codes "Admin")) then codes "Viewer" else access;
        }))
complete_user id hash access = elim (Bool-cases (is_empty id || is_empty hash)) [
  | inl short ↦ rw short tt
  | inr full ↦ rw full (record {
    named = refl;
    has_id = ne_nil id (ground arith);
    has_hash = ne_nil hash (ground arith);
    level = access_level access;
  })
]

user_at-Given : (line : Bytes) (c1 : ℕ) (c2 : Option ℕ) → Given (user_at line c1 c2)
unfolding user_at
user_at-Given line c1 none = tt
user_at-Given line c1 (some k) = complete_user _ _ _

user_from-Given : (line : Bytes) (c1 : Option ℕ) → Given (user_from line c1)
unfolding user_from
user_from-Given line none = tt
user_from-Given line (some c1) = user_at-Given line c1 (find b':' (drop (c1 + 1) line))

pub parse_user-Given : (raw : Bytes) → Given (parse_user raw)
unfolding parse_user
parse_user-Given raw = elim (Bool-cases (is_empty (trim (strip_comment raw)))) [
  | inl blank ↦ rw blank tt
  | inr full ↦
      rw full (user_from-Given (trim (strip_comment raw)) (find b':' (trim (strip_comment raw))))
]

-- Every user that can be found is well formed.
abbrev pub IsStore : UserStore → Type 0
IsStore m = (id : Bytes) (u : User) → lookup id m ≡ some u → IsUser id u

empty_store : (id : Bytes) (u : User) → lookup id [] ≡ some u → IsUser id u
unfolding lookup
empty_store id u h = cc

equals-ne : (a b : Bytes) → a ≢ b → equals a b ≡ false
equals-ne a b n = elim (Bool-cases (equals a b)) [
  | inl hit ↦ absurd (n ((equals_iff a b).0 hit))
  | inr miss ↦ miss
]

insert-IsStore : (v : User) (m : UserStore) → IsUser v.id v → IsStore m → IsStore (insert v.id v m)
insert-IsStore v m g s id u h = elim (Bool-cases (equals v.id id)) [
  | inl hit ↦
      let e : v ≡ u = ground (arith, lookup-insert v.id id v m) in
      subst (λ x. IsUser id x) e (subst (λ i. IsUser i v) ((equals_iff v.id id).0 hit) g)
  | inr miss ↦ s id u (ground (arith, lookup-insert v.id id v m))
]

store_user-IsStore :
    (o : Option User) (m : UserStore) → Given o → IsStore m → IsStore (store_user o m)
unfolding store_user
store_user-IsStore none m g s = s
store_user-IsStore (some v) m g s = insert-IsStore v m g s

parse_lines-IsStore : (ls : List Bytes) (m : UserStore) → IsStore m → IsStore (parse_lines ls m)
unfolding parse_lines
parse_lines-IsStore [] m s = s
parse_lines-IsStore (l ∷ ls) m s =
    parse_lines-IsStore ls (store_user (parse_user l) m)
      (store_user-IsStore (parse_user l) m (parse_user-Given l) s)

parse_users-IsStore : (text : Bytes) → IsStore (parse_users text)
unfolding parse_users
parse_users-IsStore text = parse_lines-IsStore (lines text) [] (λ id u h. empty_store id u h)

-- Whatever the file holds, a user that a lookup finds has the id that was asked for, which is not
-- empty, a hash that is not empty, and the access level `Admin` or `Viewer`.
pub parse_users-IsUser :
    (text id : Bytes) {u : User} → find_user id (parse_users text) ≡ some u → IsUser id u
unfolding find_user
parse_users-IsUser text id {u} h = parse_users-IsStore text id u h

parse_lines-append :
    (a b : List Bytes) (m : UserStore) → parse_lines (a ++ b) m ≡ parse_lines b (parse_lines a m)
unfolding parse_lines
parse_lines-append [] b m = refl
parse_lines-append (l ∷ a) b m = parse_lines-append a b (store_user (parse_user l) m)

-- No later line gives a user with this id.
abbrev pub NotGiven : Bytes → List Bytes → Type 0
NotGiven id [] = Unit
NotGiven id (l ∷ ls) = ((u : User) → parse_user l ≡ some u → u.id ≢ id) × NotGiven id ls

lookup-store_user :
    (id : Bytes) (o : Option User) (m : UserStore)
    → ((u : User) → o ≡ some u → u.id ≢ id)
    → lookup id (store_user o m) ≡ lookup id m
unfolding store_user
lookup-store_user id none m n = refl
lookup-store_user id (some v) m n = lookup-insert v.id id v m ∙ rw (equals-ne v.id id (n v refl))

lookup-parse_lines :
    (id : Bytes) (ls : List Bytes) (m : UserStore)
    → NotGiven id ls
    → lookup id (parse_lines ls m) ≡ lookup id m
unfolding parse_lines
lookup-parse_lines id [] m n = refl
lookup-parse_lines id (l ∷ ls) m n =
    lookup-parse_lines id ls (store_user (parse_user l) m) n.1
    ∙ lookup-store_user id (parse_user l) m n.0

-- Of the lines that give an id the last one counts.
pub find_user-last :
    (before after : List Bytes) (l : Bytes) {u : User}
    → parse_user l ≡ some u
    → NotGiven u.id after
    → find_user u.id (parse_lines (before ++ l ∷ after) []) ≡ some u
unfolding find_user parse_lines
find_user-last before after l {u} h n = rw (parse_lines-append before (l ∷ after) []) (
    lookup-parse_lines u.id after (store_user (parse_user l) (parse_lines before [])) n
    ∙ rw h (
        unfold store_user in
        lookup-insert u.id u.id u (parse_lines before []) ∙ rw (equals_refl u.id)))
