-- ===== src/Users/RoundTrip.antt =====
-- A file of users for src/users.cpp, one `id:hash:access` line for each, read back.
use mathlib.Core.List.{map-append}
use mathlib.Core.Option.{some-injective}
use zero_touch.AtModem.Pieces.{after}
use zero_touch.Base.{
  All, List, [], ap, append_assoc, arith, drop, drop-past, false, if◌then◌else◌, inl, inr, is_empty,
  length, length-append, map, not, refl, some, subst, sym, take, take-length_append, true, ℕ, ◌++◌,
  ◌+◌, ◌-◌, ◌∙◌, ◌∷◌, ◌≡◌, ◌≢◌, ◌⊎◌,
}
use zero_touch.Base.Bytes.{Bytes, codes, equals, find-append, lacks, substr}
use zero_touch.Base.Text.{is_blank, lines, lines-cons, trim}
use zero_touch.Base.Trim.{IsTrimmed, ends_blank, trim-IsTrimmed}
use zero_touch.Config.Lines.{
  IsClean, ends_blank-append, lacks-append, starts_blank-append, strip_comment-clean,
}
use zero_touch.Users.{User, find_user, parse_user, parse_users, user_at, user_from}
use zero_touch.Users.Store.{NotGiven, find_user-last}

-- A user that can be written on a line.
pub record IsPrintable (u : User) : Type 0 where
  pub id_clean : IsClean u.id
  pub hash_clean : IsClean u.hash
  pub id_colon : lacks b':' u.id ≡ true
  pub hash_colon : lacks b':' u.hash ≡ true
  pub has_id : u.id ≢ []
  pub has_hash : u.hash ≢ []
  pub level : (u.access ≡ codes "Admin") ⊎ (u.access ≡ codes "Viewer")

abbrev pub user_line : User → Bytes
user_line u = u.id ++ b':' ∷ (u.hash ++ b':' ∷ u.access)

abbrev pub render_users : List User → Bytes
render_users [] = []
render_users (u ∷ us) = user_line u ++ b'\n' ∷ render_users us

-- What the two levels have in common.
record IsLevel (access : Bytes) : Type 0 where
  no_mark : lacks b'#' access ≡ true
  no_newline : lacks b'\n' access ≡ true
  filled : ends_blank (b':' ∷ access) ≡ false
  trimmed : IsTrimmed access
  kept : (if not (equals access (codes "Admin")) then codes "Viewer" else access) ≡ access

IsLevel-of :
    (access : Bytes) → (access ≡ codes "Admin") ⊎ (access ≡ codes "Viewer") → IsLevel access
unfolding lacks is_blank equals
IsLevel-of access (inl e) = subst IsLevel (sym e) (record {
  no_mark = refl;
  no_newline = refl;
  filled = refl;
  trimmed = (refl, refl);
  kept = refl;
})
IsLevel-of access (inr e) = subst IsLevel (sym e) (record {
  no_mark = refl;
  no_newline = refl;
  filled = refl;
  trimmed = (refl, refl);
  kept = refl;
})

lacks-user_line :
    (c : ℕ) (u : User)
    → lacks c (b':' ∷ []) ≡ true
    → lacks c u.id ≡ true
    → lacks c u.hash ≡ true
    → lacks c u.access ≡ true
    → lacks c (user_line u) ≡ true
unfolding lacks
lacks-user_line c u h i j k =
    lacks-append c u.id (b':' ∷ (u.hash ++ b':' ∷ u.access)) i
      (ground (arith, lacks-append c u.hash (b':' ∷ u.access) j))

user_line-IsTrimmed : (u : User) → IsPrintable u → IsTrimmed (user_line u)
user_line-IsTrimmed u p = (
  starts_blank-append u.id (b':' ∷ (u.hash ++ b':' ∷ u.access)) p.has_id ∙ p.id_clean.trimmed.0,
  ends_blank-append u.id b':' (u.hash ++ b':' ∷ u.access)
      ∙ ends_blank-append (b':' ∷ u.hash) b':' u.access
      ∙ (IsLevel-of u.access p.level).filled,
)

nonempty : (s : Bytes) → s ≢ [] → is_empty s ≡ false
nonempty [] n = absurd (n refl)
nonempty (c ∷ s) n = refl

-- The fields of a line, at the places of its two colons.
user_at-line :
    (u : User) → IsPrintable u → user_at (user_line u) (length u.id) (some (length u.hash)) ≡ some u
unfolding user_at
user_at-line u p =
    rw
      (
        id_field,
        hash_field,
        access_field,
        nonempty u.id p.has_id,
        nonempty u.hash p.has_hash,
        (IsLevel-of u.access p.level).kept,
      )
      refl
  where
    rest : Bytes
    rest = u.hash ++ b':' ∷ u.access

    id_field : trim (take (length u.id) (user_line u)) ≡ u.id
    id_field =
        ap trim (take-length_append u.id (b':' ∷ rest)) ∙ trim-IsTrimmed u.id p.id_clean.trimmed

    hash_field :
        trim (
          substr
            (user_line u)
            (length u.id + 1)
            (length u.id + 1 + length u.hash - length u.id - 1))
        ≡ u.hash
    hash_field =
        ap trim (
          ap (take (length u.id + 1 + length u.hash - length u.id - 1))
            (drop-past u.id b':' rest (length u.id + 1) (omega arith))
          ∙ ap (λ n. take n rest) (omega arith)
          ∙ take-length_append u.hash (b':' ∷ u.access))
        ∙ trim-IsTrimmed u.hash p.hash_clean.trimmed

    access_field : trim (drop (length u.id + 1 + length u.hash + 1) (user_line u)) ≡ u.access
    access_field =
        ap trim (
          ap (drop (length u.id + 1 + length u.hash + 1))
            (sym (append_assoc u.id (b':' ∷ u.hash) (b':' ∷ u.access)))
          ∙ drop-past (u.id ++ b':' ∷ u.hash) b':' u.access (length u.id + 1 + length u.hash + 1)
              (omega (arith, length-append u.id (b':' ∷ u.hash))))
        ∙ trim-IsTrimmed u.access (IsLevel-of u.access p.level).trimmed

parse_user-user_line : (u : User) → IsPrintable u → parse_user (user_line u) ≡ some u
unfolding parse_user user_from
parse_user-user_line u p =
    rw
      (strip_comment-clean (user_line u) (
        lacks-user_line b'#' u (unfold lacks in refl) p.id_clean.no_mark p.hash_clean.no_mark
          (IsLevel-of u.access p.level).no_mark))
      (rw (trim-IsTrimmed (user_line u) (user_line-IsTrimmed u p)) (
        rw (line_given, find-append b':' u.id (u.hash ++ b':' ∷ u.access) p.id_colon)
          (rw (drop-past u.id b':' (u.hash ++ b':' ∷ u.access) (length u.id + 1) (omega arith))
            (rw (find-append b':' u.hash u.access p.hash_colon) (user_at-line u p)))))
  where
    line_given : is_empty (user_line u) ≡ false
    line_given = filled u.id (u.hash ++ b':' ∷ u.access)
      where
        filled : (a b : Bytes) → is_empty (a ++ b':' ∷ b) ≡ false
        filled [] b = refl
        filled (c ∷ a) b = refl

lines-render_users :
    (us : List User) → All IsPrintable us → lines (render_users us) ≡ map user_line us
lines-render_users [] h = unfold lines in refl
lines-render_users (u ∷ us) h =
    lines-cons (user_line u) (render_users us) (
      lacks-user_line b'\n' u (unfold lacks in refl) h.0.id_clean.no_newline
        h.0.hash_clean.no_newline (IsLevel-of u.access h.0.level).no_newline)
    ∙ ap (◌∷◌ (user_line u)) (lines-render_users us h.1)

NotGiven-others :
    (id : Bytes) (us : List User)
    → All IsPrintable us
    → All (λ w. w.id ≢ id) us
    → NotGiven id (map user_line us)
NotGiven-others id [] h k = tt
NotGiven-others id (w ∷ us) h k = (
  (λ v e same.
      k.0 (ap (λ x. x.id) (some-injective w v (sym (parse_user-user_line w h.0) ∙ e)) ∙ same)),
  NotGiven-others id us h.1 k.1,
)

All-from : (us vs : List User) → All IsPrintable (us ++ vs) → All IsPrintable vs
All-from [] vs h = h
All-from (u ∷ us) vs h = All-from us vs h.1

-- A file that was written for a list of users gives each of them back under its id, if no later one
-- has the same id: where ids and hashes are not empty, hold no colon, comment mark or newline, and
-- have no blanks at their ends, and each access level is `Admin` or `Viewer`.
pub find_user-render_users :
    (before after : List User) (u : User)
    → All IsPrintable (before ++ u ∷ after)
    → All (λ w. w.id ≢ u.id) after
    → find_user u.id (parse_users (render_users (before ++ u ∷ after))) ≡ some u
unfolding parse_users
find_user-render_users before after u h k =
    rw (lines-render_users (before ++ u ∷ after) h, map-append user_line before (u ∷ after))
      (find_user-last (map user_line before) (map user_line after) (user_line u)
        (parse_user-user_line u (All-from before (u ∷ after) h).0)
        (NotGiven-others u.id after (All-from before (u ∷ after) h).1 k))
