-- ===== src/Policy/Deny.antt =====
-- What `is_sensitive_path` of src/path_policy.cpp decides.
use mathlib.Core.List.{map-append}
use zero_touch.Base.{
  Bool-cases, List, [], ap, append_assoc, ap₂, arith, inl, inr, refl, true, ◌++◌, ◌↔◌, ◌∙◌, ◌∷◌,
  ◌≡◌, ◌≢◌, ◌⊎◌,
}
use zero_touch.Base.Bytes.{
  Bytes, contains, lower, starts_with, starts_with-append, starts_with_sound, to_lower,
}
use zero_touch.Policy.{is_sensitive_path, matches_any}

-- `t` stands somewhere in `s`.
pub record Occurs (t s : Bytes) : Type 0 where
  pub before : Bytes
  pub after : Bytes
  pub split : s ≡ before ++ (t ++ after)

pub contains_sound : (t s : Bytes) → contains t s ≡ true → Occurs t s
unfolding contains
contains_sound t [] h =
    let (rest, e) = starts_with_sound t [] h in record { before = []; after = rest; split = e }
contains_sound t (c ∷ s) h = elim (Bool-cases (starts_with t (c ∷ s))) [
  | inl here ↦
      let (rest, e) = starts_with_sound t (c ∷ s) here in
      record { before = []; after = rest; split = e }
  | inr later ↦
      let o = contains_sound t s (ground arith) in
      record { before = c ∷ o.before; after = o.after; split = ap (◌∷◌ c) o.split }
]

contains-here : (t r : Bytes) → contains t (t ++ r) ≡ true
unfolding contains
contains-here [] [] = refl
contains-here [] (c ∷ r) = refl
contains-here (x ∷ t) r = ground (arith, starts_with-append (x ∷ t) r)

contains-behind : (t a b : Bytes) → contains t b ≡ true → contains t (a ++ b) ≡ true
unfolding contains
contains-behind t [] b h = h
contains-behind t (c ∷ a) b h = ground (arith, contains-behind t a b h)

pub contains_complete : (t s : Bytes) → Occurs t s → contains t s ≡ true
contains_complete t s o =
    rw o.split (contains-behind t o.before (t ++ o.after) (contains-here t o.after))

-- Some token that is not empty occurs in the lowered path.
abbrev pub Denied : Bytes → List Bytes → Type 0
Denied low [] = ⊥
Denied low (t ∷ ts) = ((t ≢ []) × Occurs t low) ⊎ Denied low ts

matches_any_sound :
    (low : Bytes) (tokens : List Bytes) → matches_any low tokens ≡ true → Denied low tokens
unfolding matches_any
matches_any_sound low [] h = cc
matches_any_sound low ([] ∷ ts) h = inr (matches_any_sound low ts h)
matches_any_sound low ((x ∷ t) ∷ ts) h = elim (Bool-cases (contains (x ∷ t) low)) [
  | inl hit ↦ inl (λ e. cc, contains_sound (x ∷ t) low hit)
  | inr miss ↦ inr (matches_any_sound low ts (ground arith))
]

matches_any_complete :
    (low : Bytes) (tokens : List Bytes) → Denied low tokens → matches_any low tokens ≡ true
unfolding matches_any
matches_any_complete low [] h = absurd h
matches_any_complete low ([] ∷ ts) (inl h) = absurd (h.0 refl)
matches_any_complete low ([] ∷ ts) (inr h) = matches_any_complete low ts h
matches_any_complete low ((x ∷ t) ∷ ts) (inl h) = ground (arith, contains_complete (x ∷ t) low h.1)
matches_any_complete low ((x ∷ t) ∷ ts) (inr h) = ground (arith, matches_any_complete low ts h)

-- `t` is what a part of `s` is in lower case: so `t` is in lower case itself.
pub record InAnyCase (t s : Bytes) : Type 0 where
  pub before : Bytes
  pub found : Bytes
  pub after : Bytes
  pub split : s ≡ before ++ (found ++ after)
  pub same : lower found ≡ t

-- Some token that is not empty is in lower case and stands in the path in any case.
abbrev pub DeniedInAnyCase : Bytes → List Bytes → Type 0
DeniedInAnyCase s [] = ⊥
DeniedInAnyCase s (t ∷ ts) = ((t ≢ []) × InAnyCase t s) ⊎ DeniedInAnyCase s ts

-- A split of the lowered text is one of the text.
lower-split :
    (a b s : Bytes)
    → lower s ≡ a ++ b
    → (u : Bytes) × (v : Bytes) × (s ≡ u ++ v) × (lower u ≡ a) × (lower v ≡ b)
lower-split [] b s e = ([], s, refl, refl, e)
lower-split (x ∷ a) b [] e = absurd (cc)
lower-split (x ∷ a) b (c ∷ s) e =
    let (u, v, split, front, back) = lower-split a b s (ground arith) in
    (c ∷ u, v, ap (◌∷◌ c) split, ap₂ ◌∷◌ (ground arith) front, back)

Occurs-InAnyCase : (t s : Bytes) → Occurs t (lower s) → InAnyCase t s
Occurs-InAnyCase t s o =
    let (before, rest, e, _, e') = lower-split o.before (t ++ o.after) s o.split in
    let (found, after, k, same, _) = lower-split t o.after rest e' in
    record {
      before = before;
      found = found;
      after = after;
      split = e ∙ ap (◌++◌ before) k;
      same = same;
    }

InAnyCase-Occurs : (t s : Bytes) → InAnyCase t s → Occurs t (lower s)
InAnyCase-Occurs t s h = record {
  before = lower h.before;
  after = lower h.after;
  split =
      ap lower h.split
      ∙ map-append to_lower h.before (h.found ++ h.after)
      ∙ ap (◌++◌ (lower h.before)) (map-append to_lower h.found h.after)
      ∙ ap (λ u. lower h.before ++ (u ++ lower h.after)) h.same;
}

Denied-InAnyCase :
    (s : Bytes) (tokens : List Bytes) → Denied (lower s) tokens → DeniedInAnyCase s tokens
Denied-InAnyCase s [] h = h
Denied-InAnyCase s (t ∷ ts) (inl h) = inl (h.0, Occurs-InAnyCase t s h.1)
Denied-InAnyCase s (t ∷ ts) (inr h) = inr (Denied-InAnyCase s ts h)

InAnyCase-Denied :
    (s : Bytes) (tokens : List Bytes) → DeniedInAnyCase s tokens → Denied (lower s) tokens
InAnyCase-Denied s [] h = h
InAnyCase-Denied s (t ∷ ts) (inl h) = inl (h.0, InAnyCase-Occurs t s h.1)
InAnyCase-Denied s (t ∷ ts) (inr h) = inr (InAnyCase-Denied s ts h)

lowered_iff :
    (xpath : Bytes) (tokens : List Bytes)
    → (is_sensitive_path xpath tokens ≡ true) ↔ Denied (lower xpath) tokens
unfolding is_sensitive_path
lowered_iff xpath tokens =
    (matches_any_sound (lower xpath) tokens, matches_any_complete (lower xpath) tokens)

-- A path is sensitive exactly when a token that is not empty and is in lower case, as it has no
-- capitals, stands in the path in any case. A token with a capital never makes a path sensitive,
-- in whichever case it stands there.
pub is_sensitive_path_iff :
    (xpath : Bytes) (tokens : List Bytes)
    → (is_sensitive_path xpath tokens ≡ true) ↔ DeniedInAnyCase xpath tokens
is_sensitive_path_iff xpath tokens =
    let a = lowered_iff xpath tokens in
    (λ h. Denied-InAnyCase xpath tokens (a.0 h), λ h. a.1 (InAnyCase-Denied xpath tokens h))

Denied-append :
    (low more : Bytes) (tokens : List Bytes) → Denied low tokens → Denied (low ++ more) tokens
Denied-append low more [] h = h
Denied-append low more (t ∷ ts) (inl h) = inl (
  h.0,
  record {
    before = h.1.before;
    after = h.1.after ++ more;
    split =
        ap (λ s. s ++ more) h.1.split
        ∙ append_assoc h.1.before (t ++ h.1.after) more
        ∙ ap (◌++◌ h.1.before) (append_assoc t h.1.after more);
  },
)
Denied-append low more (t ∷ ts) (inr h) = inr (Denied-append low more ts h)

-- Everything below a sensitive path is sensitive too.
pub is_sensitive_path-append :
    (xpath more : Bytes) (tokens : List Bytes)
    → is_sensitive_path xpath tokens ≡ true
    → is_sensitive_path (xpath ++ more) tokens ≡ true
is_sensitive_path-append xpath more tokens h = (lowered_iff (xpath ++ more) tokens).1 (
    rw (map-append to_lower xpath more)
      (Denied-append (lower xpath) (lower more) tokens ((lowered_iff xpath tokens).0 h)))
