-- ===== src/Base/Bytes.antt =====
-- `std::string` as the list of its bytes: comparison, search, prefix, case.
use mathlib.Core.Option
use Prim.Native.Char.{code}
use Prim.Native.Nat.{suc, ℕ, ◌+◌}
use Prim.Native.String.{String}
use mathlib.Core.Bool.{Bool, false, not, true, ◌&&◌, ◌||◌}
use mathlib.Core.List.{List, [], map, ◌++◌, ◌∷◌}
use mathlib.Core.Logic.{inl, inr, ◌↔◌}
use mathlib.Core.Option.{Option, none, some}
use mathlib.Core.Path.{ap, ap₂, refl, ◌≡◌}
use native.Mathlib.Omega.{arith}
use zero_touch.Base.Lists.{drop, length, take}
use zero_touch.Base.Logic.{Bool-cases, Option-cases, if◌then◌else◌, leb, ◌==◌}

abbrev pub Bytes : Type 0
Bytes = List ℕ

-- The bytes of an ASCII literal.
abbrev pub codes : String → Bytes
codes String.[] = []
codes (String.◌∷◌ c s) = code c ∷ codes s

-- `a == b`
unfoldable pub equals : Bytes → Bytes → Bool
equals [] [] = true
equals (x ∷ a) (y ∷ b) = x == y && equals a b
equals _ _ = false

pub equals_iff : (a b : Bytes) → (equals a b ≡ true) ↔ (a ≡ b)
unfolding equals
equals_iff (x ∷ a) (y ∷ b) = ground (arith, equals_iff a b)
equals_iff _ _ = ground arith

pub equals_refl : (a : Bytes) → equals a a ≡ true
equals_refl a = (equals_iff a a).1 refl

-- `std::tolower` in the "C" locale
unfoldable pub to_lower : ℕ → ℕ
to_lower c = if leb b'A' c && leb c b'Z' then c + 32 else c

pub to_lower_idem : (c : ℕ) → to_lower (to_lower c) ≡ to_lower c
unfolding to_lower
to_lower_idem c = ground arith

abbrev pub lower : Bytes → Bytes
lower = map to_lower

pub lower_idem : (s : Bytes) → lower (lower s) ≡ lower s
lower_idem [] = refl
lower_idem (c ∷ s) = ap₂ ◌∷◌ (to_lower_idem c) (lower_idem s)

-- `s.rfind(prefix, 0) == 0`
unfoldable pub starts_with : Bytes → Bytes → Bool
starts_with [] s = true
starts_with (p ∷ ps) [] = false
starts_with (p ∷ ps) (c ∷ s) = p == c && starts_with ps s

pub starts_with_sound : (p s : Bytes) → starts_with p s ≡ true → (rest : Bytes) × (s ≡ p ++ rest)
unfolding starts_with
starts_with_sound [] s h = (s, refl)
starts_with_sound (p ∷ ps) [] h = cc
starts_with_sound (p ∷ ps) (c ∷ s) h =
    let (rest, e) = starts_with_sound ps s (ground arith) in (rest, ground arith)

pub starts_with-append : (p s : Bytes) → starts_with p (p ++ s) ≡ true
unfolding starts_with
starts_with-append [] s = refl
starts_with-append (p ∷ ps) s = ground (arith, starts_with-append ps s)

-- `s.find(t) != npos`
unfoldable pub contains : Bytes → Bytes → Bool
unfolding starts_with
contains t [] = starts_with t []
contains t (c ∷ s) = starts_with t (c ∷ s) || contains t s

-- `s.find(c)`, where `none` is `npos`
unfoldable pub find : ℕ → Bytes → Option ℕ
find c [] = none
find c (x ∷ s) = let rest = find c s in if x == c then some 0 else Option.map suc rest

-- `s.rfind(c)`
unfoldable pub rfind : ℕ → Bytes → Option ℕ
rfind c [] = none
rfind c (x ∷ s) = elim (rfind c s) [
  | some i ↦ some (suc i)
  | none ↦ if x == c then some 0 else none
]

-- `s.substr(pos, n)`
abbrev pub substr : Bytes → ℕ → ℕ → Bytes
substr s pos n = take n (drop pos s)

-- A byte that does not occur.
unfoldable pub lacks : ℕ → Bytes → Bool
lacks c [] = true
lacks c (x ∷ s) = not (x == c) && lacks c s

pub find-lacks : (c : ℕ) (s : Bytes) → lacks c s ≡ true → find c s ≡ none
unfolding find lacks
find-lacks c [] h = refl
find-lacks c (x ∷ s) h = ground (arith, find-lacks c s)

pub find-append : (c : ℕ) (s r : Bytes) → lacks c s ≡ true → find c (s ++ c ∷ r) ≡ some (length s)
unfolding find lacks
find-append c [] r h = ground arith
find-append c (x ∷ s) r h = ground (arith, find-append c s r)

-- A text splits at the first occurrence of a byte that `find` reports.
abbrev pub SplitsAt : ℕ → Bytes → ℕ → Type 0
SplitsAt c s i =
    (pre : Bytes) × (post : Bytes) × (s ≡ pre ++ c ∷ post) × (lacks c pre ≡ true) × (i ≡ length pre)

pub find_sound : (c : ℕ) (s : Bytes) {i : ℕ} → find c s ≡ some i → SplitsAt c s i
unfolding find lacks
find_sound c [] h = cc
find_sound c (x ∷ s) h = elim (Bool-cases (x == c)) [
  | inl hit ↦ ([], s, ground arith, refl, ground arith)
  | inr miss ↦ elim (Option-cases (find c s)) [
    | inl e ↦ ground arith
    | inr (j, e) ↦
        let (pre, post, split, clean, at) = find_sound c s e in
        (x ∷ pre, post, ap (◌∷◌ x) split, ground arith, ground arith)
  ]
]
