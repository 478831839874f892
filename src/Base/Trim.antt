-- ===== src/Base/Trim.antt =====
-- `trim` takes the blanks off both ends of a text and nothing else.
use Prim.Native.Nat.{ℕ, ◌+◌}
use mathlib.Core.Bool.{Bool, false, true}
use mathlib.Core.List.{[], append-nil, ◌++◌, ◌∷◌}
use mathlib.Core.Option.{none, some}
use mathlib.Core.Path.{ap, refl, sym, ◌∙◌, ◌≡◌}
use native.Mathlib.Omega.{arith}
use zero_touch.Base.Bytes.{Bytes, substr}
use zero_touch.Base.Lists.{all, drop-length_append, length, take-length_append}
use zero_touch.Base.Text.{find_first_not_blank, find_last_not_blank, is_blank, trim}

abbrev pub ends_blank : Bytes → Bool
ends_blank [] = false
ends_blank (c ∷ []) = is_blank c
ends_blank (c ∷ d ∷ s) = ends_blank (d ∷ s)

abbrev pub starts_blank : Bytes → Bool
starts_blank [] = false
starts_blank (c ∷ s) = is_blank c

-- A text with no blank at either end.
abbrev pub IsTrimmed : Bytes → Type 0
IsTrimmed s = (starts_blank s ≡ false) × (ends_blank s ≡ false)

abbrev pub IsBlank : Bytes → Type 0
IsBlank s = all is_blank s ≡ true

find_first-blank : (pre : Bytes) → IsBlank pre → find_first_not_blank pre ≡ none
unfolding find_first_not_blank
find_first-blank [] h = refl
find_first-blank (c ∷ pre) h = ground (arith, find_first-blank pre)

find_last-blank : (post : Bytes) → IsBlank post → find_last_not_blank post ≡ none
unfolding find_last_not_blank
find_last-blank [] h = refl
find_last-blank (c ∷ post) h = ground (arith, find_last-blank post)

find_last-trimmed :
    (c : ℕ) (s post : Bytes)
    → ends_blank (c ∷ s) ≡ false
    → IsBlank post
    → find_last_not_blank (c ∷ s ++ post) ≡ some (length s)
unfolding find_last_not_blank
find_last-trimmed c [] post h k = rw (find_last-blank post k, h)
find_last-trimmed c (d ∷ s) post h k = rw (find_last-trimmed d s post h k)

find_last-prefix :
    (pre s : Bytes) {i : ℕ}
    → find_last_not_blank s ≡ some i
    → find_last_not_blank (pre ++ s) ≡ some (length pre + i)
unfolding find_last_not_blank
find_last-prefix [] s h = h ∙ ap some (omega arith)
find_last-prefix (c ∷ pre) s h = rw (find_last-prefix pre s h) (ap some (omega arith))

find_first-trimmed :
    (pre : Bytes) (c : ℕ) (s : Bytes)
    → IsBlank pre
    → is_blank c ≡ false
    → find_first_not_blank (pre ++ c ∷ s) ≡ some (length pre)
unfolding find_first_not_blank
find_first-trimmed [] c s h k = rw k
find_first-trimmed (d ∷ pre) c s h k = ground (arith, find_first-trimmed pre c s)

IsBlank-append : (pre post : Bytes) → IsBlank pre → IsBlank post → IsBlank (pre ++ post)
IsBlank-append [] post h k = k
IsBlank-append (c ∷ pre) post h k = ground (arith, IsBlank-append pre post)

middle :
    (pre s post : Bytes) (n : ℕ) → n ≡ length s → substr (pre ++ (s ++ post)) (length pre) n ≡ s
middle pre s post n e = rw (drop-length_append pre (s ++ post), e) (take-length_append s post)

-- Blanks around a text that has none at its ends are taken off.
pub trim-around :
    (pre s post : Bytes) → IsBlank pre → IsTrimmed s → IsBlank post → trim (pre ++ (s ++ post)) ≡ s
unfolding trim
trim-around pre [] post h k j =
    rw (find_first-blank (pre ++ post) (IsBlank-append pre post h j), trim)
trim-around pre (c ∷ s) post h k j =
    let last = find_last-prefix pre (c ∷ s ++ post) (find_last-trimmed c s post k.1 j) in
    rw (find_first-trimmed pre c (s ++ post) h k.0)
      (rw last (middle pre (c ∷ s) post _ (omega arith)))

-- A text with no blank at its ends is left alone.
pub trim-IsTrimmed : (s : Bytes) → IsTrimmed s → trim s ≡ s
trim-IsTrimmed s k = ap trim (sym (append-nil s)) ∙ trim-around [] s [] refl k refl
