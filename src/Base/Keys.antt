-- ===== src/Base/Keys.antt =====
-- The two key types of the program's maps: `std::string` and `std::uint64_t`.
use Prim.Native.Nat.{ℕ}
use mathlib.Core.Bool.{Bool, false, true}
use mathlib.Core.List.{[], ◌∷◌}
use mathlib.Core.Path.{refl, ◌≡◌}
use native.Mathlib.Omega.{arith}
use zero_touch.Base.Bytes.{Bytes, equals, equals_iff}
use zero_touch.Base.Logic.{==_iff, if◌then◌else◌, ltb, ◌==◌}
use zero_touch.Base.Map.{Ord}

-- `operator<` of `std::string`, on unsigned bytes.
unfoldable pub text_lt : Bytes → Bytes → Bool
text_lt [] [] = false
text_lt [] (y ∷ b) = true
text_lt (x ∷ a) [] = false
text_lt (x ∷ a) (y ∷ b) = let rest = text_lt a b in if x == y then rest else ltb x y

pub text_lt_irrefl : (a : Bytes) → text_lt a a ≡ false
unfolding text_lt
text_lt_irrefl [] = refl
text_lt_irrefl (x ∷ a) = ground (arith, text_lt_irrefl a)

pub text_lt_total : (a b : Bytes) → equals a b ≡ false → text_lt b a ≡ false → text_lt a b ≡ true
unfolding text_lt equals
text_lt_total [] [] e h = cc
text_lt_total [] (y ∷ b) e h = refl
text_lt_total (x ∷ a) [] e h = cc
text_lt_total (x ∷ a) (y ∷ b) e h = ground (arith, text_lt_total a b)

pub text_lt_trans : (a b c : Bytes) → text_lt a b ≡ true → text_lt b c ≡ true → text_lt a c ≡ true
unfolding text_lt
text_lt_trans [] [] c h k = cc
text_lt_trans [] (y ∷ b) [] h k = cc
text_lt_trans [] (y ∷ b) (z ∷ c) h k = refl
text_lt_trans (x ∷ a) [] c h k = cc
text_lt_trans (x ∷ a) (y ∷ b) [] h k = cc
text_lt_trans (x ∷ a) (y ∷ b) (z ∷ c) h k = ground (arith, text_lt_trans a b c)

instance abbrev pub text_ord : Ord Bytes
text_ord = record {
  lt = text_lt;
  eq = equals;
  eq_iff = equals_iff;
  lt_irrefl = text_lt_irrefl;
  lt_total = text_lt_total;
  lt_trans = text_lt_trans;
}

abbrev pub nat_eq : ℕ → ℕ → Bool
nat_eq a b = a == b

pub nat_lt_irrefl : (a : ℕ) → ltb a a ≡ false
nat_lt_irrefl a = ground arith

pub nat_lt_total : (a b : ℕ) → nat_eq a b ≡ false → ltb b a ≡ false → ltb a b ≡ true
nat_lt_total a b e h = ground arith

pub nat_lt_trans : (a b c : ℕ) → ltb a b ≡ true → ltb b c ≡ true → ltb a c ≡ true
nat_lt_trans a b c h k = ground arith

instance abbrev pub nat_ord : Ord ℕ
nat_ord = record {
  lt = ltb;
  eq = nat_eq;
  eq_iff = ==_iff;
  lt_irrefl = nat_lt_irrefl;
  lt_total = nat_lt_total;
  lt_trans = nat_lt_trans;
}
