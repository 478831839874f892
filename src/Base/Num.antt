-- ===== src/Base/Num.antt =====
-- Decimal numbers: `std::to_string`, and `std::stol` and `std::stoi` at a width.
use Prim.Native.Nat.{suc, zero, ℕ, ◌%◌, ◌*◌, ◌+◌, ◌-◌, ◌/◌, ◌<◌, ◌^◌}
use mathlib.Core.Bool.{Bool, true, ◌&&◌, ◌||◌}
use mathlib.Core.List.{[], ◌∷◌}
use mathlib.Core.Logic.{inl, inr}
use mathlib.Core.Option.{Option, none, some}
use mathlib.Core.Path.{ap, ◌∙◌, ◌≡◌}
use native.Mathlib.Omega.{arith}
use zero_touch.Base.Bytes.{Bytes}
use zero_touch.Base.Logic.{Bool-cases, if◌then◌else◌, leb, ltb, ◌==◌}

-- `negsuc n` is -(n + 1).
pub data ℤ : Type 0 where
  pos : ℕ → ℤ
  negsuc : ℕ → ℤ

abbrev pub neg : ℕ → ℤ
neg zero = pos 0
neg (suc n) = negsuc n

abbrev pub is_digit : ℕ → Bool
is_digit c = leb b'0' c && leb c b'9'

-- `std::isspace` in the "C" locale, which `strtol` skips.
unfoldable pub is_white : ℕ → Bool
is_white c = c == b' ' || (leb b'\t' c && leb c b'\r')

unfoldable pub skip_white : Bytes → Bytes
unfolding is_white
skip_white [] = []
skip_white (c ∷ s) = let rest = skip_white s in if is_white c then rest else c ∷ s

-- The value of the digits at the front, given the value of those before them.
unfoldable pub read_digits : ℕ → Bytes → ℕ
read_digits acc [] = acc
read_digits acc (c ∷ s) =
    let more = read_digits (acc * 10 + (c - b'0')) s in if is_digit c then more else acc

-- No digit at the front is `std::invalid_argument`, a value out of range `std::out_of_range`; both
-- are `none`. `bound` is one more than the largest magnitude of that sign.
abbrev pub digits_from : (ℕ → ℤ) → ℕ → Bytes → Option ℤ
digits_from sign bound [] = none
digits_from sign bound (c ∷ s) =
    let n = read_digits 0 (c ∷ s) in if is_digit c && ltb n bound then some (sign n) else none

unfoldable pub signed_from : ℕ → Bytes → Option ℤ
unfolding read_digits
signed_from half [] = none
signed_from half (c ∷ s) =
    if c == b'-'
    then digits_from neg (half + 1) s
    else if c == b'+'
    then digits_from pos half s
    else digits_from pos half (c ∷ s)

-- A signed type whose least value is `- half`.
unfoldable pub parse_signed : ℕ → Bytes → Option ℤ
unfolding skip_white signed_from
parse_signed half s = signed_from half (skip_white s)

unfoldable pub stol : Bytes → Option ℤ
unfolding parse_signed
stol s = parse_signed (2 ^ 63) s

unfoldable pub stoi : Bytes → Option ℤ
unfolding parse_signed
stoi s = parse_signed (2 ^ 31) s

-- `std::to_string`: the digits of `n`, most significant first, in front of `rest`.
unfoldable pub digits_onto : ℕ → ℕ → Bytes → Bytes
digits_onto zero n rest = rest
digits_onto (suc fuel) n rest =
    let out : Bytes = (b'0' + n % 10) ∷ rest in
    let more = digits_onto fuel (n / 10) out in if n / 10 == 0 then out else more

unfoldable pub to_string : ℕ → Bytes
unfolding digits_onto
to_string n = digits_onto (suc n) n []

unfoldable pub int_to_string : ℤ → Bytes
unfolding to_string
int_to_string (pos n) = to_string n
int_to_string (negsuc n) = b'-' ∷ to_string (suc n)

-- The digits printed for `n`, read in front of a rest that starts with no digit, give `n` back.
pub read_digits_onto :
    (fuel n : ℕ) (rest : Bytes)
    → n < fuel
    → read_digits 0 (digits_onto fuel n rest) ≡ read_digits n rest
unfolding read_digits digits_onto
read_digits_onto zero n rest h = absurd (omega arith)
read_digits_onto (suc fuel) n rest h = elim (Bool-cases (n / 10 == 0)) [
  | inl last ↦ rw last (ground arith)
  | inr more ↦ rw more (ground (arith, read_digits_onto fuel (n / 10) ((b'0' + n % 10) ∷ rest)))
]

-- The first byte printed is a digit.
abbrev pub StartsWithDigit : Bytes → Type 0
StartsWithDigit [] = ⊥
StartsWithDigit (c ∷ s) = is_digit c ≡ true

pub digits_onto-digit :
    (fuel n : ℕ) (rest : Bytes) → StartsWithDigit (digits_onto (suc fuel) n rest)
unfolding digits_onto
digits_onto-digit zero n rest = ground arith
digits_onto-digit (suc fuel) n rest = elim (Bool-cases (n / 10 == 0)) [
  | inl last ↦ rw last (ground arith)
  | inr more ↦ rw more (digits_onto-digit fuel (n / 10) ((b'0' + n % 10) ∷ rest))
]

pub parse_signed_digits :
    (half : ℕ) (s : Bytes)
    → StartsWithDigit s
    → read_digits 0 s < half
    → parse_signed half s ≡ some (pos (read_digits 0 s))
unfolding parse_signed skip_white signed_from is_white
parse_signed_digits half [] d h = absurd d
parse_signed_digits half (c ∷ s) d h = ground arith

pub read_digits-to_string : (n : ℕ) → read_digits 0 (to_string n) ≡ n
unfolding to_string read_digits
read_digits-to_string n = read_digits_onto (suc n) n [] (omega arith)

-- Reading back what was printed.
pub parse_signed-to_string :
    (half n : ℕ) → n < half → parse_signed half (to_string n) ≡ some (pos n)
parse_signed-to_string half n h =
    let value = read_digits-to_string n in
    let first : StartsWithDigit (to_string n) = unfold to_string in digits_onto-digit n n [] in
    parse_signed_digits half (to_string n) first (omega arith) ∙ ap (λ (v : ℕ). some (pos v)) value
