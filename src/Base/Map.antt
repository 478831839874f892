-- ===== src/Base/Map.antt =====
-- `std::map`: an association list in ascending order of keys, each key once. The order of the keys
-- is an interface, which both `std::string` and `std::uint64_t` keys meet.
use mathlib.Core.Bool.{Bool, false, true}
use mathlib.Core.List.{List, [], ◌∷◌}
use mathlib.Core.Logic.{inl, inr, ◌↔◌}
use mathlib.Core.Option.{Option, none, some}
use mathlib.Core.Path.{refl, subst, ◌≡◌}
use native.Mathlib.Omega.{arith}
use zero_touch.Base.Logic.{Bool-cases, if◌then◌else◌}

pub record Ord (K : Type 0) : Type 0 where
  pub lt : K → K → Bool
  pub eq : K → K → Bool
  pub eq_iff : (a b : K) → (eq a b ≡ true) ↔ (a ≡ b)
  pub lt_irrefl : (a : K) → lt a a ≡ false
  pub lt_total : (a b : K) → eq a b ≡ false → lt b a ≡ false → lt a b ≡ true
  pub lt_trans : (a b c : K) → lt a b ≡ true → lt b c ≡ true → lt a c ≡ true

module _ {K : Type 0} ⦃o : Ord K⦄ where
  eq-lt : (a b : K) → o.eq a b ≡ true → o.lt b a ≡ false
  eq-lt a b e = rw ((o.eq_iff a b).0 e) (o.lt_irrefl b)

module _ {K V : Type 0} ⦃o : Ord K⦄ where
  -- `m.find(k)`
  unfoldable pub lookup : K → List (K × V) → Option V
  lookup k [] = none
  lookup k ((j, v) ∷ m) = if o.eq j k then some v else lookup k m

  -- `m[k] = v`
  unfoldable pub insert : K → V → List (K × V) → List (K × V)
  insert k v [] = (k, v) ∷ []
  insert k v ((j, w) ∷ m) =
      let rest = insert k v m in
      if o.eq j k then (k, v) ∷ m else if o.lt k j then (k, v) ∷ (j, w) ∷ m else (j, w) ∷ rest

  -- `m.erase(k)`
  unfoldable pub erase : K → List (K × V) → List (K × V)
  erase k [] = []
  erase k ((j, w) ∷ m) = let rest = erase k m in if o.eq j k then m else (j, w) ∷ rest

  -- Keys ascend, above a bound.
  abbrev pub Above : K → List (K × V) → Type 0
  Above k [] = Unit
  Above k ((j, v) ∷ m) = (o.lt k j ≡ true) × Above j m

  abbrev pub IsOrdered : List (K × V) → Type 0
  IsOrdered [] = Unit
  IsOrdered ((j, v) ∷ m) = Above j m

  pub lookup-insert :
      (k j : K) (v : V) (m : List (K × V))
      → lookup j (insert k v m) ≡ (if o.eq k j then some v else lookup j m)
  unfolding lookup insert
  lookup-insert k j v [] = refl
  lookup-insert k j v ((i, w) ∷ m) =
      ground (arith, o.eq_iff k j, o.eq_iff i k, o.eq_iff i j, lookup-insert k j v m)

  pub Above-trans : (k j : K) (m : List (K × V)) → o.lt k j ≡ true → Above j m → Above k m
  Above-trans k j [] h a = tt
  Above-trans k j ((i, w) ∷ m) h a = (o.lt_trans k j i h a.0, a.1)

  Above-lookup : (k : K) (m : List (K × V)) → Above k m → lookup k m ≡ none
  unfolding lookup
  Above-lookup k [] a = refl
  Above-lookup k ((i, w) ∷ m) a =
      ground (arith, eq-lt i k, Above-lookup k m (Above-trans k i m a.0 a.1))

  Above-lookup_eq : (i j : K) (m : List (K × V)) → Above i m → o.eq i j ≡ true → lookup j m ≡ none
  Above-lookup_eq i j m a e = Above-lookup j m (subst (λ x. Above x m) ((o.eq_iff i j).0 e) a)

  Above-insert :
      (b k : K) (v : V) (m : List (K × V)) → o.lt b k ≡ true → Above b m → Above b (insert k v m)
  unfolding insert
  Above-insert b k v [] h a = (h, tt)
  Above-insert b k v ((i, w) ∷ m) h a = elim (Bool-cases (o.eq i k)) [
    | inl hit ↦ rw hit (h, subst (λ x. Above x m) ((o.eq_iff i k).0 hit) a.1)
    | inr miss ↦ elim (Bool-cases (o.lt k i)) [
      | inl before ↦ rw (miss, before) (h, (before, a.1))
      | inr behind ↦ rw (miss, behind) (a.0, Above-insert i k v m (o.lt_total i k miss behind) a.1)
    ]
  ]

  -- A write keeps the order.
  pub IsOrdered-insert : (k : K) (v : V) (m : List (K × V)) → IsOrdered m → IsOrdered (insert k v m)
  unfolding insert
  IsOrdered-insert k v [] h = tt
  IsOrdered-insert k v ((i, w) ∷ m) h = elim (Bool-cases (o.eq i k)) [
    | inl hit ↦ rw hit (subst (λ x. Above x m) ((o.eq_iff i k).0 hit) h)
    | inr miss ↦ elim (Bool-cases (o.lt k i)) [
      | inl before ↦ rw (miss, before) (before, h)
      | inr behind ↦ rw (miss, behind) (Above-insert i k v m (o.lt_total i k miss behind) h)
    ]
  ]

  Above-erase : (b k : K) (m : List (K × V)) → Above b m → Above b (erase k m)
  unfolding erase
  Above-erase b k [] a = tt
  Above-erase b k ((i, w) ∷ m) a = elim (Bool-cases (o.eq i k)) [
    | inl hit ↦ rw hit (Above-trans b i m a.0 a.1)
    | inr miss ↦ rw miss (a.0, Above-erase i k m a.1)
  ]

  pub Above-IsOrdered : (b : K) (m : List (K × V)) → Above b m → IsOrdered m
  Above-IsOrdered b [] a = tt
  Above-IsOrdered b ((i, w) ∷ m) a = a.1

  -- So does an erasure.
  pub IsOrdered-erase : (k : K) (m : List (K × V)) → IsOrdered m → IsOrdered (erase k m)
  unfolding erase
  IsOrdered-erase k [] h = tt
  IsOrdered-erase k ((i, w) ∷ m) h = elim (Bool-cases (o.eq i k)) [
    | inl hit ↦ rw hit (Above-IsOrdered i m h)
    | inr miss ↦ rw miss (Above-erase i k m h)
  ]

  pub lookup-erase :
      (k j : K) (m : List (K × V))
      → IsOrdered m
      → lookup j (erase k m) ≡ (if o.eq k j then none else lookup j m)
  unfolding lookup erase
  lookup-erase k j [] h = ground arith
  lookup-erase k j ((i, w) ∷ m) h = ground (
    arith,
    o.eq_iff i k,
    o.eq_iff i j,
    o.eq_iff k j,
    Above-lookup_eq i j m h,
    lookup-erase k j m (Above-IsOrdered i m h),
  )
