-- ===== src/SimTree/Seed/Loading.antt =====
-- What sim/zt_gnmi_simd.cpp serves once its seed is loaded.
use zero_touch.Base.{
  ==_iff, Bool, Bool-cases, List, Option, [], ap, arith, false, if◌then◌else◌, inl, inr, none, refl,
  some, true, ℕ, ◌&&◌, ◌==◌, ◌∙◌, ◌∷◌, ◌≡◌,
}
use zero_touch.Base.Bytes.{Bytes, codes, equals, starts_with}
use zero_touch.Base.Keys.{nat_ord, text_ord}
use zero_touch.Base.Map.{lookup, lookup-insert}
use zero_touch.Config.RoundTrip.{entries}
use zero_touch.SimTree.{Tree, set}
use zero_touch.SimTree.Seed.{
  Doubles, Entry, Scalar, SeedFile, leaf_of, load_members, load_seed, members, no_table, no_tree,
  scalar, scalar_to_string, set_leaf, table, unloaded,
}

module _ {F : Type 0} (d : Doubles F) where
  -- The value that the members give a path: that of the last scalar under that name, where the
  -- name starts with a slash.
  abbrev pub given : Bytes → List (Bytes × Entry F) → Option Bytes → Option Bytes
  given xpath [] v = v
  given xpath ((x, table) ∷ rest) v = given xpath rest v
  given xpath ((x, scalar s) ∷ rest) v =
      given xpath rest
        (if starts_with (codes "/") x && equals x xpath then some (scalar_to_string d s) else v)

  lookup-set_leaf :
      (xpath x : Bytes) (o : Option Bytes) (t : Tree)
      → lookup xpath (set_leaf d x o t) ≡ (elim o as (λ _. Option Bytes) [
        | none ↦ lookup xpath t
        | some w ↦ if equals x xpath then some w else lookup xpath t
      ])
  unfolding set
  lookup-set_leaf xpath x none t = refl
  lookup-set_leaf xpath x (some w) t = lookup-insert x xpath w t

  flipped : (c : ℕ) → (c == b'/') ≡ false → (b'/' == c) ≡ false
  flipped c h = ground arith

  scalar_given :
      (x xpath : Bytes) (s : Scalar F) (t : Tree)
      → (elim (leaf_of d x (scalar s)) as (λ _. Option Bytes) [
        | none ↦ lookup xpath t
        | some w ↦ if equals x xpath then some w else lookup xpath t
      ])
        ≡ (if starts_with (codes "/") x && equals x xpath
            then some (scalar_to_string d s)
            else lookup xpath t)
  unfolding leaf_of starts_with
  scalar_given [] xpath s t = refl
  scalar_given (c ∷ x) xpath s t = elim (Bool-cases (c == b'/')) [
    | inl slash ↦ rw (slash, (==_iff c b'/').0 slash) refl
    | inr other ↦ rw (other, flipped c other) refl
  ]

  lookup-load_members :
      (xpath : Bytes) (entries : List (Bytes × Entry F)) (t : Tree)
      → lookup xpath (load_members d entries t) ≡ given xpath entries (lookup xpath t)
  unfolding load_members
  lookup-load_members xpath [] t = refl
  lookup-load_members xpath ((x, table) ∷ rest) t =
      unfold leaf_of in lookup-load_members xpath rest t
  lookup-load_members xpath ((x, scalar s) ∷ rest) t =
      lookup-load_members xpath rest (set_leaf d x (leaf_of d x (scalar s)) t)
      ∙ ap (given xpath rest)
          (lookup-set_leaf xpath x (leaf_of d x (scalar s)) t ∙ scalar_given x xpath s t)

  abbrev pub given_by : SeedFile F → Bytes → Bool × Option Bytes
  given_by (members entries) xpath = (true, given xpath entries none)
  given_by _ xpath = (false, none)

  -- After the seed was loaded into an empty tree, a path has the value of the last member of the
  -- table that is a scalar under that name, if the name starts with a slash, and no value otherwise;
  -- where the file has no such table, the tree is left empty and the loading fails.
  pub load_seed-given :
      (file : SeedFile F) (xpath : Bytes)
      → ((load_seed d file []).0, lookup xpath (load_seed d file []).1) ≡ given_by file xpath
  unfolding load_seed lookup
  load_seed-given (members entries) xpath =
      ap (λ (o : Option Bytes). (true, o)) (lookup-load_members xpath entries [])
  load_seed-given unloaded xpath = refl
  load_seed-given no_tree xpath = refl
  load_seed-given no_table xpath = refl
