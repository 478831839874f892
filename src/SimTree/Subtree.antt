-- ===== src/SimTree/Subtree.antt =====
-- What a read and a deletion of sim/gnmi_tree.hpp take in.
-- What a path stands for in a tree: itself where it is a leaf, else all that lies below it.
use zero_touch.Base.{
  Bool, Option, Option-cases, [], arith, if◌then◌else◌, inl, inr, length, none, refl, some, ◌∷◌,
  ◌≡◌,
}
use zero_touch.Base.Bytes.{Bytes, equals, equals_iff, starts_with}
use zero_touch.Base.Keys.{nat_ord, text_ord}
use zero_touch.Base.Map.{IsOrdered, lookup, lookup-erase}
use zero_touch.SimTree.{Tree, drop_matching, erase_path, matching, prefix_of, rows}

abbrev pub covers_found : Option Bytes → Bytes → Bytes → Bool
covers_found (some v) x y = equals x y
covers_found none x y = starts_with (prefix_of x) y

abbrev pub covers : Tree → Bytes → Bytes → Bool
covers t x y = covers_found (lookup x t) x y

lookup-matching :
    (p y : Bytes) (t : Tree)
    → lookup y (matching p t) ≡ (if starts_with p y then lookup y t else none)
unfolding lookup matching
lookup-matching p y [] = ground arith
lookup-matching p y ((k, v) ∷ t) = ground (arith, equals_iff k y, lookup-matching p y t)

lookup-drop_matching :
    (p y : Bytes) (t : Tree)
    → lookup y (drop_matching p t).1 ≡ (if starts_with p y then none else lookup y t)
unfolding lookup drop_matching
lookup-drop_matching p y [] = ground arith
lookup-drop_matching p y ((k, v) ∷ t) = ground (arith, equals_iff k y, lookup-drop_matching p y t)

length-drop_matching : (p : Bytes) (t : Tree) → (drop_matching p t).0 ≡ length (matching p t)
unfolding drop_matching matching
length-drop_matching p [] = refl
length-drop_matching p ((k, v) ∷ t) = ground (arith, length-drop_matching p t)

-- A read of a path shows each leaf that the path stands for, with its value, and no other.
pub lookup-rows :
    (x y : Bytes) (t : Tree) → lookup y (rows x t) ≡ (if covers t x y then lookup y t else none)
unfolding rows
lookup-rows x y t = elim (Option-cases (lookup x t)) [
  | inl inner ↦ rw inner (lookup-matching (prefix_of x) y t)
  | inr (v, leaf) ↦ rw leaf (unfold lookup in ground (arith, equals_iff x y, leaf))
]

-- A deletion of a path removes exactly the leaves that a read of it would have shown, and says how
-- many.
pub lookup-erase_path :
    (x y : Bytes) (t : Tree)
    → IsOrdered t
    → (lookup y (erase_path x t).1 ≡ (if covers t x y then none else lookup y t))
      × ((erase_path x t).0 ≡ length (rows x t))
unfolding erase_path rows
lookup-erase_path x y t o = elim (Option-cases (lookup x t)) [
  | inl inner ↦
      rw inner (lookup-drop_matching (prefix_of x) y t, length-drop_matching (prefix_of x) t)
  | inr (v, leaf) ↦ rw leaf (lookup-erase x y t o, refl)
]
