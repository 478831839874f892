-- ===== src/SimTree/Refined.antt =====
-- What the handlers of sim/zt_gnmi_simd.cpp over sim/gnmi_tree.hpp promise, with no tree in sight: a
-- partial map from paths to values.
use zero_touch.Base.{
  Bool, Bool-cases, List, Option, [], ap, ap₂, arith, false, if◌then◌else◌, inl, inr, none, refl,
  some, ◌&&◌, ◌++◌, ◌==◌, ◌∙◌, ◌∷◌, ◌≡◌,
}
use zero_touch.Base.Bytes.{Bytes, codes, equals, starts_with}
use zero_touch.Base.Keys.{nat_ord, text_ord}
use zero_touch.Base.Map.{IsOrdered, IsOrdered-insert, lookup, lookup-insert}
use zero_touch.SimTree.{
  SetRequest, Tree, delete_all, erase_path, handle_set, prefix_of, replace_all, rows, set,
  update_all,
}
use zero_touch.SimTree.Subtree.{covers, covers_found, lookup-erase_path, lookup-rows}
use zero_touch.SimTree.Writes.{erase_path-IsOrdered}

abbrev pub View : Type 0
View = Bytes → Option Bytes

-- `y` lies below `x`: it goes on with a slash.
abbrev pub lies_below : Bytes → Bytes → Bool
lies_below [] [] = false
lies_below [] (c ∷ y) = c == b'/'
lies_below (d ∷ x) [] = false
lies_below (d ∷ x) (c ∷ y) = d == c && lies_below x y

-- `x` stands for the path `y`: for itself where it is a leaf, and for all below it otherwise.
abbrev pub stands_for : Option Bytes → Bytes → Bytes → Bool
stands_for (some v) x y = equals x y
stands_for none x y = if equals x (codes "/") then lies_below [] y else lies_below x y

starts_with-slash : (x y : Bytes) → starts_with (x ++ codes "/") y ≡ lies_below x y
unfolding starts_with
starts_with-slash [] [] = refl
starts_with-slash [] (c ∷ y) = ground arith
starts_with-slash (d ∷ x) [] = refl
starts_with-slash (d ∷ x) (c ∷ y) = ap (λ b. d == c && b) (starts_with-slash x y)

starts_with-prefix_of : (x y : Bytes) → starts_with (prefix_of x) y ≡ stands_for none x y
unfolding prefix_of
starts_with-prefix_of x y = elim (Bool-cases (equals x (codes "/"))) [
  | inl root ↦ rw root (starts_with-slash [] y)
  | inr other ↦ rw other (starts_with-slash x y)
]

abbrev pub updated_view : Bytes → Bytes → View → View
updated_view x v f y = if equals x y then some v else f y

abbrev pub deleted_view : Bytes → View → View
deleted_view x f y = if stands_for (f x) x y then none else f y

abbrev pub read_view : Bytes → View → View
read_view x f y = if stands_for (f x) x y then f y else none

unfoldable pub updates_view : List (Bytes × Bytes) → View → View
updates_view [] f = f
updates_view ((x, v) ∷ us) f = updates_view us (updated_view x v f)

unfoldable pub replaces_view : List (Bytes × Bytes) → View → View
replaces_view [] f = f
replaces_view ((x, v) ∷ us) f = replaces_view us (updated_view x v (deleted_view x f))

unfoldable pub deletes_view : List Bytes → View → View
deletes_view [] f = f
deletes_view (x ∷ xs) f = deletes_view xs (deleted_view x f)

-- A request that can be parsed and comes from an admin acts, in the order of the handler, which is not
-- that of gNMI: updates, replaces, deletes. No other one does. A replace takes away what its path
-- stands for: for a path that is a leaf, that leaf alone.
unfoldable pub set_view : Option SetRequest → View → View
set_view none f = f
set_view (some req) f =
    if equals req.role (codes "ADMIN")
    then deletes_view req.delete (replaces_view req.replace (updates_view req.update f))
    else f

unfoldable pub history_view : List (Option SetRequest) → View → View
history_view [] f = f
history_view (req ∷ reqs) f = history_view reqs (set_view req f)

-- The server's tree after the requests, one after another.
unfoldable pub history : List (Option SetRequest) → Tree → Tree
history [] t = t
history (req ∷ reqs) t = history reqs (handle_set req t).2

-- A tree in order that holds what the view says.
abbrev pub Represents : Tree → View → Type 0
Represents t f = IsOrdered t × ((y : Bytes) → lookup y t ≡ f y)

set-Represents :
    (x v : Bytes) (t : Tree) (f : View)
    → Represents t f
    → Represents (set x v t) (updated_view x v f)
unfolding set
set-Represents x v t f (o, h) = (
  IsOrdered-insert x v t o,
  λ y. lookup-insert x y v t ∙ ap (λ w. if equals x y then some v else w) (h y),
)

covers-stands_for :
    (x y : Bytes) (t : Tree) (f : View) → Represents t f → covers t x y ≡ stands_for (f x) x y
covers-stands_for x y t f (o, h) =
    found_as (lookup x t) ∙ ap (λ (c : Option Bytes). stands_for c x y) (h x)
  where
    found_as : (a : Option Bytes) → covers_found a x y ≡ stands_for a x y
    found_as none = starts_with-prefix_of x y
    found_as (some v) = refl

erase_path-Represents :
    (x : Bytes) (t : Tree) (f : View)
    → Represents t f
    → Represents (erase_path x t).1 (deleted_view x f)
erase_path-Represents x t f r = (
  erase_path-IsOrdered x t r.0,
  λ y.
      (lookup-erase_path x y t r.0).0
      ∙ ap₂ (λ (b : Bool) (w : Option Bytes). if b then none else w) (covers-stands_for x y t f r)
          (r.1 y),
)

update_all-Represents :
    (us : List (Bytes × Bytes)) (t : Tree) (f : View)
    → Represents t f
    → Represents (update_all us t).1 (updates_view us f)
unfolding update_all updates_view
update_all-Represents [] t f r = r
update_all-Represents ((x, v) ∷ us) t f r =
    update_all-Represents us (set x v t) (updated_view x v f) (set-Represents x v t f r)

replace_all-Represents :
    (us : List (Bytes × Bytes)) (t : Tree) (f : View)
    → Represents t f
    → Represents (replace_all us t).1 (replaces_view us f)
unfolding replace_all replaces_view
replace_all-Represents [] t f r = r
replace_all-Represents ((x, v) ∷ us) t f r =
    replace_all-Represents us (set x v (erase_path x t).1) (updated_view x v (deleted_view x f))
      (set-Represents x v (erase_path x t).1 (deleted_view x f) (erase_path-Represents x t f r))

delete_all-Represents :
    (xs : List Bytes) (t : Tree) (f : View)
    → Represents t f
    → Represents (delete_all xs t).1 (deletes_view xs f)
unfolding delete_all deletes_view
delete_all-Represents [] t f r = r
delete_all-Represents (x ∷ xs) t f r =
    delete_all-Represents xs (erase_path x t).1 (deleted_view x f) (erase_path-Represents x t f r)

handle_set-Represents :
    (req : Option SetRequest) (t : Tree) (f : View)
    → Represents t f
    → Represents (handle_set req t).2 (set_view req f)
unfolding handle_set set_view
handle_set-Represents none t f r = r
handle_set-Represents (some req) t f r = elim (Bool-cases (equals req.role (codes "ADMIN"))) [
  | inl granted ↦ rw granted (
      delete_all-Represents req.delete _ _
        (replace_all-Represents req.replace _ _ (update_all-Represents req.update t f r)))
  | inr refused ↦ rw refused r
]

history-Represents :
    (reqs : List (Option SetRequest)) (t : Tree) (f : View)
    → Represents t f
    → Represents (history reqs t) (history_view reqs f)
unfolding history history_view
history-Represents [] t f r = r
history-Represents (req ∷ reqs) t f r =
    history-Represents reqs (handle_set req t).2 (set_view req f) (handle_set-Represents req t f r)

-- After any history of Sets on an empty tree - some that cannot be parsed, some that are refused -
-- a read of a path shows, leaf by leaf, what the specification says: a partial map on which the
-- updates, the replaces and the deletes of the requests of admins acted in order, and no others. What
-- lies below a path goes on with a slash.
pub rows-history :
    (reqs : List (Option SetRequest)) (x y : Bytes)
    → lookup y (rows x (history reqs [])) ≡ read_view x (history_view reqs (λ z. none)) y
rows-history reqs x y =
    let r = history-Represents reqs [] (λ z. none) (tt, λ z. unfold lookup in refl) in
    lookup-rows x y (history reqs [])
    ∙ ap₂ (λ (b : Bool) (w : Option Bytes). if b then w else none)
        (covers-stands_for x y (history reqs []) (history_view reqs (λ z. none)) r) (r.1 y)
