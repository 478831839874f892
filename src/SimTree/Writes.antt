-- ===== src/SimTree/Writes.antt =====
-- What a Set of sim/zt_gnmi_simd.cpp changes, and what a Get then shows.
use zero_touch.Base.{
  All, Bool-cases, List, Option-cases, [], false, inl, inr, refl, some, ◌++◌, ◌∙◌, ◌∷◌, ◌≡◌,
}
use zero_touch.Base.Bytes.{Bytes, codes, equals, equals_refl, starts_with}
use zero_touch.Base.Keys.{nat_ord, text_ord}
use zero_touch.Base.Map.{
  Above, Above-IsOrdered, Above-trans, IsOrdered, IsOrdered-erase, IsOrdered-insert, lookup,
  lookup-insert,
}
use zero_touch.SimTree.{
  SetRequest, Tree, delete_all, drop_matching, erase_path, handle_get, handle_set, prefix_of,
  read_all, replace_all, rows, set, update_all,
}
use zero_touch.SimTree.Subtree.{covers, lookup-erase_path}

drop_matching-Above : (k p : Bytes) (t : Tree) → Above k t → Above k (drop_matching p t).1
unfolding drop_matching
drop_matching-Above k p [] a = tt
drop_matching-Above k p ((j, v) ∷ t) a = elim (Bool-cases (starts_with p j)) [
  | inl gone ↦ rw gone (drop_matching-Above k p t (Above-trans k j t a.0 a.1))
  | inr kept ↦ rw kept (a.0, drop_matching-Above j p t a.1)
]

drop_matching-IsOrdered : (p : Bytes) (t : Tree) → IsOrdered t → IsOrdered (drop_matching p t).1
unfolding drop_matching
drop_matching-IsOrdered p [] o = tt
drop_matching-IsOrdered p ((j, v) ∷ t) o = elim (Bool-cases (starts_with p j)) [
  | inl gone ↦ rw gone (drop_matching-IsOrdered p t (Above-IsOrdered j t o))
  | inr kept ↦ rw kept (drop_matching-Above j p t o)
]

pub erase_path-IsOrdered : (x : Bytes) (t : Tree) → IsOrdered t → IsOrdered (erase_path x t).1
unfolding erase_path
erase_path-IsOrdered x t o = elim (Option-cases (lookup x t)) [
  | inl inner ↦ rw inner (drop_matching-IsOrdered (prefix_of x) t o)
  | inr (v, leaf) ↦ rw leaf (IsOrdered-erase x t o)
]

-- `y` is neither the path `x` nor below it.
abbrev pub Apart : Bytes → Bytes → Type 0
Apart y x = (equals x y ≡ false) × (starts_with (prefix_of x) y ≡ false)

covers-Apart : (t : Tree) (x y : Bytes) → Apart y x → covers t x y ≡ false
covers-Apart t x y a = elim (Option-cases (lookup x t)) [
  | inl inner ↦ rw inner a.1
  | inr (v, leaf) ↦ rw leaf a.0
]

-- The leaf `y` of a tree in order is as it was in another.
abbrev Kept : Bytes → Tree → Tree → Type 0
Kept y t t' = IsOrdered t' × (lookup y t' ≡ lookup y t)

erase_path-Kept :
    (y x : Bytes) (t t' : Tree) → Apart y x → Kept y t t' → Kept y t (erase_path x t').1
erase_path-Kept y x t t' a k = (
  erase_path-IsOrdered x t' k.0,
  (lookup-erase_path x y t' k.0).0 ∙ rw (covers-Apart t' x y a) k.1,
)

set-Kept : (y x v : Bytes) (t t' : Tree) → equals x y ≡ false → Kept y t t' → Kept y t (set x v t')
unfolding set
set-Kept y x v t t' a k = (IsOrdered-insert x v t' k.0, lookup-insert x y v t' ∙ rw a k.1)

update_all-Kept :
    (y : Bytes) (us : List (Bytes × Bytes)) (t t' : Tree)
    → All (λ u. equals u.0 y ≡ false) us
    → Kept y t t'
    → Kept y t (update_all us t').1
unfolding update_all
update_all-Kept y [] t t' a k = k
update_all-Kept y ((x, v) ∷ us) t t' a k =
    update_all-Kept y us t (set x v t') a.1 (set-Kept y x v t t' a.0 k)

replace_all-Kept :
    (y : Bytes) (us : List (Bytes × Bytes)) (t t' : Tree)
    → All (λ u. Apart y u.0) us
    → Kept y t t'
    → Kept y t (replace_all us t').1
unfolding replace_all
replace_all-Kept y [] t t' a k = k
replace_all-Kept y ((x, v) ∷ us) t t' a k =
    replace_all-Kept y us t (set x v (erase_path x t').1) a.1
      (set-Kept y x v t (erase_path x t').1 a.0.0 (erase_path-Kept y x t t' a.0 k))

delete_all-Kept :
    (y : Bytes) (xs : List Bytes) (t t' : Tree)
    → All (Apart y) xs
    → Kept y t t'
    → Kept y t (delete_all xs t').1
unfolding delete_all
delete_all-Kept y [] t t' a k = k
delete_all-Kept y (x ∷ xs) t t' a k =
    delete_all-Kept y xs t (erase_path x t').1 a.1 (erase_path-Kept y x t t' a.0 k)

-- A Set, whoever sends it, leaves alone each leaf that it does not update, and that is neither
-- replaced nor deleted, nor below what is.
pub handle_set-untouched :
    (req : SetRequest) (y : Bytes) (t : Tree)
    → IsOrdered t
    → All (λ u. equals u.0 y ≡ false) req.update
    → All (λ u. Apart y u.0) req.replace
    → All (Apart y) req.delete
    → lookup y (handle_set (some req) t).2 ≡ lookup y t
unfolding handle_set
handle_set-untouched req y t o a b c = elim (Bool-cases (equals req.role (codes "ADMIN"))) [
  | inl granted ↦
      rw granted
        (delete_all-Kept y req.delete t (replace_all req.replace (update_all req.update t).1).1 c (
          replace_all-Kept y req.replace t (update_all req.update t).1 b
            (update_all-Kept y req.update t t a (o, refl)))).1
  | inr refused ↦ rw refused refl
]

update_all-last :
    (us : List (Bytes × Bytes)) (x v : Bytes) (t : Tree)
    → lookup x (update_all (us ++ (x, v) ∷ []) t).1 ≡ some v
unfolding update_all set
update_all-last [] x v t = lookup-insert x x v t ∙ rw (equals_refl x)
update_all-last ((y, w) ∷ us) x v t = update_all-last us x v (set y w t)

rows-leaf : (x v : Bytes) (t : Tree) → lookup x t ≡ some v → rows x t ≡ (x, v) ∷ []
unfolding rows
rows-leaf x v t h = rw h refl

-- What an admin writes, a Get of the path then shows: the value of its last update.
pub handle_get-handle_set :
    (us : List (Bytes × Bytes)) (x v : Bytes) (t : Tree)
    → handle_get
        (some (record { paths = x ∷ [] }))
        (handle_set
          (some (record {
            role = codes "ADMIN";
            update = us ++ (x, v) ∷ [];
            replace = [];
            delete = [];
          }))
          t).2
      ≡ (0, ((x, v) ∷ []) ∷ [])
unfolding handle_get handle_set read_all replace_all delete_all equals
handle_get-handle_set us x v t =
    rw (rows-leaf x v (update_all (us ++ (x, v) ∷ []) t).1 (update_all-last us x v t))
