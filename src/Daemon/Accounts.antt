-- ===== src/Daemon/Accounts.antt =====
-- The accounts that `lookup_account` of daemon/zerotouchd.cpp gives.
use zero_touch.Base.{
  Bool-cases, List, Option, [], false, inl, inr, is_empty, none, refl, some, subst, sym, ◌∷◌, ◌≡◌,
  ◌≢◌,
}
use zero_touch.Base.Bytes.{Bytes, codes, equals, equals_iff}
use zero_touch.Daemon.{
  Account, Item, Store, account_of, admin_account, bind_value, find_account, find_in,
  lookup_account, no_object, object, text_at,
}

-- An account with the id that was asked for and a hash.
abbrev pub IsFor : Bytes → Option Account → Type 0
IsFor id none = Unit
IsFor id (some a) = (a.id ≡ id) × (a.hash ≢ [])

not_nil : (s : Bytes) → is_empty s ≡ false → s ≢ []
not_nil s h e = cc

account_of-IsFor : (id : Bytes) (hash access : Option Bytes) → IsFor id (account_of id hash access)
unfolding account_of
account_of-IsFor id none access = tt
account_of-IsFor id (some hash) none = tt
account_of-IsFor id (some hash) (some access) = elim (Bool-cases (is_empty hash)) [
  | inl empty ↦ rw empty tt
  | inr full ↦ rw full (refl, not_nil hash full)
]

find_account-IsFor : (id : Bytes) (items : List Item) → IsFor id (find_account id items)
unfolding find_account
find_account-IsFor id [] = tt
find_account-IsFor id (no_object ∷ items) = find_account-IsFor id items
find_account-IsFor id (object none hash access ∷ items) = tt
find_account-IsFor id (object (some u) hash access ∷ items) = elim (Bool-cases (equals u id)) [
  | inl hit ↦ rw hit (account_of-IsFor id hash access)
  | inr other ↦ rw other (find_account-IsFor id items)
]

admin_account-IsFor : (hash level : Option Bytes) → IsFor (codes "admin") (admin_account hash level)
admin_account-IsFor none level = tt
admin_account-IsFor (some hash) level = elim (Bool-cases (is_empty hash)) [
  | inl empty ↦ rw empty tt
  | inr full ↦ rw full (refl, not_nil hash full)
]

module _ {V : Type 0} (ds : Store V) (parse_array : Bytes → Option (List Item)) where
  find_in-IsFor : (id : Bytes) (text : Option Bytes) → IsFor id (find_in ds parse_array id text)
  find_in-IsFor id none = tt
  find_in-IsFor id (some text) = elim (Bool-cases (is_empty text)) [
    | inl empty ↦ rw empty tt
    | inr full ↦ rw full (parsed (parse_array text))
  ]
    where
      parsed : (items : Option (List Item)) → IsFor id (bind_value items (find_account id))
      parsed none = tt
      parsed (some items) = find_account-IsFor id items

  lookup_account-IsFor_any : (id : Bytes) → IsFor id (lookup_account ds parse_array id)
  unfolding lookup_account
  lookup_account-IsFor_any id = elim (Bool-cases (equals id (codes "admin"))) [
    | inl hit ↦ rw hit (
        subst
          (λ i. IsFor i (
            admin_account (text_at ds parse_array (codes "auth.users.admin.password.hash"))
              (text_at ds parse_array (codes "auth.users.admin.access"))))
          (sym ((equals_iff id (codes "admin")).0 hit)) (admin_account-IsFor _ _))
    | inr other ↦ rw other (find_in-IsFor id _)
  ]

  -- Whatever the data store holds, an account that is found has the id that was asked for and a
  -- hash that is not empty: nobody can log in against a missing password.
  pub lookup_account-hash :
      (id : Bytes) {a : Account}
      → lookup_account ds parse_array id ≡ some a
      → (a.id ≡ id) × (a.hash ≢ [])
  lookup_account-hash id {a} h = subst (IsFor id) h (lookup_account-IsFor_any id)
